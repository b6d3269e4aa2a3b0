-- ===== src/Scheduler/Threads.antt =====
-- The threads over the disk scheduler: any number of clients, each in Schedule or in the use of its
-- frames, the destructor, and the background thread in StartWorkerThread. A step is a call of Put or
-- Get under the channel's mutex, an increment of a counter, the disk manager's method, or
-- `set_value`, in any order of the threads.
use bicycletub.Common.{
  ℕ, ◌+◌, ◌-◌, ◌<◌, ◌≡◌, List, [], ◌∷◌, Option, none, some, ok, if◌then◌else◌, add64,
}
use bicycletub.Frame.{FrameHeader}
use bicycletub.Disk.{DiskManagerMemory}
use bicycletub.Scheduler.{DiskRequest, DiskScheduler, Frames, set_frame, put, serve}

-- Where the background thread stands: before Get, with a request to serve, with a served one whose
-- callback waits, or after its return.
pub data Worker : Type 0 where
  getting : Worker
  serving : DiskRequest → Worker
  calling_back : DiskRequest → Worker
  returned : Worker

-- `puts` are all elements that were put in the queue, and `served` the requests whose callback is
-- set. The counts are the requests that Schedule has put and not counted.
pub record System (D : Type 0) : Type 0 where
  pub scheduler : DiskScheduler D
  pub frames : Frames D
  pub worker : Worker
  pub puts : List (Option DiskRequest)
  pub served : List DiskRequest
  pub uncounted_reads : ℕ
  pub uncounted_writes : ℕ

abbrev pub putting : {D : Type 0} → System D → Option DiskRequest → System D
putting s x = record s {
  scheduler = record s.scheduler { request_queue_ = put s.scheduler.request_queue_ x };
  puts = put s.puts x;
}

-- Schedule's Put of a request, which it then has to count.
abbrev pub put_request : {D : Type 0} → System D → DiskRequest → System D
put_request s r = record (putting s (some r)) {
  uncounted_reads = if r.is_write_ then s.uncounted_reads else s.uncounted_reads + 1;
  uncounted_writes = if r.is_write_ then s.uncounted_writes + 1 else s.uncounted_writes;
}

abbrev pub count_read : {D : Type 0} → System D → System D
count_read s = record s {
  scheduler = record s.scheduler { scheduled_reads_ = add64 s.scheduler.scheduled_reads_ 1 };
  uncounted_reads = s.uncounted_reads - 1;
}

abbrev pub count_write : {D : Type 0} → System D → System D
count_write s = record s {
  scheduler = record s.scheduler { scheduled_writes_ = add64 s.scheduler.scheduled_writes_ 1 };
  uncounted_writes = s.uncounted_writes - 1;
}

-- Get of the worker: a request, or the element that ends the thread.
abbrev pub taken : Option DiskRequest → Worker
taken (some r) = serving r
taken none = returned

abbrev pub taking :
    {D : Type 0} → System D → Option DiskRequest → List (Option DiskRequest) → System D
taking s x rest = record s {
  scheduler = record s.scheduler { request_queue_ = rest };
  worker = taken x;
}

module _ {D : Type 0} (zero_page : D) where
  pub data ClientStep (s : System D) : System D → Type 0 where
    schedules : (r : DiskRequest) → ClientStep s (put_request s r)
    counts_read : 0 < s.uncounted_reads → ClientStep s (count_read s)
    counts_write : 0 < s.uncounted_writes → ClientStep s (count_write s)
    uses_frame :
        (f : ℕ) (h : FrameHeader D) → ClientStep s (record s { frames = set_frame s.frames f h })
    destroys : ClientStep s (putting s none)

  pub data WorkerStep (s : System D) : System D → Type 0 where
    gets :
        (x : Option DiskRequest) (rest : List (Option DiskRequest))
        → s.worker ≡ getting
        → s.scheduler.request_queue_ ≡ x ∷ rest
        → WorkerStep s (taking s x rest)
    serves :
        (r : DiskRequest) (d : DiskManagerMemory D) (frames : Frames D)
        → s.worker ≡ serving r
        → serve zero_page s.scheduler.disk_manager_ s.frames r ≡ ok (d, frames)
        → WorkerStep s (record s {
          scheduler = record s.scheduler { disk_manager_ = d };
          frames = frames;
          worker = calling_back r;
        })
    sets_value :
        (r : DiskRequest)
        → s.worker ≡ calling_back r
        → WorkerStep s (record s { worker = getting; served = put s.served r })

  -- A run with that many steps of the worker.
  pub data Run (s : System D) : System D → ℕ → Type 0 where
    here : Run s s 0
    by_client : {u v : System D} {n : ℕ} → Run s u n → ClientStep u v → Run s v n
    by_worker : {u v : System D} {n : ℕ} → Run s u n → WorkerStep u v → Run s v (n + 1)

  -- The constructor's state, over any disk and frames.
  abbrev pub started : DiskManagerMemory D → Frames D → System D
  started d frames = record {
    scheduler = record {
      disk_manager_ = d;
      request_queue_ = [];
      scheduled_reads_ = 0;
      scheduled_writes_ = 0;
    };
    frames = frames;
    worker = getting;
    puts = [];
    served = [];
    uncounted_reads = 0;
    uncounted_writes = 0;
  }
