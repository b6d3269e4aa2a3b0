-- ===== src/Scheduler.antt =====
-- DiskScheduler and Channel (include/disk_scheduler.h, src/disk_scheduler.cpp): a queue of requests
-- served by one background thread. A request's `data_` pointer is the number of the frame whose
-- buffer it points to. `future.get()` waits until the worker has served the queue up to the
-- request, which stands last in it.
pub mod Threads
pub mod Served
pub mod Progress
pub mod Request
use bicycletub.Common.{
  ℕ, ◌≡◌, fun_ext, arith, Bool, List, [], ◌∷◌, ◌++◌, Option, none, some, Result, ok, blocked, ◌>>=◌,
  if◌then◌else◌, ◌==◌, add64,
}
use bicycletub.Frame.{FrameHeader}
use bicycletub.Disk.{DiskManagerMemory, read_page, write_page}

pub record DiskRequest : Type 0 where
  pub is_write_ : Bool
  pub data_ : ℕ
  pub page_id_ : ℕ

-- `none` tells the worker to stop.
pub record DiskScheduler (D : Type 0) : Type 0 where
  pub disk_manager_ : DiskManagerMemory D
  pub request_queue_ : List (Option DiskRequest)
  pub scheduled_reads_ : ℕ
  pub scheduled_writes_ : ℕ

abbrev pub Frames : Type 0 → Type 0
Frames D = ℕ → FrameHeader D

abbrev pub set_frame : {D : Type 0} → Frames D → ℕ → FrameHeader D → Frames D
set_frame frames f h g = if f == g then h else frames g

pub set_frame_twice :
    {D : Type 0} (frames : Frames D) (f : ℕ) (h k : FrameHeader D)
    → set_frame (set_frame frames f h) f k ≡ set_frame frames f k
set_frame_twice frames f h k = fun_ext (λ g. ground arith)

-- `Put` and `Get` of Channel: the back and the front of the queue.
abbrev pub put {ℓ} : {A : Type ℓ} → List A → A → List A
put q x = q ++ x ∷ []

-- One round of the loop of `Schedule`.
abbrev pub schedule_one : {D : Type 0} → DiskScheduler D → DiskRequest → DiskScheduler D
schedule_one s r = record s {
  request_queue_ = put s.request_queue_ (some r);
  scheduled_writes_ = if r.is_write_ then add64 s.scheduled_writes_ 1 else s.scheduled_writes_;
  scheduled_reads_ = if r.is_write_ then s.scheduled_reads_ else add64 s.scheduled_reads_ 1;
}

unfoldable pub schedule : {D : Type 0} → DiskScheduler D → List DiskRequest → DiskScheduler D
schedule s [] = s
schedule s (r ∷ rs) = schedule (schedule_one s r) rs

module _ {D : Type 0} (zero_page : D) where
  -- The worker's handling of one request.
  abbrev pub serve :
      DiskManagerMemory D → Frames D → DiskRequest → Result (DiskManagerMemory D × Frames D)
  serve d frames r =
      if r.is_write_
      then write_page zero_page d r.page_id_ (frames r.data_).data_ >>= (λ d'. ok (d', frames))
      else (read_page zero_page d r.page_id_ >>= (λ (d', b).
          ok (d', set_frame frames r.data_ (record (frames r.data_) { data_ = b }))))

  -- `StartWorkerThread` on the requests that are queued; the flag says whether the thread goes on.
  unfoldable pub run_worker :
      List (Option DiskRequest)
      → DiskManagerMemory D
      → Frames D
      → Result (DiskManagerMemory D × Frames D)
  run_worker [] d frames = ok (d, frames)
  run_worker (none ∷ rest) d frames = blocked
  run_worker (some r ∷ rest) d frames =
      serve d frames r >>= (λ (d', frames'). run_worker rest d' frames')

  -- `Schedule` and then `future.get()`.
  unfoldable pub run_request :
      DiskScheduler D → Frames D → DiskRequest → Result (DiskScheduler D × Frames D)
  unfolding schedule run_worker
  run_request s frames r =
      let s' = schedule s (r ∷ []) in
      run_worker s'.request_queue_ s'.disk_manager_ frames
      >>= (λ (d, frames'). ok (record s' { disk_manager_ = d; request_queue_ = [] }, frames'))
