-- ===== src/Tests/SchedulerRuns.antt =====
-- Runs of the threads over the disk scheduler, on pages that hold one number each.
use bicycletub.Common.{ℕ, ◌≡◌, refl, arith, true, false, List, [], ◌∷◌, ◌++◌, none, some, ok}
use bicycletub.Disk.{DiskManagerMemory, read_page, write_page, allocate_page}
use bicycletub.Common.Assoc.{lookup, insert}
use bicycletub.Frame.{unlocked}
use bicycletub.Scheduler.{DiskRequest, DiskScheduler, Frames, put, run_request}
use bicycletub.Scheduler.Threads.{
  getting, System, WorkerStep, schedules, counts_write, destroys, gets, serves, sets_value, Run,
  here, by_client, by_worker, started, put_request, putting,
}
use bicycletub.Scheduler.Served.{Fifo, Counted, started-Fifo}
use bicycletub.Scheduler.Progress.{callbacks_set, worker-WorkerStep}
use bicycletub.Scheduler.Request.{request-Run}

program : Unit {0}
unfolding lookup insert allocate_page read_page write_page
program = tt

abbrev disk : DiskManagerMemory ℕ
disk = record { pages_ = (1, 77) ∷ [] }

abbrev frames : Frames ℕ
frames f = record { rwlatch_ = unlocked; pin_count_ = 0; is_dirty_ = false; data_ = 5 }

abbrev write_one : DiskRequest
write_one = record { is_write_ = true; data_ = 0; page_id_ = 1 }

-- A client has put a write and then destroyed the scheduler; the write is not counted yet.
abbrev put_both : System ℕ
put_both = putting (put_request (started 0 disk frames) write_one) none

before : Run 0 (started 0 disk frames) put_both 0
before = by_client (by_client here (schedules write_one)) destroys

started-Fifo_example : Fifo put_both × Counted put_both
started-Fifo_example = started-Fifo 0 disk frames before

worker-WorkerStep_example : (u : System ℕ) × WorkerStep 0 put_both u
worker-WorkerStep_example =
    worker-WorkerStep 0 disk frames before (write_one ∷ []) (none ∷ []) refl (omega arith)

-- The worker serves the write, and then takes the element that ends it.
abbrev served_both : (u : System ℕ) × Run 0 put_both u 4
unfolding program
served_both = (
  _,
  by_worker
      (by_worker
        (by_client
          (by_worker (by_worker here (gets (some write_one) (none ∷ []) refl refl))
            (serves write_one (record { pages_ = (1, 5) ∷ [] }) frames refl refl))
          (counts_write (omega arith)))
        (sets_value write_one refl))
      (gets none [] refl refl),
)

callbacks_set_example :
    (others : List DiskRequest) × (served_both.0.served ≡ (write_one ∷ []) ++ others)
callbacks_set_example =
    callbacks_set 0 disk frames before (write_one ∷ []) (none ∷ []) refl served_both.1 (omega arith)

request-Run_example :
    (x : DiskScheduler ℕ) × (frames' : Frames ℕ) × (run_request 0
        (started 0 disk frames).scheduler
        frames
        write_one
      ≡ ok (x, frames'))
    × ((u : System ℕ) × Run 0 (started 0 disk frames) u 3
        × (u.scheduler ≡ x)
        × (u.frames ≡ frames')
        × (u.worker ≡ getting)
        × (u.served ≡ put [] write_one))
request-Run_example = request-Run 0 (started 0 disk frames) write_one refl refl
