-- ===== src/Scheduler/Request.antt =====
-- A request as the buffer pool makes it, among the runs of the threads.
use bicycletub.Common.{◌≡◌, refl, ◌∙◌, arith, [], some, ok, ap, Bool-cases, inl, inr}
use bicycletub.Scheduler.{DiskRequest, DiskScheduler, Frames, put, schedule_one, run_request, serve}
use bicycletub.Scheduler.Threads.{
  getting, System, schedules, counts_read, counts_write, gets, serves, sets_value, Run, here,
  by_client, by_worker,
}
use bicycletub.Scheduler.Progress.{serve-ok}

module _ {D : Type 0} (zero_page : D) (s : System D) (r : DiskRequest) where
  -- From a state with an empty queue and a worker that waits for an element: Schedule of the request
  -- and the wait for its future, as the buffer pool calls them, return with a scheduler and frames;
  -- the threads have a run with three steps of the worker that ends in these, with the request's
  -- callback set and the worker waiting again.
  pub request-Run :
      s.scheduler.request_queue_ ≡ []
      → s.worker ≡ getting
      → (x : DiskScheduler D) × (frames : Frames D) × (run_request zero_page s.scheduler s.frames r
          ≡ ok (x, frames))
        × ((u : System D) × Run zero_page s u 3
            × (u.scheduler ≡ x)
            × (u.frames ≡ frames)
            × (u.worker ≡ getting)
            × (u.served ≡ put s.served r))
  unfolding run_request
  request-Run empty w =
      let (d, frames, e) = serve-ok zero_page s.scheduler.disk_manager_ s.frames r in
      let x = record (schedule_one s.scheduler r) { disk_manager_ = d; request_queue_ = [] } in
      let run : (v : System D)
          → Run zero_page s v 0
          → v.scheduler ≡ schedule_one s.scheduler r
          → v.frames ≡ s.frames
          → v.worker ≡ getting
          → v.served ≡ s.served
          → (u : System D) × Run zero_page s u 3
            × (u.scheduler ≡ x)
            × (u.frames ≡ frames)
            × (u.worker ≡ getting)
            × (u.served ≡ put s.served r) =
        λ v counted same_scheduler same_frames same_worker same_served.
          let got = by_worker counted (
            gets (some r) [] same_worker
              (ap (λ y. y.request_queue_) same_scheduler ∙ rw empty refl)) in
          let done = by_worker got (
            serves r d frames refl (
              ap (λ y. serve zero_page y.disk_manager_ v.frames r) same_scheduler
              ∙ ap (λ y. serve zero_page s.scheduler.disk_manager_ y r) same_frames
              ∙ e)) in
          (
            _,
            by_worker done (sets_value r refl),
            ap {A = DiskScheduler D} {B = DiskScheduler D}
                (λ y. record y { disk_manager_ = d; request_queue_ = [] }) same_scheduler,
            refl,
            refl,
            ap (λ y. put y r) same_served,
          ) in
      (
        x,
        frames,
        rw (empty, e) refl,
        elim (Bool-cases r.is_write_) [
          | inl a ↦
              run _ (by_client (by_client here (schedules r)) (counts_write (ground (arith, a))))
                (rw a refl) refl w refl
          | inr a ↦
              run _ (by_client (by_client here (schedules r)) (counts_read (ground (arith, a))))
                (rw a refl) refl w refl
        ],
      )
