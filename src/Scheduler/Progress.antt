-- ===== src/Scheduler/Progress.antt =====
-- The background thread serves every request that was put before the element that ends it.
use bicycletub.Common.{
  ℕ, suc, ◌+◌, ◌*◌, ◌<◌, ◌≤◌, ◌≡◌, ◌⊎◌, refl, sym, ap, ◌∙◌, arith, Bool-cases, List, [], ◌∷◌, ◌++◌,
  length, Option, none, some, ok, inl, inr,
}
use mathlib.Core.List.{append_assoc, append-nil}
use bicycletub.Disk.{DiskManagerMemory, content, read_page-content, write_page-content}
use bicycletub.Scheduler.{DiskRequest, Frames, set_frame, serve}
use bicycletub.Scheduler.Threads.{
  Worker, getting, serving, calling_back, returned, System, ClientStep, schedules, counts_read,
  counts_write, uses_frame, destroys, WorkerStep, gets, serves, sets_value, Run, here, by_client,
  by_worker, started,
}
use bicycletub.Scheduler.Served.{Puts, requests, Fifo, run-Fifo, started-Fifo}

-- How far the worker is with the request in hand.
abbrev phase : Worker → ℕ
phase getting = 0
phase (serving r) = 1
phase (calling_back r) = 2
phase returned = 3

-- The worker's steps behind it.
abbrev done : {D : Type 0} → System D → ℕ
done s = 3 * length s.served + phase s.worker

length-put : (rs : List DiskRequest) (r : DiskRequest) → length (rs ++ r ∷ []) ≡ suc (length rs)
length-put [] r = refl
length-put (x ∷ rs) r = ap suc (length-put rs r)

abbrev first_is : Puts → Option DiskRequest → Option DiskRequest
first_is [] x = x
first_is (x ∷ xs) y = x

abbrev rest_of : Puts → Puts
rest_of [] = []
rest_of (x ∷ xs) = xs

abbrev is_request : Option DiskRequest → ℕ
is_request none = 0
is_request (some r) = 1

abbrev request_or : DiskRequest → Option DiskRequest → DiskRequest
request_or r none = r
request_or r (some x) = x

-- Requests in front of the end of the queue, or of the worker, are served before it.
before_end :
    (first served : List DiskRequest) (xs ys : Puts)
    → is_request (first_is ys none) ≡ 0
    → requests first ++ xs ≡ requests served ++ ys
    → length first ≤ length served
before_end [] served xs ys h e = omega arith
before_end (r ∷ first) [] xs ys h e =
    absurd (omega (arith, h, ap (λ zs. is_request (first_is zs none)) e))
before_end (r ∷ first) (x ∷ served) xs ys h e =
    let b = before_end first served xs ys h (ap rest_of e) in omega arith

-- The shorter one of two rows at the same end begins the other.
begins :
    (first served : List DiskRequest) (xs ys : Puts)
    → requests first ++ xs ≡ requests served ++ ys
    → length first ≤ length served
    → (others : List DiskRequest) × (served ≡ first ++ others)
begins [] served xs ys e h = (served, refl)
begins (r ∷ first) [] xs ys e h = absurd (omega (arith, h))
begins (r ∷ first) (x ∷ served) xs ys e h =
    let (others, f) = begins first served xs ys (ap rest_of e) (omega (arith, h)) in
    let same : r ≡ x = ap (λ zs. request_or r (first_is zs none)) e in
    (others, ap (λ ys. x ∷ ys) f ∙ ap (λ y. y ∷ (first ++ others)) (sym same))

module _ {D : Type 0} (zero_page : D) where
  client_done :
      {s u : System D}
      → ClientStep zero_page s u
      → (done u ≡ done s) × (u.worker ≡ s.worker) × ((ys : Puts) × (u.puts ≡ s.puts ++ ys))
  client_done (schedules r) = (refl, refl, (some r ∷ [], refl))
  client_done {s} (counts_read h) = (refl, refl, ([], sym (append-nil s.puts)))
  client_done {s} (counts_write h) = (refl, refl, ([], sym (append-nil s.puts)))
  client_done {s} (uses_frame f h) = (refl, refl, ([], sym (append-nil s.puts)))
  client_done destroys = (refl, refl, (none ∷ [], refl))

  worker_done :
      {s u : System D}
      → WorkerStep zero_page s u
      → ((u.worker ≡ returned) ⊎ (done u ≡ suc (done s))) × (phase s.worker < 3) × (u.puts ≡ s.puts)
  worker_done {s} (gets none rest w q) = (inl refl, rw w (omega arith), refl)
  worker_done {s} (gets (some r) rest w q) = (inr (rw w (omega arith)), rw w (omega arith), refl)
  worker_done {s} (serves r d frames w f) = (inr (rw w (omega arith)), rw w (omega arith), refl)
  worker_done {s} (sets_value r w) =
      (inr (rw w (omega (arith, length-put s.served r))), rw w (omega arith), refl)

  run_done :
      {s u : System D} {n : ℕ}
      → Run zero_page s u n
      → ((u.worker ≡ returned) ⊎ (done u ≡ done s + n)) × ((ys : Puts) × (u.puts ≡ s.puts ++ ys))
  run_done {s} here = (inr (omega arith), ([], sym (append-nil s.puts)))
  run_done {s} (by_client r c) =
      let (x, (ys, e)) = run_done r in
      let (a, b, (zs, f)) = client_done c in
      (
        elim x [ inl g ↦ inl (b ∙ g) | inr g ↦ inr (a ∙ g) ],
        (ys ++ zs, f ∙ ap (λ xs. xs ++ zs) e ∙ append_assoc s.puts ys zs),
      )
  run_done {s} (by_worker r w) =
      let (x, (ys, e)) = run_done r in
      let (y, running, same) = worker_done w in
      (
        elim x [
          | inl g ↦ absurd (omega (arith, running, ap phase g))
          | inr g ↦ elim y [ inl a ↦ inl a | inr a ↦ inr (omega (arith, a, g)) ]
        ],
        (ys, same ∙ e),
      )

  pub serve-ok :
      (d : DiskManagerMemory D) (frames : Frames D) (r : DiskRequest)
      → (d' : DiskManagerMemory D) × (frames' : Frames D) × (serve zero_page d frames r
          ≡ ok (d', frames'))
  serve-ok d frames r = elim (Bool-cases r.is_write_) [
    | inl a ↦
        let (d', e, f) = write_page-content zero_page d r.page_id_ (frames r.data_).data_ in
        (d', frames, rw (a, e) refl)
    | inr a ↦
        let (d', e, f) = read_page-content zero_page d r.page_id_ in
        (
          d',
          set_frame frames r.data_
              (record (frames r.data_) { data_ = content zero_page d r.page_id_ }),
          rw (a, e) refl,
        )
  ]

  module _ (d : DiskManagerMemory D) (frames : Frames D) {s : System D} {m : ℕ}
      (before : Run zero_page (started zero_page d frames) s m) (first : List DiskRequest)
      (rest : Puts) (put_first : s.puts ≡ requests first ++ rest) where
    -- After the worker's return, the requests are served.
    after_return :
        (u : System D)
        → Fifo u
        → (ys : Puts) → u.puts ≡ requests first ++ ys
        → u.worker ≡ returned
        → length first ≤ length u.served
    after_return u e ys f w =
        let g : u.puts ≡ requests u.served ++ (none ∷ u.scheduler.request_queue_) =
          e ∙ (rw w refl) in
        before_end first u.served ys _ refl (sym f ∙ g)

    in_phase : (u : System D) → (u.worker ≡ returned) ⊎ (phase u.worker ≤ 2)
    in_phase u = go u.worker refl
      where
        go : (w : Worker) → u.worker ≡ w → (u.worker ≡ returned) ⊎ (phase u.worker ≤ 2)
        go getting e = inr (rw e (omega arith))
        go (serving r) e = inr (rw e (omega arith))
        go (calling_back r) e = inr (rw e (omega arith))
        go returned e = inl e

    accounted : Fifo s
    accounted = (started-Fifo zero_page d frames before).0

    -- In a run of the threads from the start in which requests were put and the element that ends
    -- the worker was not put before them: however the run goes on, once the worker has made three
    -- steps for each of these requests, their callbacks are set, in the order of the requests and
    -- before those of any later request.
    pub callbacks_set :
        {u : System D} {n : ℕ}
        → Run zero_page s u n
        → 3 * length first ≤ n
        → (others : List DiskRequest) × (u.served ≡ first ++ others)
    callbacks_set {u} r enough =
        let (x, (ys, e)) = run_done r in
        let fifo = run-Fifo zero_page r accounted in
        let puts : u.puts ≡ requests first ++ (rest ++ ys) =
          e ∙ ap (λ xs. xs ++ ys) put_first ∙ append_assoc (requests first) rest ys in
        let long : length first ≤ length u.served = elim x [
          | inl w ↦ after_return u fifo (rest ++ ys) puts w
          | inr g ↦ elim (in_phase u) [
            | inl w ↦ after_return u fifo (rest ++ ys) puts w
            | inr h ↦ omega (arith, g, h, enough)
          ]
        ] in
        begins first u.served (rest ++ ys) _ (sym puts ∙ fifo) long

    -- In such a run, while not all of these callbacks are set, the worker has a step to make.
    pub worker-WorkerStep :
        length s.served < length first → (u : System D) × WorkerStep zero_page s u
    worker-WorkerStep short = go s.worker refl
      where
        from_queue :
            s.worker ≡ getting
            → (q : Puts) → s.scheduler.request_queue_ ≡ q
            → (u : System D) × WorkerStep zero_page s u
        from_queue w [] e =
            let now : requests first ++ rest ≡ requests s.served ++ [] =
              sym put_first ∙ accounted ∙ rw (w, e) refl in
            let none_left = before_end first s.served rest [] refl now in
            absurd (omega (arith, none_left, short))
        from_queue w (x ∷ q) e = (_, gets x q w e)

        go : (w : Worker) → s.worker ≡ w → (u : System D) × WorkerStep zero_page s u
        go getting e = from_queue e s.scheduler.request_queue_ refl
        go (serving r) e =
            let (d', frames', f) = serve-ok s.scheduler.disk_manager_ s.frames r in
            (_, serves r d' frames' e f)
        go (calling_back r) e = (_, sets_value r e)
        go returned e =
            let all = after_return s accounted rest put_first e in
            absurd (omega (arith, all, short))
