-- ===== src/Scheduler/Served.antt =====
-- Which requests the background thread has served, in any order of the threads' steps.
use bicycletub.Common.{
  ℕ, suc, ◌+◌, ◌%◌, ◌≡◌, refl, sym, ap, ◌∙◌, arith, List, [], ◌∷◌, ◌++◌, map, Option, none, some,
  if◌then◌else◌, word64,
}
use mathlib.Core.List.{append_assoc, map-append}
use bicycletub.Disk.{DiskManagerMemory}
use bicycletub.Scheduler.{DiskRequest, Frames}
use bicycletub.Scheduler.Threads.{
  Worker, getting, serving, calling_back, returned, System, putting, taken, ClientStep, schedules,
  counts_read, counts_write, uses_frame, destroys, WorkerStep, gets, serves, sets_value, Run, here,
  by_client, by_worker, started,
}

abbrev pub Puts : Type 0
Puts = List (Option DiskRequest)

-- What the worker has taken from the queue and not finished; the element that ends it stays with it.
abbrev pub in_hand : Worker → Puts
in_hand getting = []
in_hand (serving r) = some r ∷ []
in_hand (calling_back r) = some r ∷ []
in_hand returned = none ∷ []

abbrev pub requests : List DiskRequest → Puts
requests rs = map some rs

-- The elements that were put are the served requests, what the worker has in hand, and the queue.
abbrev pub Fifo : {D : Type 0} → System D → Type 0
Fifo s = s.puts ≡ requests s.served ++ (in_hand s.worker ++ s.scheduler.request_queue_)

abbrev pub writes : Puts → ℕ
writes [] = 0
writes (none ∷ xs) = writes xs
writes (some r ∷ xs) = if r.is_write_ then suc (writes xs) else writes xs

abbrev pub reads : Puts → ℕ
reads [] = 0
reads (none ∷ xs) = reads xs
reads (some r ∷ xs) = if r.is_write_ then reads xs else suc (reads xs)

writes-append : (xs ys : Puts) → writes (xs ++ ys) ≡ writes xs + writes ys
writes-append [] ys = omega arith
writes-append (none ∷ xs) ys = writes-append xs ys
writes-append (some r ∷ xs) ys = let e = writes-append xs ys in ground (arith, e)

reads-append : (xs ys : Puts) → reads (xs ++ ys) ≡ reads xs + reads ys
reads-append [] ys = omega arith
reads-append (none ∷ xs) ys = reads-append xs ys
reads-append (some r ∷ xs) ys = let e = reads-append xs ys in ground (arith, e)

-- The counters and what is still to be counted.
abbrev pub Counted : {D : Type 0} → System D → Type 0
Counted s =
    ((s.scheduler.scheduled_writes_ + s.uncounted_writes) % word64 ≡ writes s.puts % word64)
    × ((s.scheduler.scheduled_reads_ + s.uncounted_reads) % word64 ≡ reads s.puts % word64)

put-Fifo : {D : Type 0} (s : System D) (x : Option DiskRequest) → Fifo s → Fifo (putting s x)
put-Fifo s x e = rw e (
    append_assoc (requests s.served) (in_hand s.worker ++ s.scheduler.request_queue_) (x ∷ [])
    ∙ ap (λ ys. requests s.served ++ ys)
        (append_assoc (in_hand s.worker) s.scheduler.request_queue_ (x ∷ [])))

in_hand_taken : (x : Option DiskRequest) → in_hand (taken x) ≡ x ∷ []
in_hand_taken none = refl
in_hand_taken (some r) = refl

module _ {D : Type 0} (zero_page : D) where
  client-Fifo : {s u : System D} → ClientStep zero_page s u → Fifo s → Fifo u
  client-Fifo {s} (schedules r) e = put-Fifo s (some r) e
  client-Fifo (counts_read h) e = e
  client-Fifo (counts_write h) e = e
  client-Fifo (uses_frame f h) e = e
  client-Fifo {s} destroys e = put-Fifo s none e

  worker-Fifo : {s u : System D} → WorkerStep zero_page s u → Fifo s → Fifo u
  worker-Fifo {s} (gets x rest w q) e = e ∙ (rw (w, q, in_hand_taken x) refl)
  worker-Fifo {s} (serves r d frames w ok_step) e = e ∙ (rw w refl)
  worker-Fifo {s} (sets_value r w) e =
      e
      ∙ (rw (w, map-append (λ x. some x) s.served (r ∷ []))
          (sym (append_assoc (requests s.served) (some r ∷ []) s.scheduler.request_queue_)))

  pub run-Fifo : {s u : System D} {n : ℕ} → Run zero_page s u n → Fifo s → Fifo u
  run-Fifo here e = e
  run-Fifo (by_client r c) e = client-Fifo c (run-Fifo r e)
  run-Fifo (by_worker r w) e = worker-Fifo w (run-Fifo r e)

  client-Counted : {s u : System D} → ClientStep zero_page s u → Counted s → Counted u
  client-Counted {s} (schedules r) (a, b) =
      let x = writes-append s.puts (some r ∷ []) in
      let y = reads-append s.puts (some r ∷ []) in (ground (arith, a, x), ground (arith, b, y))
  client-Counted {s} (counts_read h) (a, b) = (a, omega (arith, b, h))
  client-Counted {s} (counts_write h) (a, b) = (omega (arith, a, h), b)
  client-Counted (uses_frame f h) e = e
  client-Counted {s} destroys (a, b) = (
    omega (arith, a, writes-append s.puts (none ∷ [])),
    omega (arith, b, reads-append s.puts (none ∷ [])),
  )

  worker-Counted : {s u : System D} → WorkerStep zero_page s u → Counted s → Counted u
  worker-Counted (gets x rest w q) e = e
  worker-Counted (serves r d frames w ok_step) e = e
  worker-Counted (sets_value r w) e = e

  run-Counted : {s u : System D} {n : ℕ} → Run zero_page s u n → Counted s → Counted u
  run-Counted here e = e
  run-Counted (by_client r c) e = client-Counted c (run-Counted r e)
  run-Counted (by_worker r w) e = worker-Counted w (run-Counted r e)

  -- In every run of the threads from the start, whatever the order of their steps: the elements put
  -- in the queue are, in their order, the requests whose callback is set, what the worker has in
  -- hand, and the queue; and each counter with what is not counted yet is the number of writes, or
  -- of reads, that were put, modulo 2 ^ 64.
  pub started-Fifo :
      (d : DiskManagerMemory D) (frames : Frames D) {u : System D} {n : ℕ}
      → Run zero_page (started zero_page d frames) u n
      → Fifo u × Counted u
  started-Fifo d frames r = (run-Fifo r refl, run-Counted r (refl, refl))
