-- ===== src/Pool/Checked.antt =====
-- CheckedReadPage, CheckedWritePage, ReadPage and WritePage against the view of the pool.
use bicycletub.Common.{
  ℕ, ◌+◌, ◌<◌, ◌≡◌, refl, ◌∙◌, Bool, true, false, Option, none, some, arith, Result, ok, err,
  blocked, ◌>>=◌, word64, Bool-cases, inl, inr,
}
use bicycletub.Common.Assoc.{lookup}
use bicycletub.Frame.{Latch}
use bicycletub.Pool.{BufferPoolManager, PageGuard}
use bicycletub.Pool.Guard.{get_data, guard_of, make_read_guard, make_write_guard}
use bicycletub.Pool.Fetch.{bring_in}
use bicycletub.Pool.Invariant.{Inv, view}
use bicycletub.Pool.Load.{Fetched}
use bicycletub.Pool.Bring.{NoRoom, Brought, bring_in-Brought}
use bicycletub.Pool.Acquire.{
  Held, make_read_guard-blocked, make_read_guard-Held, make_write_guard-blocked,
  make_write_guard-Held, is_held,
}
use bicycletub.Pool.Calls.{read_guard, checked_read_page, write_guard, checked_write_page}

module _ {D : Type 0} (zero_page : D) where
  -- A valid guard on page `p`: the pool is valid and shows the same pages, the page is in the
  -- guard's frame, and the guard reads what the page showed.
  pub record Guarded (s : BufferPoolManager D) (p : ℕ) (g : PageGuard) (s' : BufferPoolManager D)
      : Type 0 where
    pub valid : Inv zero_page s'
    pub page : g.page_id_ ≡ p
    pub is_valid : g.is_valid_ ≡ true
    pub here : lookup p s'.page_table_ ≡ some g.frame_
    pub same : (q : ℕ) → view zero_page s' q ≡ view zero_page s q
    pub bytes : get_data s' g ≡ view zero_page s p

  -- The outcome of CheckedReadPage: a guard that shares the latch; nothing, if the page cannot be
  -- brought in; or a wait, if a writer holds the page.
  abbrev pub ReadOutcome :
      BufferPoolManager D → ℕ → Result (BufferPoolManager D × Option PageGuard) → Type 0
  ReadOutcome s p (ok (s', none)) = (s' ≡ s) × NoRoom zero_page s p
  ReadOutcome s p (ok (s', some g)) =
      Guarded s p g s'
      × ((s'.frames_ g.frame_).rwlatch_.writer ≡ false)
      × (0 < (s'.frames_ g.frame_).rwlatch_.readers)
  ReadOutcome s p blocked =
      (f : ℕ) × (lookup p s.page_table_ ≡ some f) × ((s.frames_ f).rwlatch_.writer ≡ true)
  ReadOutcome s p (err e) = ⊥

  -- The outcome of CheckedWritePage: the guard is the latch's one holder; any holder makes it wait.
  abbrev pub WriteOutcome :
      BufferPoolManager D → ℕ → Result (BufferPoolManager D × Option PageGuard) → Type 0
  WriteOutcome s p (ok (s', none)) = (s' ≡ s) × NoRoom zero_page s p
  WriteOutcome s p (ok (s', some g)) =
      Guarded s p g s' × ((s'.frames_ g.frame_).rwlatch_.writer ≡ true)
  WriteOutcome s p blocked =
      (f : ℕ) × (lookup p s.page_table_ ≡ some f) × (is_held (s.frames_ f).rwlatch_ ≡ true)
  WriteOutcome s p (err e) = ⊥

  module _ (s : BufferPoolManager D) (v : Inv zero_page s) (p : ℕ)
      (room : (f : ℕ) → (s.frames_ f).pin_count_ + 1 < word64) where
    module _ (t : BufferPoolManager D) (f : ℕ) (b : Bool) (h : Fetched zero_page s p f b t) where
      pins : (t.frames_ f).pin_count_ ≡ (s.frames_ f).pin_count_
      pins = ground (arith, h.valid.latched f, v.latched f, h.latches f)

      guarded :
          (l : Latch) (s' : BufferPoolManager D)
          → Held zero_page t p f l s'
          → Guarded s p (guard_of p f) s'
      guarded l s' k = record {
        valid = k.valid;
        page = refl;
        is_valid = refl;
        here = k.here_still;
        same = λ q. k.same q ∙ h.same q;
        bytes = ground (arith, k.same p, h.same p, k.here_still);
      }

      small : (t.frames_ f).pin_count_ + 1 < word64
      small = ground (arith, pins, room f)

      was_resident : is_held (t.frames_ f).rwlatch_ ≡ true → lookup p s.page_table_ ≡ some f
      was_resident w = ground (arith, h.prior, h.latches f, v.latched f)

      finish-Read : ReadOutcome s p (make_read_guard t p f >>= λ (s', g). ok (s', some g))
      finish-Read = elim (Bool-cases (t.frames_ f).rwlatch_.writer) [
        | inl w ↦
            rw (make_read_guard-blocked zero_page t p f b h.valid h.here small w)
              (f, was_resident (ground arith), ground (arith, h.latches f))
        | inr w ↦
            let (s', e, k) = make_read_guard-Held zero_page t p f b h.valid h.here small w in
            rw e (guarded _ s' k, ground (arith, k.latch), ground (arith, k.latch))
      ]

      finish-Write : WriteOutcome s p (make_write_guard t p f >>= λ (s', g). ok (s', some g))
      finish-Write = elim (Bool-cases (is_held (t.frames_ f).rwlatch_)) [
        | inl w ↦
            rw (make_write_guard-blocked zero_page t p f b h.valid h.here small w)
              (f, was_resident w, ground (arith, h.latches f))
        | inr w ↦
            let (s', e, k) = make_write_guard-Held zero_page t p f b h.valid h.here small w in
            rw e (guarded _ s' k, ground (arith, k.latch))
      ]

    read-Outcome :
        (x : Result (BufferPoolManager D × Option ℕ))
        → Brought zero_page s p x
        → ReadOutcome s p (x >>= read_guard zero_page p)
    read-Outcome (ok (t, none)) h = h
    read-Outcome (ok (t, some f)) (b, r, e, h) =
        rw e (finish-Read (record t { replacer_ = r }) f b h)
    read-Outcome (err e) h = h
    read-Outcome blocked h = absurd h

    write-Outcome :
        (x : Result (BufferPoolManager D × Option ℕ))
        → Brought zero_page s p x
        → WriteOutcome s p (x >>= write_guard zero_page p)
    write-Outcome (ok (t, none)) h = h
    write-Outcome (ok (t, some f)) (b, r, e, h) =
        rw e (finish-Write (record t { replacer_ = r }) f b h)
    write-Outcome (err e) h = h
    write-Outcome blocked h = absurd h

    pub checked_read_page-Outcome : ReadOutcome s p (checked_read_page zero_page s p)
    unfolding checked_read_page
    checked_read_page-Outcome =
        read-Outcome (bring_in zero_page s p) (bring_in-Brought zero_page s v p)

    pub checked_write_page-Outcome : WriteOutcome s p (checked_write_page zero_page s p)
    unfolding checked_write_page
    checked_write_page-Outcome =
        write-Outcome (bring_in zero_page s p) (bring_in-Brought zero_page s v p)
