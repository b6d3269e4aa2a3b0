-- ===== src/Pool/Acquire.antt =====
-- The guards' constructors on a page that is in its frame.
use bicycletub.Common.{
  ℕ, ◌+◌, ◌<◌, ◌≡◌, refl, ap, Bool, true, false, ◌||◌, some, arith, bit, ◌==◌, if◌then◌else◌, ok,
  blocked, word64, add64, ltb, Option-cases, inl, inr, ==_refl,
}
use bicycletub.Common.Assoc.{lookup}
use bicycletub.Frame.{FrameHeader, Latch, lock, lock_shared}
use bicycletub.Replacer.{ArcReplacer, FrameStatus}
use bicycletub.Replacer.Access.{entry, set_evictable-Inv}
use bicycletub.Replacer.Invariant
use bicycletub.Scheduler.{set_frame, set_frame_twice}
use bicycletub.Pool.{BufferPoolManager, update_frame}
use bicycletub.Pool.Guard.{guard_of, make_read_guard, make_write_guard}
use bicycletub.Pool.Invariant.{Inv, InvBut, view}

abbrev pub is_held : Latch → Bool
is_held l = l.writer || ltb 0 l.readers

abbrev pub shared : Latch → Latch
shared l = record { readers = l.readers + 1; writer = false }

abbrev pub exclusively : Latch → Latch
exclusively l = record { readers = l.readers; writer = true }

module _ {D : Type 0} (zero_page : D) where
  -- What a guard's constructor leaves: a valid pool that shows the same pages, with the page in
  -- the guard's frame.
  pub record Held (s : BufferPoolManager D) (p f : ℕ) (l : Latch) (s' : BufferPoolManager D)
      : Type 0 where
    pub valid : Inv zero_page s'
    pub here_still : lookup p s'.page_table_ ≡ some f
    pub same : (q : ℕ) → view zero_page s' q ≡ view zero_page s q
    pub latch : (s'.frames_ f).rwlatch_ ≡ l
    pub next_id : s'.next_page_id_ ≡ s.next_page_id_

module _ {D : Type 0} (zero_page : D) (s : BufferPoolManager D) (p f : ℕ) (b : Bool)
    (v : InvBut zero_page f b s) (here : lookup p s.page_table_ ≡ some f)
    (room : (s.frames_ f).pin_count_ + 1 < word64) where
  pub known : (st : FrameStatus) × (lookup f s.replacer_.alive_map_ ≡ some st) × (st.page_id_ ≡ p)
  known = elim (Option-cases (lookup f s.replacer_.alive_map_)) [
    | inl e ↦ absurd (ground (arith, v.resident p f here))
    | inr (st, e) ↦ (st, e, ground (arith, v.resident p f here))
  ]

  -- The frame with one more pin and the latch `l`.
  abbrev pub held_frame : Latch → FrameHeader D
  held_frame l = record (s.frames_ f) {
    pin_count_ = add64 (s.frames_ f).pin_count_ 1;
    rwlatch_ = l;
  }

  abbrev pub held_state : ArcReplacer → Latch → BufferPoolManager D
  held_state r l = update_frame (record s { replacer_ = r }) f (held_frame l)

  module _ (l : Latch)
      (one_more : l.readers + bit l.writer
        ≡ (s.frames_ f).rwlatch_.readers + bit (s.frames_ f).rwlatch_.writer + 1)
      (single : l.writer ≡ true → l.readers ≡ 0) (r : ArcReplacer) (rv : Invariant.Inv r)
      (size : r.replacer_size_ ≡ s.replacer_.replacer_size_)
      (entries : (g : ℕ)
        → entry r g ≡ (if f == g then some (p, false) else entry s.replacer_ g)) where
    held-Inv : Inv zero_page (held_state r l)
    held-Inv = record {
      replacer = rv;
      capacity = ground (arith, v.capacity);
      table_keys = v.table_keys;
      resident =
          λ q g e. ground (arith, v.resident q g, v.resident p f here, entries g, v.latched f);
      held = λ g q b' e. ground (arith, v.held g q b', entries g);
      unused = λ g e. ground (arith, v.unused g, entries g);
      free_known = λ g c. ground (arith, v.free_known g, v.resident p f here, entries g);
      free_below = v.free_below;
      free_once = v.free_once;
      clean = λ q g e d. ground (arith, v.clean q g);
      latched = λ g. ground (arith, v.latched g);
      bounded = λ g. ground (arith, v.bounded g);
      exclusive = λ g e. ground (arith, v.exclusive g);
      served = v.served;
    }

    view-held : (q : ℕ) → view zero_page (held_state r l) q ≡ view zero_page s q
    view-held q = ground arith

  twice : (h k : FrameHeader D) → set_frame (set_frame s.frames_ f h) f k ≡ set_frame s.frames_ f k
  twice h k = set_frame_twice s.frames_ f h k

  pub make_read_guard-blocked :
      (s.frames_ f).rwlatch_.writer ≡ true → make_read_guard s p f ≡ blocked
  unfolding make_read_guard lock_shared
  make_read_guard-blocked w =
      let (st, alive, e) = known in
      let (r, eq, _, _, _) = set_evictable-Inv s.replacer_ v.replacer f st alive false in
      ground (arith, eq)

  pub make_read_guard-Held :
      (s.frames_ f).rwlatch_.writer ≡ false
      → (s' : BufferPoolManager D) × (make_read_guard s p f ≡ ok (s', guard_of p f))
        × Held zero_page s p f (shared (s.frames_ f).rwlatch_) s'
  unfolding make_read_guard lock_shared
  make_read_guard-Held w =
      let (st, alive, e) = known in
      let (r, eq, rv, size, entries) = set_evictable-Inv s.replacer_ v.replacer f st alive false in
      (
        held_state r (shared (s.frames_ f).rwlatch_),
        simp (eq, ==_refl f, w)
            (ap (λ F. ok (record s { replacer_ = r; frames_ = F }, guard_of p f))
              (twice _ (held_frame (shared (s.frames_ f).rwlatch_)))),
        record {
          valid =
              held-Inv (shared (s.frames_ f).rwlatch_) (ground arith) (λ c. ground arith) r rv size
                (λ g. ground (arith, entries g));
          here_still = here;
          same =
              view-held (shared (s.frames_ f).rwlatch_) (ground arith) (λ c. ground arith) r rv size
                (λ g. ground (arith, entries g));
          latch = ground arith;
          next_id = refl;
        },
      )

  pub make_write_guard-blocked :
      is_held (s.frames_ f).rwlatch_ ≡ true → make_write_guard s p f ≡ blocked
  unfolding make_write_guard lock
  make_write_guard-blocked w =
      let (st, alive, e) = known in
      let (r, eq, _, _, _) = set_evictable-Inv s.replacer_ v.replacer f st alive false in
      ground (arith, eq)

  pub make_write_guard-Held :
      is_held (s.frames_ f).rwlatch_ ≡ false
      → (s' : BufferPoolManager D) × (make_write_guard s p f ≡ ok (s', guard_of p f))
        × Held zero_page s p f (exclusively (s.frames_ f).rwlatch_) s'
  unfolding make_write_guard lock
  make_write_guard-Held w =
      let (st, alive, e) = known in
      let (r, eq, rv, size, entries) = set_evictable-Inv s.replacer_ v.replacer f st alive false in
      (
        held_state r (exclusively (s.frames_ f).rwlatch_),
        simp (eq, ==_refl f, w)
            (ap (λ F. ok (record s { replacer_ = r; frames_ = F }, guard_of p f))
              (twice _ (held_frame (exclusively (s.frames_ f).rwlatch_)))),
        record {
          valid =
              held-Inv (exclusively (s.frames_ f).rwlatch_) (ground arith) (λ c. ground arith) r rv
                size (λ g. ground (arith, entries g));
          here_still = here;
          same =
              view-held (exclusively (s.frames_ f).rwlatch_) (ground arith) (λ c. ground arith) r rv
                size (λ g. ground (arith, entries g));
          latch = ground arith;
          next_id = refl;
        },
      )
