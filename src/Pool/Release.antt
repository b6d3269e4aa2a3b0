-- ===== src/Pool/Release.antt =====
-- `Drop` of a guard, and writes through one.
use bicycletub.Common.{
  ℕ, ◌+◌, ◌<◌, ◌≡◌, refl, ap, true, false, some, arith, bit, ◌==◌, if◌then◌else◌, ok, sub64,
  Option-cases, Bool-cases, inl, inr, ==_refl,
}
use bicycletub.Common.Assoc.{lookup}
use bicycletub.Frame.{FrameHeader, Latch, unlock, unlock_shared}
use bicycletub.Scheduler.{set_frame, set_frame_twice}
use bicycletub.Replacer.{ArcReplacer, FrameStatus}
use bicycletub.Replacer
use bicycletub.Replacer.Access.{entry, set_evictable-Inv}
use bicycletub.Pool.{BufferPoolManager, PageGuard, update_frame}
use bicycletub.Pool.Guard.{set_latch, unpin, drop_read, drop_write, write_data}
use bicycletub.Pool.Invariant.{Inv, view}

module _ {D : Type 0} (zero_page : D) where
  -- A valid pool that shows the same pages, with the latch `l` on frame `f`.
  pub record Freed (s : BufferPoolManager D) (f : ℕ) (l : Latch) (s' : BufferPoolManager D)
      : Type 0 where
    pub valid : Inv zero_page s'
    pub same : (q : ℕ) → view zero_page s' q ≡ view zero_page s q
    pub latch : (s'.frames_ f).rwlatch_ ≡ l
    pub table : s'.page_table_ ≡ s.page_table_

module _ {D : Type 0} (zero_page : D) (s : BufferPoolManager D) (v : Inv zero_page s) (p f : ℕ)
    (here : lookup p s.page_table_ ≡ some f) where
  known : (st : FrameStatus) × (lookup f s.replacer_.alive_map_ ≡ some st) × (st.page_id_ ≡ p)
  known = elim (Option-cases (lookup f s.replacer_.alive_map_)) [
    | inl e ↦ absurd (ground (arith, v.resident p f here))
    | inr (st, e) ↦ (st, e, ground (arith, v.resident p f here))
  ]

  -- The frame with the latch `l` and one pin less.
  abbrev freed : Latch → FrameHeader D
  freed l = record (s.frames_ f) { rwlatch_ = l; pin_count_ = sub64 (s.frames_ f).pin_count_ 1 }

  module _ (l : Latch)
      (one_less : l.readers + bit l.writer + 1
        ≡ (s.frames_ f).rwlatch_.readers + bit (s.frames_ f).rwlatch_.writer)
      (single : l.writer ≡ true → l.readers ≡ 0) where
    module _ (r : ArcReplacer) (rv : Replacer.Invariant.Inv r)
        (size : r.replacer_size_ ≡ s.replacer_.replacer_size_)
        (entries : (g : ℕ)
          → entry r g
            ≡ (if f == g then some (p, (freed l).pin_count_ == 0) else entry s.replacer_ g)) where
      freed-Inv : Inv zero_page (update_frame (record s { replacer_ = r }) f (freed l))
      freed-Inv = record {
        replacer = rv;
        capacity = ground (arith, v.capacity);
        table_keys = v.table_keys;
        resident = λ q g e. ground (arith, v.resident q g, v.resident p f here, entries g);
        held = λ g q b' e. ground (arith, v.held g q b', entries g);
        unused = λ g e. ground (arith, v.unused g, entries g);
        free_known = λ g c. ground (arith, v.free_known g, v.resident p f here, entries g);
        free_below = v.free_below;
        free_once = v.free_once;
        clean = λ q g e d. ground (arith, v.clean q g);
        latched = λ g. ground (arith, v.latched g, v.bounded f);
        exclusive = λ g e. ground (arith, v.exclusive g);
        bounded = λ g. ground (arith, v.bounded g);
        served = v.served;
      }

    twice :
        (h k : FrameHeader D) → set_frame (set_frame s.frames_ f h) f k ≡ set_frame s.frames_ f k
    twice h k = set_frame_twice s.frames_ f h k

    unpin-Freed :
        (s' : BufferPoolManager D) × (unpin (set_latch s f l) f ≡ ok s') × Freed zero_page s f l s'
    unfolding unpin
    unpin-Freed = elim (Bool-cases (sub64 (s.frames_ f).pin_count_ 1 == 0)) [
      | inl last ↦
          let (st, alive, e) = known in
          let (r, eq, rv, size, entries) =
            set_evictable-Inv s.replacer_ v.replacer f st alive true in
          (
            update_frame (record s { replacer_ = r }) f (freed l),
            simp (==_refl f, last, eq)
                (ap (λ F. ok (record s { replacer_ = r; frames_ = F })) (twice _ (freed l))),
            record {
              valid = freed-Inv r rv size (λ g. ground (arith, entries g));
              same = λ q. ground arith;
              latch = ground arith;
              table = refl;
            },
          )
      | inr more ↦ (
        update_frame s f (freed l),
        simp (==_refl f, more) (ap (λ F. ok (record s { frames_ = F })) (twice _ (freed l))),
        record {
          valid =
              freed-Inv s.replacer_ v.replacer refl
                (λ g. ground (arith, v.resident p f here, v.latched f, v.bounded f));
          same = λ q. ground arith;
          latch = ground arith;
          table = refl;
        },
      )
    ]

  module _ (g : PageGuard) (valid : g.is_valid_ ≡ true) (frame : g.frame_ ≡ f) where
    -- `Drop` of a valid read guard on a page of a valid pool whose latch readers hold: it returns,
    -- the guard becomes invalid, the pool stays valid (the frame is evictable if this was its last
    -- pin), every page shows what it showed, and the latch has one reader less.
    pub drop_read-Freed :
        (s.frames_ f).rwlatch_.writer ≡ false
        → 0 < (s.frames_ f).rwlatch_.readers
        → (s' : BufferPoolManager D) × (drop_read s g ≡ ok (s', record g { is_valid_ = false }))
          × Freed zero_page s f (unlock_shared (s.frames_ f).rwlatch_) s'
    unfolding drop_read
    drop_read-Freed w n =
        let (s', e, h) =
          unpin-Freed (unlock_shared (s.frames_ f).rwlatch_) (ground arith) (λ c. ground arith) in
        (s', simp (valid, frame, e), h)

    -- `Drop` of a valid write guard on a page of a valid pool whose latch a writer holds: it
    -- returns, the guard becomes invalid, the pool stays valid (the frame is evictable if this was
    -- its last pin), every page shows what it showed, and the latch has no writer.
    pub drop_write-Freed :
        (s.frames_ f).rwlatch_.writer ≡ true
        → (s' : BufferPoolManager D) × (drop_write s g ≡ ok (s', record g { is_valid_ = false }))
          × Freed zero_page s f (unlock (s.frames_ f).rwlatch_) s'
    unfolding drop_write
    drop_write-Freed w =
        let (s', e, h) =
          unpin-Freed (unlock (s.frames_ f).rwlatch_) (ground (arith, v.exclusive f))
            (λ c. ground arith) in
        (s', simp (valid, frame, e), h)

  -- On a valid pool, a write through a guard on the frame that holds page `p` keeps the invariant
  -- and changes what `p` shows, and what no other page shows.
  pub write_data-Inv :
      (g : PageGuard) (b : D)
      → g.frame_ ≡ f
      → Inv zero_page (write_data s g b)
        × ((q : ℕ)
            → view zero_page (write_data s g b) q ≡ (if p == q then b else view zero_page s q))
  write_data-Inv g b e = (
    record {
      replacer = v.replacer;
      capacity = v.capacity;
      table_keys = v.table_keys;
      resident = λ q h k. ground (arith, v.resident q h);
      held = v.held;
      unused = λ h k. ground (arith, v.unused h);
      free_known = v.free_known;
      free_below = v.free_below;
      free_once = v.free_once;
      clean = λ q h k d. ground (arith, v.clean q h);
      latched = λ h. ground (arith, v.latched h);
      exclusive = λ h k. ground (arith, v.exclusive h);
      bounded = λ h. ground (arith, v.bounded h);
      served = v.served;
    },
    λ q. elim (Option-cases (lookup q s.page_table_)) [
      | inl k ↦ ground arith
      | inr (h, k) ↦ ground (arith, v.resident q h k, v.resident p f here)
    ],
  )
