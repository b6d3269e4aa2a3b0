-- ===== src/Pool/Flush.antt =====
-- FlushPage and FlushAllPages: what they put on disk.
use bicycletub.Common.{
  ℕ, ◌<◌, ◌≡◌, refl, sym, subst, ap, ◌∙◌, Bool, true, false, List, [], ◌∷◌, Option, none, some,
  arith, count, ◌==◌, if◌then◌else◌, Result, ok, err, blocked, Option-cases, Bool-cases, inl, inr,
  ◌⊎◌,
}
use bicycletub.Common.Assoc.{
  lookup, keys, AllIn, AllIn-self, IsMap, count_of_lookup, IsMap-distinct,
}
use bicycletub.Frame.{lock}
use bicycletub.Pool.{BufferPoolManager, out_of_range}
use bicycletub.Pool.Switch.{on_disk, page_switch_write, Kept}
use bicycletub.Pool.Invariant.{Inv, view}
use bicycletub.Pool.Acquire.{is_held}
use bicycletub.Replacer.Access.{entry}
use bicycletub.Replacer.Invariant
use bicycletub.Pool.Calls.{
  clean, flush_frame, flush_found, flush_page, flush_entries, flush_all_pages,
}

module _ {D : Type 0} (zero_page : D) where
  -- The page `p` is on disk as the pool shows it; nothing else has changed.
  pub record Flushed (s : BufferPoolManager D) (p : ℕ) (s' : BufferPoolManager D) : Type 0 where
    pub valid : Inv zero_page s'
    pub same : (q : ℕ) → view zero_page s' q ≡ view zero_page s q
    pub table : s'.page_table_ ≡ s.page_table_
    pub latches : (g : ℕ) → (s'.frames_ g).rwlatch_ ≡ (s.frames_ g).rwlatch_
    pub written :
        (q : ℕ)
        → on_disk zero_page s' q ≡ (if p == q then view zero_page s p else on_disk zero_page s q)

  module _ (s : BufferPoolManager D) (v : Inv zero_page s) (p f : ℕ)
      (here : lookup p s.page_table_ ≡ some f) where
    module _ (t : BufferPoolManager D) (k : Kept zero_page s t) (frames : t.frames_ ≡ s.frames_)
        (disk : (q : ℕ)
          → on_disk zero_page t q
            ≡ (if p == q then (s.frames_ f).data_ else on_disk zero_page s q)) where
      frame :
          (g : ℕ)
          → (clean zero_page t f).frames_ g
            ≡ (if f == g then record (s.frames_ f) { is_dirty_ = false } else s.frames_ g)
      frame g = ground (arith, ap (λ h. h g) frames, ap (λ h. h f) frames)

      look : (q : ℕ) → lookup q t.page_table_ ≡ lookup q s.page_table_
      look q = ap (lookup q) k.table

      cleaned-Flushed : Flushed s p (clean zero_page t f)
      cleaned-Flushed = record {
        valid = record {
          replacer = subst Invariant.Inv (sym k.replacer) v.replacer;
          capacity = ground (arith, k.replacer, k.frame_count, v.capacity);
          table_keys = subst IsMap (sym k.table) v.table_keys;
          resident = λ q g e.
              ground (arith, v.resident q g, look q, frame g, ap (λ r. entry r g) k.replacer);
          held = λ g q b e. ground (arith, v.held g q b, look q, ap (λ r. entry r g) k.replacer);
          unused = λ g e. ground (arith, v.unused g, frame g, ap (λ r. entry r g) k.replacer);
          free_known =
              λ g c. ground (arith, v.free_known g, k.free, ap (λ r. entry r g) k.replacer);
          free_below = λ g c. ground (arith, v.free_below g, k.free, k.frame_count);
          free_once = λ g. ground (arith, v.free_once g, k.free);
          clean = λ q g e d.
              ground
                (arith, v.clean q g, look q, frame g, disk q, v.resident q g, v.resident p f here);
          latched = λ g. ground (arith, v.latched g, frame g);
          exclusive = λ g e. ground (arith, v.exclusive g, frame g);
          bounded = λ g. ground (arith, v.bounded g, frame g);
          served = k.served;
        };
        same = λ q. elim (Option-cases (lookup q s.page_table_)) [
          | inl e ↦ ground (arith, look q, disk q)
          | inr (g, e) ↦ ground (arith, look q, frame g)
        ];
        table = k.table;
        latches = λ g. ground (arith, frame g);
        written = λ q. ground (arith, disk q);
      }

    -- A clean frame is already on disk.
    settled-Flushed : (s.frames_ f).is_dirty_ ≡ false → Flushed s p s
    settled-Flushed d = record {
      valid = v;
      same = λ q. refl;
      table = refl;
      latches = λ g. refl;
      written = λ q. ground (arith, v.clean p f here d);
    }

    flush_frame-Flushed :
        is_held (s.frames_ f).rwlatch_ ≡ false
        → (s' : BufferPoolManager D) × (flush_frame zero_page s p f ≡ ok s') × Flushed s p s'
    unfolding lock
    flush_frame-Flushed h = elim (Bool-cases (s.frames_ f).is_dirty_) [
      | inl d ↦
          let (t, e, k, fr, dk) = page_switch_write zero_page s v.served p f in
          (clean zero_page t f, simp (h, d, e), cleaned-Flushed t k fr dk)
      | inr d ↦ (s, simp (h, d), settled-Flushed d)
    ]

  -- The outcome of FlushPage: false, for a page out of range or not in a frame; a wait, if anyone
  -- holds the frame's latch; or true, with the page on disk.
  abbrev pub FlushOutcome : BufferPoolManager D → ℕ → Result (BufferPoolManager D × Bool) → Type 0
  FlushOutcome s p (ok (s', false)) =
      (s' ≡ s) × ((out_of_range s p ≡ true) ⊎ (lookup p s.page_table_ ≡ none))
  FlushOutcome s p (ok (s', true)) = Flushed s p s'
  FlushOutcome s p blocked =
      (f : ℕ) × (lookup p s.page_table_ ≡ some f) × (is_held (s.frames_ f).rwlatch_ ≡ true)
  FlushOutcome s p (err e) = ⊥

  flush_found-Outcome :
      (s : BufferPoolManager D) (p : ℕ)
      → Inv zero_page s
      → (o : Option ℕ) → lookup p s.page_table_ ≡ o
      → FlushOutcome s p (flush_found zero_page s p o)
  unfolding lock
  flush_found-Outcome s p v none e = (refl, inr e)
  flush_found-Outcome s p v (some f) e = elim (Bool-cases (is_held (s.frames_ f).rwlatch_)) [
    | inl h ↦ rw h (f, e, h)
    | inr h ↦ let (s', eq, k) = flush_frame-Flushed s v p f e h in rw eq k
  ]

  -- On a valid pool, FlushPage throws nothing. It returns false, with nothing changed, for a page
  -- out of range or in no frame; or true, and then the pool is valid, the
  -- disk holds what the page
  -- shows, and no other page on disk and nothing that a page shows has changed; or it waits, because
  -- somebody holds the latch of the page's frame.
  pub flush_page-Outcome :
      (s : BufferPoolManager D) (p : ℕ)
      → Inv zero_page s
      → FlushOutcome s p (flush_page zero_page s p)
  unfolding flush_page
  flush_page-Outcome s p v = elim (Bool-cases (out_of_range s p)) [
    | inl out ↦ rw out (refl, inl out)
    | inr within ↦ rw within (flush_found-Outcome s p v (lookup p s.page_table_) refl)
  ]

  -- No latch of a frame in the list is held.
  abbrev NoneHeld : BufferPoolManager D → List (ℕ × ℕ) → Type 0
  NoneHeld s [] = Unit
  NoneHeld s ((p, f) ∷ m) = (is_held (s.frames_ f).rwlatch_ ≡ false) × NoneHeld s m

  NoneHeld-latches :
      (s s' : BufferPoolManager D) (m : List (ℕ × ℕ))
      → ((g : ℕ) → (s'.frames_ g).rwlatch_ ≡ (s.frames_ g).rwlatch_)
      → NoneHeld s m
      → NoneHeld s' m
  NoneHeld-latches s s' [] e h = tt
  NoneHeld-latches s s' ((p, f) ∷ m) e h = (ground (arith, e f), NoneHeld-latches s s' m e h.1)

  -- The entries of `m` are on disk, and so is what was there already.
  record AllFlushed (s : BufferPoolManager D) (m : List (ℕ × ℕ)) (s' : BufferPoolManager D)
      : Type 0 where
    valid : Inv zero_page s'
    same : (q : ℕ) → view zero_page s' q ≡ view zero_page s q
    listed : (q : ℕ) → 0 < count q (keys m) → on_disk zero_page s' q ≡ view zero_page s q
    settled :
        (q : ℕ)
        → on_disk zero_page s q ≡ view zero_page s q
        → on_disk zero_page s' q ≡ view zero_page s q

  flush_entries-AllFlushed :
      (m : List (ℕ × ℕ)) (s : BufferPoolManager D)
      → Inv zero_page s
      → AllIn s.page_table_ m
      → NoneHeld s m
      → (s' : BufferPoolManager D) × (flush_entries zero_page m s ≡ ok s') × AllFlushed s m s'
  unfolding flush_entries
  flush_entries-AllFlushed [] s v a h = (
    s,
    refl,
    record {
      valid = v;
      same = λ q. refl;
      listed = λ q c. absurd (omega arith);
      settled = λ q e. e;
    },
  )
  flush_entries-AllFlushed ((p, f) ∷ m) s v a h =
      let (t, e, k) = flush_frame-Flushed s v p f a.0 h.0 in
      let (s', e', r) =
        flush_entries-AllFlushed m t k.valid (subst (λ x. AllIn x m) (sym k.table) a.1)
          (NoneHeld-latches s t m k.latches h.1) in
      (
        s',
        rw e e',
        record {
          valid = r.valid;
          same = λ q. r.same q ∙ k.same q;
          listed = λ q c. ground (arith, r.listed q, r.settled q, k.written q, k.same q);
          settled = λ q d. ground (arith, r.settled q, k.written q, k.same q);
        },
      )

  -- On a valid pool in which nobody holds a latch, FlushAllPages returns; then the pool is valid, the
  -- disk holds what every page shows,
  -- and no page shows anything else than before.
  pub flush_all_pages_durable :
      (s : BufferPoolManager D)
      → Inv zero_page s
      → ((f : ℕ) → is_held (s.frames_ f).rwlatch_ ≡ false)
      → (s' : BufferPoolManager D) × (flush_all_pages zero_page s ≡ ok s')
        × Inv zero_page s'
        × ((q : ℕ) → on_disk zero_page s' q ≡ view zero_page s q)
        × ((q : ℕ) → view zero_page s' q ≡ view zero_page s q)
  unfolding flush_all_pages
  flush_all_pages_durable s v h =
      let (s', e, r) =
        flush_entries-AllFlushed s.page_table_ s v
          (AllIn-self s.page_table_ (IsMap-distinct s.page_table_ v.table_keys))
          (all_free s.page_table_) in
      (
        s',
        e,
        r.valid,
        λ q. elim (Option-cases (lookup q s.page_table_)) [
          | inl absent ↦ r.settled q (ground arith)
          | inr (f, there) ↦ r.listed q (count_of_lookup q f s.page_table_ there)
        ],
        r.same,
      )
    where
      all_free : (m : List (ℕ × ℕ)) → NoneHeld s m
      all_free [] = tt
      all_free ((p, f) ∷ m) = (h f, all_free m)
