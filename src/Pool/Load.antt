-- ===== src/Pool/Load.antt =====
-- A page enters a frame that the replacer does not know.
use bicycletub.Common.{
  ℕ, ◌<◌, ◌≡◌, sym, subst, ap, ◌∙◌, Bool, false, none, some, arith, count, ◌==◌, if◌then◌else◌, ok,
  [], Option-cases, inl, inr, ◌⊎◌, ◌≢◌,
}
use bicycletub.Common.Assoc.{lookup, insert, lookup-insert, IsMap, IsMap-insert}
use bicycletub.Frame.{reset}
use bicycletub.Replacer.{ArcReplacer, FrameStatus, record_access}
use bicycletub.Replacer.Access.{entry}
use bicycletub.Replacer.Enter.{record_access-Entered}
use bicycletub.Replacer.Invariant
use bicycletub.Pool.{BufferPoolManager}
use bicycletub.Pool.Switch.{on_disk}
use bicycletub.Pool.Invariant.{Inv, InvBut, view}

module _ {D : Type 0} (zero_page : D) where
  -- Page `p` is in frame `f`; every page shows what it showed, and no latch has changed.
  pub record Fetched (s : BufferPoolManager D) (p f : ℕ) (b : Bool) (s' : BufferPoolManager D)
      : Type 0 where
    pub valid : InvBut zero_page f b s'
    pub here : lookup p s'.page_table_ ≡ some f
    pub same : (q : ℕ) → view zero_page s' q ≡ view zero_page s q
    pub latches : (g : ℕ) → (s'.frames_ g).rwlatch_ ≡ (s.frames_ g).rwlatch_
    -- It was there before, or its frame had no pins.
    pub prior : (lookup p s.page_table_ ≡ some f) ⊎ ((s.frames_ f).pin_count_ ≡ 0)
    pub next_id : s'.next_page_id_ ≡ s.next_page_id_
    pub frame_count : s'.num_frames_ ≡ s.num_frames_

  -- The same from an earlier state, which shows the same pages.
  pub Fetched-from :
      (s t s' : BufferPoolManager D) (p f : ℕ) (b : Bool)
      → ((q : ℕ) → view zero_page t q ≡ view zero_page s q)
      → ((g : ℕ) → t.frames_ g ≡ s.frames_ g)
      → t.next_page_id_ ≡ s.next_page_id_
      → t.num_frames_ ≡ s.num_frames_
      → (s.frames_ f).pin_count_ ≡ 0
      → Fetched t p f b s'
      → Fetched s p f b s'
  Fetched-from s t s' p f b views frames next count idle h = record {
    valid = h.valid;
    here = h.here;
    same = λ q. h.same q ∙ views q;
    latches = λ g. h.latches g ∙ ap (λ h. h.rwlatch_) (frames g);
    prior = inr idle;
    next_id = h.next_id ∙ next;
    frame_count = h.frame_count ∙ count;
  }

  -- The state before `RecordAccess`: frame `f` holds the bytes of `p` and is in the table.
  pub record Loaded (t : BufferPoolManager D) (p f : ℕ) (s : BufferPoolManager D) : Type 0 where
    pub table : s.page_table_ ≡ insert p f t.page_table_
    pub free : s.free_frames_ ≡ t.free_frames_
    pub replacer : s.replacer_ ≡ t.replacer_
    pub frame_count : s.num_frames_ ≡ t.num_frames_
    pub next_id : s.next_page_id_ ≡ t.next_page_id_
    pub served : s.disk_scheduler_.request_queue_ ≡ []
    pub frames :
        (g : ℕ)
        → s.frames_ g ≡ (
            if f == g
            then record (reset zero_page (t.frames_ f)) { data_ = on_disk zero_page t p }
            else t.frames_ g)
    pub disk : (q : ℕ) → on_disk zero_page s q ≡ on_disk zero_page t q

  module _ (t s : BufferPoolManager D) (p f : ℕ) (v : Inv zero_page t) (l : Loaded t p f s)
      (unknown : entry t.replacer_ f ≡ none) (below : f < t.num_frames_)
      (taken : count f t.free_frames_ ≡ 0) (absent : lookup p t.page_table_ ≡ none) where
    look : (q : ℕ) → lookup q s.page_table_ ≡ (if p == q then some f else lookup q t.page_table_)
    look q = ap (lookup q) l.table ∙ lookup-insert p q f t.page_table_

    module _ (r : ArcReplacer) (rv : Invariant.Inv r)
        (size : r.replacer_size_ ≡ t.replacer_.replacer_size_)
        (entries : (g : ℕ)
          → entry r g ≡ (if f == g then some (p, false) else entry t.replacer_ g)) where
      entered-Inv : InvBut zero_page f false (record s { replacer_ = r })
      entered-Inv = record {
        replacer = rv;
        capacity = ground (arith, v.capacity, l.frame_count);
        table_keys = subst IsMap (sym l.table) (IsMap-insert p f t.page_table_ v.table_keys);
        resident = λ q g e. ground (arith, v.resident q g, look q, entries g, l.frames g, unknown);
        held = λ g q b e. ground (arith, v.held g q b, look q, entries g);
        unused = λ g e. ground (arith, v.unused g, entries g, l.frames g);
        free_known = λ g c. ground (arith, v.free_known g, entries g, l.free);
        free_below = λ g c. ground (arith, v.free_below g, l.free, l.frame_count);
        free_once = λ g. ground (arith, v.free_once g, l.free);
        clean =
            λ q g e d. ground (arith, v.clean q g, look q, l.frames g, l.disk q, v.resident q g);
        latched = λ g. ground (arith, v.latched g, v.unused f, l.frames g);
        bounded = λ g. ground (arith, v.bounded g, l.frames g);
        exclusive = λ g e. ground (arith, v.exclusive g, l.frames g);
        served = l.served;
      }

      shown-same : (q : ℕ) → view zero_page (record s { replacer_ = r }) q ≡ view zero_page t q
      shown-same q = elim (Option-cases (lookup q t.page_table_)) [
        | inl e ↦ ground (arith, look q, l.frames f, l.disk q)
        | inr (g, e) ↦ ground (arith, look q, l.frames g, absent, v.resident q g, unknown)
      ]

      latches-same : (g : ℕ) → (s.frames_ g).rwlatch_ ≡ (t.frames_ g).rwlatch_
      latches-same g = ground (arith, l.frames g)

      loaded-Fetched : Fetched t p f false (record s { replacer_ = r })
      loaded-Fetched = record {
        valid = entered-Inv;
        here = ground (arith, look p);
        same = shown-same;
        latches = latches-same;
        prior = inr (v.unused f unknown);
        next_id = l.next_id;
        frame_count = l.frame_count;
      }

    fresh : (g : ℕ) (su : FrameStatus) → lookup g t.replacer_.alive_map_ ≡ some su → su.page_id_ ≢ p
    fresh g su e = λ q. ground (arith, v.held g p su.evictable_, absent)

    -- `RecordAccess` of the loaded page returns, and the page is in the frame.
    pub record_access-Fetched :
        (r : ArcReplacer) × (record_access s.replacer_ f p ≡ ok r)
        × Fetched t p f false (record s { replacer_ = r })
    record_access-Fetched =
        let (r, e, rv, size, entries) =
          record_access-Entered t.replacer_ v.replacer f p (ground arith)
            (ground (arith, v.capacity)) fresh in
        (r, ap (λ x. record_access x f p) l.replacer ∙ e, loaded-Fetched r rv size entries)
