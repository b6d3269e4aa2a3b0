-- ===== src/Replacer/Access.antt =====
-- `SetEvictable` and `RecordAccess` keep the invariant; what they do to each frame's page and flag.
use bicycletub.Common.{
  ℕ, ◌<◌, ◌≡◌, refl, Bool, ◌∷◌, Option, none, some, arith, count-remove, remove, ◌==◌,
  if◌then◌else◌, ok, add64, sub64, inl, inr, Bool-cases, ◌≢◌,
}
use bicycletub.Common.Assoc.{
  lookup, insert, tally, lookup-insert, IsMap-insert, tally-insert, tally-le-length,
  length-le_of_keys-lt,
}
use bicycletub.Replacer.{
  ArcReplacer, ArcStatus, mru, mfu, mru_ghost, mfu_ghost, FrameStatus, set_status, set_evictable,
  bool_eq, touch_alive, record_access,
}
use bicycletub.Replacer.Invariant.{Inv}
use bicycletub.Replacer.Evict.{evictable, tally-lt-word}

-- A frame's page, and whether it may be evicted.
abbrev pub summary : Option FrameStatus → Option (ℕ × Bool)
summary none = none
summary (some st) = some (st.page_id_, st.evictable_)

abbrev pub entry : ArcReplacer → ℕ → Option (ℕ × Bool)
entry r f = summary (lookup f r.alive_map_)

module _ (r : ArcReplacer) (v : Inv r) where
  module _ (f : ℕ) (st : FrameStatus) (alive : lookup f r.alive_map_ ≡ some st) where
    -- Changing the flag alone.
    module _ (e : Bool) where
      look :
          (g : ℕ)
          → lookup g (insert f (record st { evictable_ = e }) r.alive_map_)
            ≡ (if f == g then some (record st { evictable_ = e }) else lookup g r.alive_map_)
      look g = lookup-insert f g (record st { evictable_ = e }) r.alive_map_

      abbrev changed : ArcReplacer
      changed = record r {
        alive_map_ = insert f (record st { evictable_ = e }) r.alive_map_;
        curr_size_ = if e then add64 r.curr_size_ 1 else sub64 r.curr_size_ 1;
      }

      changed-below :
          (g : ℕ) (su : FrameStatus) → lookup g changed.alive_map_ ≡ some su → g < r.replacer_size_
      changed-below g su k = ground (arith, v.below g su, v.below f st, look g)

      changed-count : st.evictable_ ≢ e → changed.curr_size_ ≡ tally evictable changed.alive_map_
      changed-count ne = ground (
        arith,
        v.counted,
        tally-lt-word r v,
        tally-insert evictable f (record st { evictable_ = e }) r.alive_map_,
        tally-le-length evictable changed.alive_map_,
        length-le_of_keys-lt r.replacer_size_ changed.alive_map_ (IsMap-insert f _ _ v.alive_keys)
            changed-below,
        v.small,
      )

      changed-Inv : st.evictable_ ≢ e → Inv changed
      changed-Inv ne = record {
        alive_keys = IsMap-insert f _ _ v.alive_keys;
        ghost_keys = v.ghost_keys;
        in_mru = λ g. ground (arith, v.in_mru g, look g);
        in_mfu = λ g. ground (arith, v.in_mfu g, look g);
        in_mru_ghost = v.in_mru_ghost;
        in_mfu_ghost = v.in_mfu_ghost;
        alive_status = λ g. ground (arith, v.alive_status g, look g);
        ghost_status = v.ghost_status;
        ghost_page = v.ghost_page;
        not_ghost = λ g su k. ground (arith, v.not_ghost g su, v.not_ghost f st, look g);
        one_frame = λ g h su sw k k' q. ground (
          arith,
          v.one_frame g h su sw,
          v.one_frame f h st sw,
          v.one_frame g f su st,
          look g,
          look h,
        );
        below = changed-below;
        counted = changed-count ne;
        small = v.small;
      }

      changed-entry :
          (g : ℕ) → entry changed g ≡ (if f == g then some (st.page_id_, e) else entry r g)
      changed-entry g = ground (arith, look g)

    abbrev Flagged : Bool → ArcReplacer → Type 0
    Flagged e r' =
        Inv r'
        × (r'.replacer_size_ ≡ r.replacer_size_)
        × ((g : ℕ) → entry r' g ≡ (if f == g then some (st.page_id_, e) else entry r g))

    set_status-Flagged : (e : Bool) → Flagged e (set_status r f e st)
    unfolding set_status
    set_status-Flagged e = elim (Bool-cases (bool_eq st.evictable_ e)) [
      | inl same ↦ simp same (v, refl, λ g. ground arith)
      | inr other ↦ simp other (changed-Inv e (λ q. ground arith), refl, changed-entry e)
    ]

    -- On a frame that a valid replacer knows, `SetEvictable` returns, keeps the invariant, sets the
    -- frame's flag and changes no other frame's page or flag.
    pub set_evictable-Inv :
        (e : Bool)
        → (r' : ArcReplacer) × (set_evictable r f e ≡ ok r')
          × Inv r'
          × (r'.replacer_size_ ≡ r.replacer_size_)
          × ((g : ℕ) → entry r' g ≡ (if f == g then some (st.page_id_, e) else entry r g))
    unfolding set_evictable
    set_evictable-Inv e =
        let (a, b, c) = set_status-Flagged e in
        (set_status r f e st, rw (alive, set_evictable), a, b, c)

    -- A frame in `mru_` moves to the front of `mfu_`.
    promoted :
        (g : ℕ)
        → lookup g (insert f (record st { arc_status_ = mfu }) r.alive_map_)
          ≡ (if f == g then some (record st { arc_status_ = mfu }) else lookup g r.alive_map_)
    promoted g = lookup-insert f g (record st { arc_status_ = mfu }) r.alive_map_

    promote-Inv :
        st.arc_status_ ≡ mru
        → Inv (record r {
          mru_ = remove f r.mru_;
          mfu_ = f ∷ r.mfu_;
          alive_map_ = insert f (record st { arc_status_ = mfu }) r.alive_map_;
        })
    promote-Inv s = record {
      alive_keys = IsMap-insert f _ _ v.alive_keys;
      ghost_keys = v.ghost_keys;
      in_mru = λ g. ground (arith, v.in_mru g, promoted g, count-remove f g r.mru_);
      in_mfu = λ g. ground (arith, v.in_mfu g, promoted g);
      in_mru_ghost = v.in_mru_ghost;
      in_mfu_ghost = v.in_mfu_ghost;
      alive_status = λ g. ground (arith, v.alive_status g, promoted g);
      ghost_status = v.ghost_status;
      ghost_page = v.ghost_page;
      not_ghost = λ g su k. ground (arith, v.not_ghost g su, v.not_ghost f st, promoted g);
      one_frame = λ g h su sw k k' q. ground (
        arith,
        v.one_frame g h su sw,
        v.one_frame f h st sw,
        v.one_frame g f su st,
        promoted g,
        promoted h,
      );
      below = λ g su k. ground (arith, v.below g su, v.below f st, promoted g);
      counted = ground (
        arith,
        v.counted,
        tally-insert evictable f (record st { arc_status_ = mfu }) r.alive_map_,
      );
      small = v.small;
    }

    -- A frame in `mfu_` moves to its front.
    refresh-Inv : st.arc_status_ ≡ mfu → Inv (record r { mfu_ = f ∷ remove f r.mfu_ })
    refresh-Inv s = record {
      alive_keys = v.alive_keys;
      ghost_keys = v.ghost_keys;
      in_mru = v.in_mru;
      in_mfu = λ g. ground (arith, v.in_mfu g, v.in_mfu f, count-remove f g r.mfu_);
      in_mru_ghost = v.in_mru_ghost;
      in_mfu_ghost = v.in_mfu_ghost;
      alive_status = v.alive_status;
      ghost_status = v.ghost_status;
      ghost_page = v.ghost_page;
      not_ghost = v.not_ghost;
      one_frame = v.one_frame;
      below = v.below;
      counted = v.counted;
      small = v.small;
    }

    touch_alive_lem :
        (s : ArcStatus)
        → st.arc_status_ ≡ s
        → (r' : ArcReplacer) × (touch_alive r f st s ≡ ok r')
          × Inv r'
          × (r'.replacer_size_ ≡ r.replacer_size_)
          × ((g : ℕ) → entry r' g ≡ entry r g)
    touch_alive_lem mru e = (_, refl, promote-Inv e, refl, λ g. ground (arith, promoted g))
    touch_alive_lem mfu e = (_, refl, refresh-Inv e, refl, λ g. refl)
    touch_alive_lem mru_ghost e = absurd (ground (arith, v.alive_status f))
    touch_alive_lem mfu_ghost e = absurd (ground (arith, v.alive_status f))

    -- On a frame that a valid replacer knows, `RecordAccess` returns, keeps the invariant, and
    -- changes no frame's page or flag.
    pub record_access_known :
        (p : ℕ)
        → (r' : ArcReplacer) × (record_access r f p ≡ ok r')
          × Inv r'
          × (r'.replacer_size_ ≡ r.replacer_size_)
          × ((g : ℕ) → entry r' g ≡ entry r g)
    unfolding record_access
    record_access_known p =
        let (r', e, a, b, c) = touch_alive_lem st.arc_status_ refl in
        (r', rw (alive, record_access) e, a, b, c)
