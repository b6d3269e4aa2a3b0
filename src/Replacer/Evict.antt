-- ===== src/Replacer/Evict.antt =====
-- `Evict` keeps the invariant, and takes out one evictable frame if there is any.
use bicycletub.Common.{
  ℕ, ◌+◌, ◌<◌, ◌≡◌, refl, ap, Bool, true, false, List, Option, none, some, arith, length, count,
  bit, bit_of, ◌==◌, ==_iff, if◌then◌else◌, leb, ltb, Result, ok, err, blocked, sub64, word64, inl,
  inr, Bool-cases, Option-cases,
}
use bicycletub.Common.Assoc.{
  lookup, insert, erase, tally, lookup-insert, lookup-erase, IsMap-insert, IsMap-erase, tally-erase,
  tally-pos, tally-le-length, length-le_of_keys-lt,
}
use bicycletub.Replacer.{
  ArcReplacer, ArcStatus, mru, mfu, mru_ghost, mfu_ghost, FrameStatus, Scan, nothing, found,
  dangling, scan, finish_scan, move_to_ghost, try_evict, or_else, both, over_target, under_target,
  evict,
}
use bicycletub.Replacer.Walk.{can_evict, Explains, scan-Explains}
use bicycletub.Replacer.Invariant.{Inv}

abbrev pub evictable : FrameStatus → Bool
evictable st = st.evictable_

module _ (r : ArcReplacer) (v : Inv r) where
  pub tally-lt-word : tally evictable r.alive_map_ < word64
  tally-lt-word = omega (
    arith,
    tally-le-length evictable r.alive_map_,
    length-le_of_keys-lt r.replacer_size_ r.alive_map_ v.alive_keys v.below,
    v.small,
  )

  module _ (f : ℕ) (st : FrameStatus) (rest : List ℕ) (alive : lookup f r.alive_map_ ≡ some st)
      (free : st.evictable_ ≡ true) where
    curr_size-evict : sub64 r.curr_size_ 1 ≡ tally evictable (erase f r.alive_map_)
    curr_size-evict = omega (
      arith,
      v.counted,
      tally-lt-word,
      tally-erase evictable f r.alive_map_ v.alive_keys,
      ap (bit_of evictable) alive,
      ap bit free,
    )

    page_absent : lookup st.page_id_ r.ghost_map_ ≡ none
    page_absent = v.not_ghost f st alive

    gone :
        (g : ℕ) → lookup g (erase f r.alive_map_) ≡ (if f == g then none else lookup g r.alive_map_)
    gone g = lookup-erase f g r.alive_map_

    ghosts :
        (s : ArcStatus) (p : ℕ)
        → lookup p (insert st.page_id_ (record st { arc_status_ = s }) r.ghost_map_) ≡ (
            if st.page_id_ == p
            then some (record st { arc_status_ = s })
            else lookup p r.ghost_map_)
    ghosts s p = lookup-insert st.page_id_ p (record st { arc_status_ = s }) r.ghost_map_

    mru-evict-Inv :
        ((g : ℕ) → count g r.mru_ ≡ count g rest + bit (f == g))
        → Inv (move_to_ghost r mru f st rest)
    mru-evict-Inv split = record {
      alive_keys = IsMap-erase f r.alive_map_ v.alive_keys;
      ghost_keys = IsMap-insert _ _ _ v.ghost_keys;
      in_mru = λ g. ground (arith, split g, v.in_mru g, v.in_mfu g, v.alive_status g, gone g);
      in_mfu = λ g. ground (arith, split g, v.in_mru g, v.in_mfu g, v.alive_status g, gone g);
      in_mru_ghost = λ p. ground (arith, v.in_mru_ghost p, ghosts mru_ghost p, page_absent);
      in_mfu_ghost = λ p. ground (arith, v.in_mfu_ghost p, ghosts mru_ghost p, page_absent);
      alive_status = λ g. ground (arith, v.alive_status g, gone g);
      ghost_status = λ p. ground (arith, v.ghost_status p, ghosts mru_ghost p);
      ghost_page = λ p su e. ground (arith, v.ghost_page p su, ghosts mru_ghost p);
      not_ghost = λ g su e.
          ground
            (arith, v.not_ghost g su, v.one_frame f g st su, gone g, ghosts mru_ghost su.page_id_);
      one_frame = λ g h su sw e e' q. ground (arith, v.one_frame g h su sw, gone g, gone h);
      below = λ g su e. ground (arith, v.below g su, gone g);
      counted = curr_size-evict;
      small = v.small;
    }

    mfu-evict-Inv :
        ((g : ℕ) → count g r.mfu_ ≡ count g rest + bit (f == g))
        → Inv (move_to_ghost r mfu f st rest)
    mfu-evict-Inv split = record {
      alive_keys = IsMap-erase f r.alive_map_ v.alive_keys;
      ghost_keys = IsMap-insert _ _ _ v.ghost_keys;
      in_mfu = λ g. ground (arith, split g, v.in_mfu g, v.in_mru g, v.alive_status g, gone g);
      in_mru = λ g. ground (arith, split g, v.in_mfu g, v.in_mru g, v.alive_status g, gone g);
      in_mfu_ghost = λ p. ground (arith, v.in_mfu_ghost p, ghosts mfu_ghost p, page_absent);
      in_mru_ghost = λ p. ground (arith, v.in_mru_ghost p, ghosts mfu_ghost p, page_absent);
      alive_status = λ g. ground (arith, v.alive_status g, gone g);
      ghost_status = λ p. ground (arith, v.ghost_status p, ghosts mfu_ghost p);
      ghost_page = λ p su e. ground (arith, v.ghost_page p su, ghosts mfu_ghost p);
      not_ghost = λ g su e.
          ground
            (arith, v.not_ghost g su, v.one_frame f g st su, gone g, ghosts mfu_ghost su.page_id_);
      one_frame = λ g h su sw e e' q. ground (arith, v.one_frame g h su sw, gone g, gone h);
      below = λ g su e. ground (arith, v.below g su, gone g);
      counted = curr_size-evict;
      small = v.small;
    }

-- `f` was evictable and is gone; nothing else of `alive_map_` has changed.
pub record Evicted (r r' : ArcReplacer) (f : ℕ) : Type 0 where
  pub victim : FrameStatus
  pub was_alive : lookup f r.alive_map_ ≡ some victim
  pub was_evictable : victim.evictable_ ≡ true
  pub taken_out : r'.alive_map_ ≡ erase f r.alive_map_
  pub target_kept : r'.mru_target_size_ ≡ r.mru_target_size_
  pub size_kept : r'.replacer_size_ ≡ r.replacer_size_
  pub valid : Inv r'

-- An attempt that returns takes one frame out, or changes nothing because `P` holds.
abbrev pub Tries : ArcReplacer → Type 0 → Result (ArcReplacer × Option ℕ) → Type 0
Tries r P (ok (r', none)) = (r' ≡ r) × P
Tries r P (ok (r', some f)) = Evicted r r' f
Tries r P (err e) = ⊥
Tries r P blocked = ⊥

or_else-Tries :
    (P Q : Type 0) (r : ArcReplacer) (x y : Result (ArcReplacer × Option ℕ))
    → Tries r P x
    → Tries r Q y
    → Tries r (P × Q) (or_else x y)
or_else-Tries P Q r (ok (r', some f)) y h k = h
or_else-Tries P Q r (ok (r', none)) (ok (q, some f)) h k = k
or_else-Tries P Q r (ok (r', none)) (ok (q, none)) h k = (k.0, (h.1, k.1))
or_else-Tries P Q r (ok (r', none)) (err e) h k = k
or_else-Tries P Q r (ok (r', none)) blocked h k = k
or_else-Tries P Q r (err e) y h k = absurd h
or_else-Tries P Q r blocked y h k = absurd h

-- No frame of the list `l` can be evicted.
abbrev pub AllPinned : ArcReplacer → List ℕ → Type 0
AllPinned r l = (g : ℕ) → 0 < count g l → can_evict r.alive_map_ g ≡ 0

module _ (r : ArcReplacer) (v : Inv r) where
  mru-finish :
      (s : Scan)
      → Explains r.alive_map_ r.mru_ s
      → Tries r (AllPinned r r.mru_) (finish_scan r mru s)
  mru-finish nothing h = (refl, h)
  mru-finish (found f st rest) h = record {
    victim = st;
    was_alive = h.0;
    was_evictable = h.1;
    taken_out = refl;
    target_kept = refl;
    size_kept = refl;
    valid = mru-evict-Inv r v f st rest h.0 h.1 h.2;
  }
  mru-finish dangling h = ground (arith, v.in_mru h.0)

  mfu-finish :
      (s : Scan)
      → Explains r.alive_map_ r.mfu_ s
      → Tries r (AllPinned r r.mfu_) (finish_scan r mfu s)
  mfu-finish nothing h = (refl, h)
  mfu-finish (found f st rest) h = record {
    victim = st;
    was_alive = h.0;
    was_evictable = h.1;
    taken_out = refl;
    target_kept = refl;
    size_kept = refl;
    valid = mfu-evict-Inv r v f st rest h.0 h.1 h.2;
  }
  mfu-finish dangling h = ground (arith, v.in_mfu h.0)

  try_evict-mru : Tries r (AllPinned r r.mru_) (try_evict r mru)
  unfolding try_evict
  try_evict-mru = mru-finish (scan r.alive_map_ r.mru_) (scan-Explains r.alive_map_ r.mru_)

  try_evict-mfu : Tries r (AllPinned r r.mfu_) (try_evict r mfu)
  unfolding try_evict
  try_evict-mfu = mfu-finish (scan r.alive_map_ r.mfu_) (scan-Explains r.alive_map_ r.mfu_)

  pub both-mru : Tries r (AllPinned r r.mru_ × AllPinned r r.mfu_) (both r mru mfu)
  unfolding both
  both-mru = or_else-Tries _ _ r (try_evict r mru) (try_evict r mfu) try_evict-mru try_evict-mfu

  pub both-mfu : Tries r (AllPinned r r.mfu_ × AllPinned r r.mru_) (both r mfu mru)
  unfolding both
  both-mfu = or_else-Tries _ _ r (try_evict r mfu) (try_evict r mru) try_evict-mfu try_evict-mru

  guarded-Tries :
      (P : Type 0) (b : Bool) (x : Result (ArcReplacer × Option ℕ))
      → Tries r P x
      → Tries r (Unit {0}) (if b then x else ok (r, none))
  guarded-Tries P true (ok (q, some f)) h = h
  guarded-Tries P true (ok (q, none)) h = (h.0, tt)
  guarded-Tries P true (err e) h = h
  guarded-Tries P true blocked h = h
  guarded-Tries P false x h = (refl, tt)

  over_target-Tries : Tries r (Unit {0}) (over_target r)
  unfolding over_target
  over_target-Tries =
      guarded-Tries _ (ltb r.mru_target_size_ (length r.mru_)) (both r mru mfu) both-mru

  under_target-Tries : Tries r (Unit {0}) (under_target r)
  unfolding under_target
  under_target-Tries =
      guarded-Tries _ (leb (sub64 r.replacer_size_ r.mru_target_size_) (length r.mfu_))
        (both r mfu mru) both-mfu

  pub none_alive : AllPinned r r.mru_ → AllPinned r r.mfu_ → (f : ℕ) → can_evict r.alive_map_ f ≡ 0
  none_alive a b f = ground (arith, a f, b f, v.in_mru f, v.in_mfu f, v.alive_status f)

  Tries-weaken :
      (P Q : Type 0) (x : Result (ArcReplacer × Option ℕ)) → (P → Q) → Tries r P x → Tries r Q x
  Tries-weaken P Q (ok (q, some f)) k h = h
  Tries-weaken P Q (ok (q, none)) k h = (h.0, k h.1)
  Tries-weaken P Q (err e) k h = h
  Tries-weaken P Q blocked k h = h

  -- With a count of zero no frame can be evicted.
  none_counted : r.curr_size_ ≡ 0 → (f : ℕ) → can_evict r.alive_map_ f ≡ 0
  none_counted z f = elim (Option-cases (lookup f r.alive_map_)) [
    | inl e ↦ ap (bit_of evictable) e
    | inr (st, e) ↦ ground (arith, v.counted, tally-pos evictable f st r.alive_map_ e)
  ]

  -- On a valid replacer `Evict` neither faults nor waits. It takes out one frame that is alive and
  -- evictable, or it changes nothing, and then no frame is evictable.
  pub evict-Tries : Tries r ((f : ℕ) → can_evict r.alive_map_ f ≡ 0) (evict r)
  unfolding evict
  evict-Tries = elim (Bool-cases (r.curr_size_ == 0)) [
    | inl z ↦ rw z (refl, none_counted ((==_iff r.curr_size_ 0).0 z))
    | inr z ↦ rw z (
        Tries-weaken (Unit {0} × (Unit {0} × (AllPinned r r.mru_ × AllPinned r r.mfu_)))
          ((f : ℕ) → can_evict r.alive_map_ f ≡ 0)
          (or_else (over_target r) (or_else (under_target r) (both r mru mfu)))
          (λ p. none_alive p.1.1.0 p.1.1.1)
          (or_else-Tries _ _ r (over_target r) (or_else (under_target r) (both r mru mfu))
            over_target-Tries
            (or_else-Tries _ _ r (under_target r) (both r mru mfu) under_target-Tries both-mru)))
  ]
