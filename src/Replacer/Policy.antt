-- ===== src/Replacer/Policy.antt =====
-- Which frame `Evict` takes, and how `RecordAccess` moves the target.
use bicycletub.Common.{
  ℕ, ◌+◌, ◌/◌, ◌<◌, ◌≡◌, ◌≢◌, refl, ap, ◌∙◌, Bool, true, false, not, ◌||◌, List, ◌∷◌, ◌++◌, Option,
  none, some, arith, length, count, bit, bit_of, ◌==◌, ==_iff, if◌then◌else◌, leb, ltb, max, Result,
  ok, err, blocked, sub64, word64, inl, inr, Bool-cases,
}
use bicycletub.Common.Assoc.{lookup}
use bicycletub.Replacer.{
  ArcReplacer, ArcStatus, mru, mfu, mru_ghost, mfu_ghost, FrameStatus, Scan, nothing, found,
  dangling, scan, frames_of, finish_scan, move_to_ghost, try_evict, or_else, both, over_target,
  under_target, evict, record_access,
}
use bicycletub.Replacer.Walk.{can_evict, Splits, scan-Splits, Explains, scan-Explains}
use bicycletub.Replacer.Invariant.{Inv}
use bicycletub.Replacer.Evict.{Tries, AllPinned, both-mru, both-mfu, none_alive}

-- `Evict` looks at the recently used frames first if they are over the target, or if the
-- frequently used ones are under theirs.
abbrev pub mru_first : ArcReplacer → Bool
mru_first r =
    ltb r.mru_target_size_ (length r.mru_)
    || not (leb (sub64 r.replacer_size_ r.mru_target_size_) (length r.mfu_))

-- The frame `f` may be evicted.
abbrev pub IsEvictable : ArcReplacer → ℕ → Type 0
IsEvictable r f = (st : FrameStatus) × (lookup f r.alive_map_ ≡ some st) × (st.evictable_ ≡ true)

-- `f` is the last evictable frame of the list of `stat`; in `r'` the list lacks `f`, and the
-- others keep their order.
abbrev pub LastEvictable : ArcReplacer → ArcStatus → ArcReplacer → ℕ → Type 0
LastEvictable r stat r' f =
    IsEvictable r f
    × (front : List ℕ) × (back : List ℕ) × (frames_of r stat ≡ front ++ f ∷ back)
    × (frames_of r' stat ≡ front ++ back)
    × ((g : ℕ) → 0 < count g back → ¬ IsEvictable r g)

-- An attempt takes the last evictable frame, and finds none only when there is none.
abbrev pub TakesLast : ArcReplacer → ArcStatus → Result (ArcReplacer × Option ℕ) → Type 0
TakesLast r stat (ok (r', some f)) = LastEvictable r stat r' f
TakesLast r stat (ok (r', none)) =
    (r' ≡ r) × ((g : ℕ) → 0 < count g (frames_of r stat) → ¬ IsEvictable r g)
TakesLast r stat _ = ⊥

module _ (r : ArcReplacer) (v : Inv r) where
  -- An attempt on both lists decides the whole: what follows it cannot find another frame.
  settles :
      (x y : Result (ArcReplacer × Option ℕ))
      → Tries r (AllPinned r r.mru_ × AllPinned r r.mfu_) x
      → Tries r (AllPinned r r.mru_ × AllPinned r r.mfu_) y
      → or_else x y ≡ x
  settles (ok (q, some f)) y h k = refl
  settles (ok (q, none)) (ok (q', some f)) h k =
      absurd (ground (arith, none_alive r v h.1.0 h.1.1 f, k.was_alive, k.was_evictable))
  settles (ok (q, none)) (ok (q', none)) h k = ground arith
  settles (ok (q, none)) (err e) h k = absurd k
  settles (ok (q, none)) blocked h k = absurd k
  settles (err e) y h k = absurd h
  settles blocked y h k = absurd h

  mfu_then_mru : Tries r (AllPinned r r.mru_ × AllPinned r r.mfu_) (both r mfu mru)
  mfu_then_mru = swap (both r mfu mru) (both-mfu r v)
    where
      swap :
          (x : Result (ArcReplacer × Option ℕ))
          → Tries r (AllPinned r r.mfu_ × AllPinned r r.mru_) x
          → Tries r (AllPinned r r.mru_ × AllPinned r r.mfu_) x
      swap (ok (q, some f)) h = h
      swap (ok (q, none)) h = (h.0, (h.1.1, h.1.0))
      swap (err e) h = h
      swap blocked h = h

  in_order :
      (a b : Bool)
      → or_else
          (if a then both r mru mfu else ok (r, none))
          (or_else (if b then both r mfu mru else ok (r, none)) (both r mru mfu))
        ≡ (if a || not b then both r mru mfu else both r mfu mru)
  in_order true true =
      ap (or_else (both r mru mfu)) (settles _ _ mfu_then_mru (both-mru r v))
      ∙ settles _ _ (both-mru r v) mfu_then_mru
  in_order true false = settles _ _ (both-mru r v) (both-mru r v)
  in_order false true = settles _ _ mfu_then_mru (both-mru r v)
  in_order false false = refl

  -- On a valid replacer whose `curr_size_` is not 0, `Evict` tries the two lists in the order that the target fixes.
  pub evict_order :
      r.curr_size_ ≢ 0 → evict r ≡ (if mru_first r then both r mru mfu else both r mfu mru)
  unfolding evict over_target under_target
  evict_order busy = elim (Bool-cases (r.curr_size_ == 0)) [
    | inl z ↦ absurd (busy ((==_iff r.curr_size_ 0).0 z))
    | inr z ↦ rw z (
        in_order (ltb r.mru_target_size_ (length r.mru_))
          (leb (sub64 r.replacer_size_ r.mru_target_size_) (length r.mfu_)))
  ]

  frames_of-move :
      (stat : ArcStatus) (f : ℕ) (st : FrameStatus) (rest : List ℕ)
      → frames_of (move_to_ghost r stat f st rest) stat ≡ rest
  frames_of-move mru f st rest = refl
  frames_of-move mfu f st rest = refl
  frames_of-move mru_ghost f st rest = refl
  frames_of-move mfu_ghost f st rest = refl

  not-IsEvictable : (g : ℕ) → can_evict r.alive_map_ g ≡ 0 → ¬ IsEvictable r g
  not-IsEvictable g z (st, e, free) =
      absurd (omega (arith, z, ap (bit_of (λ (st : FrameStatus). st.evictable_)) e, ap bit free))

  listed_alive :
      (stat : ArcStatus) (g : ℕ) → 0 < count g (frames_of r stat) → lookup g r.alive_map_ ≢ none
  listed_alive mfu g h e = absurd (ground (arith, v.in_mfu g))
  listed_alive mru g h e = absurd (ground (arith, v.in_mru g))
  listed_alive mru_ghost g h e = absurd (ground (arith, v.in_mru g))
  listed_alive mfu_ghost g h e = absurd (ground (arith, v.in_mru g))

  -- On a valid replacer, an attempt of `Evict` on a list returns. It takes the last evictable frame
  -- of the list and the others keep their order, or no frame of the list is evictable and nothing
  -- changes.
  pub try_evict-TakesLast : (stat : ArcStatus) → TakesLast r stat (try_evict r stat)
  unfolding try_evict
  try_evict-TakesLast stat =
      go (scan r.alive_map_ (frames_of r stat)) (scan-Explains r.alive_map_ (frames_of r stat))
        (scan-Splits r.alive_map_ (frames_of r stat))
    where
      go :
          (s : Scan)
          → Explains r.alive_map_ (frames_of r stat) s
          → Splits r.alive_map_ (frames_of r stat) s
          → TakesLast r stat (finish_scan r stat s)
      go nothing h p = (refl, λ g i. not-IsEvictable g (h g i))
      go (found g st rest) h (front, back, a, b, z) = (
        (st, h.0, h.1),
        front,
        back,
        a,
        frames_of-move stat g st rest ∙ b,
        λ k i. not-IsEvictable k (z k i),
      )
      go dangling h p = listed_alive stat h.0 h.1 h.2

  -- On a valid replacer the target can wrap. When `RecordAccess` returns on an unknown frame and a
  -- page among the frequently used ghosts, with a target below the step, and the step and
  -- `replacer_size_` together below 2 ^ 64,
  -- `mru_target_size_ - step` passes 0 on `size_t`, and the `std::max` with 0 keeps it. The new
  -- target is above `replacer_size_`, though the step must bring it down.
  pub record_access_wraps :
      (f p : ℕ) (st : FrameStatus) (r' : ArcReplacer)
      → lookup f r.alive_map_ ≡ none
      → lookup p r.ghost_map_ ≡ some st
      → st.arc_status_ ≡ mfu_ghost
      → record_access r f p ≡ ok r'
      → r.mru_target_size_ < max (length r.mru_ghost_ / length r.mfu_ghost_) 1
      → max (length r.mru_ghost_ / length r.mfu_ghost_) 1 + r.replacer_size_ < word64
      → r.replacer_size_ < r'.mru_target_size_
  unfolding record_access
  record_access_wraps f p st r' unknown ghost s e low fits = ground arith
