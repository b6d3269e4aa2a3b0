-- ===== src/Tree/Search.antt =====
-- `KeyIndex`: the binary search finds the place of a key.
use bicycletub.Common.{
  ℕ, zero, suc, ◌+◌, ◌-◌, ◌/◌, ◌<◌, ◌≤◌, ◌≡◌, refl, arith, Bool, true, false, ◌==◌, ltb, half32,
  word32, ◌%◌, is_negative, if◌then◌else◌,
}
use bicycletub.Tree.{IntegerKey, compare_keys, Round, returns, continues, search_round, search}

-- A key's place in the signed order.
abbrev pub order : IntegerKey → ℕ
order k = (k.value_ + half32) % word32

-- The keys of the slots from `lo` to `hi` rise.
abbrev pub IsSorted : (ℕ → IntegerKey) → ℕ → ℕ → Type 0
IsSorted keys lo hi = (i j : ℕ) → lo ≤ i → i < j → j < hi → order (keys i) < order (keys j)

-- `r` is between `lo` and `hi`; the keys before it are below `key`, and from it on they are not.
abbrev pub Splits : (ℕ → IntegerKey) → IntegerKey → ℕ → ℕ → ℕ → Type 0
Splits keys key lo hi r =
    (lo ≤ r)
    × (r ≤ hi)
    × ((i : ℕ) → lo ≤ i → i < r → order (keys i) < order key)
    × ((i : ℕ) → r ≤ i → i < hi → order key ≤ order (keys i))

pub compare_keys_zero : (a b : IntegerKey) → (compare_keys a b == 0) ≡ (order a == order b)
unfolding compare_keys
compare_keys_zero a b = ground arith

pub Splits-unique :
    (keys : ℕ → IntegerKey) (key : IntegerKey) (lo hi r s : ℕ)
    → Splits keys key lo hi r
    → Splits keys key lo hi s
    → r ≡ s
Splits-unique keys key lo hi r s p q = ground (arith, p.2 s, p.3 r, q.2 r, q.3 s)

module _ (keys : ℕ → IntegerKey) (key : IntegerKey) (lo hi : ℕ) (sorted : IsSorted keys lo hi) where
  at_mid : (m : ℕ) → lo ≤ m → m < hi → order (keys m) ≡ order key → Splits keys key lo hi m
  at_mid m a b e =
      (a, omega arith, λ i p q. ground (arith, sorted i m), λ i p q. ground (arith, sorted m i))

  rises :
      (m : ℕ)
      → lo ≤ m
      → order key < order (keys m)
      → (i : ℕ) → m ≤ i
      → i < hi
      → order key ≤ order (keys i)
  rises m a b i p q = ground (arith, sorted m i)

  stays :
      (m : ℕ)
      → m < hi
      → order (keys m) < order key
      → (i : ℕ) → lo ≤ i
      → i < m + 1
      → order (keys i) < order key
  stays m a b i p q = ground (arith, sorted i m)

  -- The bounds of a round: the key's place is between them.
  record Around (l r : ℕ) : Type 0 where
    above_lo : lo ≤ l
    in_order : l ≤ r
    below_hi : r ≤ hi
    below : (i : ℕ) → lo ≤ i → i < l → order (keys i) < order key
    above : (i : ℕ) → r ≤ i → i < hi → order key ≤ order (keys i)

  abbrev Progress : ℕ → Round → Type 0
  Progress n (returns i) = Splits keys key lo hi i
  Progress n (continues l r) = Around l r × (r - l < n)

  module _ (l r : ℕ) (v : Around l r) where
    closed : r ≤ l → Splits keys key lo hi l
    closed h =
        (v.above_lo, omega (arith, v.in_order, v.below_hi), v.below, λ i p. v.above i (omega arith))

    abbrev m : ℕ
    m = l + (r - l) / 2

    left : l < r → order key < order (keys m) → Around l m
    left h k = record {
      above_lo = v.above_lo;
      in_order = omega arith;
      below_hi = omega (arith, v.below_hi);
      below = v.below;
      above = rises m (omega (arith, v.above_lo)) k;
    }

    right : l < r → order (keys m) < order key → Around (m + 1) r
    right h k = record {
      above_lo = omega (arith, v.above_lo);
      in_order = omega arith;
      below_hi = v.below_hi;
      below = stays m (omega (arith, v.below_hi)) k;
      above = v.above;
    }

    round-Progress :
        (a : Bool)
        → ltb l r ≡ a
        → (b : Bool) → (compare_keys key (keys m) == 0) ≡ b
        → (c : Bool) → is_negative (compare_keys key (keys m)) ≡ c
        → Progress (r - l) (
            if a
            then (if b then returns m else (if c then continues l m else continues (m + 1) r))
            else returns l)
    unfolding compare_keys
    round-Progress false e b e' c e2 = closed (ground arith)
    round-Progress true e true e' c e2 =
        at_mid m (omega (arith, v.above_lo)) (ground (arith, v.below_hi)) (ground arith)
    round-Progress true e false e' true e2 = (left (ground arith) (ground arith), ground arith)
    round-Progress true e false e' false e2 = (right (ground arith) (ground arith), ground arith)

    search_round-Progress : Progress (r - l) (search_round keys key l r)
    unfolding search_round compare_keys
    search_round-Progress =
        round-Progress (ltb l r) refl (compare_keys key (keys m) == 0) refl
          (is_negative (compare_keys key (keys m))) refl

  search_from :
      (fuel l r : ℕ) → Around l r → r - l ≤ fuel → Splits keys key lo hi (search keys key fuel l r)
  unfolding search
  search_from zero l r v d = closed l r v (omega arith)
  search_from (suc fuel) l r v d =
      go (λ l' r' u k. search_from fuel l' r' u k) (search_round keys key l r)
        (search_round-Progress l r v)
    where
      go :
          ((l' r' : ℕ)
            → Around l' r'
            → r' - l' ≤ fuel
            → Splits keys key lo hi (search keys key fuel l' r'))
          → (x : Round) → Progress (r - l) x
          → Splits keys key lo hi
              (elim x [ returns i ↦ i | continues l' r' ↦ search keys key fuel l' r' ])
      go again (returns i) h = h
      go again (continues l' r') h = again l' r' h.0 (omega (arith, h.1))

  -- On keys that rise, the search with enough fuel returns the one place of the key.
  pub search-Splits :
      (fuel : ℕ) → hi - lo ≤ fuel → lo ≤ hi → Splits keys key lo hi (search keys key fuel lo hi)
  search-Splits fuel enough h =
      search_from fuel lo hi
        (record {
          above_lo = omega arith;
          in_order = h;
          below_hi = omega arith;
          below = λ i p q. absurd (omega arith);
          above = λ i p q. absurd (omega arith);
        })
        enough
