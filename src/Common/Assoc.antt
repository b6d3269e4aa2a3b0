-- ===== src/Common/Assoc.antt =====
-- `std::unordered_map` from numbers, as an association list. Its order is the model's own, and no
-- theorem depends on it.
use Prim.Native.Nat.{ℕ, suc, ◌+◌, ◌≤◌, ◌<◌, max}
use mathlib.Core.Path.{◌≡◌, refl, ap}
use mathlib.Core.Logic.{inl, inr}
use mathlib.Core.Bool.{Bool, true}
use mathlib.Core.List.{List, [], ◌∷◌}
use mathlib.Core.Option.{Option, none, some}
use native.Mathlib.Omega.{arith}
use bicycletub.Common.Tests.{◌==◌, if◌then◌else◌, bit, bit_of, Option-cases}
use bicycletub.Common.Lists.{length, count, length-le_of_distinct}

abbrev pub keys {ℓ} : {V : Type ℓ} → List (ℕ × V) → List ℕ
keys [] = []
keys ((k, v) ∷ m) = k ∷ keys m

module _ {ℓ} {V : Type ℓ} where
  unfoldable pub lookup : ℕ → List (ℕ × V) → Option V
  lookup wanted [] = none
  lookup wanted ((found, x) ∷ rest) = if found == wanted then some x else lookup wanted rest

  -- `m[k] = v`.
  unfoldable pub insert : ℕ → V → List (ℕ × V) → List (ℕ × V)
  insert key x [] = (key, x) ∷ []
  insert key x ((found, y) ∷ rest) =
      if found == key then (key, x) ∷ rest else (found, y) ∷ insert key x rest

  -- `m.erase(k)`.
  unfoldable pub erase : ℕ → List (ℕ × V) → List (ℕ × V)
  erase k [] = []
  erase k ((j, w) ∷ m) = if j == k then erase k m else (j, w) ∷ erase k m

  pub lookup-insert :
      (key q : ℕ) (x : V) (rest : List (ℕ × V))
      → lookup q (insert key x rest) ≡ (if key == q then some x else lookup q rest)
  unfolding lookup insert
  lookup-insert key q x [] = refl
  lookup-insert key q x ((g, y) ∷ rest) = ground (arith, lookup-insert key q x rest)

  pub lookup-erase :
      (k j : ℕ) (m : List (ℕ × V)) → lookup j (erase k m) ≡ (if k == j then none else lookup j m)
  unfolding lookup erase
  lookup-erase k j [] = ground arith
  lookup-erase k j ((i, w) ∷ m) = ground (arith, lookup-erase k j m)

  abbrev pub tally : (V → Bool) → List (ℕ × V) → ℕ
  tally p [] = 0
  tally p ((k, v) ∷ m) = bit (p v) + tally p m

  -- Every key stands once: what an unordered map guarantees.
  abbrev pub IsMap : List (ℕ × V) → Type 0
  IsMap m = (k : ℕ) → count k (keys m) ≡ bit_of (λ _. true) (lookup k m)

  count-keys-insert :
      (k j : ℕ) (v : V) (m : List (ℕ × V))
      → count j (keys (insert k v m))
        ≡ (if k == j then max 1 (count j (keys m)) else count j (keys m))
  unfolding insert
  count-keys-insert k j v [] = ground arith
  count-keys-insert k j v ((i, w) ∷ m) = ground (arith, count-keys-insert k j v m)

  count-keys-erase :
      (k j : ℕ) (m : List (ℕ × V))
      → count j (keys (erase k m)) ≡ (if k == j then 0 else count j (keys m))
  unfolding erase
  count-keys-erase k j [] = ground arith
  count-keys-erase k j ((i, w) ∷ m) = ground (arith, count-keys-erase k j m)

  pub count_of_lookup :
      (k : ℕ) (v : V) (m : List (ℕ × V)) → lookup k m ≡ some v → 0 < count k (keys m)
  unfolding lookup
  count_of_lookup k v [] e = cc
  count_of_lookup k v ((j, w) ∷ m) e = ground (arith, count_of_lookup k v m)

  pub IsMap-distinct : (m : List (ℕ × V)) → IsMap m → (k : ℕ) → count k (keys m) ≤ 1
  IsMap-distinct m h k = ground (arith, h k)

  pub IsMap-insert : (k : ℕ) (v : V) (m : List (ℕ × V)) → IsMap m → IsMap (insert k v m)
  IsMap-insert k v m h j = ground (arith, h j, count-keys-insert k j v m, lookup-insert k j v m)

  pub IsMap-erase : (k : ℕ) (m : List (ℕ × V)) → IsMap m → IsMap (erase k m)
  IsMap-erase k m h j = ground (arith, h j, count-keys-erase k j m, lookup-erase k j m)

  -- Every entry of `m` is what `t` has under its key.
  abbrev pub AllIn : List (ℕ × V) → List (ℕ × V) → Type ℓ
  AllIn t [] = Unit
  AllIn t ((k, v) ∷ m) = (lookup k t ≡ some v) × AllIn t m

  AllIn-cons :
      (k : ℕ) (v : V) (t m : List (ℕ × V)) → count k (keys m) ≡ 0 → AllIn t m → AllIn ((k, v) ∷ t) m
  unfolding lookup
  AllIn-cons k v t [] c h = tt
  AllIn-cons k v t ((j, w) ∷ m) c h = (ground arith, AllIn-cons k v t m (ground arith) h.1)

  pub AllIn-self : (m : List (ℕ × V)) → ((k : ℕ) → count k (keys m) ≤ 1) → AllIn m m
  AllIn-self [] h = tt
  AllIn-self ((k, v) ∷ m) h = (
    unfold lookup in ground arith,
    AllIn-cons k v m m (ground (arith, h k)) (AllIn-self m (λ j. omega (arith, h j))),
  )

  pub tally-insert :
      (p : V → Bool) (k : ℕ) (v : V) (m : List (ℕ × V))
      → tally p (insert k v m) + bit_of p (lookup k m) ≡ tally p m + bit (p v)
  unfolding lookup insert
  tally-insert p k v [] = omega arith
  tally-insert p k v ((i, w) ∷ m) = ground (arith, tally-insert p k v m)

  tally-erase_absent :
      (p : V → Bool) (k : ℕ) (m : List (ℕ × V))
      → count k (keys m) ≡ 0
      → tally p (erase k m) ≡ tally p m
  unfolding erase
  tally-erase_absent p k [] h = refl
  tally-erase_absent p k ((i, w) ∷ m) h = ground (arith, tally-erase_absent p k m)

  tally-erase_le :
      (p : V → Bool) (k : ℕ) (m : List (ℕ × V))
      → count k (keys m) ≤ 1
      → tally p (erase k m) + bit_of p (lookup k m) ≡ tally p m
  unfolding lookup erase
  tally-erase_le p k [] h = refl
  tally-erase_le p k ((i, w) ∷ m) h = ground (arith, tally-erase_absent p k m, tally-erase_le p k m)

  pub tally-erase :
      (p : V → Bool) (k : ℕ) (m : List (ℕ × V))
      → IsMap m
      → tally p (erase k m) + bit_of p (lookup k m) ≡ tally p m
  tally-erase p k m h = ground (arith, h k, tally-erase_le p k m)

  pub tally-le-length : (p : V → Bool) (m : List (ℕ × V)) → tally p m ≤ length m
  tally-le-length p [] = omega arith
  tally-le-length p ((k, v) ∷ m) = ground (arith, tally-le-length p m)

  pub tally-pos :
      (p : V → Bool) (k : ℕ) (v : V) (m : List (ℕ × V))
      → lookup k m ≡ some v
      → p v ≡ true
      → 0 < tally p m
  unfolding lookup
  tally-pos p k v [] e h = cc
  tally-pos p k v ((i, w) ∷ m) e h = ground (arith, tally-pos p k v m)

  -- A map with keys below `n` has at most `n` entries.
  pub length-le_of_keys-lt :
      (n : ℕ) (m : List (ℕ × V))
      → IsMap m
      → ((k : ℕ) (v : V) → lookup k m ≡ some v → k < n)
      → length m ≤ n
  length-le_of_keys-lt n m h b = omega (
    arith,
    length-keys m,
    length-le_of_distinct n (keys m) (λ k. ground (arith, h k)) (λ k p. below k p),
  )
    where
      length-keys : (m : List (ℕ × V)) → length (keys m) ≡ length m
      length-keys [] = refl
      length-keys ((k, v) ∷ m) = ap suc (length-keys m)

      below : (k : ℕ) → 0 < count k (keys m) → k < n
      below k p = elim (Option-cases (lookup k m)) [
        | inl e ↦ absurd (omega (arith, h k, ap (bit_of (λ _. true)) e))
        | inr (v, e) ↦ b k v e
      ]
