-- ===== src/Common/Lists.antt =====
-- Lists measured by native numbers, and how often a number occurs in a list.
use Prim.Native.Nat.{ℕ, zero, suc, ◌+◌, ◌≤◌, ◌<◌}
use mathlib.Core.Path.{◌≡◌, refl}
use mathlib.Core.List.{List, [], ◌∷◌}
use native.Mathlib.Omega.{arith}
use bicycletub.Common.Tests.{◌==◌, if◌then◌else◌, bit}

module _ {ℓ} {A : Type ℓ} where
  abbrev pub length : List A → ℕ
  length [] = 0
  length (x ∷ xs) = suc (length xs)

abbrev pub count : ℕ → List ℕ → ℕ
count a [] = 0
count a (x ∷ xs) = bit (x == a) + count a xs

-- `std::list::remove`.
abbrev pub remove : ℕ → List ℕ → List ℕ
remove a [] = []
remove a (x ∷ xs) = if x == a then remove a xs else x ∷ remove a xs

pub count-remove :
    (a b : ℕ) (xs : List ℕ) → count b (remove a xs) ≡ (if a == b then 0 else count b xs)
count-remove a b [] = ground arith
count-remove a b (x ∷ xs) = ground (arith, count-remove a b xs)

pub count-le-length : (a : ℕ) (xs : List ℕ) → count a xs ≤ length xs
count-le-length a [] = omega arith
count-le-length a (x ∷ xs) = ground (arith, count-le-length a xs)

-- Occurrences of the numbers below `n`.
total : ℕ → List ℕ → ℕ
total zero xs = 0
total (suc n) xs = count n xs + total n xs

total-nil : (n : ℕ) → total n [] ≡ 0
unfolding total
total-nil zero = refl
total-nil (suc n) = omega (arith, total-nil n)

total-cons : (n x : ℕ) (xs : List ℕ) → x < n → total n (x ∷ xs) ≡ suc (total n xs)
unfolding total
total-cons zero x xs h = elim h [ ]
total-cons (suc n) x xs h = ground (arith, total-cons n x xs, total-cons_above n x xs)
  where
    total-cons_above : (n x : ℕ) (xs : List ℕ) → n ≤ x → total n (x ∷ xs) ≡ total n xs
    total-cons_above zero x xs h = refl
    total-cons_above (suc n) x xs h = ground (arith, total-cons_above n x xs)

total-le : (n : ℕ) (xs : List ℕ) → ((a : ℕ) → count a xs ≤ 1) → total n xs ≤ n
unfolding total
total-le zero xs h = omega arith
total-le (suc n) xs h = omega (arith, h n, total-le n xs h)

length-total : (n : ℕ) (xs : List ℕ) → ((a : ℕ) → 0 < count a xs → a < n) → length xs ≡ total n xs
length-total n [] h = omega (arith, total-nil n)
length-total n (x ∷ xs) h =
    omega
      (arith, total-cons n x xs (h x (ground arith)), length-total n xs (λ a p. h a (omega arith)))

-- Distinct numbers below `n` are at most `n`.
pub length-le_of_distinct :
    (n : ℕ) (xs : List ℕ)
    → ((a : ℕ) → count a xs ≤ 1)
    → ((a : ℕ) → 0 < count a xs → a < n)
    → length xs ≤ n
length-le_of_distinct n xs d b = omega (arith, total-le n xs d, length-total n xs b)
