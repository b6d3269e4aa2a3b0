-- ===== src/Iterator/Entries.antt =====
-- Rows of entries with rising keys, and those of a leaf.
use bicycletub.Common.{
  ℕ, zero, suc, ◌+◌, ◌<◌, ◌≤◌, ◌≡◌, refl, sym, ◌∙◌, arith, ◌==◌, ltb, none, List, [], ◌∷◌, ◌++◌,
  Bool-cases, inl, inr,
}
use mathlib.Core.List.{append_assoc}
use bicycletub.Tree.{LeafPage, IntegerKey, get_value, leaf_key_index}
use bicycletub.Tree.Search.{order}
use bicycletub.Tree.Leaf.{IsLeaf, leaf_key_index-Place, get_value-Place}
use bicycletub.Insertion.Many.{Entries, first_value, or_else}
use bicycletub.Iterator.Traversal.{entries, all_entries}

-- The keys rise strictly, from `lo` on and below `hi`.
abbrev pub Rising : ℕ → ℕ → Entries → Type 0
Rising lo hi [] = lo ≤ hi
Rising lo hi ((key, value) ∷ xs) = (lo ≤ order key) × Rising (order key + 1) hi xs

pub Rising-from : (lo' lo hi : ℕ) (xs : Entries) → lo' ≤ lo → Rising lo hi xs → Rising lo' hi xs
Rising-from lo' lo hi [] h r = omega arith
Rising-from lo' lo hi ((key, value) ∷ xs) h (a, r) = (omega arith, r)

Rising-le : (lo hi : ℕ) (xs : Entries) → Rising lo hi xs → lo ≤ hi
Rising-le lo hi [] r = r
Rising-le lo hi ((key, value) ∷ xs) (a, r) =
    let b = Rising-le (order key + 1) hi xs r in omega arith

pub Rising-append :
    (lo mid hi : ℕ) (xs ys : Entries)
    → Rising lo mid xs
    → Rising mid hi ys
    → Rising lo hi (xs ++ ys)
Rising-append lo mid hi [] ys r s = Rising-from lo mid hi ys r s
Rising-append lo mid hi ((key, value) ∷ xs) ys (a, r) s =
    (a, Rising-append (order key + 1) mid hi xs ys r s)

-- A key out of the range has no value.
pub first_value-below :
    (lo hi : ℕ) (xs : Entries) (q : IntegerKey)
    → Rising lo hi xs
    → order q < lo
    → first_value xs q ≡ none
first_value-below lo hi [] q r h = refl
first_value-below lo hi ((key, value) ∷ xs) q (a, r) h =
    let e = first_value-below (order key + 1) hi xs q r (omega arith) in ground (arith, e)

pub first_value-above :
    (lo hi : ℕ) (xs : Entries) (q : IntegerKey)
    → Rising lo hi xs
    → hi ≤ order q
    → first_value xs q ≡ none
first_value-above lo hi [] q r h = refl
first_value-above lo hi ((key, value) ∷ xs) q (a, r) h =
    let b = Rising-le (order key + 1) hi xs r in
    let e = first_value-above (order key + 1) hi xs q r h in ground (arith, e)

pub first_value-append :
    (xs ys : Entries) (q : IntegerKey)
    → first_value (xs ++ ys) q ≡ or_else (first_value xs q) (first_value ys q)
first_value-append [] ys q = refl
first_value-append ((key, value) ∷ xs) ys q = elim (Bool-cases (order key == order q)) [
  | inl e ↦ rw e refl
  | inr e ↦ rw e (first_value-append xs ys q)
]

pub all_entries-append :
    (ps qs : List LeafPage) → all_entries (ps ++ qs) ≡ all_entries ps ++ all_entries qs
all_entries-append [] qs = refl
all_entries-append (p ∷ ps) qs =
    rw (all_entries-append ps qs)
      (sym (append_assoc (entries p 0 p.size_) (all_entries ps) (all_entries qs)))

module _ (p : LeafPage) (sorted : IsLeaf p) (hi : ℕ)
    (below : (i : ℕ) → i < p.size_ → order (p.key_array_ i) < hi) where
  pub entries-Rising :
      (n i lo : ℕ)
      → i + n ≡ p.size_
      → lo ≤ hi
      → (0 < n → lo ≤ order (p.key_array_ i))
      → Rising lo hi (entries p i n)
  entries-Rising zero i lo e a b = a
  entries-Rising (suc n) i lo e a b = (
    b (omega arith),
    entries-Rising n (i + 1) _ (omega (arith, e)) (ground (arith, below i))
        (λ c. ground (arith, sorted i (i + 1))),
  )

  module _ (q : IntegerKey) where
    abbrev stop : ℕ
    stop = leaf_key_index p q

    entries_from :
        (n i : ℕ) → i + n ≡ p.size_ → i ≤ stop → first_value (entries p i n) q ≡ get_value p q
    entries_from zero i e a =
        let v = leaf_key_index-Place p sorted q in
        ground (arith, get_value-Place p sorted q stop v, v.1)
    entries_from (suc n) i e a =
        let v = leaf_key_index-Place p sorted q in
        let g = get_value-Place p sorted q stop v in
        elim (Bool-cases (order (p.key_array_ i) == order q)) [
          | inl f ↦ rw f (ground (arith, g, f, v.2 i))
          | inr f ↦ rw f (elim (Bool-cases (ltb i stop)) [
            | inl x ↦ entries_from n (i + 1) (omega (arith, e)) (ground (arith, x))
            | inr x ↦
                let rest =
                  entries-Rising n (i + 1) (order (p.key_array_ i) + 1) (omega (arith, e))
                    (ground (arith, below i)) (λ c. ground (arith, sorted i (i + 1))) in
                first_value-below _ hi (entries p (i + 1) n) q rest (ground (arith, v.3 i, f, x))
                ∙ ground (arith, g, f, x)
          ])
        ]

    pub first_value-entries : first_value (entries p 0 p.size_) q ≡ get_value p q
    first_value-entries = entries_from p.size_ 0 (omega arith) (omega arith)
