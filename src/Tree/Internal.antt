-- ===== src/Tree/Internal.antt =====
-- An internal page: the bounds of its accessors, the position of a child, and the child that
-- FindLeafPage and FindAndLock go down to (src/b_plus_tree.cpp).
use bicycletub.Common.{
  ℕ, zero, suc, ◌+◌, ◌-◌, ◌<◌, ◌≤◌, ◌≡◌, ◌≢◌, refl, arith, ◌==◌, ltb, if◌then◌else◌, ok, half32,
  minus_one, ◌⊎◌, inl, inr, Bool-cases,
}
use bicycletub.Tree.{
  InternalPage, IntegerKey, key_at, set_key_at, value_at, child_index, value_index_from,
  value_index, internal_key_index, compare_keys,
}
use bicycletub.Tree.Search.{order, IsSorted, Splits, search-Splits, compare_keys_zero}

-- After a `SetKeyAt` that does not throw, `KeyAt` reads the written key at its index, and no other
-- key and no child changes.
pub key_at-set_key_at :
    (p q : InternalPage) (i j : ℕ) (key : IntegerKey)
    → set_key_at p i key ≡ ok q
    → (key_at q j ≡ (if i == j then ok key else key_at p j)) × (value_at q j ≡ value_at p j)
unfolding key_at set_key_at value_at
key_at-set_key_at p q i j key e = (ground arith, ground arith)

value_index_from-lem :
    (p : InternalPage) (value i n : ℕ)
    → i + n < half32
    → let r = value_index_from p value i n in
      ((i ≤ r)
        × (r < i + n)
        × (p.page_id_array_ r ≡ value)
        × ((j : ℕ) → i ≤ j → j < r → p.page_id_array_ j ≢ value))
      ⊎ (r ≡ minus_one) × ((j : ℕ) → i ≤ j → j < i + n → p.page_id_array_ j ≢ value)
unfolding value_index_from
value_index_from-lem p value i zero h = inr (refl, λ j a b. absurd (omega arith))
value_index_from-lem p value i (suc n) h = elim (Bool-cases (p.page_id_array_ i == value)) [
  | inl e ↦ simp e (inl (omega arith, omega arith, ground arith, λ j a b. absurd (omega arith)))
  | inr e ↦ simp e (elim (value_index_from-lem p value (i + 1) n (omega arith)) [
    | inl (a, b, c, d) ↦ inl (omega arith, omega arith, c, λ j x y. ground (arith, d j))
    | inr (a, d) ↦ inr (a, λ j x y. ground (arith, d j))
  ])
]

-- On a page with a size below 2 ^ 31, `ValueIndex` returns the first index that has the child, or -1 if no index has it.
pub value_index-lem :
    (p : InternalPage) (value : ℕ)
    → p.size_ < half32
    → ((value_index p value < p.size_)
        × (p.page_id_array_ (value_index p value) ≡ value)
        × ((j : ℕ) → j < value_index p value → p.page_id_array_ j ≢ value))
      ⊎ (value_index p value ≡ minus_one) × ((j : ℕ) → j < p.size_ → p.page_id_array_ j ≢ value)
value_index-lem p value h = elim (value_index_from-lem p value 0 p.size_ (omega (arith, h))) [
  | inl (a, b, c, d) ↦ inl (omega (arith, b), c, λ j x. d j (omega arith) x)
  | inr (a, d) ↦ inr (a, λ j x. d j (omega arith) (omega arith))
]

-- The child at `i` is the one for the key: its own key is not above it, the next ones are.
abbrev pub Routes : InternalPage → IntegerKey → ℕ → Type 0
Routes p key i =
    (i < p.size_)
    × ((j : ℕ) → 0 < j → j ≤ i → order (p.key_array_ j) ≤ order key)
    × ((j : ℕ) → i < j → j < p.size_ → order key < order (p.key_array_ j))

module _ (p : InternalPage) (key : IntegerKey) (sorted : IsSorted p.key_array_ 1 p.size_)
    (used : 0 < p.size_) (small : p.size_ < half32) where
  place : Splits p.key_array_ key 1 p.size_ (internal_key_index p key)
  place = search-Splits p.key_array_ key 1 p.size_ sorted p.size_ (omega arith) (omega arith)

  before :
      (n : ℕ)
      → Splits p.key_array_ key 1 p.size_ n
      → (n < p.size_ → order key < order (p.key_array_ n))
      → Routes p key (n - 1)
  before n v e = (
    omega (arith, v.0, v.1),
    λ j a b. ground (arith, v.0, v.2 j),
    λ j a b. ground (arith, v.0, v.3 j, e, sorted n j),
  )

  at :
      (n : ℕ)
      → Splits p.key_array_ key 1 p.size_ n
      → n < p.size_
      → order key ≡ order (p.key_array_ n)
      → Routes p key n
  at n v h e = (h, λ j a b. ground (arith, v.2 j), λ j a b. ground (arith, v.0, sorted n j))

  key_at-ok : (n : ℕ) → 1 ≤ n → n < p.size_ → key_at p n ≡ ok (p.key_array_ n)
  unfolding key_at
  key_at-ok n a b = ground arith

  -- On an internal page with rising keys, a child, and a size below 2 ^ 31, the routing returns the key's child.
  pub child_index-Routes : (i : ℕ) × (child_index p key ≡ ok i) × Routes p key i
  unfolding child_index
  child_index-Routes =
      let n = internal_key_index p key in
      elim (Bool-cases (ltb n p.size_)) [
        | inr e ↦ (n - 1, simp e refl, before n place (λ h. absurd (ground arith)))
        | inl e ↦ elim (Bool-cases (compare_keys key (p.key_array_ n) == 0)) [
          | inl c ↦ (
            n,
            simp (e, key_at-ok n place.0 (ground arith), c) refl,
            at n place (ground arith) (ground (arith, compare_keys_zero key (p.key_array_ n))),
          )
          | inr c ↦ (
            n - 1,
            simp (e, key_at-ok n place.0 (ground arith), c) refl,
            before n place (λ h. ground (arith, compare_keys_zero key (p.key_array_ n), place.3 n)),
          )
        ]
      ]

pub value_at-ok :
    (p : InternalPage) (i : ℕ)
    → i < p.size_
    → p.size_ < half32
    → value_at p i ≡ ok (p.page_id_array_ i)
unfolding value_at
value_at-ok p i a b = ground arith
