-- ===== src/Insertion/RowLinks.antt =====
-- The chain of the leaves of a row of children, after a change of one child.
use bicycletub.Common.{ℕ, ◌+◌, ◌-◌, ◌<◌, ◌≡◌, ◌≢◌, subst, arith, ltb, ◌==◌, Bool-cases, inl, inr}
use bicycletub.Tree.{InternalPage, IntegerKey}
use bicycletub.Parent.Route.{grown_page}
use bicycletub.Insertion.{BPlusTree}
use bicycletub.Insertion.Leaves.{first, next_first, next_first-same, Linked, RowLinked}

module _ (t t' : BPlusTree) (height : ℕ) (p : InternalPage) (at : ℕ) (inside : at < p.size_)
    (firsts : (j : ℕ)
      → j < p.size_
      → first t' height (p.page_id_array_ j) ≡ first t height (p.page_id_array_ j))
    (kept : (i : ℕ)
      → i < p.size_
      → i ≢ at
      → (next : ℕ) → Linked t height (p.page_id_array_ i) next
      → Linked t' height (p.page_id_array_ i) next) where
  -- The child is linked as it was.
  pub changed-RowLinked :
      ((next : ℕ)
        → Linked t height (p.page_id_array_ at) next
        → Linked t' height (p.page_id_array_ at) next)
      → (next : ℕ) → RowLinked t height p next
      → RowLinked t' height p next
  changed-RowLinked changed next l i a =
      rw (next_first-same t t' height p.size_ p.page_id_array_ next i firsts)
        (elim (Bool-cases (i == at)) [
          | inl e ↦
              subst
                (λ j.
                  (n : ℕ)
                  → Linked t height (p.page_id_array_ j) n
                  → Linked t' height (p.page_id_array_ j) n)
                (ground (arith, e)) changed _ (l i a)
          | inr e ↦ kept i a (ground (arith, e)) _ (l i a)
        ])

  -- The child has a new sibling behind it.
  module _ (key : IntegerKey) (new_id : ℕ)
      (parted : (next : ℕ)
        → Linked t height (p.page_id_array_ at) next
        → Linked t' height (p.page_id_array_ at) (first t' height new_id)
          × Linked t' height new_id next) where
    abbrev wide : InternalPage
    wide = grown_page p (at + 1) key new_id

    next_below :
        (next i : ℕ)
        → i < at
        → next_first t' height wide.size_ wide.page_id_array_ next i
          ≡ next_first t height p.size_ p.page_id_array_ next i
    next_below next i a = ground (arith, inside, firsts (i + 1))

    next_above :
        (next i : ℕ)
        → at < i
        → next_first t' height wide.size_ wide.page_id_array_ next i
          ≡ next_first t height p.size_ p.page_id_array_ next (i - 1)
    next_above next i a = elim (Bool-cases (ltb (i + 1) wide.size_)) [
      | inl c ↦ ground (arith, c, firsts i)
      | inr c ↦ ground (arith, c)
    ]

    next_at :
        (next : ℕ)
        → next_first t' height wide.size_ wide.page_id_array_ next at ≡ first t' height new_id
    next_at next = ground (arith, inside)

    pub parted-RowLinked : (next : ℕ) → RowLinked t height p next → RowLinked t' height wide next
    parted-RowLinked next l i a = elim (Bool-cases (ltb i at)) [
      | inl d ↦
          let same : wide.page_id_array_ i ≡ p.page_id_array_ i = ground (arith, d) in
          rw (next_below next i (ground (arith, d)), same)
            (kept i (ground (arith, inside, d)) (ground (arith, d)) _
              (l i (ground (arith, inside, d))))
      | inr d ↦ elim (Bool-cases (i == at)) [
        | inl e ↦
            let here : i ≡ at = ground (arith, e) in
            let same : wide.page_id_array_ at ≡ p.page_id_array_ at = ground arith in
            rw (here, next_at next, same) ((parted _ (l at inside)).0)
        | inr e ↦ elim (Bool-cases (i == at + 1)) [
          | inl f ↦
              let here : i ≡ at + 1 = ground (arith, f) in
              let same : wide.page_id_array_ (at + 1) ≡ new_id = ground arith in
              let back : at + 1 - 1 ≡ at = omega arith in
              rw (here, next_above next (at + 1) (omega arith), same, back)
                ((parted _ (l at inside)).1)
          | inr f ↦
              let same : wide.page_id_array_ i ≡ p.page_id_array_ (i - 1) =
                ground (arith, d, e, f) in
              rw (next_above next i (ground (arith, d, e)), same)
                (kept (i - 1) (ground (arith, a, d, e)) (ground (arith, d, e, f)) _
                  (l (i - 1) (ground (arith, a, d, e))))
        ]
      ]
    ]
