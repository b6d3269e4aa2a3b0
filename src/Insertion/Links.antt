-- ===== src/Insertion/Links.antt =====
-- The chain of the leaves in a store that agrees with another, and on a page over a row of children.
use bicycletub.Common.{
  ℕ, zero, suc, ◌+◌, ◌-◌, ◌<◌, ◌≡◌, refl, ap, ◌∙◌, subst, arith, true, ltb, Bool-cases, inl, inr,
}
use bicycletub.Tree.{internal_page, InternalPage}
use bicycletub.Parent.Part.{Part}
use bicycletub.Insertion.{BPlusTree}
use bicycletub.Insertion.Leaves.{first, next_first, next_first-same, Linked, RowLinked, Linked-row}
use bicycletub.Insertion.Sound.{Places, Sound, Agree, Agree-smaller, child_bounds}
use bicycletub.Insertion.Pieces.{Row, BranchAt-Row, row_bounds, kid-Agree}

module _ (t t' : BPlusTree) (places places' : Places) where
  pub first-Agree :
      (height lo hi id : ℕ)
      → lo < hi
      → Agree t t' places places' height lo hi
      → Sound t places height lo hi id
      → first t' height id ≡ first t height id
  first-Agree zero lo hi id h a (p, v) = refl
  first-Agree (suc height) lo hi id h a (p, v, kids) =
      let b = child_bounds t places (suc height) lo hi id p v h 0 v.used in
      let same = a.pages id v.given (ground (arith, v.here)) in
      rw (same, v.page)
        (first-Agree height _ _ (p.page_id_array_ 0) b.2
          (Agree-smaller t t' places places' (suc height) lo hi height _ _ (omega arith) b.0 b.1 a)
          (kids 0 v.used))

  -- A row on which the stores agree has the same first leaves.
  module _ (height lo hi : ℕ) (whole : InternalPage) (row : Row t places height lo hi whole)
      (inside : lo < hi) (agree : Agree t t' places places' height lo hi) where
    pub kid_first :
        (i : ℕ)
        → i < whole.size_
        → first t' height (whole.page_id_array_ i) ≡ first t height (whole.page_id_array_ i)
    kid_first i a =
        first-Agree height _ _ (whole.page_id_array_ i)
          (row_bounds t t' places places' height lo hi whole row inside agree i a).2
          (kid-Agree t t' places places' height lo hi whole row inside agree i a) (row.kids i a)

    row_next :
        (next i : ℕ)
        → next_first t' height whole.size_ whole.page_id_array_ next i
          ≡ next_first t height whole.size_ whole.page_id_array_ next i
    row_next next i = next_first-same t t' height whole.size_ whole.page_id_array_ next i kid_first

  pub Linked-Agree :
      (height lo hi id next : ℕ)
      → lo < hi
      → Agree t t' places places' height lo hi
      → Sound t places height lo hi id
      → Linked t height id next
      → Linked t' height id next
  Linked-Agree zero lo hi id next h a (p, v) l = rw (a.pages id v.given (ground (arith, v.here))) l
  Linked-Agree (suc height) lo hi id next h a (p, v, kids) l =
      let row = BranchAt-Row t places height lo hi id p v kids in
      let small =
        Agree-smaller t t' places places' (suc height) lo hi height lo hi (omega arith)
          (omega arith) (omega arith) a in
      (Linked-row t' height id next p (a.pages id v.given (ground (arith, v.here)) ∙ v.page)).1
        (λ i b. rw (row_next height lo hi p row h small next i) (
          Linked-Agree height _ _ (p.page_id_array_ i) _
            (row_bounds t t' places places' height lo hi p row h small i b).2
            (kid-Agree t t' places places' height lo hi p row h small i b) (kids i b)
            ((Linked-row t height id next p v.page).0 l i b)))

-- A page over a part of a row of children, in a store where the row is as it was.
module _ (t t' : BPlusTree) (places places' : Places) (height lo hi : ℕ) (whole : InternalPage)
    (row : Row t places height lo hi whole) (inside : lo < hi)
    (agree : Agree t t' places places' height lo hi) (id : ℕ) (p : InternalPage) (m : ℕ)
    (part : Part whole p m) (page : t'.pages_ id ≡ internal_page p) where
  same_first :
      (i : ℕ)
      → i < p.size_
      → first t' height (p.page_id_array_ i) ≡ first t height (whole.page_id_array_ (m + i))
  same_first i a =
      ap (first t' height) (part.children i a)
      ∙ kid_first t t' places places' height lo hi whole row inside agree (m + i)
          (omega (arith, part.size))

  pub piece_first : first t' (suc height) id ≡ first t height (whole.page_id_array_ m)
  piece_first = rw page (
      subst (λ j. first t' height (p.page_id_array_ 0) ≡ first t height (whole.page_id_array_ j))
        (omega arith) (same_first 0 part.used))

  module _ (next next' : ℕ)
      (behind : next'
        ≡ next_first t height whole.size_ whole.page_id_array_ next (m + p.size_ - 1)) where
    piece_next :
        (i : ℕ)
        → i < p.size_
        → next_first t' height p.size_ p.page_id_array_ next' i
          ≡ next_first t height whole.size_ whole.page_id_array_ next (m + i)
    piece_next i a = elim (Bool-cases (ltb (i + 1) p.size_)) [
      | inl c ↦
          let more : ltb (m + i + 1) whole.size_ ≡ true = ground (arith, c, part.size) in
          rw (c, more)
            (subst
              (λ j.
                first t' height (p.page_id_array_ (i + 1))
                ≡ first t height (whole.page_id_array_ j))
              (omega arith) (same_first (i + 1) (ground (arith, c))))
      | inr c ↦
          let last : m + p.size_ - 1 ≡ m + i = ground (arith, c) in
          rw c (behind ∙ ap (next_first t height whole.size_ whole.page_id_array_ next) last)
    ]

    pub piece-Linked : RowLinked t height whole next → Linked t' (suc height) id next'
    piece-Linked l = (Linked-row t' height id next' p page).1 (λ i a.
        rw (piece_next i a, part.children i a)
          (Linked-Agree t t' places places' height _ _ (whole.page_id_array_ (m + i)) _
            (row_bounds t t' places places' height lo hi whole row inside agree (m + i)
              (omega (arith, part.size))).2
            (kid-Agree t t' places places' height lo hi whole row inside agree (m + i)
              (omega (arith, part.size)))
            (row.kids (m + i) (omega (arith, part.size))) (l (m + i) (omega (arith, part.size)))))
