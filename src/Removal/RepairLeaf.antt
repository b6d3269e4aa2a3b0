-- ===== src/Removal/RepairLeaf.antt =====
-- Remove at the parent of a leaf that has too few keys.
use bicycletub.Common.{
  ℕ, ◌+◌, ◌-◌, ◌<◌, ◌≤◌, ◌≡◌, refl, sym, ap, ◌∙◌, subst, arith, Bool, true, false, ltb, leb,
  Bool-cases, inl, inr, half32, Result,
}
use bicycletub.Tree.{leaf_page, LeafPage, InternalPage, min_size}
use bicycletub.Tree.Lookup.{low, high}
use bicycletub.Insertion.{BPlusTree, Casts}
use bicycletub.Insertion.Sound.{Places, BranchAt, Sound}
use bicycletub.Removal.Pair.{sibling-ok}
use bicycletub.Removal.Rebalance.{KeyUpdate, merge_leaf, lend_right, lend_left}
use bicycletub.Removal.LendLeaf.{
  Repairs, same_leaf, left, right, left_page, right_page, left_fits, right_fits, merge_left-Repairs,
  merge_right-Repairs, lent_right-Repairs, lent_left-Repairs,
}

module _ (c : Casts) (t : BPlusTree) (places : Places) (lo hi id : ℕ) (p : InternalPage)
    (v : BranchAt t places 1 lo hi id p)
    (kids : (i : ℕ)
      → i < p.size_
      → Sound t places 0 (low p lo i) (high p hi i) (p.page_id_array_ i))
    (inside : lo < hi) (small : t.next_page_id_ < half32) (cap_small : places.cap < half32)
    (leaf_two : 2 ≤ t.leaf_max_size_) where
  -- The siblings at a position and the one behind it.
  abbrev left_of : (a : ℕ) → a + 1 < p.size_ → LeafPage
  left_of a two = left c t places lo hi id p v kids inside small cap_small leaf_two a two

  abbrev right_of : (a : ℕ) → a + 1 < p.size_ → LeafPage
  right_of a two = right c t places lo hi id p v kids inside small cap_small leaf_two a two

  abbrev RepairsAll : Result (BPlusTree × KeyUpdate) → Type 0
  RepairsAll x = Repairs c t places lo hi id p v kids inside small cap_small leaf_two x

  module _ (wide : 2 ≤ p.size_) (i : ℕ) (at : i < p.size_) (leaf : LeafPage)
      (page : t.pages_ (p.page_id_array_ i) ≡ leaf_page leaf)
      (thin : leaf.size_ < min_size leaf.max_size_) where
    is_left : (two : i + 1 < p.size_) → left_of i two ≡ leaf
    is_left two =
        same_leaf c t places lo hi id p v kids inside small cap_small leaf_two (p.page_id_array_ i)
          (left_of i two) leaf
          (left_page c t places lo hi id p v kids inside small cap_small leaf_two i two) page

    is_right : (a : ℕ) (e : a + 1 ≡ i) (two : a + 1 < p.size_) → right_of a two ≡ leaf
    is_right a e two =
        same_leaf c t places lo hi id p v kids inside small cap_small leaf_two
          (p.page_id_array_ (a + 1)) (right_of a two) leaf
          (right_page c t places lo hi id p v kids inside small cap_small leaf_two a two)
          (ap (λ j. t.pages_ (p.page_id_array_ j)) e ∙ page)

    -- The sibling has no entry to lend.
    abbrev LeftPoor : Type 0
    LeftPoor =
        (a : ℕ) (two : a + 1 < p.size_)
        → a + 1 ≡ i
        → (left_of a two).size_ ≤ min_size (left_of a two).max_size_

    abbrev RightPoor : Type 0
    RightPoor =
        (two : i + 1 < p.size_) → (right_of i two).size_ ≤ min_size (right_of i two).max_size_

    merge_leaf-Repairs :
        LeftPoor
        → (i ≡ 0 → RightPoor)
        → RepairsAll (merge_leaf c t (p.page_id_array_ i) leaf id p i)
    merge_leaf-Repairs poor poor' = elim (Bool-cases (leb 1 i)) [
      | inl x ↦
          let a = i - 1 in
          let e : a + 1 ≡ i = ground (arith, x) in
          let two : a + 1 < p.size_ = omega (arith, e) in
          let fits : (left_of a two).size_ + (right_of a two).size_ ≤ (left_of a two).max_size_ =
            omega (
              arith,
              poor a two e,
              left_fits c t places lo hi id p v kids inside small cap_small leaf_two a two,
              right_fits c t places lo hi id p v kids inside small cap_small leaf_two a two,
              subst (λ y. y.size_ < min_size y.max_size_) (sym (is_right a e two)) thin,
            ) in
          subst (λ j. RepairsAll (merge_leaf c t (p.page_id_array_ j) leaf id p j)) e
            (subst (λ y. RepairsAll (merge_leaf c t (p.page_id_array_ (a + 1)) y id p (a + 1)))
              (is_right a e two)
              (merge_left-Repairs c t places lo hi id p v kids inside small cap_small leaf_two a two
                fits))
      | inr x ↦
          let zero_is : i ≡ 0 = ground (arith, x) in
          let two : i + 1 < p.size_ = omega arith in
          let fits : (left_of i two).size_ + (right_of i two).size_ ≤ (left_of i two).max_size_ =
            omega (
              arith,
              poor' zero_is two,
              left_fits c t places lo hi id p v kids inside small cap_small leaf_two i two,
              right_fits c t places lo hi id p v kids inside small cap_small leaf_two i two,
              subst (λ y. y.size_ < min_size y.max_size_) (sym (is_left two)) thin,
            ) in
          subst (λ y. RepairsAll (merge_leaf c t (p.page_id_array_ i) y id p i)) (is_left two)
            (merge_right-Repairs c t places lo hi id p v kids inside small cap_small leaf_two i two
              zero_is fits)
    ]

    lend_right-Repairs : LeftPoor → RepairsAll (lend_right c t (p.page_id_array_ i) leaf id p i)
    unfolding lend_right
    lend_right-Repairs poor = go (ltb (i + 1) p.size_) refl
      where
        go :
            (x : Bool)
            → ltb (i + 1) p.size_ ≡ x
            → RepairsAll (lend_right c t (p.page_id_array_ i) leaf id p i)
        go false x =
            subst (RepairsAll) (sym (rw x refl))
              (merge_leaf-Repairs poor (λ e two. absurd (ground (arith, x, two))))
        go true x =
            let two : i + 1 < p.size_ = ground (arith, x) in
            elim (Bool-cases (ltb (min_size (right_of i two).max_size_) (right_of i two).size_)) [
              | inl y ↦
                  subst (λ z. RepairsAll (lend_right c t (p.page_id_array_ i) z id p i))
                    (is_left two)
                    (lent_right-Repairs c t places lo hi id p v kids inside small cap_small leaf_two
                      i two (subst (λ z. z.size_ < min_size z.max_size_) (sym (is_left two)) thin)
                      (ground (arith, y)))
              | inr y ↦
                  subst (RepairsAll)
                    (sym (
                      rw
                        (
                          x,
                          sibling-ok t places 0 lo hi id p v kids inside small cap_small (i + 1)
                              two,
                          right_page c t places lo hi id p v kids inside small cap_small leaf_two i
                              two,
                          c.as_leaf-leaf_page (right_of i two),
                          y,
                        )
                        refl))
                    (merge_leaf-Repairs poor (λ e two'. ground (arith, y)))
            ]

    poor_left :
        (a : ℕ) (e : a + 1 ≡ i) (two : a + 1 < p.size_)
        → (left_of a two).size_ ≤ min_size (left_of a two).max_size_
        → LeftPoor
    poor_left a e two h b two' f =
        let b_is : b ≡ a = omega (arith, e, f) in
        let same : left_of b two' ≡ left_of a two =
          same_leaf c t places lo hi id p v kids inside small cap_small leaf_two
            (p.page_id_array_ b) (left_of b two') (left_of a two)
            (left_page c t places lo hi id p v kids inside small cap_small leaf_two b two')
            (ap (λ j. t.pages_ (p.page_id_array_ j)) b_is
              ∙ left_page c t places lo hi id p v kids inside small cap_small leaf_two a two) in
        subst (λ z. z.size_ ≤ min_size z.max_size_) (sym same) h

    -- Remove at the parent of a leaf with fewer keys than its minimum, at the child's position, in a
    -- sound tree with bounds that leave room for a key, a leaf maximum of 2 at least and page ids and the bound on the children below 2 ^ 31,
    -- when the parent has two children at least: it returns. It leaves a sound tree below the parent,
    -- which finds for every key what it found, and changes no page outside; the old key that it
    -- notes for the page above lies strictly between the parent's bounds; the bound on the children
    -- grows by the internal maximum.
    pub lend_left-Repairs : RepairsAll (lend_left c t (p.page_id_array_ i) leaf id p i)
    unfolding lend_left
    lend_left-Repairs = go (leb 1 i) refl
      where
        go : (x : Bool) → leb 1 i ≡ x → RepairsAll (lend_left c t (p.page_id_array_ i) leaf id p i)
        go false x =
            subst (RepairsAll) (sym (rw x refl))
              (lend_right-Repairs (λ a two e. absurd (ground (arith, x, e))))
        go true x =
            let a = i - 1 in
            let e : a + 1 ≡ i = ground (arith, x) in
            let two : a + 1 < p.size_ = omega (arith, e, at) in
            elim (Bool-cases (ltb (min_size (left_of a two).max_size_) (left_of a two).size_)) [
              | inl y ↦
                  subst (λ j. RepairsAll (lend_left c t (p.page_id_array_ j) leaf id p j)) e
                    (subst
                      (λ z. RepairsAll (lend_left c t (p.page_id_array_ (a + 1)) z id p (a + 1)))
                      (is_right a e two)
                      (lent_left-Repairs c t places lo hi id p v kids inside small cap_small
                        leaf_two a two
                        (subst (λ z. z.size_ < min_size z.max_size_) (sym (is_right a e two)) thin)
                        (ground (arith, y))))
              | inr y ↦
                  subst (RepairsAll)
                    (sym (
                      rw
                        (
                          x,
                          sibling-ok t places 0 lo hi id p v kids inside small cap_small a
                              (omega (arith, two)),
                          left_page c t places lo hi id p v kids inside small cap_small leaf_two a
                              two,
                          c.as_leaf-leaf_page (left_of a two),
                          y,
                        )
                        refl))
                    (lend_right-Repairs (poor_left a e two (ground (arith, y))))
            ]
