-- ===== src/Removal/RepairChild.antt =====
-- Remove at the parent of an internal page that has lost a child, or whose first key has changed.
use bicycletub.Common.{
  ℕ, suc, ◌+◌, ◌-◌, ◌<◌, ◌≤◌, ◌≡◌, refl, sym, ap, ◌∙◌, subst, arith, Bool, true, false, ltb, leb,
  Bool-cases, inl, inr, half32, Result,
}
use bicycletub.Tree.{internal_page, InternalPage, min_size}
use bicycletub.Tree.Lookup.{low, high}
use bicycletub.Insertion.{BPlusTree, Casts}
use bicycletub.Insertion.Sound.{Places, BranchAt, Sound}
use bicycletub.Removal.Pair.{sibling-ok}
use bicycletub.Removal.Rebalance.{KeyUpdate}
use bicycletub.Removal.Climb.{
  internal_page_slot_cnt, merge_child, lend_child_right, lend_child_left,
}
use bicycletub.Removal.LendChild.{
  Repairs, same_child, left, right, left_page, right_page, left_fits, right_fits,
  merge_left-Repairs, merge_right-Repairs, lent_right-Repairs, lent_left-Repairs,
}

module _ (c : Casts) (t : BPlusTree) (places : Places) (height lo hi id : ℕ) (p : InternalPage)
    (v : BranchAt t places (suc (suc height)) lo hi id p)
    (kids : (i : ℕ)
      → i < p.size_
      → Sound t places (suc height) (low p lo i) (high p hi i) (p.page_id_array_ i))
    (inside : lo < hi) (small : t.next_page_id_ < half32)
    (cap_slots : places.cap ≤ internal_page_slot_cnt)
    (internal_two : 2 ≤ t.internal_max_size_) where
  abbrev cap_small : places.cap < half32
  cap_small = omega (arith, cap_slots)

  -- The siblings at a position and the one behind it.
  abbrev left_of : (a : ℕ) → a + 1 < p.size_ → InternalPage
  left_of a two = left c t places height lo hi id p v kids inside small cap_slots internal_two a two

  abbrev right_of : (a : ℕ) → a + 1 < p.size_ → InternalPage
  right_of a two =
      right c t places height lo hi id p v kids inside small cap_slots internal_two a two

  abbrev RepairsAll : Result (BPlusTree × KeyUpdate) → Type 0
  RepairsAll x = Repairs c t places height lo hi id p v kids inside small cap_slots internal_two x

  module _ (wide : 2 ≤ p.size_) (i : ℕ) (at : i < p.size_) (child : InternalPage)
      (page : t.pages_ (p.page_id_array_ i) ≡ internal_page child)
      (slots : child.size_ + min_size t.internal_max_size_ ≤ internal_page_slot_cnt) where
    is_left : (two : i + 1 < p.size_) → left_of i two ≡ child
    is_left two =
        same_child c t places height lo hi id p v kids inside small cap_slots internal_two
          (p.page_id_array_ i) (left_of i two) child
          (left_page c t places height lo hi id p v kids inside small cap_slots internal_two i two)
          page

    is_right : (a : ℕ) (e : a + 1 ≡ i) (two : a + 1 < p.size_) → right_of a two ≡ child
    is_right a e two =
        same_child c t places height lo hi id p v kids inside small cap_slots internal_two
          (p.page_id_array_ (a + 1)) (right_of a two) child
          (right_page c t places height lo hi id p v kids inside small cap_slots internal_two a two)
          (ap (λ j. t.pages_ (p.page_id_array_ j)) e ∙ page)

    -- The sibling has no entry to lend.
    abbrev LeftPoor : Type 0
    LeftPoor =
        (a : ℕ) (two : a + 1 < p.size_)
        → a + 1 ≡ i
        → (left_of a two).size_ ≤ min_size (left_of a two).max_size_

    abbrev RightPoor : Type 0
    RightPoor =
        (two : i + 1 < p.size_) → (right_of i two).size_ ≤ min_size (right_of i two).max_size_

    -- The arrays have the slots of a merge and of a loan.
    in_arrays_left :
        (two : i + 1 < p.size_)
        → (right_of i two).size_ ≤ min_size (right_of i two).max_size_
        → (left_of i two).size_ + (right_of i two).size_ ≤ internal_page_slot_cnt
    in_arrays_left two poor = omega (
      arith,
      slots,
      poor,
      ap (λ (q : InternalPage). q.size_) (is_left two),
      ap min_size
          (right_fits c t places height lo hi id p v kids inside small cap_slots internal_two i
            two).2,
    )

    in_arrays_right :
        (a : ℕ) (e : a + 1 ≡ i) (two : a + 1 < p.size_)
        → (left_of a two).size_ ≤ min_size (left_of a two).max_size_
        → (left_of a two).size_ + (right_of a two).size_ ≤ internal_page_slot_cnt
    in_arrays_right a e two poor = omega (
      arith,
      slots,
      poor,
      ap (λ (q : InternalPage). q.size_) (is_right a e two),
      ap min_size
          (left_fits c t places height lo hi id p v kids inside small cap_slots internal_two a
            two).2,
    )

    room_left : (two : i + 1 < p.size_) → (left_of i two).size_ < internal_page_slot_cnt
    room_left two =
        omega (arith, slots, internal_two, ap (λ (q : InternalPage). q.size_) (is_left two))

    room_right :
        (a : ℕ) (e : a + 1 ≡ i) (two : a + 1 < p.size_)
        → (right_of a two).size_ < internal_page_slot_cnt
    room_right a e two =
        omega (arith, slots, internal_two, ap (λ (q : InternalPage). q.size_) (is_right a e two))

    merge_child-Repairs :
        LeftPoor
        → (i ≡ 0 → RightPoor)
        → RepairsAll (merge_child c t (p.page_id_array_ i) child id p i)
    merge_child-Repairs poor poor' = elim (Bool-cases (leb 1 i)) [
      | inl x ↦
          let a = i - 1 in
          let e : a + 1 ≡ i = ground (arith, x) in
          let two : a + 1 < p.size_ = omega (arith, e) in
          subst (λ j. RepairsAll (merge_child c t (p.page_id_array_ j) child id p j)) e
            (subst (λ y. RepairsAll (merge_child c t (p.page_id_array_ (a + 1)) y id p (a + 1)))
              (is_right a e two)
              (merge_left-Repairs c t places height lo hi id p v kids inside small cap_slots
                internal_two a two (in_arrays_right a e two (poor a two e))))
      | inr x ↦
          let zero_is : i ≡ 0 = ground (arith, x) in
          let two : i + 1 < p.size_ = omega arith in
          subst (λ y. RepairsAll (merge_child c t (p.page_id_array_ i) y id p i)) (is_left two)
            (merge_right-Repairs c t places height lo hi id p v kids inside small cap_slots
              internal_two i two zero_is (in_arrays_left two (poor' zero_is two)))
    ]

    lend_child_right-Repairs :
        LeftPoor → RepairsAll (lend_child_right c t (p.page_id_array_ i) child id p i)
    unfolding lend_child_right
    lend_child_right-Repairs poor = go (ltb (i + 1) p.size_) refl
      where
        go :
            (x : Bool)
            → ltb (i + 1) p.size_ ≡ x
            → RepairsAll (lend_child_right c t (p.page_id_array_ i) child id p i)
        go false x =
            subst (RepairsAll) (sym (rw x refl))
              (merge_child-Repairs poor (λ e two. absurd (ground (arith, x, two))))
        go true x =
            let two : i + 1 < p.size_ = ground (arith, x) in
            elim (Bool-cases (ltb (min_size (right_of i two).max_size_) (right_of i two).size_)) [
              | inl y ↦
                  subst (λ z. RepairsAll (lend_child_right c t (p.page_id_array_ i) z id p i))
                    (is_left two)
                    (lent_right-Repairs c t places height lo hi id p v kids inside small cap_slots
                      internal_two i two (ground (arith, y)) (room_left two))
              | inr y ↦
                  subst (RepairsAll)
                    (sym (
                      rw
                        (
                          x,
                          sibling-ok t places (suc height) lo hi id p v kids inside small cap_small
                              (i + 1) two,
                          right_page c t places height lo hi id p v kids inside small cap_slots
                              internal_two i two,
                          c.as_internal-internal_page (right_of i two),
                          y,
                        )
                        refl))
                    (merge_child-Repairs poor (λ e two'. ground (arith, y)))
            ]

    poor_left :
        (a : ℕ) (e : a + 1 ≡ i) (two : a + 1 < p.size_)
        → (left_of a two).size_ ≤ min_size (left_of a two).max_size_
        → LeftPoor
    poor_left a e two h b two' f =
        let b_is : b ≡ a = omega (arith, e, f) in
        let same : left_of b two' ≡ left_of a two =
          same_child c t places height lo hi id p v kids inside small cap_slots internal_two
            (p.page_id_array_ b) (left_of b two') (left_of a two)
            (left_page c t places height lo hi id p v kids inside small cap_slots internal_two b
              two')
            (ap (λ j. t.pages_ (p.page_id_array_ j)) b_is
              ∙ left_page c t places height lo hi id p v kids inside small cap_slots internal_two a
                  two) in
        subst (λ z. z.size_ ≤ min_size z.max_size_) (sym same) h

    -- Remove at the parent of an internal page, at its position, whether it has too few children or
    -- not, in a sound tree with bounds that leave room for a key, an internal maximum of 2 at least,
    -- page ids below 2 ^ 31 and no more children anywhere than a page's arrays have slots, when the
    -- parent has two children at least and the slots are enough for the page's own children and
    -- `GetMinSize()` more: it returns, and writes no slot behind the arrays. It leaves a tree below
    -- the parent that is sound, again with no more children than slots, which finds for every key
    -- what it found, and changes no page outside; the old key that it notes for the page above lies
    -- strictly between the parent's bounds.
    pub lend_child_left-Repairs : RepairsAll (lend_child_left c t (p.page_id_array_ i) child id p i)
    unfolding lend_child_left
    lend_child_left-Repairs = go (leb 1 i) refl
      where
        go :
            (x : Bool)
            → leb 1 i ≡ x
            → RepairsAll (lend_child_left c t (p.page_id_array_ i) child id p i)
        go false x =
            subst (RepairsAll) (sym (rw x refl))
              (lend_child_right-Repairs (λ a two e. absurd (ground (arith, x, e))))
        go true x =
            let a = i - 1 in
            let e : a + 1 ≡ i = ground (arith, x) in
            let two : a + 1 < p.size_ = omega (arith, e, at) in
            elim (Bool-cases (ltb (min_size (left_of a two).max_size_) (left_of a two).size_)) [
              | inl y ↦
                  subst (λ j. RepairsAll (lend_child_left c t (p.page_id_array_ j) child id p j)) e
                    (subst
                      (λ z.
                        RepairsAll (lend_child_left c t (p.page_id_array_ (a + 1)) z id p (a + 1)))
                      (is_right a e two)
                      (lent_left-Repairs c t places height lo hi id p v kids inside small cap_slots
                        internal_two a two (ground (arith, y)) (room_right a e two)))
              | inr y ↦
                  subst (RepairsAll)
                    (sym (
                      rw
                        (
                          x,
                          sibling-ok t places (suc height) lo hi id p v kids inside small cap_small
                              a (omega (arith, two)),
                          left_page c t places height lo hi id p v kids inside small cap_slots
                              internal_two a two,
                          c.as_internal-internal_page (left_of a two),
                          y,
                        )
                        refl))
                    (lend_child_right-Repairs (poor_left a e two (ground (arith, y))))
            ]
