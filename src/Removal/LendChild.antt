-- ===== src/Removal/LendChild.antt =====
-- Each of the ways to mend an internal page, at its parent.
use bicycletub.Common.{
  ℕ, suc, ◌+◌, ◌-◌, ◌<◌, ◌≤◌, ◌≡◌, ◌≢◌, refl, sym, ap, ◌∙◌, arith, true, false, ltb, leb, ◌==◌,
  half32, Result, ok,
}
use bicycletub.Tree.{internal_page, InternalPage, IntegerKey, min_size}
use bicycletub.Tree.Lookup.{low, high}
use bicycletub.Insertion.{BPlusTree, Casts, store}
use bicycletub.Insertion.Sound.{Places, BranchAt, Sound}
use bicycletub.Removal.{borrow_child_left, borrow_child_right}
use bicycletub.Removal.Joined.{borrow_child_left-RowRespread, borrow_child_right-RowRespread}
use bicycletub.Removal.Pair.{Repaired, sibling-ok}
use bicycletub.Removal.MendChild.{l_kid, r_kid, l, r, differ, lent-Repaired, united-Repaired}
use bicycletub.Removal.Rebalance.{KeyUpdate}
use bicycletub.Removal.Climb.{
  internal_page_slot_cnt, merge_children_at, merge_child, lend_child_right, lend_child_left,
}

module _ (c : Casts) (t : BPlusTree) (places : Places) (height lo hi id : ℕ) (p : InternalPage)
    (v : BranchAt t places (suc (suc height)) lo hi id p)
    (kids : (i : ℕ)
      → i < p.size_
      → Sound t places (suc height) (low p lo i) (high p hi i) (p.page_id_array_ i))
    (inside : lo < hi) (small : t.next_page_id_ < half32)
    (cap_slots : places.cap ≤ internal_page_slot_cnt)
    (internal_two : 2 ≤ t.internal_max_size_) where
  abbrev cap_small : places.cap < half32
  cap_small = omega (arith, cap_slots)

  -- The call returns with the page repaired.
  abbrev pub Repairs : Result (BPlusTree × KeyUpdate) → Type 0
  Repairs x =
      (y : BPlusTree × KeyUpdate) × (x ≡ ok y)
      × Repaired t places internal_page_slot_cnt (suc (suc height)) lo hi id (y.0) (y.1)

  pub same_child :
      (x : ℕ) (q q' : InternalPage)
      → t.pages_ x ≡ internal_page q
      → t.pages_ x ≡ internal_page q'
      → q ≡ q'
  same_child x q q' a b =
      sym (c.as_internal-internal_page q)
      ∙ ap c.as_internal (sym a ∙ b)
      ∙ c.as_internal-internal_page q'

  module _ (a : ℕ) (two : a + 1 < p.size_) where
    abbrev pub left : InternalPage
    left = l t places height lo hi id p v kids inside small cap_slots a two

    abbrev pub right : InternalPage
    right = r t places height lo hi id p v kids inside small cap_slots a two

    abbrev l_id : ℕ
    l_id = p.page_id_array_ a

    abbrev r_id : ℕ
    r_id = p.page_id_array_ (a + 1)

    abbrev down : IntegerKey
    down = p.key_array_ (a + 1)

    pub left_page : t.pages_ l_id ≡ internal_page left
    left_page = (l_kid t places height lo hi id p v kids inside small cap_slots a two).1.page

    pub right_page : t.pages_ r_id ≡ internal_page right
    right_page = (r_kid t places height lo hi id p v kids inside small cap_slots a two).1.page

    pub left_fits :
        (0 < left.size_) × (left.size_ ≤ places.cap) × (left.max_size_ ≡ t.internal_max_size_)
    left_fits =
        let x = (l_kid t places height lo hi id p v kids inside small cap_slots a two).1 in
        (x.used, x.fits, x.max)

    pub right_fits :
        (0 < right.size_) × (right.size_ ≤ places.cap) × (right.max_size_ ≡ t.internal_max_size_)
    right_fits =
        let x = (r_kid t places height lo hi id p v kids inside small cap_slots a two).1 in
        (x.used, x.fits, x.max)

    apart_ids : l_id ≢ r_id
    apart_ids = differ t places height lo hi id p v kids inside small cap_slots a two

    back : a + 1 - 1 ≡ a
    back = omega arith

    merge_pair :
        left.size_ + right.size_ ≤ internal_page_slot_cnt
        → Repaired t places internal_page_slot_cnt
            (suc (suc height))
            lo
            hi
            id
            (merge_children_at c t id p (a + 1) l_id left r_id right).0
            (merge_children_at c t id p (a + 1) l_id left r_id right).1
    unfolding merge_children_at
    merge_pair fits =
        united-Repaired t places height lo hi id p v kids inside small cap_slots a two _ _ _
          (λ q x y. ground (arith, x, y)) (ground (arith, apart_ids)) fits

    pub merge_left-Repairs :
        left.size_ + right.size_ ≤ internal_page_slot_cnt
        → Repairs (merge_child c t r_id right id p (a + 1))
    unfolding merge_child
    merge_left-Repairs slots =
        let in_arrays : leb (left.size_ + right.size_) internal_page_slot_cnt ≡ true =
          ground (arith, slots) in
        let some_left : leb 1 (a + 1) ≡ true = ground arith in
        (
          _,
          rw
              (
                some_left,
                back,
                sibling-ok t places (suc height) lo hi id p v kids inside small cap_small a
                    (omega (arith, two)),
                left_page,
                c.as_internal-internal_page left,
                in_arrays,
              )
              refl,
          merge_pair slots,
        )

    pub merge_right-Repairs :
        a ≡ 0
        → left.size_ + right.size_ ≤ internal_page_slot_cnt
        → Repairs (merge_child c t l_id left id p a)
    unfolding merge_child
    merge_right-Repairs e slots =
        let in_arrays : leb (left.size_ + right.size_) internal_page_slot_cnt ≡ true =
          ground (arith, slots) in
        let none_left : leb 1 a ≡ false = ground (arith, e) in
        (
          _,
          rw
              (
                none_left,
                sibling-ok t places (suc height) lo hi id p v kids inside small cap_small (a + 1)
                    two,
                right_page,
                c.as_internal-internal_page right,
                in_arrays,
              )
              refl,
          merge_pair slots,
        )

    -- The right page lends its first child.
    pub lent_right-Repairs :
        min_size right.max_size_ < right.size_
        → left.size_ < internal_page_slot_cnt
        → Repairs (lend_child_right c t l_id left id p a)
    unfolding lend_child_right
    lent_right-Repairs rich slots =
        let in_arrays : leb (left.size_ + 1) internal_page_slot_cnt ≡ true =
          ground (arith, slots) in
        let there : ltb (a + 1) p.size_ ≡ true = ground (arith, two) in
        let lends : ltb (min_size right.max_size_) right.size_ ≡ true = ground (arith, rich) in
        let s =
          borrow_child_right-RowRespread left right down left_fits.0 right_fits.0
            (omega (arith, rich, right_fits, internal_two)) in
        (
          _,
          rw
              (
                there,
                sibling-ok t places (suc height) lo hi id p v kids inside small cap_small (a + 1)
                    two,
                right_page,
                c.as_internal-internal_page right,
                lends,
                in_arrays,
              )
              refl,
          lent-Repaired t places height lo hi id p v kids inside small cap_slots a two
              (store (store t l_id (internal_page (borrow_child_right left right down).0)) r_id
                (internal_page (borrow_child_right left right down).1)).pages_
              _ _ _ (right.key_array_ 1) (a == 0) s (ground arith) (λ q x y. ground (arith, x, y))
              (ground (arith, apart_ids)) (ground arith) (omega (arith, s.left_size, slots))
              (omega (arith, s.sizes, s.left_size, right_fits, cap_slots)),
        )

    -- The left page lends its last one.
    pub lent_left-Repairs :
        min_size left.max_size_ < left.size_
        → right.size_ < internal_page_slot_cnt
        → Repairs (lend_child_left c t r_id right id p (a + 1))
    unfolding lend_child_left
    lent_left-Repairs rich slots =
        let in_arrays : leb (right.size_ + 1) internal_page_slot_cnt ≡ true =
          ground (arith, slots) in
        let there : leb 1 (a + 1) ≡ true = ground arith in
        let lends : ltb (min_size left.max_size_) left.size_ ≡ true = ground (arith, rich) in
        let s =
          borrow_child_left-RowRespread left right down left_fits.0 right_fits.0
            (omega (arith, rich, left_fits, internal_two)) in
        (
          _,
          rw
              (
                there,
                back,
                sibling-ok t places (suc height) lo hi id p v kids inside small cap_small a
                    (omega (arith, two)),
                left_page,
                c.as_internal-internal_page left,
                lends,
                in_arrays,
              )
              refl,
          lent-Repaired t places height lo hi id p v kids inside small cap_slots a two
              (store (store t r_id (internal_page (borrow_child_left right left down).0)) l_id
                (internal_page (borrow_child_left right left down).1)).pages_
              _ _ _ (left.key_array_ (left.size_ - 1)) (a + 1 == 1) s (ground (arith, left_fits))
              (λ q x y. ground (arith, x, y)) (ground arith) (ground (arith, apart_ids))
              (omega (arith, s.left_size, left_fits, cap_slots))
              (omega (arith, s.sizes, s.left_size, left_fits, slots)),
        )
