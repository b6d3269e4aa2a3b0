-- ===== src/Removal/LendLeaf.antt =====
-- Each of the ways to mend a leaf with too few keys, at its parent.
use bicycletub.Common.{
  ℕ, ◌+◌, ◌-◌, ◌<◌, ◌≤◌, ◌≡◌, ◌≢◌, refl, sym, ap, ◌∙◌, arith, true, false, ltb, leb, ◌==◌, half32,
  Result, ok,
}
use bicycletub.Tree.{leaf_page, LeafPage, InternalPage, min_size}
use bicycletub.Tree.Lookup.{low, high}
use bicycletub.Insertion.{BPlusTree, Casts, store}
use bicycletub.Insertion.Sound.{Places, BranchAt, Sound}
use bicycletub.Removal.{borrow_left, borrow_right}
use bicycletub.Removal.Cat.{borrow_left-Respread, borrow_right-Respread}
use bicycletub.Removal.Pair.{Repaired, sibling-ok}
use bicycletub.Removal.MendLeaf.{l_kid, r_kid, l, r, differ, lent-Repaired, united-Repaired}
use bicycletub.Removal.Rebalance.{KeyUpdate, merge_at, merge_leaf, lend_right, lend_left}

module _ (c : Casts) (t : BPlusTree) (places : Places) (lo hi id : ℕ) (p : InternalPage)
    (v : BranchAt t places 1 lo hi id p)
    (kids : (i : ℕ)
      → i < p.size_
      → Sound t places 0 (low p lo i) (high p hi i) (p.page_id_array_ i))
    (inside : lo < hi) (small : t.next_page_id_ < half32) (cap_small : places.cap < half32)
    (leaf_two : 2 ≤ t.leaf_max_size_) where
  -- The call returns with the page repaired.
  abbrev pub Repairs : Result (BPlusTree × KeyUpdate) → Type 0
  Repairs x =
      (y : BPlusTree × KeyUpdate) × (x ≡ ok y)
      × Repaired t places (places.cap + t.internal_max_size_) 1 lo hi id (y.0) (y.1)

  pub same_leaf :
      (x : ℕ) (q q' : LeafPage) → t.pages_ x ≡ leaf_page q → t.pages_ x ≡ leaf_page q' → q ≡ q'
  same_leaf x q q' a b =
      sym (c.as_leaf-leaf_page q) ∙ ap c.as_leaf (sym a ∙ b) ∙ c.as_leaf-leaf_page q'

  module _ (a : ℕ) (two : a + 1 < p.size_) where
    abbrev pub left : LeafPage
    left = l t places lo hi id p v kids inside small cap_small leaf_two a two

    abbrev pub right : LeafPage
    right = r t places lo hi id p v kids inside small cap_small leaf_two a two

    abbrev l_id : ℕ
    l_id = p.page_id_array_ a

    abbrev r_id : ℕ
    r_id = p.page_id_array_ (a + 1)

    pub left_page : t.pages_ l_id ≡ leaf_page left
    left_page = (l_kid t places lo hi id p v kids inside small cap_small leaf_two a two).1.page

    pub right_page : t.pages_ r_id ≡ leaf_page right
    right_page = (r_kid t places lo hi id p v kids inside small cap_small leaf_two a two).1.page

    pub left_fits : (left.size_ ≤ left.max_size_) × (left.max_size_ ≡ t.leaf_max_size_)
    left_fits =
        let x = (l_kid t places lo hi id p v kids inside small cap_small leaf_two a two).1 in
        (x.fits, x.max)

    pub right_fits : (right.size_ ≤ right.max_size_) × (right.max_size_ ≡ t.leaf_max_size_)
    right_fits =
        let x = (r_kid t places lo hi id p v kids inside small cap_small leaf_two a two).1 in
        (x.fits, x.max)

    apart_ids : l_id ≢ r_id
    apart_ids = differ t places lo hi id p v kids inside small cap_small leaf_two a two

    back : a + 1 - 1 ≡ a
    back = omega arith

    merge_pair :
        left.size_ + right.size_ ≤ left.max_size_
        → Repaired t places
            (places.cap + t.internal_max_size_)
            1
            lo
            hi
            id
            (merge_at c t id p (a + 1) l_id left r_id right).0
            (merge_at c t id p (a + 1) l_id left r_id right).1
    unfolding merge_at
    merge_pair fits =
        united-Repaired t places lo hi id p v kids inside small cap_small leaf_two a two _ _ _
          (λ q x y. ground (arith, x, y)) (ground (arith, apart_ids)) fits

    pub merge_left-Repairs :
        left.size_ + right.size_ ≤ left.max_size_ → Repairs (merge_leaf c t r_id right id p (a + 1))
    unfolding merge_leaf
    merge_left-Repairs fits =
        let some_left : leb 1 (a + 1) ≡ true = ground arith in
        (
          _,
          rw
              (
                some_left,
                back,
                sibling-ok t places 0 lo hi id p v kids inside small cap_small a
                    (omega (arith, two)),
                left_page,
                c.as_leaf-leaf_page left,
              )
              refl,
          merge_pair fits,
        )

    pub merge_right-Repairs :
        a ≡ 0
        → left.size_ + right.size_ ≤ left.max_size_
        → Repairs (merge_leaf c t l_id left id p a)
    unfolding merge_leaf
    merge_right-Repairs e fits =
        let none_left : leb 1 a ≡ false = ground (arith, e) in
        (
          _,
          rw
              (
                none_left,
                sibling-ok t places 0 lo hi id p v kids inside small cap_small (a + 1) two,
                right_page,
                c.as_leaf-leaf_page right,
              )
              refl,
          merge_pair fits,
        )

    -- The right leaf lends its first entry.
    pub lent_right-Repairs :
        left.size_ < min_size left.max_size_
        → min_size right.max_size_ < right.size_
        → Repairs (lend_right c t l_id left id p a)
    unfolding lend_right
    lent_right-Repairs thin rich =
        let there : ltb (a + 1) p.size_ ≡ true = ground (arith, two) in
        let lends : ltb (min_size right.max_size_) right.size_ ≡ true = ground (arith, rich) in
        let s = borrow_right-Respread left right (omega arith) in
        (
          _,
          rw
              (
                there,
                sibling-ok t places 0 lo hi id p v kids inside small cap_small (a + 1) two,
                right_page,
                c.as_leaf-leaf_page right,
                lends,
              )
              refl,
          lent-Repaired t places lo hi id p v kids inside small cap_small leaf_two a two
              (store (store t l_id (leaf_page (borrow_right left right).0)) r_id
                (leaf_page (borrow_right left right).1)).pages_
              _ _ _ s (λ q x y. ground (arith, x, y)) (ground (arith, apart_ids)) (ground arith)
              (omega arith) (omega (arith, s.sizes, rich, right_fits, leaf_two))
              (omega (arith, s.left_size, s.left_max, thin, left_fits))
              (omega (arith, s.sizes, s.right_max, right_fits)) (a == 0),
        )

    -- The left leaf lends its last one.
    pub lent_left-Repairs :
        right.size_ < min_size right.max_size_
        → min_size left.max_size_ < left.size_
        → Repairs (lend_left c t r_id right id p (a + 1))
    unfolding lend_left
    lent_left-Repairs thin rich =
        let there : leb 1 (a + 1) ≡ true = ground arith in
        let lends : ltb (min_size left.max_size_) left.size_ ≡ true = ground (arith, rich) in
        let s = borrow_left-Respread right left (omega arith) in
        (
          _,
          rw
              (
                there,
                back,
                sibling-ok t places 0 lo hi id p v kids inside small cap_small a
                    (omega (arith, two)),
                left_page,
                c.as_leaf-leaf_page left,
                lends,
              )
              refl,
          lent-Repaired t places lo hi id p v kids inside small cap_small leaf_two a two
              (store (store t r_id (leaf_page (borrow_left right left).0)) l_id
                (leaf_page (borrow_left right left).1)).pages_
              _ _ _ s (λ q x y. ground (arith, x, y)) (ground arith) (ground (arith, apart_ids))
              (omega (arith, rich, left_fits, leaf_two)) (omega (arith, s.sizes, rich))
              (omega (arith, s.left_size, s.left_max, left_fits))
              (omega (arith, s.sizes, s.right_max, thin, right_fits, rich)) (a + 1 == 1),
        )
