-- ===== src/Tree/Split.antt =====
-- The split of a full leaf: which of the two leaves has the place of a key.
use bicycletub.Common.{ℕ, ◌+◌, ◌-◌, ◌<◌, ◌≤◌, ◌≡◌, arith}
use bicycletub.Tree.{LeafPage, IntegerKey, get_value, leaf_key_index, min_size}
use bicycletub.Tree.Search.{order}
use bicycletub.Tree.Arrays.{Halves}
use bicycletub.Tree.Leaf.{IsLeaf, Place, leaf_key_index-Place, get_value-Place}

module _ (p : LeafPage) (sorted : IsLeaf p) (id max : ℕ) (l r : LeafPage)
    (h : Halves p id max (l, r)) (part : min_size p.max_size_ < p.size_) where
  abbrev from : ℕ
  from = min_size p.max_size_

  pub left-IsLeaf : IsLeaf l
  left-IsLeaf i j a b c = ground (arith, h.left_size, h.left_keys i, h.left_keys j, sorted i j)

  pub right-IsLeaf : IsLeaf r
  right-IsLeaf i j a b c =
      ground (arith, h.right_size, h.right_keys i, h.right_keys j, sorted (from + i) (from + j))

  -- The place of a key in the leaf that the first key of the new one sends it to.
  pub left-Place : (key : IntegerKey) (i : ℕ) → i ≤ from → Place p key i → Place l key i
  left-Place key i a v = (
    omega arith,
    omega (arith, h.left_size),
    λ j b c. ground (arith, h.left_keys j, v.2 j),
    λ j b c. ground (arith, h.left_size, h.left_keys j, v.3 j),
  )

  pub right-Place : (key : IntegerKey) (i : ℕ) → from ≤ i → Place p key i → Place r key (i - from)
  right-Place key i a v = (
    omega arith,
    omega (arith, h.right_size, v.1),
    λ j b c. ground (arith, h.right_keys j, v.2 (from + j), v.1),
    λ j b c. ground (arith, h.right_size, h.right_keys j, v.3 (from + j)),
  )

  pub first_right : r.key_array_ 0 ≡ p.key_array_ from
  first_right = ground (arith, h.right_keys 0)

  pub get_value-left :
      (q : IntegerKey) → order q < order (p.key_array_ from) → get_value l q ≡ get_value p q
  get_value-left q a =
      let i = leaf_key_index p q in
      let v = leaf_key_index-Place p sorted q in
      ground (
        arith,
        get_value-Place p sorted q i v,
        get_value-Place l left-IsLeaf q i (left-Place q i (ground (arith, v.2 from)) v),
        v.2 from,
        h.left_size,
        h.left_keys i,
        h.left_rids i,
      )

  pub get_value-right :
      (q : IntegerKey) → order (p.key_array_ (from - 1)) < order q → get_value r q ≡ get_value p q
  get_value-right q a =
      let i = leaf_key_index p q in
      let v = leaf_key_index-Place p sorted q in
      let b = at_least i v in
      ground (
        arith,
        get_value-Place p sorted q i v,
        b,
        get_value-Place r right-IsLeaf q (i - from) (right-Place q i b v),
        h.right_size,
        h.right_keys (i - from),
        h.right_rids (i - from),
      )
    where
      at_least : (i : ℕ) → Place p q i → from ≤ i
      at_least i v = ground (arith, v.3 (from - 1))
