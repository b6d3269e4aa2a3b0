-- ===== src/Removal/Leaves.antt =====
-- The leaf as a map, when Remove takes a key out of it or makes one of two leaves.
use bicycletub.Common.{
  ℕ, zero, suc, ◌+◌, ◌-◌, ◌<◌, ◌≡◌, refl, arith, true, ◌&&◌, ltb, leb, ◌==◌, if◌then◌else◌, none,
  some, Bool-cases, inl, inr,
}
use bicycletub.Tree.{LeafPage, IntegerKey, move_slots, get_value, is_at, leaf_key_index}
use bicycletub.Tree.Search.{order}
use bicycletub.Tree.Arrays.{Moved, move_slots-Moved, move_slots-max}
use bicycletub.Tree.Leaf.{IsLeaf, Place, leaf_key_index-Place, get_value-Place, is_at-order}
use bicycletub.Removal.{pull_one, pull_down, erase_at, merge_leaves}

-- The slots after the loop.
record Pulled (p : LeafPage) (i n : ℕ) (q : LeafPage) : Type 0 where
  keys :
      (j : ℕ)
      → q.key_array_ j ≡ (if leb i j && ltb j (i + n) then p.key_array_ (j + 1) else p.key_array_ j)
  rids :
      (j : ℕ)
      → q.rid_array_ j ≡ (if leb i j && ltb j (i + n) then p.rid_array_ (j + 1) else p.rid_array_ j)
  size : q.size_ ≡ p.size_
  next : q.next_page_id_ ≡ p.next_page_id_
  max : q.max_size_ ≡ p.max_size_

pull_down-Pulled : (p : LeafPage) (i n : ℕ) → Pulled p i n (pull_down p i n)
unfolding pull_down
pull_down-Pulled p i zero = record {
  keys = λ j. ground arith;
  rids = λ j. ground arith;
  size = refl;
  next = refl;
  max = refl;
}
pull_down-Pulled p i (suc n) =
    let v = pull_down-Pulled (pull_one p i) (i + 1) n in
    record {
      keys = λ j. ground (arith, v.keys j);
      rids = λ j. ground (arith, v.rids j);
      size = v.size;
      next = v.next;
      max = v.max;
    }

-- The leaf without the entry at `index`.
pub record Erased (p : LeafPage) (index : ℕ) (q : LeafPage) : Type 0 where
  pub keys :
      (j : ℕ)
      → j < q.size_
      → q.key_array_ j ≡ (if ltb j index then p.key_array_ j else p.key_array_ (j + 1))
  pub rids :
      (j : ℕ)
      → j < q.size_
      → q.rid_array_ j ≡ (if ltb j index then p.rid_array_ j else p.rid_array_ (j + 1))
  pub size : q.size_ + 1 ≡ p.size_
  pub next : q.next_page_id_ ≡ p.next_page_id_
  pub max : q.max_size_ ≡ p.max_size_

pub erase_at-Erased :
    (p : LeafPage) (index : ℕ) → index < p.size_ → Erased p index (erase_at p index)
unfolding erase_at
erase_at-Erased p index a =
    let v = pull_down-Pulled p index (p.size_ - 1 - index) in
    record {
      keys = λ j b. ground (arith, v.keys j, v.size);
      rids = λ j b. ground (arith, v.rids j, v.size);
      size = omega (arith, v.size);
      next = v.next;
      max = v.max;
    }

module _ (p : LeafPage) (sorted : IsLeaf p) (key : IntegerKey)
    (there : is_at p (leaf_key_index p key) key ≡ true) where
  abbrev index : ℕ
  index = leaf_key_index p key

  place : Place p key index
  place = leaf_key_index-Place p sorted key

  pub stands : (index < p.size_) × (order (p.key_array_ index) ≡ order key)
  stands = (ground (arith, is_at-order p index key), ground (arith, is_at-order p index key))

  erased : Erased p index (erase_at p index)
  erased = erase_at-Erased p index stands.0

  pub erase_at-IsLeaf : IsLeaf (erase_at p index)
  erase_at-IsLeaf i j a b c = ground (
    arith,
    erased.size,
    erased.keys i,
    erased.keys j,
    sorted i j,
    sorted i (j + 1),
    sorted (i + 1) (j + 1),
  )

  -- Where a key's place goes.
  abbrev after : ℕ → ℕ
  after i = if leb i index then i else i - 1

  after-Place : (q : IntegerKey) → Place (erase_at p index) q (after (leaf_key_index p q))
  after-Place q =
      let i = leaf_key_index p q in
      let v = leaf_key_index-Place p sorted q in
      (
        omega arith,
        ground (arith, v.1, erased.size, stands.0),
        λ j a b. ground (arith, erased.size, stands, v.1, erased.keys j, v.2 j, v.2 (j + 1)),
        λ j a b. ground (arith, erased.size, stands, erased.keys j, v.3 j, v.3 (j + 1)),
      )

  -- On a leaf with rising keys that stores the key: after the deletion at its index GetValue finds
  -- nothing under the keys of its order, and what it found under all others.
  pub erase_at-get_value :
      (q : IntegerKey)
      → get_value (erase_at p index) q ≡ (if order key == order q then none else get_value p q)
  erase_at-get_value q =
      let i = leaf_key_index p q in
      let v = leaf_key_index-Place p sorted q in
      ground (
        arith,
        get_value-Place (erase_at p index) erase_at-IsLeaf q (after i) (after-Place q),
        get_value-Place p sorted q i v,
        erased.size,
        erased.keys (after i),
        erased.rids (after i),
        stands,
        place.2 i,
        place.3 i,
        v.1,
        v.2 index,
        v.3 index,
        sorted index (index + 1),
      )

-- Two leaves made one.
module _ (l r : LeafPage) where
  abbrev both : LeafPage
  both = (merge_leaves l r).0

  moved : Moved r l l.size_ 0 r.size_ (move_slots r l l.size_ 0 r.size_)
  moved = move_slots-Moved r l l.size_ 0 r.size_

  -- The slots of the left leaf after the merge.
  pub record Merged : Type 0 where
    pub keys :
        (j : ℕ)
        → j < both.size_
        → both.key_array_ j ≡ (if ltb j l.size_ then l.key_array_ j else r.key_array_ (j - l.size_))
    pub rids :
        (j : ℕ)
        → j < both.size_
        → both.rid_array_ j ≡ (if ltb j l.size_ then l.rid_array_ j else r.rid_array_ (j - l.size_))
    pub size : both.size_ ≡ l.size_ + r.size_
    pub max : both.max_size_ ≡ l.max_size_

  pub merge_leaves-Merged : Merged
  unfolding merge_leaves
  merge_leaves-Merged = record {
    keys = λ j a. ground (arith, moved.right_keys j, moved.right_size);
    rids = λ j a. ground (arith, moved.right_rids j, moved.right_size);
    size = omega (arith, moved.right_size);
    max = (move_slots-max r l l.size_ 0 r.size_).1;
  }

  module _ (left_sorted : IsLeaf l) (right_sorted : IsLeaf r)
      (apart : (i j : ℕ)
        → i < l.size_
        → j < r.size_
        → order (l.key_array_ i) < order (r.key_array_ j)) where
    m : Merged
    m = merge_leaves-Merged

    pub merge_leaves-IsLeaf : IsLeaf both
    merge_leaves-IsLeaf i j a b c = ground (
      arith,
      m.size,
      m.keys i,
      m.keys j,
      left_sorted i j,
      right_sorted (i - l.size_) (j - l.size_),
      apart i (j - l.size_),
    )

    abbrev in_both : IntegerKey → ℕ
    in_both q =
        if ltb (leaf_key_index l q) l.size_
        then leaf_key_index l q
        else l.size_ + leaf_key_index r q

    in_both-Place : (q : IntegerKey) → Place both q (in_both q)
    in_both-Place q =
        let v = leaf_key_index-Place l left_sorted q in
        let w = leaf_key_index-Place r right_sorted q in
        let i = leaf_key_index l q in
        (
          omega arith,
          ground (arith, m.size, v.1, w.1),
          λ j a b. ground (arith, m.size, v.1, w.1, m.keys j, v.2 j, w.2 (j - l.size_)),
          λ j a b. ground (
            arith,
            m.size,
            v.1,
            m.keys j,
            v.3 j,
            v.3 i,
            apart i (j - l.size_),
            w.3 (j - l.size_),
          ),
        )

    -- Of two leaves with rising keys, those of the left one below those of the right one, the merge
    -- makes a leaf with rising keys on which GetValue finds what it found on the left one or else on
    -- the right one.
    pub merge_leaves-get_value :
        (q : IntegerKey)
        → get_value both q ≡ (elim (get_value l q) [ none ↦ get_value r q | some w ↦ some w ])
    merge_leaves-get_value q =
        let i = leaf_key_index l q in
        let j = leaf_key_index r q in
        let v = leaf_key_index-Place l left_sorted q in
        let w = leaf_key_index-Place r right_sorted q in
        let on_both = get_value-Place both merge_leaves-IsLeaf q (in_both q) (in_both-Place q) in
        let on_left = get_value-Place l left_sorted q i v in
        let on_right = get_value-Place r right_sorted q j w in
        elim (Bool-cases (ltb i l.size_ && (order (l.key_array_ i) == order q))) [
          | inl e ↦
              let here : get_value l q ≡ some (l.rid_array_ i) = ground (arith, on_left, e) in
              rw here (ground (arith, e, on_both, m.size, m.keys i, m.rids i))
          | inr e ↦
              let gone : get_value l q ≡ none = ground (arith, on_left, e) in
              rw gone (
                ground (
                  arith,
                  e,
                  on_both,
                  on_right,
                  m.size,
                  v.1,
                  v.3 i,
                  w.1,
                  m.keys (in_both q),
                  m.rids (in_both q),
                  apart i j,
                ))
        ]
