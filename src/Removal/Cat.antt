-- ===== src/Removal/Cat.antt =====
-- The entries of two neighbouring leaves in a row, and leaves that hold a range of them.
use bicycletub.Common.{ℕ, ◌+◌, ◌-◌, ◌<◌, ◌≤◌, ◌≡◌, refl, arith, ltb, if◌then◌else◌}
use bicycletub.Tree.{LeafPage, IntegerKey, get_value, leaf_key_index}
use bicycletub.Tree.Search.{order}
use bicycletub.Tree.Arrays.{
  insert_at-key, insert_at-rid, insert_at-size, insert_at-next, insert_at-max,
}
use bicycletub.Tree.Leaf.{IsLeaf, Place, leaf_key_index-Place, get_value-Place}
use bicycletub.Removal.{borrow_left, borrow_right}
use bicycletub.Removal.Leaves.{erase_at-Erased}

-- `p` holds the entries of `whole` from `m` on.
pub record LeafPart (whole p : LeafPage) (m : ℕ) : Type 0 where
  pub keys : (j : ℕ) → j < p.size_ → p.key_array_ j ≡ whole.key_array_ (m + j)
  pub rids : (j : ℕ) → j < p.size_ → p.rid_array_ j ≡ whole.rid_array_ (m + j)
  pub size : m + p.size_ ≤ whole.size_

module _ (whole p : LeafPage) (m : ℕ) (part : LeafPart whole p m) (sorted : IsLeaf whole) where
  pub LeafPart-IsLeaf : IsLeaf p
  LeafPart-IsLeaf i j a b c =
      ground (arith, part.keys i, part.keys j, part.size, sorted (m + i) (m + j))

  pub LeafPart-get_value :
      (q : IntegerKey)
      → ((j : ℕ) → j < m → order (whole.key_array_ j) < order q)
      → ((j : ℕ) → m + p.size_ ≤ j → j < whole.size_ → order q < order (whole.key_array_ j))
      → get_value p q ≡ get_value whole q
  LeafPart-get_value q before behind =
      let i = leaf_key_index p q in
      let v = leaf_key_index-Place p LeafPart-IsLeaf q in
      let w : Place whole q (m + i) = (
        omega arith,
        omega (arith, v.1, part.size),
        λ j a b. ground (arith, before j, v.1, v.2 (j - m), part.keys (j - m)),
        λ j a b. ground (arith, behind j, v.3 (j - m), part.keys (j - m)),
      ) in
      ground (
        arith,
        get_value-Place p LeafPart-IsLeaf q i v,
        get_value-Place whole sorted q (m + i) w,
        part.keys i,
        part.rids i,
        part.size,
        v.1,
        behind (m + i),
      )

abbrev pub cat : LeafPage → LeafPage → LeafPage
cat l r = record l {
  size_ = l.size_ + r.size_;
  key_array_ = λ j. if ltb j l.size_ then l.key_array_ j else r.key_array_ (j - l.size_);
  rid_array_ = λ j. if ltb j l.size_ then l.rid_array_ j else r.rid_array_ (j - l.size_);
}

pub cat-left : (l r : LeafPage) → LeafPart (cat l r) l 0
cat-left l r = record {
  keys = λ j a. ground (arith, a);
  rids = λ j a. ground (arith, a);
  size = omega arith;
}

pub cat-right : (l r : LeafPage) → LeafPart (cat l r) r l.size_
cat-right l r = record {
  keys = λ j a. ground arith;
  rids = λ j a. ground arith;
  size = omega arith;
}

-- The entries of two leaves spread anew, `m` of them on the left one.
pub record Respread (l r l' r' : LeafPage) (m : ℕ) : Type 0 where
  pub left : LeafPart (cat l r) l' 0
  pub right : LeafPart (cat l r) r' m
  pub left_size : l'.size_ ≡ m
  pub sizes : m + r'.size_ ≡ l.size_ + r.size_
  pub left_next : l'.next_page_id_ ≡ l.next_page_id_
  pub right_next : r'.next_page_id_ ≡ r.next_page_id_
  pub left_max : l'.max_size_ ≡ l.max_size_
  pub right_max : r'.max_size_ ≡ r.max_size_

pub borrow_left-Respread :
    (p l : LeafPage)
    → 0 < l.size_
    → Respread l p (borrow_left p l).1 (borrow_left p l).0 (l.size_ - 1)
unfolding borrow_left
borrow_left-Respread p l a =
    let k = l.key_array_ (l.size_ - 1) in
    let w = l.rid_array_ (l.size_ - 1) in
    let size = insert_at-size p 0 k w in
    record {
      left = record { keys = λ j b. ground arith; rids = λ j b. ground arith; size = omega arith };
      right = record {
        keys = λ j b. ground (arith, size, insert_at-key p 0 k w j);
        rids = λ j b. ground (arith, size, insert_at-rid p 0 k w j);
        size = omega (arith, size);
      };
      left_size = refl;
      sizes = omega (arith, size);
      left_next = refl;
      right_next = insert_at-next p 0 k w;
      left_max = refl;
      right_max = insert_at-max p 0 k w;
    }

pub borrow_right-Respread :
    (p r : LeafPage)
    → 0 < r.size_
    → Respread p r (borrow_right p r).0 (borrow_right p r).1 (p.size_ + 1)
unfolding borrow_right
borrow_right-Respread p r a =
    let e = erase_at-Erased r 0 a in
    record {
      left = record { keys = λ j b. ground arith; rids = λ j b. ground arith; size = omega arith };
      right = record {
        keys = λ j b. ground (arith, e.size, e.keys j);
        rids = λ j b. ground (arith, e.size, e.rids j);
        size = omega (arith, e.size);
      };
      left_size = refl;
      sizes = omega (arith, e.size);
      left_next = refl;
      right_next = e.next;
      left_max = refl;
      right_max = e.max;
    }
