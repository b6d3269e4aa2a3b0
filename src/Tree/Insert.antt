-- ===== src/Tree/Insert.antt =====
-- Insert on a leaf (src/b_plus_tree.cpp), with the split of a full one.
use bicycletub.Common.{
  ℕ, ◌+◌, ◌-◌, ◌<◌, ◌≤◌, ◌≡◌, refl, arith, false, ◌==◌, ltb, leb, if◌then◌else◌, Option, none, some,
  Bool-cases, inl, inr,
}
use bicycletub.Tree.{
  LeafPage, IntegerKey, Rid, is_at, get_value, insert_at, leaf_key_index, min_size, Inserted,
  duplicate, into_leaf, into_two, insert_leaf,
}
use bicycletub.Tree.Search.{order}
use bicycletub.Tree.Arrays.{
  Halves, split_leaf-Halves, insert_at-key, insert_at-size, insert_at-next, insert_at-max,
}
use bicycletub.Tree.Leaf.{
  IsLeaf, Place, leaf_key_index-Place, is_at-order, get_value-Place, insert_at-IsLeaf,
  insert_at-get_value,
}
use bicycletub.Tree.Split.{
  left-IsLeaf, right-IsLeaf, left-Place, right-Place, first_right, get_value-left, get_value-right,
}

-- A leaf that stores what `p` stores, and `value` under `key`.
abbrev pub Grown : LeafPage → IntegerKey → Rid → (IntegerKey → Option Rid) → Type 0
Grown p key value found =
    (q : IntegerKey) → found q ≡ (if order key == order q then some value else get_value p q)

-- What Insert does to the leaf.
pub record OneLeaf (p : LeafPage) (key : IntegerKey) (value : Rid) (p' : LeafPage) : Type 0 where
  pub leaf : IsLeaf p'
  pub size : p'.size_ ≡ p.size_ + 1
  pub fits : p'.size_ ≤ p.max_size_
  pub next : p'.next_page_id_ ≡ p.next_page_id_
  pub max : p'.max_size_ ≡ p.max_size_
  pub grown : Grown p key value (get_value p')

pub record TwoLeaves (p : LeafPage) (new_page_id leaf_max_size : ℕ) (key : IntegerKey) (value : Rid)
    (l r : LeafPage) (up_key : IntegerKey) : Type 0 where
  pub left_leaf : IsLeaf l
  pub right_leaf : IsLeaf r
  pub left_next : l.next_page_id_ ≡ new_page_id
  pub right_next : r.next_page_id_ ≡ p.next_page_id_
  pub left_max : l.max_size_ ≡ p.max_size_
  pub right_max : r.max_size_ ≡ leaf_max_size
  pub left_used : 0 < l.size_
  pub sizes : l.size_ + r.size_ ≡ p.size_ + 1
  pub left_fits : l.size_ ≤ p.max_size_
  pub right_fits : r.size_ ≤ p.max_size_
  pub right_used : 0 < r.size_
  pub up_first : up_key ≡ r.key_array_ 0
  pub left_below : (i : ℕ) → i < l.size_ → order (l.key_array_ i) < order up_key
  pub grown :
      Grown p key value (λ q. if ltb (order q) (order up_key) then get_value l q else get_value r q)

abbrev pub InsertOutcome : LeafPage → ℕ → ℕ → IntegerKey → Rid → Inserted → Type 0
InsertOutcome p new_page_id leaf_max_size key value duplicate =
    (w : Rid) × (get_value p key ≡ some w)
InsertOutcome p new_page_id leaf_max_size key value (into_leaf p') =
    (get_value p key ≡ none) × OneLeaf p key value p'
InsertOutcome p new_page_id leaf_max_size key value (into_two l r up_key) =
    (get_value p key ≡ none) × TwoLeaves p new_page_id leaf_max_size key value l r up_key

module _ (p : LeafPage) (sorted : IsLeaf p) (id max : ℕ) (key : IntegerKey) (value : Rid)
    (absent : is_at p (leaf_key_index p key) key ≡ false) where
  abbrev index : ℕ
  index = leaf_key_index p key

  place : Place p key index
  place = leaf_key_index-Place p sorted key

  none_stored : get_value p key ≡ none
  none_stored = ground (arith, get_value-Place p sorted key index place, is_at-order p index key)

  one_leaf : p.size_ < p.max_size_ → OneLeaf p key value (insert_at p index key value)
  one_leaf room = record {
    leaf = insert_at-IsLeaf p sorted key value index place absent;
    size = insert_at-size p index key value;
    fits = omega (arith, insert_at-size p index key value);
    next = insert_at-next p index key value;
    max = insert_at-max p index key value;
    grown = insert_at-get_value p sorted key value index place absent;
  }

  module _ (l r : LeafPage) (h : Halves p id max (l, r)) (part : min_size p.max_size_ < p.size_)
      (two : 2 ≤ p.max_size_) (bounded : p.size_ ≤ p.max_size_) where
    abbrev half : ℕ
    half = min_size p.max_size_

    into_left :
        index < half → TwoLeaves p id max key value (insert_at l index key value) r (r.key_array_ 0)
    into_left a =
        let v = left-Place p sorted id max l r h part key index (omega arith) place in
        let c : is_at l index key ≡ false = ground (
          arith,
          is_at-order p index key,
          is_at-order l index key,
          h.left_size,
          h.left_keys index,
        ) in
        record {
          left_leaf =
              insert_at-IsLeaf l (left-IsLeaf p sorted id max l r h part) key value index v c;
          right_leaf = right-IsLeaf p sorted id max l r h part;
          left_max = ground (arith, insert_at-max l index key value, h.left_max);
          right_max = h.right_max;
          left_used = omega (arith, insert_at-size l index key value);
          left_next = ground (arith, insert_at-next l index key value, h.left_next);
          right_next = h.right_next;
          sizes = omega (arith, insert_at-size l index key value, h.left_size, h.right_size);
          left_fits = omega (arith, insert_at-size l index key value, h.left_size);
          right_fits = omega (arith, h.right_size);
          right_used = omega (arith, h.right_size);
          up_first = refl;
          left_below = λ i b. ground (
            arith,
            insert_at-size l index key value,
            insert_at-key l index key value i,
            h.left_size,
            h.left_keys i,
            h.left_keys (i - 1),
            first_right p sorted id max l r h part,
            sorted i half,
            sorted (i - 1) half,
            sorted index half,
            place.3 index,
            is_at-order p index key,
          );
          grown = λ q. ground (
            arith,
            insert_at-get_value l (left-IsLeaf p sorted id max l r h part) key value index v c q,
            get_value-left p sorted id max l r h part q,
            get_value-right p sorted id max l r h part q,
            first_right p sorted id max l r h part,
            place.3 index,
            is_at-order p index key,
            sorted index half,
            sorted (half - 1) half,
          );
        }

    into_right :
        half ≤ index
        → (let r' = insert_at r (index - half) key value in
            TwoLeaves p id max key value l r' (r'.key_array_ 0))
    into_right a =
        let at = index - half in
        let v = right-Place p sorted id max l r h part key index a place in
        let c : is_at r at key ≡ false =
          ground
            (arith, is_at-order p index key, is_at-order r at key, h.right_size, h.right_keys at) in
        let first = insert_at-key r at key value 0 v.1 (omega arith) in
        record {
          left_leaf = left-IsLeaf p sorted id max l r h part;
          right_leaf =
              insert_at-IsLeaf r (right-IsLeaf p sorted id max l r h part) key value at v c;
          left_max = h.left_max;
          right_max = ground (arith, insert_at-max r at key value, h.right_max);
          left_used = omega (arith, h.left_size, two);
          left_next = h.left_next;
          right_next = ground (arith, insert_at-next r at key value, h.right_next);
          sizes = omega (arith, insert_at-size r at key value, h.left_size, h.right_size);
          left_fits = omega (arith, h.left_size);
          right_fits = omega (arith, insert_at-size r at key value, h.right_size);
          right_used = omega (arith, insert_at-size r at key value);
          up_first = refl;
          left_below = λ i b. ground (
            arith,
            first,
            h.left_size,
            h.left_keys i,
            first_right p sorted id max l r h part,
            sorted i half,
            place.2 i,
          );
          grown = λ q. ground (
            arith,
            first,
            insert_at-get_value r (right-IsLeaf p sorted id max l r h part) key value at v c q,
            get_value-left p sorted id max l r h part q,
            get_value-right p sorted id max l r h part q,
            first_right p sorted id max l r h part,
            place.3 half,
            place.2 half,
            place.2 (half - 1),
            is_at-order p index key,
            sorted (half - 1) half,
          );
        }

-- Insert on a leaf with rising keys, no more than its maximum, which is 2 at least. A key that the
-- leaf stores is refused. Else the leaf, or after a split the two leaves under the key for the
-- parent, store what the leaf stored and the new entry: rising keys, no leaf over the maximum, the
-- left keys below the parent's key, which is the right leaf's first, and the chain of next pages
-- goes from the left leaf through the right one to where it went.
pub insert_leaf-InsertOutcome :
    (p new : LeafPage) (new_page_id leaf_max_size : ℕ) (key : IntegerKey) (value : Rid)
    → IsLeaf p
    → p.size_ ≤ p.max_size_
    → 2 ≤ p.max_size_
    → InsertOutcome p new_page_id leaf_max_size key value
        (insert_leaf p new new_page_id leaf_max_size key value)
unfolding insert_leaf
insert_leaf-InsertOutcome p new id max key value sorted bounded two =
    elim (Bool-cases (is_at p (leaf_key_index p key) key)) [
      | inl here ↦ rw here (
        p.rid_array_ (leaf_key_index p key),
        ground (
          arith,
          get_value-Place p sorted key (leaf_key_index p key) (leaf_key_index-Place p sorted key),
          is_at-order p (leaf_key_index p key) key,
        ),
      )
      | inr absent ↦ elim (Bool-cases (leb p.max_size_ p.size_)) [
        | inr room ↦
            rw (absent, room)
              (
                none_stored p sorted id max key value absent,
                one_leaf p sorted id max key value absent (ground arith),
              )
        | inl full ↦ elim (Bool-cases (leb (min_size p.max_size_) (leaf_key_index p key))) [
          | inl a ↦
              rw (absent, full, a)
                (
                  none_stored p sorted id max key value absent,
                  into_right p sorted id max key value absent _ _
                      (split_leaf-Halves p new id max (ground arith)) (ground arith) two bounded
                      (ground arith),
                )
          | inr a ↦
              rw (absent, full, a)
                (
                  none_stored p sorted id max key value absent,
                  into_left p sorted id max key value absent _ _
                      (split_leaf-Halves p new id max (ground arith)) (ground arith) two bounded
                      (ground arith),
                )
        ]
      ]
    ]
