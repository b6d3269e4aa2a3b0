-- ===== src/Tree/Arrays.antt =====
-- What the loops of Insert over the two arrays of a leaf do to each slot.
use bicycletub.Common.{
  ℕ, zero, suc, ◌+◌, ◌-◌, ◌<◌, ◌≤◌, ◌≡◌, refl, arith, ◌==◌, ◌&&◌, ltb, leb, if◌then◌else◌,
}
use bicycletub.Tree.{
  LeafPage, IntegerKey, Rid, shift_one, shift_up, clear_slot, copy_slot, split_leaf, init_leaf,
  min_size, insert_at, move_slots,
}

abbrev pub shifted {ℓ} : {A : Type ℓ} → (ℕ → A) → ℕ → ℕ → ℕ → A
shifted a index i j = if ltb index j && leb j i then a (j - 1) else a j

pub shift_up-key :
    (p : LeafPage) (i n j : ℕ)
    → n ≤ i
    → (shift_up p i n).key_array_ j ≡ shifted p.key_array_ (i - n) i j
unfolding shift_up
shift_up-key p i zero j h = ground arith
shift_up-key p i (suc n) j h = ground (arith, shift_up-key (shift_one p i) (i - 1) n j)

pub shift_up-rid :
    (p : LeafPage) (i n j : ℕ)
    → n ≤ i
    → (shift_up p i n).rid_array_ j ≡ shifted p.rid_array_ (i - n) i j
unfolding shift_up
shift_up-rid p i zero j h = ground arith
shift_up-rid p i (suc n) j h = ground (arith, shift_up-rid (shift_one p i) (i - 1) n j)

shift_up-size : (p : LeafPage) (i n : ℕ) → (shift_up p i n).size_ ≡ p.size_
unfolding shift_up
shift_up-size p i zero = refl
shift_up-size p i (suc n) = shift_up-size (shift_one p i) (i - 1) n

shift_up-next : (p : LeafPage) (i n : ℕ) → (shift_up p i n).next_page_id_ ≡ p.next_page_id_
unfolding shift_up
shift_up-next p i zero = refl
shift_up-next p i (suc n) = shift_up-next (shift_one p i) (i - 1) n

shift_up-max : (p : LeafPage) (i n : ℕ) → (shift_up p i n).max_size_ ≡ p.max_size_
unfolding shift_up
shift_up-max p i zero = refl
shift_up-max p i (suc n) = shift_up-max (shift_one p i) (i - 1) n

pub insert_at-max :
    (p : LeafPage) (index : ℕ) (key : IntegerKey) (value : Rid)
    → (insert_at p index key value).max_size_ ≡ p.max_size_
unfolding insert_at
insert_at-max p index key value = shift_up-max p p.size_ (p.size_ - index)

pub insert_at-next :
    (p : LeafPage) (index : ℕ) (key : IntegerKey) (value : Rid)
    → (insert_at p index key value).next_page_id_ ≡ p.next_page_id_
unfolding insert_at
insert_at-next p index key value = shift_up-next p p.size_ (p.size_ - index)

-- The slots of a leaf after a key went in at `index`.
pub insert_at-key :
    (p : LeafPage) (index : ℕ) (key : IntegerKey) (value : Rid) (j : ℕ)
    → index ≤ p.size_
    → j ≤ p.size_
    → (insert_at p index key value).key_array_ j
      ≡ (if index == j then key else (if ltb index j then p.key_array_ (j - 1) else p.key_array_ j))
unfolding insert_at
insert_at-key p index key value j h k =
    ground (arith, shift_up-key p p.size_ (p.size_ - index) j (omega arith))

pub insert_at-rid :
    (p : LeafPage) (index : ℕ) (key : IntegerKey) (value : Rid) (j : ℕ)
    → index ≤ p.size_
    → j ≤ p.size_
    → (insert_at p index key value).rid_array_ j ≡ (
        if index == j
        then value
        else (if ltb index j then p.rid_array_ (j - 1) else p.rid_array_ j))
unfolding insert_at
insert_at-rid p index key value j h k =
    ground (arith, shift_up-rid p p.size_ (p.size_ - index) j (omega arith))

pub insert_at-size :
    (p : LeafPage) (index : ℕ) (key : IntegerKey) (value : Rid)
    → (insert_at p index key value).size_ ≡ p.size_ + 1
unfolding insert_at
insert_at-size p index key value = ground (arith, shift_up-size p p.size_ (p.size_ - index))

-- The two leaves after `n` rounds of the split's loop.
pub record Moved (p new : LeafPage) (i j n : ℕ) (x : LeafPage × LeafPage) : Type 0 where
  pub left_keys : (k : ℕ) → k < j → x.0.key_array_ k ≡ p.key_array_ k
  pub left_rids : (k : ℕ) → k < j → x.0.rid_array_ k ≡ p.rid_array_ k
  pub right_keys :
      (k : ℕ)
      → x.1.key_array_ k
        ≡ (if leb i k && ltb k (i + n) then p.key_array_ (j + (k - i)) else new.key_array_ k)
  pub right_rids :
      (k : ℕ)
      → x.1.rid_array_ k
        ≡ (if leb i k && ltb k (i + n) then p.rid_array_ (j + (k - i)) else new.rid_array_ k)
  pub left_size : x.0.size_ ≡ p.size_
  pub right_size : x.1.size_ ≡ new.size_ + n

pub move_slots-max :
    (p new : LeafPage) (i j n : ℕ)
    → ((move_slots p new i j n).0.max_size_ ≡ p.max_size_)
      × ((move_slots p new i j n).1.max_size_ ≡ new.max_size_)
unfolding move_slots
move_slots-max p new i j zero = (refl, refl)
move_slots-max p new i j (suc n) =
    move_slots-max (clear_slot p j) (copy_slot p new i j) (i + 1) (j + 1) n

pub move_slots-Moved : (p new : LeafPage) (i j n : ℕ) → Moved p new i j n (move_slots p new i j n)
unfolding move_slots
move_slots-Moved p new i j zero = record {
  left_keys = λ k h. refl;
  left_rids = λ k h. refl;
  right_keys = λ k. ground arith;
  right_rids = λ k. ground arith;
  left_size = refl;
  right_size = omega arith;
}
move_slots-Moved p new i j (suc n) =
    let v = move_slots-Moved (clear_slot p j) (copy_slot p new i j) (i + 1) (j + 1) n in
    record {
      left_keys = λ k h. ground (arith, v.left_keys k);
      left_rids = λ k h. ground (arith, v.left_rids k);
      right_keys = λ k. ground (arith, v.right_keys k);
      right_rids = λ k. ground (arith, v.right_rids k);
      left_size = v.left_size;
      right_size = omega (arith, v.right_size);
    }

-- The slots of the two leaves after the split: the lower half, and the rest.
pub record Halves (p : LeafPage) (new_page_id leaf_max_size : ℕ) (x : LeafPage × LeafPage)
    : Type 0 where
  pub left_keys : (k : ℕ) → k < min_size p.max_size_ → x.0.key_array_ k ≡ p.key_array_ k
  pub left_rids : (k : ℕ) → k < min_size p.max_size_ → x.0.rid_array_ k ≡ p.rid_array_ k
  pub right_keys :
      (k : ℕ)
      → min_size p.max_size_ + k < p.size_
      → x.1.key_array_ k ≡ p.key_array_ (min_size p.max_size_ + k)
  pub right_rids :
      (k : ℕ)
      → min_size p.max_size_ + k < p.size_
      → x.1.rid_array_ k ≡ p.rid_array_ (min_size p.max_size_ + k)
  pub left_size : x.0.size_ ≡ min_size p.max_size_
  pub right_size : x.1.size_ + min_size p.max_size_ ≡ p.size_
  pub left_next : x.0.next_page_id_ ≡ new_page_id
  pub right_next : x.1.next_page_id_ ≡ p.next_page_id_
  pub left_max : x.0.max_size_ ≡ p.max_size_
  pub right_max : x.1.max_size_ ≡ leaf_max_size

pub split_leaf-Halves :
    (p new : LeafPage) (new_page_id leaf_max_size : ℕ)
    → min_size p.max_size_ ≤ p.size_
    → Halves p new_page_id leaf_max_size (split_leaf p new new_page_id leaf_max_size)
unfolding split_leaf
split_leaf-Halves p new new_page_id leaf_max_size h =
    let from = min_size p.max_size_ in
    let v = move_slots-Moved p (init_leaf new leaf_max_size) 0 from (p.size_ - from) in
    record {
      left_keys = λ k c. v.left_keys k c;
      left_rids = λ k c. v.left_rids k c;
      right_keys = λ k c. ground (arith, v.right_keys k);
      right_rids = λ k c. ground (arith, v.right_rids k);
      left_size = omega (arith, v.left_size);
      right_size = omega (arith, v.right_size);
      left_next = refl;
      right_next = refl;
      left_max = (move_slots-max p (init_leaf new leaf_max_size) 0 from (p.size_ - from)).0;
      right_max = (move_slots-max p (init_leaf new leaf_max_size) 0 from (p.size_ - from)).1;
    }
