-- ===== src/Removal/Rebalance.antt =====
-- Remove on the store: the leaf, its siblings and parent, and the loop on the way up.
use bicycletub.Common.{ℕ, ◌+◌, ◌-◌, Bool, Result, ok, ◌>>=◌, if◌then◌else◌, leb, ltb, ◌==◌}
use bicycletub.Tree.{
  Page, leaf_page, internal_page, LeafPage, InternalPage, IntegerKey, min_size, internal_key_index,
  key_at, value_at, compare_keys,
}
use bicycletub.Insertion.{BPlusTree, Casts, open_page, store}
use bicycletub.Removal.{borrow_left, borrow_right, merge_leaves, delete_entry, put_key}

-- `key_update`, `old_key` and `new_key`.
pub record KeyUpdate : Type 0 where
  pub key_update : Bool
  pub old_key : IntegerKey
  pub new_key : IntegerKey

-- The position of the child on the key's way: KeyIndex, and one less for a larger key.
unfoldable pub parent_slot : InternalPage → IntegerKey → Result ℕ
parent_slot p key =
    let i = internal_key_index p key in
    if leb p.size_ i
    then ok (i - 1)
    else (key_at p i >>= λ k. ok (if compare_keys k key == 0 then i else i - 1))

-- The page of a sibling, by its position in the parent.
abbrev pub sibling : BPlusTree → InternalPage → ℕ → Result (ℕ × Page)
sibling t p i = value_at p i >>= λ id. (open_page t id >>= λ page. ok (id, page))

-- A change of the parent that other keys wait for: the key at `i` is new, the first one if so told.
abbrev pub update_of : InternalPage → ℕ → Bool → IntegerKey → KeyUpdate
update_of p i first new_key = record {
  key_update = first;
  old_key = p.key_array_ i;
  new_key = new_key;
}

module _ (c : Casts) where
  open c use {as_leaf, as_internal}

  -- "merge" of two leaves at `index` and the one before, whose entry leaves the parent.
  unfoldable pub merge_at :
      BPlusTree → ℕ → InternalPage → ℕ → ℕ → LeafPage → ℕ → LeafPage → BPlusTree × KeyUpdate
  merge_at t parent_id p index l_id l r_id r =
      let (l', r') = merge_leaves l r in
      let p' = delete_entry p index in
      (
        store (store (store t l_id (leaf_page l')) r_id (leaf_page r')) parent_id
            (internal_page p'),
        update_of p index (index == 1) (p'.key_array_ index),
      )

  -- The three ways to mend the leaf at the position `i`, in their order.
  unfoldable pub merge_leaf :
      BPlusTree → ℕ → LeafPage → ℕ → InternalPage → ℕ → Result (BPlusTree × KeyUpdate)
  merge_leaf t id leaf parent_id p i =
      if leb 1 i
      then (sibling t p (i - 1) >>= λ (l_id, l).
          ok (merge_at t parent_id p i l_id (as_leaf l) id leaf))
      else (sibling t p (i + 1) >>= λ (r_id, r).
          ok (merge_at t parent_id p (i + 1) id leaf r_id (as_leaf r)))

  unfoldable pub lend_right :
      BPlusTree → ℕ → LeafPage → ℕ → InternalPage → ℕ → Result (BPlusTree × KeyUpdate)
  lend_right t id leaf parent_id p i =
      if ltb (i + 1) p.size_
      then (sibling t p (i + 1) >>= λ (r_id, page).
          let r = as_leaf page in
          if ltb (min_size r.max_size_) r.size_
          then (let (leaf', r') = borrow_right leaf r in
              let k = r'.key_array_ 0 in
              ok (
                store (store (store t id (leaf_page leaf')) r_id (leaf_page r')) parent_id
                    (internal_page (put_key p (i + 1) k)),
                update_of p (i + 1) (i == 0) k,
              ))
          else merge_leaf t id leaf parent_id p i)
      else merge_leaf t id leaf parent_id p i

  unfoldable pub lend_left :
      BPlusTree → ℕ → LeafPage → ℕ → InternalPage → ℕ → Result (BPlusTree × KeyUpdate)
  lend_left t id leaf parent_id p i =
      if leb 1 i
      then (sibling t p (i - 1) >>= λ (l_id, page).
          let l = as_leaf page in
          if ltb (min_size l.max_size_) l.size_
          then (let (leaf', l') = borrow_left leaf l in
              let k = leaf'.key_array_ 0 in
              ok (
                store (store (store t id (leaf_page leaf')) l_id (leaf_page l')) parent_id
                    (internal_page (put_key p i k)),
                update_of p i (i == 1) k,
              ))
          else lend_right t id leaf parent_id p i)
      else lend_right t id leaf parent_id p i
