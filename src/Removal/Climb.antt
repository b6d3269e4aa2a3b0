-- ===== src/Removal/Climb.antt =====
-- Remove above the leaf's parent: the loop "process internal page", and the whole of Remove. An
-- assertion that fails is the error null_deref of what it guards. A loan or a merge that would write
-- behind the 510 slots of a page's arrays, which the source does not test, is the error out_of_range:
-- `key_array_[510]` is the memory of `page_id_array_[0]`.
use bicycletub.Common.{
  ℕ, zero, suc, ◌+◌, ◌-◌, true, false, not, ◌&&◌, ◌||◌, List, [], ◌∷◌, Result, ok, err, blocked,
  null_deref, out_of_range, ◌>>=◌, if◌then◌else◌, leb, ltb, ◌==◌, minus_one,
}
use bicycletub.Tree.{
  leaf_page, internal_page, LeafPage, InternalPage, IntegerKey, min_size, leaf_key_index,
  internal_key_index, key_at, compare_keys, is_at,
}
use bicycletub.Insertion.{BPlusTree, Casts, store, find_and_lock}
use bicycletub.Removal.{
  erase_at, delete_entry, put_key, borrow_child_left, borrow_child_right, merge_internal,
}
use bicycletub.Removal.Rebalance.{KeyUpdate, parent_slot, sibling, update_of, lend_left}

-- INTERNAL_PAGE_SLOT_CNT, on 8-byte slots in 4096 bytes.
abbrev pub internal_page_slot_cnt : ℕ
internal_page_slot_cnt = 510

-- What a page with `used` entries gets, if its arrays have the slots.
abbrev pub in_slots : {A : Type 0} → ℕ → A → Result A
in_slots used x = if leb used internal_page_slot_cnt then ok x else err out_of_range

-- "if(key_update)": the old key of the parent made the new one.
unfoldable pub tell_key : InternalPage → KeyUpdate → Result InternalPage
tell_key p u =
    let i = internal_key_index p u.old_key in
    if not u.key_update || leb p.size_ i
    then ok p
    else (key_at p i >>= λ k.
        ok (if compare_keys k u.old_key == 0 then put_key p i u.new_key else p))

module _ (c : Casts) where
  open c use {as_leaf, as_internal}

  unfoldable pub merge_children_at :
      BPlusTree → ℕ → InternalPage → ℕ → ℕ → InternalPage → ℕ → InternalPage → BPlusTree × KeyUpdate
  merge_children_at t parent_id p index l_id l r_id r =
      let (l', r') = merge_internal l r (p.key_array_ index) in
      let p' = delete_entry p index in
      (
        store (store (store t l_id (internal_page l')) r_id (internal_page r')) parent_id
            (internal_page p'),
        update_of p index (index == 1) (p'.key_array_ index),
      )

  -- The three ways to mend the internal page at the position `i`, in their order.
  unfoldable pub merge_child :
      BPlusTree → ℕ → InternalPage → ℕ → InternalPage → ℕ → Result (BPlusTree × KeyUpdate)
  merge_child t id child parent_id p i =
      if leb 1 i
      then (sibling t p (i - 1) >>= λ (l_id, l).
          in_slots ((as_internal l).size_ + child.size_)
            (merge_children_at t parent_id p i l_id (as_internal l) id child))
      else (sibling t p (i + 1) >>= λ (r_id, r).
          in_slots (child.size_ + (as_internal r).size_)
            (merge_children_at t parent_id p (i + 1) id child r_id (as_internal r)))

  unfoldable pub lend_child_right :
      BPlusTree → ℕ → InternalPage → ℕ → InternalPage → ℕ → Result (BPlusTree × KeyUpdate)
  lend_child_right t id child parent_id p i =
      if ltb (i + 1) p.size_
      then (sibling t p (i + 1) >>= λ (r_id, page).
          let r = as_internal page in
          if ltb (min_size r.max_size_) r.size_
          then (let (child', r') = borrow_child_right child r (p.key_array_ (i + 1)) in
              let k = r.key_array_ 1 in
              in_slots (child.size_ + 1) (
                store (store (store t id (internal_page child')) r_id (internal_page r')) parent_id
                    (internal_page (put_key p (i + 1) k)),
                update_of p (i + 1) (i == 0) k,
              ))
          else merge_child t id child parent_id p i)
      else merge_child t id child parent_id p i

  unfoldable pub lend_child_left :
      BPlusTree → ℕ → InternalPage → ℕ → InternalPage → ℕ → Result (BPlusTree × KeyUpdate)
  lend_child_left t id child parent_id p i =
      if leb 1 i
      then (sibling t p (i - 1) >>= λ (l_id, page).
          let l = as_internal page in
          if ltb (min_size l.max_size_) l.size_
          then (let (child', l') = borrow_child_left child l (p.key_array_ i) in
              let k = l.key_array_ (l.size_ - 1) in
              in_slots (child.size_ + 1) (
                store (store (store t id (internal_page child')) l_id (internal_page l')) parent_id
                    (internal_page (put_key p i k)),
                update_of p i (i == 1) k,
              ))
          else lend_child_right t id child parent_id p i)
      else lend_child_right t id child parent_id p i

  -- The root with a single child gives way to it, and an empty one to no root.
  abbrev pub lower_root : BPlusTree → InternalPage → BPlusTree
  lower_root t p =
      if p.size_ == 1
      then record t { root_page_id_ = p.page_id_array_ 0 }
      else (if p.size_ == 0 then record t { root_page_id_ = minus_one } else t)

  -- The loop, from the page whose child has changed.
  unfoldable pub climb : ℕ → BPlusTree → IntegerKey → ℕ → List ℕ → KeyUpdate → Result BPlusTree
  climb zero t key id held u = blocked
  climb (suc fuel) t key id held u =
      let p = as_internal (t.pages_ id) in
      if id == t.root_page_id_ then ok (lower_root t p) else elim held [
        | [] ↦ err null_deref
        | parent_id ∷ held' ↦
            let q = as_internal (t.pages_ parent_id) in
            (parent_slot q key >>= λ i.
            (tell_key q u >>= λ q'. elim (not u.key_update && leb (min_size p.max_size_) p.size_) [
              | true ↦ ok t
              | false ↦
                  lend_child_left (store t parent_id (internal_page q')) id p parent_id q' i
                  >>= λ (t', u'). climb fuel t' key parent_id held' u'
            ]))
      ]

  -- The leaf has lost its key.
  abbrev pub underflow : ℕ → BPlusTree → IntegerKey → ℕ → LeafPage → List ℕ → Result BPlusTree
  underflow fuel t key id leaf [] =
      ok (if leaf.size_ == 0 then record t { root_page_id_ = minus_one } else t)
  underflow fuel t key id leaf (parent_id ∷ held) =
      let p = as_internal (t.pages_ parent_id) in
      (parent_slot p key >>= λ i.
      (lend_left c t id leaf parent_id p i >>= λ (t', u). climb fuel t' key parent_id held u))

  unfoldable pub remove_locked : ℕ → BPlusTree → IntegerKey → List ℕ → Result BPlusTree
  remove_locked fuel t key [] = err null_deref
  remove_locked fuel t key (id ∷ held) =
      let p = as_leaf (t.pages_ id) in
      let index = leaf_key_index p key in
      if not (is_at p index key)
      then ok t
      else (let leaf = erase_at p index in
          let t' = store t id (leaf_page leaf) in
          if leb (min_size leaf.max_size_) leaf.size_
          then ok t'
          else underflow fuel t' key id leaf held)

  -- Remove. The fuel bounds the rounds of FindAndLock's loop and of the loop on the way up.
  unfoldable pub remove : ℕ → BPlusTree → IntegerKey → Result BPlusTree
  remove fuel t key =
      if t.root_page_id_ == minus_one
      then ok t
      else (find_and_lock t key fuel t.root_page_id_ [] >>= remove_locked fuel t key)
