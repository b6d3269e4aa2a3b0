-- ===== src/Removal.antt =====
-- Remove of BPlusTree (src/b_plus_tree.cpp) on the pages: a key out of a leaf, an entry from a sibling,
-- and two siblings made one.
pub mod Leaves
pub mod Cat
pub mod Joined
pub mod Above
pub mod Repaged
pub mod LeafPair
pub mod ChildPair
pub mod Pair
pub mod Rekeyed
pub mod Fewer
pub mod Rebalance
pub mod MendLeaf
pub mod LendLeaf
pub mod MendChild
pub mod RepairLeaf
pub mod LendChild
pub mod RepairChild
pub mod Climb
pub mod Edit
pub mod Light
use bicycletub.Common.{ℕ, zero, suc, ◌+◌, ◌-◌, ◌%◌, ◌≡◌, minus_one, word32}
use bicycletub.Tree.{
  LeafPage, InternalPage, IntegerKey, Rid, default_key, set_at, clear_slot, move_slots, insert_at,
}
use bicycletub.Parent.{put_entry, clear_entry, resize, shift_entries, move_entries}

-- One round of the loop "delete key & value in leaf page", and `n` rounds from `i` on.
abbrev pub pull_one : LeafPage → ℕ → LeafPage
pull_one p i = record p {
  key_array_ = set_at p.key_array_ i (p.key_array_ (i + 1));
  rid_array_ = set_at p.rid_array_ i (p.rid_array_ (i + 1));
}

unfoldable pub pull_down : LeafPage → ℕ → ℕ → LeafPage
pull_down p i zero = p
pull_down p i (suc n) = pull_down (pull_one p i) (i + 1) n

-- The last slot of a leaf cleared and given up.
abbrev pub drop_last : LeafPage → LeafPage
drop_last p = record (clear_slot p (p.size_ - 1)) { size_ = p.size_ - 1 }

-- "delete key & value in leaf page", on a leaf with an entry at `index`.
unfoldable pub erase_at : LeafPage → ℕ → LeafPage
erase_at p index = drop_last (pull_down p index (p.size_ - 1 - index))

-- "redistribute from left" and "redistribute from right": the leaf, and its sibling.
unfoldable pub borrow_left : LeafPage → LeafPage → LeafPage × LeafPage
borrow_left p l =
    (insert_at p 0 (l.key_array_ (l.size_ - 1)) (l.rid_array_ (l.size_ - 1)), drop_last l)

unfoldable pub borrow_right : LeafPage → LeafPage → LeafPage × LeafPage
borrow_right p r = (
  record p {
    key_array_ = set_at p.key_array_ p.size_ (r.key_array_ 0);
    rid_array_ = set_at p.rid_array_ p.size_ (r.rid_array_ 0);
    size_ = p.size_ + 1;
  },
  erase_at r 0,
)

-- "merge": the left leaf with the entries of both, and the right one without.
unfoldable pub merge_leaves : LeafPage → LeafPage → LeafPage × LeafPage
merge_leaves l r =
    let (r', l') = move_slots r l l.size_ 0 r.size_ in
    (record l' { next_page_id_ = r'.next_page_id_ }, record r' { size_ = r'.size_ - r.size_ })

-- "delete parent key & value".
abbrev pub pull_entry : InternalPage → ℕ → InternalPage
pull_entry p i = put_entry p i (p.key_array_ (i + 1)) (p.page_id_array_ (i + 1))

unfoldable pub pull_entries : InternalPage → ℕ → ℕ → InternalPage
pull_entries p i zero = p
pull_entries p i (suc n) = pull_entries (pull_entry p i) (i + 1) n

abbrev pub drop_entry : InternalPage → InternalPage
drop_entry p = resize (clear_entry p (p.size_ - 1)) (p.size_ - 1)

unfoldable pub delete_entry : InternalPage → ℕ → InternalPage
delete_entry p index = drop_entry (pull_entries p index (p.size_ - 1 - index))

abbrev pub put_key : InternalPage → ℕ → IntegerKey → InternalPage
put_key p i key = record p { key_array_ = set_at p.key_array_ i key }

-- "redistribute from left" on internal pages: the page takes the key of the parent and the last
-- child of its sibling, whose last key goes up.
unfoldable pub borrow_child_left :
    InternalPage → InternalPage → IntegerKey → InternalPage × InternalPage
borrow_child_left p l down =
    let q = put_key (shift_entries p p.size_ p.size_) 1 down in
    (
      record q {
        page_id_array_ = set_at q.page_id_array_ 0 (l.page_id_array_ (l.size_ - 1));
        size_ = q.size_ + 1;
      },
      drop_entry l,
    )

-- "redistribute from right", whose first key goes up.
unfoldable pub borrow_child_right :
    InternalPage → InternalPage → IntegerKey → InternalPage × InternalPage
borrow_child_right p r down = (
  resize (put_entry p p.size_ down (r.page_id_array_ 0)) (p.size_ + 1),
  drop_entry (put_key (pull_entries r 0 (r.size_ - 1)) 0 default_key),
)

-- `Merge` on the two children, with the key between them: the left page with the entries of both,
-- and the right one without. `j` is the loop's, which starts at 1.
unfoldable pub merge_internal :
    InternalPage → InternalPage → IntegerKey → InternalPage × InternalPage
merge_internal l r down =
    let l1 = resize (put_entry l l.size_ down (r.page_id_array_ 0)) (l.size_ + 1) in
    let (r', l') = move_entries r l1 1 l1.size_ (r.size_ - 1) in
    let j = 1 + (r.size_ - 1) in (l', resize r' ((r'.size_ + (word32 - j)) % word32))
