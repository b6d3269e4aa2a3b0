-- ===== src/Tests/RemoveRuns.antt =====
-- Deletions from the trees of the insertions.
use bicycletub.Common.{
  ℕ, ◌+◌, ◌*◌, ◌≡◌, refl, arith, [], ◌∷◌, List, Option, none, some, Result, ok, ◌>>=◌,
  if◌then◌else◌, ◌==◌, minus_one,
}
use bicycletub.Tree.{
  Page, leaf_page, internal_page, InternalPage, IntegerKey, Rid, LeafPage, compare_keys,
  search_round, search, key_at, value_at, is_at, get_value, shift_up, insert_at, move_slots,
  split_leaf, insert_leaf, child_index, find_leaf_page, tree_get_value,
}
use bicycletub.Tree.Search.{order}
use bicycletub.Parent.{
  shift_entries, move_entries, insert_entry, split_at, spread_below, spread_above, split_internal,
}
use bicycletub.Insertion.{
  BPlusTree, open_page, create_page, find_and_lock, take_parent, add_entry, add_up, insert_locked,
  start_tree, insert,
}
use bicycletub.Parent.Route.{route}
use bicycletub.Insertion.Contents.{Rooted, contents}
use bicycletub.Insertion.Many.{insert_all}
use bicycletub.Removal.{
  pull_down, erase_at, borrow_left, borrow_right, merge_leaves, pull_entries, delete_entry,
  borrow_child_left, borrow_child_right, merge_internal,
}
use bicycletub.Removal.Rebalance.{parent_slot, merge_at, merge_leaf, lend_right, lend_left}
use bicycletub.Removal.Climb.{
  tell_key, merge_children_at, merge_child, lend_child_right, lend_child_left, climb, remove_locked,
  remove,
}
use bicycletub.Removal.Light.{remove_absent, remove_light}
use bicycletub.Tests.InsertRuns.{
  key, rid, casts, full_leaf, empty_tree, entries, two_leaf_tree, two_leaf_tree-Rooted,
  two_leaf_tree-Valid,
}

program : Unit {0}
unfolding compare_keys search_round search key_at value_at is_at get_value shift_up insert_at
    move_slots split_leaf insert_leaf child_index find_leaf_page tree_get_value shift_entries
    move_entries insert_entry split_at spread_below spread_above split_internal create_page
    find_and_lock take_parent add_entry add_up insert_locked start_tree insert pull_down erase_at
    borrow_left borrow_right merge_leaves pull_entries delete_entry borrow_child_left
    borrow_child_right merge_internal parent_slot merge_at merge_leaf lend_right lend_left tell_key
    merge_children_at merge_child lend_child_right lend_child_left climb remove_locked remove route
program = tt

abbrev remove_all : BPlusTree → List ℕ → Result BPlusTree
remove_all t [] = ok t
remove_all t (k ∷ ks) = remove casts 10 t (key k) >>= λ t'. remove_all t' ks

-- The tree of the insertions after the deletion of those keys, and then a search.
abbrev after : List ℕ → ℕ → Result (Option Rid)
after ks q = insert_all casts 10 empty_tree entries >>= λ t.
    (remove_all t ks >>= λ t'. tree_get_value (open_page t') 10 t'.root_page_id_ (key q))

after_seven : after (7 ∷ 8 ∷ 5 ∷ []) 7 ≡ ok none
unfolding program
after_seven = refl

after_others : after (7 ∷ 8 ∷ 5 ∷ []) 9 ≡ ok (some (rid 2))
unfolding program
after_others = refl

after_three : after (9 ∷ 7 ∷ 8 ∷ 5 ∷ 6 ∷ []) 3 ≡ ok (some (rid 8))
unfolding program
after_three = refl

after_all : after (3 ∷ 4 ∷ 5 ∷ 6 ∷ 7 ∷ 8 ∷ 9 ∷ 4294967291 ∷ []) 9 ≡ ok none
unfolding program
after_all = refl

remove_absent_example : remove casts 2 two_leaf_tree (key 4) ≡ ok two_leaf_tree
unfolding program
remove_absent_example =
    remove_absent casts two_leaf_tree 1 3 2 (key 4) (omega arith) (omega arith) (omega arith)
      two_leaf_tree-Valid refl

remove_light_example :
    (t' : BPlusTree) × (remove casts 2 two_leaf_tree (key 9) ≡ ok t')
    × Rooted t' 1 3
    × ((q : IntegerKey)
        → contents t' 1 q ≡ (if order (key 9) == order q then none else contents two_leaf_tree 1 q))
unfolding program
remove_light_example =
    remove_light casts two_leaf_tree 1 3 2 (key 9) (omega arith) (omega arith) (omega arith)
      two_leaf_tree-Rooted (rid 1) (full_leaf minus_one 7 9) refl refl (omega arith)

-- Two full internal pages, 10 and 11, under the root 12, over leaves with one or two keys.
abbrev leaf_with : ℕ → ℕ → LeafPage
leaf_with n k = record (full_leaf minus_one k (k + 1)) { size_ = n }

abbrev branch : ℕ → ℕ → ℕ → ℕ → InternalPage
branch n first a b = record {
  size_ = n;
  max_size_ = 3;
  key_array_ = λ i. if i == 1 then key a else key b;
  page_id_array_ = λ i. first + i;
}

abbrev wide_tree : BPlusTree
wide_tree = record {
  leaf_max_size_ = 2;
  internal_max_size_ = 3;
  root_page_id_ = 12;
  pages_ = λ id.
      if id == 12
      then internal_page (branch 2 10 70 0)
      else (if id == 10
          then internal_page (branch 3 1 50 60)
          else (if id == 11
              then internal_page (branch 3 4 80 90)
              else (if id == 4
                  then leaf_page (leaf_with 1 70)
                  else leaf_page (leaf_with 2 (30 + 10 * id)))));
  next_page_id_ = 13;
}

abbrev size_of : Page → ℕ
size_of (internal_page p) = p.size_
size_of (leaf_page p) = p.size_

-- After the deletion of 70 from page 4 its right sibling lends a key, and page 11, which has all
-- its children, takes one of page 10: it has four then, and its maximum is three.
overfull : (remove casts 10 wide_tree (key 70) >>= λ t. ok (size_of (t.pages_ 11))) ≡ ok 4
unfolding program
overfull = refl
