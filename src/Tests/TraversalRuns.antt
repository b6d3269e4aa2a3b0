-- ===== src/Tests/TraversalRuns.antt =====
-- Runs of a traversal after insertions.
use bicycletub.Common.{
  ℕ, ◌≡◌, refl, arith, Bool-cases, inl, inr, ◌==◌, List, [], ◌∷◌, minus_one, ok, ◌>>=◌, map,
}
use bicycletub.Tree.{
  compare_keys, search_round, search, key_at, value_at, is_at, get_value, shift_up, insert_at,
  move_slots, split_leaf, insert_leaf, child_index,
}
use bicycletub.Parent.{
  shift_entries, move_entries, insert_entry, split_at, spread_below, spread_above, split_internal,
}
use bicycletub.Insertion.{
  BPlusTree, open_page, create_page, find_and_lock, take_parent, add_entry, add_up, insert_locked,
  start_tree, insert,
}
use bicycletub.Insertion.Contents.{contents}
use bicycletub.Insertion.Leaves.{Linked}
use bicycletub.Insertion.Many.{Entries, insert_all, first_value}
use bicycletub.Iterator.{is_end, dereference, increment, first_leaf_id, begin}
use bicycletub.Iterator.Traversal.{traverse}
use bicycletub.Iterator.Ends.{leaf_at}
use bicycletub.Iterator.Agree.{Agrees, tree_get_value-Agrees}
use bicycletub.Iterator.InOrder.{PassesAll, begin-PassesAll, insert_all-PassesAll}
use bicycletub.Tests.InsertRuns.{
  key, rid, casts, empty_tree, entries, two_leaf_tree, two_leaf_tree-Rooted,
}

-- The operations of the trees that run here.
program : Unit {0}
unfolding compare_keys search_round search key_at value_at is_at get_value shift_up insert_at
    move_slots split_leaf insert_leaf child_index shift_entries move_entries insert_entry split_at
    spread_below spread_above split_internal create_page find_and_lock take_parent add_entry add_up
    insert_locked start_tree insert is_end dereference increment first_leaf_id begin traverse
program = tt

abbrev rid_pages : Entries → List ℕ
rid_pages xs = map (λ (k, v). v.page_id) xs

-- Nine insertions, the fifth of them refused, and the page ids of the rids in the order of the keys
-- -5, 3, 4, 5, 6, 7, 8 and 9.
in_key_order :
    (insert_all casts 10 empty_tree entries >>= λ t. begin (open_page t) 10 t.root_page_id_ >>= λ x.
    traverse (leaf_at casts t) 20 x >>= λ xs. ok (rid_pages xs))
    ≡ ok (4 ∷ 8 ∷ 9 ∷ 1 ∷ 7 ∷ 3 ∷ 6 ∷ 2 ∷ [])
unfolding program
in_key_order = refl

two_leaf_tree-Linked : Linked two_leaf_tree 1 2 minus_one
two_leaf_tree-Linked i a = elim (Bool-cases (i == 0)) [
  | inl e ↦ let here : i ≡ 0 = ground (arith, e) in rw here (omega arith, refl)
  | inr e ↦ let here : i ≡ 1 = ground (arith, e) in rw here (omega arith, refl)
]

begin-PassesAll_example : PassesAll casts two_leaf_tree 2 (contents two_leaf_tree 1)
begin-PassesAll_example =
    begin-PassesAll casts two_leaf_tree 1 3 2 (omega arith) (omega arith) (omega arith)
      (omega arith) two_leaf_tree-Rooted two_leaf_tree-Linked

tree_get_value-Agrees_example : Agrees casts two_leaf_tree 2
tree_get_value-Agrees_example =
    tree_get_value-Agrees casts two_leaf_tree 1 3 2 (omega arith) (omega arith) (omega arith)
      (omega arith) two_leaf_tree-Rooted two_leaf_tree-Linked

abbrev more : Entries
more = (key 3, rid 2) ∷ (key 5, rid 3) ∷ []

insert_all-PassesAll_example :
    (t' : BPlusTree) × (insert_all casts 10 empty_tree ((key 5, rid 1) ∷ more) ≡ ok t')
    × PassesAll casts t' 10 (first_value ((key 5, rid 1) ∷ more))
insert_all-PassesAll_example =
    insert_all-PassesAll casts 9 3 10 empty_tree (key 5) (rid 1) more refl
      (record {
        leaf_two = omega arith;
        internal_two = omega arith;
        internal_cap = omega arith;
        cap_small = omega arith;
        levels = omega arith;
        rounds = omega arith;
        ids = omega arith;
      })
      (omega arith)
