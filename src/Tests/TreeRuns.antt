-- ===== src/Tests/TreeRuns.antt =====
-- A tree of two leaves under one internal page.
use bicycletub.Common.{
  [], ◌∷◌, false, ◌≤◌, ℕ, zero, suc, ◌<◌, ◌≡◌, ◌≢◌, refl, arith, Option, none, some, Result, ok,
  err, runtime_error, if◌then◌else◌, ◌==◌, word32, minus_one, ◌↔◌, ◌⊎◌,
}
use bicycletub.Tree.{
  IntegerKey, Rid, LeafPage, InternalPage, Page, leaf_page, internal_page, default_key, default_rid,
  compare_keys, search_round, search, key_at, set_key_at, value_at, value_index_from, is_at,
  get_value, shift_up, insert_at, move_slots, split_leaf, Inserted, into_two, insert_leaf,
  child_index, find_leaf_page, tree_get_value,
}
use bicycletub.Tree.Search.{order, IsSorted, Splits, search-Splits}
use bicycletub.Tree.Leaf.{IsLeaf}
use bicycletub.Tree.Insert.{InsertOutcome, insert_leaf-InsertOutcome}
use bicycletub.Tree.Internal.{Routes, child_index-Routes}
use bicycletub.Common
use bicycletub.Iterator.{is_end, dereference, entry_at, begin_from}
use bicycletub.Iterator.Traversal.{Chain, at, traverse, all_entries, traverse-all_entries}
use bicycletub.Iterator.Begin.{begin_from-first, begin_from_stranded}
use bicycletub.Tree.Lookup.{IsTree, low, high, TreeStores, tree_get_value-TreeStores}

program : Unit {0}
unfolding compare_keys search_round search key_at set_key_at value_at value_index_from is_at
    get_value shift_up insert_at move_slots split_leaf insert_leaf child_index find_leaf_page
    tree_get_value
program = tt

abbrev key : ℕ → IntegerKey
key n = record { value_ = n }

abbrev rid : ℕ → Rid
rid n = record { page_id = n; slot_num = 0 }

-- The keys -1 and 20.
abbrev left : LeafPage
left = record {
  size_ = 2;
  max_size_ = 2;
  next_page_id_ = 3;
  key_array_ = λ i. if i == 0 then key minus_one else (if i == 1 then key 20 else default_key);
  rid_array_ = λ i. if i == 0 then rid 5 else (if i == 1 then rid 6 else default_rid);
}

abbrev right : LeafPage
right = record {
  size_ = 1;
  max_size_ = 2;
  next_page_id_ = minus_one;
  key_array_ = λ i. if i == 0 then key 30 else default_key;
  rid_array_ = λ i. if i == 0 then rid 7 else default_rid;
}

abbrev root : InternalPage
root = record {
  size_ = 2;
  max_size_ = 4;
  key_array_ = λ i. if i == 1 then key 30 else default_key;
  page_id_array_ = λ i. if i == 0 then 2 else (if i == 1 then 3 else minus_one);
}

abbrev read : ℕ → Result Page
read id =
    if id == 1
    then ok (internal_page root)
    else (if id == 2
        then ok (leaf_page left)
        else (if id == 3 then ok (leaf_page right) else err runtime_error))

finds : tree_get_value read 2 1 (key minus_one) ≡ ok (some (rid 5))
unfolding program
finds = refl

misses : tree_get_value read 2 1 (key 25) ≡ ok none
unfolding program
misses = refl

abbrev up_keys : Inserted → ℕ × ℕ × ℕ
up_keys (into_two l r up_key) = (l.size_, r.size_, up_key.value_)
up_keys _ = (0, 0, 0)

-- The full left leaf is split at 20, and 10 goes before it, to the new leaf.
splits : up_keys (insert_leaf left right 4 2 (key 10) (rid 8)) ≡ (1, 2, 10)
unfolding program
splits = refl

left-IsLeaf : IsLeaf left
left-IsLeaf i j a b c = ground arith

search-Splits_example : Splits left.key_array_ (key 10) 0 2 (search left.key_array_ (key 10) 2 0 2)
search-Splits_example =
    search-Splits left.key_array_ (key 10) 0 2 left-IsLeaf 2 (omega arith) (omega arith)

insert_leaf-InsertOutcome_example :
    InsertOutcome left 4 2 (key 10) (rid 8) (insert_leaf left right 4 2 (key 10) (rid 8))
insert_leaf-InsertOutcome_example =
    insert_leaf-InsertOutcome left right 4 2 (key 10) (rid 8) left-IsLeaf (omega arith)
      (omega arith)

abbrev renamed : InternalPage
renamed = record root { key_array_ = λ i. if 1 == i then key 31 else root.key_array_ i }

renames : set_key_at root 1 (key 31) ≡ ok renamed
unfolding program
renames = refl

root-IsSorted : IsSorted root.key_array_ 1 2
root-IsSorted i j a b c = absurd (omega arith)

child_index-Routes_example : (i : ℕ) × (child_index root (key 20) ≡ ok i) × Routes root (key 20) i
child_index-Routes_example =
    child_index-Routes root (key 20) root-IsSorted (omega arith) (omega arith)

right-IsLeaf : IsLeaf right
right-IsLeaf i j a b c = absurd (omega arith)

children :
    (i : ℕ) → i < 2 → IsTree read 0 (low root 0 i) (high root word32 i) (root.page_id_array_ i)
children zero a = (left, refl, left-IsLeaf, λ j b. ground arith, λ j b. ground arith)
children (suc zero) a = (right, refl, right-IsLeaf, λ j b. ground arith, λ j b. ground arith)
children (suc (suc i)) a = absurd (omega arith)

tree : IsTree read 1 0 word32 1
tree = (
  root,
  refl,
  omega arith,
  omega arith,
  root-IsSorted,
  λ i a b. (ground arith, ground arith),
  children,
)

tree_get_value-TreeStores_example :
    (found : Option Rid) × (tree_get_value read 2 1 (key 20) ≡ ok found)
    × ((value : Rid) → (found ≡ some value) ↔ TreeStores read 1 1 (key 20) value)
tree_get_value-TreeStores_example =
    tree_get_value-TreeStores read 1 2 1 (key 20) tree (λ e. absurd (omega arith)) (omega arith)

abbrev leaves : ℕ → Result LeafPage
leaves id = if id == 2 then ok left else (if id == 3 then ok right else err runtime_error)

chain : Chain leaves 2 left (right ∷ [])
chain = (refl, omega arith, (λ e. absurd (omega arith)), omega arith, (refl, omega arith, refl))

traverse-all_entries_example :
    traverse leaves 4 (at leaves 2 0) ≡ ok (all_entries (left ∷ right ∷ []))
traverse-all_entries_example =
    traverse-all_entries leaves 4 2 left (right ∷ []) chain (λ e. absurd (omega arith))
      (omega arith)

begin_from-first_example :
    (j : ℕ) × (j ≤ 1)
    × (order (key 10) ≤ order (left.key_array_ j))
    × ((k : ℕ) → k < j → order (left.key_array_ k) < order (key 10))
    × (dereference leaves (begin_from 2 left (key 10)) ≡ ok (entry_at leaves left j))
begin_from-first_example =
    begin_from-first leaves 2 left (key 10) refl left-IsLeaf (omega arith) 1 (omega arith)
      (omega arith)

below_25 : (i : ℕ) → i < 2 → order (left.key_array_ i) < order (key 25)
below_25 i a = ground arith

begin_from_stranded_example :
    (is_end leaves (begin_from 2 left (key 25)) ≡ ok false)
    × (dereference leaves (begin_from 2 left (key 25)) ≡ err Common.out_of_range)
begin_from_stranded_example =
    begin_from_stranded leaves 2 left (key 25) refl left-IsLeaf (omega arith)
      (λ e. absurd (omega arith)) below_25
