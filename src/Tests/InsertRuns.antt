-- ===== src/Tests/InsertRuns.antt =====
-- Insertions into small trees with room for two keys on a leaf and three children on a page.
use bicycletub.Common.{
  [], ◌∷◌, true, ◌≤◌, ℕ, ◌≡◌, refl, arith, Option, none, some, Result, ok, ◌>>=◌, inl, inr,
  Bool-cases, ◌+◌, if◌then◌else◌, ◌==◌, word32, half32, minus_one,
}
use bicycletub.Tree.{
  IntegerKey, Rid, LeafPage, InternalPage, Page, leaf_page, internal_page, default_key, default_rid,
  min_size, compare_keys, search_round, search, key_at, value_at, is_at, get_value, shift_up,
  insert_at, move_slots, split_leaf, insert_leaf, child_index, find_leaf_page, tree_get_value,
}
use bicycletub.Parent.{
  shift_entries, move_entries, insert_entry, Halves, split_at, spread_below, spread_above,
  split_internal,
}
use bicycletub.Parent.Spread.{Single, Spread, insert_entry-Single, split_internal-Spread}
use bicycletub.Insertion.{
  BPlusTree, Casts, open_page, create_page, find_and_lock, take_parent, add_entry, add_up,
  insert_locked, start_tree, insert, new_tree, is_empty,
}
use bicycletub.Insertion.Sound.{place}
use bicycletub.Insertion.Contents.{Rooted, Valid, contents}
use bicycletub.Insertion.Outcome.{InsertResult, insert-InsertResult}
use bicycletub.Tree.Search.{order}
use bicycletub.Iterator.{IndexIterator, is_end, end}
use bicycletub.Iterator.Ends.{leaf_at, end-greatest}
use bicycletub.Insertion.Many.{Entries, insert_all, Taken, insert_all-Taken}

program : Unit {0}
unfolding compare_keys search_round search key_at value_at is_at get_value shift_up insert_at
    move_slots split_leaf insert_leaf child_index find_leaf_page tree_get_value shift_entries
    move_entries insert_entry split_at spread_below spread_above split_internal create_page
    find_and_lock take_parent add_entry add_up insert_locked start_tree insert
program = tt

abbrev pub key : ℕ → IntegerKey
key n = record { value_ = n }

abbrev pub rid : ℕ → Rid
rid n = record { page_id = n; slot_num = 0 }

abbrev to_leaf : Page → LeafPage
to_leaf (leaf_page p) = p
to_leaf (internal_page p) = record {
  size_ = p.size_;
  max_size_ = p.max_size_;
  next_page_id_ = minus_one;
  key_array_ = p.key_array_;
  rid_array_ = λ i. default_rid;
}

abbrev to_internal : Page → InternalPage
to_internal (internal_page p) = p
to_internal (leaf_page p) = record {
  size_ = p.size_;
  max_size_ = p.max_size_;
  key_array_ = p.key_array_;
  page_id_array_ = λ i. 0;
}

abbrev pub casts : Casts
casts = record {
  as_leaf = to_leaf;
  as_internal = to_internal;
  as_leaf-leaf_page = λ p. refl;
  as_internal-internal_page = λ p. refl;
}

abbrev pub blank : LeafPage
blank = record {
  size_ = 0;
  max_size_ = 0;
  next_page_id_ = minus_one;
  key_array_ = λ i. default_key;
  rid_array_ = λ i. default_rid;
}

abbrev pub empty_tree : BPlusTree
empty_tree = new_tree 2 3 (λ id. leaf_page blank) 1

no_root : is_empty empty_tree ≡ true
no_root = refl

-- The key 2 ^ 32 - 5 is -5.
abbrev pub entries : Entries
entries =
    (key 5, rid 1)
    ∷ (key 9, rid 2)
    ∷ (key 7, rid 3)
    ∷ (key 4294967291, rid 4)
    ∷ (key 9, rid 5)
    ∷ (key 8, rid 6)
    ∷ (key 6, rid 7)
    ∷ (key 3, rid 8)
    ∷ (key 4, rid 9)
    ∷ []

abbrev after : ℕ → Result (Option Rid)
after q = insert_all casts 10 empty_tree entries >>= λ t.
    tree_get_value (open_page t) 10 t.root_page_id_ (key q)

after_nine : after 9 ≡ ok (some (rid 2))
unfolding program
after_nine = refl

after_minus_five : after 4294967291 ≡ ok (some (rid 4))
unfolding program
after_minus_five = refl

after_four : after 4 ≡ ok (some (rid 9))
unfolding program
after_four = refl

after_ten : after 10 ≡ ok none
unfolding program
after_ten = refl

insert_all-Taken_example :
    (t' : BPlusTree) × (insert_all casts 10 empty_tree entries ≡ ok t')
    × Taken 3 10 empty_tree 0 entries t'
insert_all-Taken_example = insert_all-Taken casts 9 3 10 empty_tree 0 entries (inl refl) (record {
  leaf_two = omega arith;
  internal_two = omega arith;
  internal_cap = omega arith;
  cap_small = omega arith;
  levels = omega arith;
  rounds = omega arith;
  ids = omega arith;
})

-- A root leaf with the keys 3 and 5, and the tree of height 1 over it and the keys 7 and 9.
abbrev pub keys_of : ℕ → ℕ → ℕ → IntegerKey
keys_of a b i = if i == 0 then key a else (if i == 1 then key b else default_key)

abbrev pub full_leaf : ℕ → ℕ → ℕ → LeafPage
full_leaf next a b = record {
  size_ = 2;
  max_size_ = 2;
  next_page_id_ = next;
  key_array_ = keys_of a b;
  rid_array_ = λ i. rid i;
}

abbrev one_leaf_tree : BPlusTree
one_leaf_tree = record {
  leaf_max_size_ = 2;
  internal_max_size_ = 3;
  root_page_id_ = 0;
  pages_ = λ id. leaf_page (full_leaf minus_one 3 5);
  next_page_id_ = 1;
}

one_leaf_tree-Valid : Valid one_leaf_tree 0 3
one_leaf_tree-Valid = inr (record {
  places = record { spot = λ id. place 0 0 word32; cap = 3 };
  within_cap = refl;
  sound = (
    full_leaf minus_one 3 5,
    record {
      page = refl;
      given = omega arith;
      here = refl;
      rising = λ i j a b c. ground arith;
      above = λ i a. omega arith;
      below = λ i a. omega arith;
      fits = omega arith;
      max = refl;
    },
  );
})

insert-InsertResult_example :
    InsertResult one_leaf_tree 0 3 (key 4) (rid 7) (insert casts 1 one_leaf_tree (key 4) (rid 7))
insert-InsertResult_example =
    insert-InsertResult casts one_leaf_tree 0 3 (key 4) (rid 7)
      (record {
        leaf_two = omega arith;
        internal_two = omega arith;
        internal_cap = omega arith;
        cap_small = omega arith;
        ids_left = omega arith;
      })
      1 (omega arith) one_leaf_tree-Valid

abbrev pub root : InternalPage
root = record { size_ = 2; max_size_ = 3; key_array_ = keys_of 0 7; page_id_array_ = λ i. i }

abbrev pub two_leaf_tree : BPlusTree
two_leaf_tree = record {
  leaf_max_size_ = 2;
  internal_max_size_ = 3;
  root_page_id_ = 2;
  pages_ = λ id.
      if id == 2
      then internal_page root
      else (if id == 1 then leaf_page (full_leaf minus_one 7 9) else leaf_page (full_leaf 1 3 5));
  next_page_id_ = 3;
}

pub two_leaf_tree-Rooted : Rooted two_leaf_tree 1 3
two_leaf_tree-Rooted = record {
  places = record {
    spot = λ id.
        if id == 2
        then place 1 0 word32
        else (if id == 1 then place 0 (half32 + 7) word32 else place 0 0 (half32 + 7));
    cap = 3;
  };
  within_cap = refl;
  sound = (
    root,
    record {
      page = refl;
      given = omega arith;
      here = refl;
      used = omega arith;
      rising = λ i j a b c. absurd (omega arith);
      above = λ i a b. ground arith;
      below = λ i a b. ground arith;
      fits = omega arith;
      max = refl;
    },
    λ i a. elim (Bool-cases (i == 0)) [
      | inl e ↦ (
        full_leaf 1 3 5,
        record {
          page = ground arith;
          given = omega arith;
          here = ground arith;
          rising = λ i j a b c. ground arith;
          above = λ j b. ground arith;
          below = λ j b. ground arith;
          fits = omega arith;
          max = refl;
        },
      )
      | inr e ↦ (
        full_leaf minus_one 7 9,
        record {
          page = ground arith;
          given = omega arith;
          here = ground arith;
          rising = λ i j a b c. ground arith;
          above = λ j b. ground arith;
          below = λ j b. ground arith;
          fits = omega arith;
          max = refl;
        },
      )
    ],
  );
}

pub two_leaf_tree-Valid : Valid two_leaf_tree 1 3
two_leaf_tree-Valid = inr two_leaf_tree-Rooted

-- A full page of three children.
abbrev full_page : InternalPage
full_page = record { size_ = 3; max_size_ = 3; key_array_ = keys_of 4 7; page_id_array_ = λ i. i }

abbrev new_page : InternalPage
new_page = record {
  size_ = 0;
  max_size_ = 3;
  key_array_ = λ i. default_key;
  page_id_array_ = λ i. 0;
}

split_internal-Spread_example :
    (x : Halves) × (split_internal full_page new_page 1 (key 5) 8 ≡ ok x)
    × Spread full_page new_page 1 (key 5) 8 (min_size 3) x
split_internal-Spread_example =
    split_internal-Spread full_page new_page 1 (key 5) 8 refl (omega arith) (omega arith)
      (omega arith) (omega arith) (omega arith)

insert_entry-Single_example : Single root 1 (key 5) 8 (insert_entry root 1 (key 5) 8)
insert_entry-Single_example = insert_entry-Single root 1 (key 5) 8 (omega arith)

end-greatest_example :
    (x : IndexIterator) × (end (open_page two_leaf_tree) 2 two_leaf_tree.root_page_id_ ≡ ok x)
    × (p : LeafPage) × (leaf_at casts two_leaf_tree x.page_id_ ≡ ok p)
    × (x.index_ ≡ p.size_)
    × (p.next_page_id_ ≡ minus_one → is_end (leaf_at casts two_leaf_tree) x ≡ ok true)
    × ((i : ℕ)
        → i + 1 ≡ p.size_
        → (contents two_leaf_tree 1 (p.key_array_ i) ≡ some (p.rid_array_ i))
          × ((q : IntegerKey) (w : Rid)
              → contents two_leaf_tree 1 q ≡ some w
              → order q ≤ order (p.key_array_ i)))
end-greatest_example =
    end-greatest casts two_leaf_tree 1 3 2 two_leaf_tree-Rooted (omega arith) (omega arith)
      (omega arith) (omega arith)
