-- ===== src/Tests/RepairRuns.antt =====
-- Remove at the parent of a thin page, at two trees.
use bicycletub.Common.{
  ℕ, zero, suc, ◌+◌, ◌*◌, ◌<◌, refl, arith, ◌==◌, ◌≡◌, err, out_of_range, if◌then◌else◌, half32,
  word32, minus_one,
}
use bicycletub.Tree.{value_at, leaf_page, internal_page, LeafPage, InternalPage}
use bicycletub.Tree.Lookup.{low, high}
use bicycletub.Insertion.{BPlusTree}
use bicycletub.Insertion.Sound.{place, Places, BranchAt, Sound}
use bicycletub.Removal.Rebalance.{lend_left}
use bicycletub.Removal.Climb.{lend_child_left}
use bicycletub.Removal.LendLeaf
use bicycletub.Removal.LendChild
use bicycletub.Removal.RepairLeaf.{lend_left-Repairs}
use bicycletub.Removal.RepairChild.{lend_child_left-Repairs}
use bicycletub.Tests.InsertRuns.{casts, full_leaf, keys_of}

-- Leaves 1, 2 and 3 with the keys 10, none and 30; page 10 over the first two, page 11 over the third.
abbrev leaf : ℕ → LeafPage
leaf id = record (full_leaf minus_one (10 * id) 0) { size_ = if id == 2 then 0 else 1 }

abbrev left : InternalPage
left = record { size_ = 2; max_size_ = 3; key_array_ = keys_of 0 15; page_id_array_ = λ i. i + 1 }

abbrev right : InternalPage
right = record { size_ = 1; max_size_ = 3; key_array_ = keys_of 0 0; page_id_array_ = λ i. 3 }

abbrev top : InternalPage
top = record { size_ = 2; max_size_ = 3; key_array_ = keys_of 0 25; page_id_array_ = λ i. i + 10 }

abbrev tree : BPlusTree
tree = record {
  leaf_max_size_ = 2;
  internal_max_size_ = 3;
  root_page_id_ = 12;
  pages_ = λ id.
      if id == 12
      then internal_page top
      else (if id == 11
          then internal_page right
          else (if id == 10 then internal_page left else leaf_page (leaf id)));
  next_page_id_ = 13;
}

abbrev at : ℕ → ℕ
at k = half32 + k

abbrev places : Places
places = record {
  spot = λ id.
      if id == 12
      then place 2 0 word32
      else (if id == 11
          then place 1 (at 25) word32
          else (if id == 10
              then place 1 0 (at 25)
              else (if id == 1
                  then place 0 0 (at 15)
                  else (if id == 2 then place 0 (at 15) (at 25) else place 0 (at 25) word32))));
  cap = 3;
}

leaf_one-Sound : Sound tree places 0 0 (at 15) 1
leaf_one-Sound = (
  leaf 1,
  record {
    page = refl;
    given = omega arith;
    here = refl;
    rising = λ i j a b c. absurd (omega arith);
    above = λ i a. omega arith;
    below = λ i a. ground arith;
    fits = omega arith;
    max = refl;
  },
)

leaf_two-Sound : Sound tree places 0 (at 15) (at 25) 2
leaf_two-Sound = (
  leaf 2,
  record {
    page = refl;
    given = omega arith;
    here = refl;
    rising = λ i j a b c. absurd (omega arith);
    above = λ i a. absurd (omega arith);
    below = λ i a. absurd (omega arith);
    fits = omega arith;
    max = refl;
  },
)

leaf_three-Sound : Sound tree places 0 (at 25) word32 3
leaf_three-Sound = (
  leaf 3,
  record {
    page = refl;
    given = omega arith;
    here = refl;
    rising = λ i j a b c. absurd (omega arith);
    above = λ i a. ground arith;
    below = λ i a. ground arith;
    fits = omega arith;
    max = refl;
  },
)

left-BranchAt : BranchAt tree places 1 0 (at 25) 10 left
left-BranchAt = record {
  page = refl;
  given = omega arith;
  here = refl;
  used = omega arith;
  rising = λ i j a b c. absurd (omega arith);
  above = λ i a b. ground arith;
  below = λ i a b. ground arith;
  fits = omega arith;
  max = refl;
}

left_kids :
    (i : ℕ)
    → i < 2
    → Sound tree places 0 (low left 0 i) (high left (at 25) i) (left.page_id_array_ i)
left_kids zero a = leaf_one-Sound
left_kids (suc zero) a = leaf_two-Sound
left_kids (suc (suc i)) a = absurd (omega arith)

right-BranchAt : BranchAt tree places 1 (at 25) word32 11 right
right-BranchAt = record {
  page = refl;
  given = omega arith;
  here = refl;
  used = omega arith;
  rising = λ i j a b c. absurd (omega arith);
  above = λ i a b. absurd (omega arith);
  below = λ i a b. absurd (omega arith);
  fits = omega arith;
  max = refl;
}

right_kids :
    (i : ℕ)
    → i < 1
    → Sound tree places 0 (low right (at 25) i) (high right word32 i) (right.page_id_array_ i)
right_kids zero a = leaf_three-Sound
right_kids (suc i) a = absurd (omega arith)

top-BranchAt : BranchAt tree places 2 0 word32 12 top
top-BranchAt = record {
  page = refl;
  given = omega arith;
  here = refl;
  used = omega arith;
  rising = λ i j a b c. absurd (omega arith);
  above = λ i a b. ground arith;
  below = λ i a b. ground arith;
  fits = omega arith;
  max = refl;
}

top_kids :
    (i : ℕ) → i < 2 → Sound tree places 1 (low top 0 i) (high top word32 i) (top.page_id_array_ i)
top_kids zero a = (left, left-BranchAt, left_kids)
top_kids (suc zero) a = (right, right-BranchAt, right_kids)
top_kids (suc (suc i)) a = absurd (omega arith)

lend_child_left-Repairs_example :
    LendChild.Repairs casts tree places 0 0 word32 12 top top-BranchAt top_kids
      (omega arith)
      (omega arith)
      (omega arith)
      (omega arith)
      (lend_child_left casts tree 11 right 12 top 1)
lend_child_left-Repairs_example =
    lend_child_left-Repairs casts tree places 0 0 word32 12 top top-BranchAt top_kids (omega arith)
      (omega arith) (omega arith) (omega arith) (omega arith) 1 (omega arith) right refl
      (omega arith)

-- A full page takes a child of its left sibling: `key_array_[510]` is behind the array.
abbrev full_right : InternalPage
full_right = record {
  size_ = 510;
  max_size_ = 510;
  key_array_ = keys_of 0 0;
  page_id_array_ = λ i. 3;
}

abbrev full_tree : BPlusTree
full_tree = record tree {
  internal_max_size_ = 510;
  pages_ = λ id.
      if id == 12
      then internal_page top
      else (if id == 11
          then internal_page full_right
          else internal_page (record left { size_ = 300; max_size_ = 510 }));
}

full_page_overruns : lend_child_left casts full_tree 11 full_right 12 top 1 ≡ err out_of_range
unfolding lend_child_left value_at
full_page_overruns = refl

lend_left-Repairs_example :
    LendLeaf.Repairs casts tree places 0
      (at 25)
      10
      left
      left-BranchAt
      left_kids
      (omega arith)
      (omega arith)
      (omega arith)
      (omega arith)
      (lend_left casts tree 2 (leaf 2) 10 left 1)
lend_left-Repairs_example =
    lend_left-Repairs casts tree places 0 (at 25) 10 left left-BranchAt left_kids (omega arith)
      (omega arith) (omega arith) (omega arith) (omega arith) 1 (omega arith) (leaf 2) refl
      (omega arith)
