-- ===== src/Removal/Joined.antt =====
-- The entries of two neighbouring internal pages in a row, with the key between them, and the pages
-- that hold a range of them after a loan or a merge.
use bicycletub.Common.{
  ℕ, zero, suc, ◌+◌, ◌-◌, ◌<◌, ◌≡◌, refl, arith, ◌&&◌, ltb, leb, ◌==◌, if◌then◌else◌,
}
use bicycletub.Tree.{InternalPage, IntegerKey}
use bicycletub.Parent.{put_entry, resize}
use bicycletub.Parent.Slots.{shift_entries-Shifted, move_entries-Moved}
use bicycletub.Parent.Part.{Part}
use bicycletub.Removal.{
  pull_entry, pull_entries, delete_entry, borrow_child_left, borrow_child_right, merge_internal,
}

-- The slots after the loop "delete parent key & value".
pub record Pulled (p : InternalPage) (i n : ℕ) (q : InternalPage) : Type 0 where
  pub keys :
      (j : ℕ)
      → q.key_array_ j ≡ (if leb i j && ltb j (i + n) then p.key_array_ (j + 1) else p.key_array_ j)
  pub children :
      (j : ℕ)
      → q.page_id_array_ j
        ≡ (if leb i j && ltb j (i + n) then p.page_id_array_ (j + 1) else p.page_id_array_ j)
  pub size : q.size_ ≡ p.size_
  pub max : q.max_size_ ≡ p.max_size_

pub pull_entries-Pulled : (p : InternalPage) (i n : ℕ) → Pulled p i n (pull_entries p i n)
unfolding pull_entries
pull_entries-Pulled p i zero = record {
  keys = λ j. ground arith;
  children = λ j. ground arith;
  size = refl;
  max = refl;
}
pull_entries-Pulled p i (suc n) =
    let v = pull_entries-Pulled (pull_entry p i) (i + 1) n in
    record {
      keys = λ j. ground (arith, v.keys j);
      children = λ j. ground (arith, v.children j);
      size = v.size;
      max = v.max;
    }

-- The page without the entry at `index`.
pub record Shorter (p : InternalPage) (index : ℕ) (q : InternalPage) : Type 0 where
  pub keys :
      (j : ℕ)
      → j < q.size_
      → q.key_array_ j ≡ (if ltb j index then p.key_array_ j else p.key_array_ (j + 1))
  pub children :
      (j : ℕ)
      → j < q.size_
      → q.page_id_array_ j ≡ (if ltb j index then p.page_id_array_ j else p.page_id_array_ (j + 1))
  pub size : q.size_ + 1 ≡ p.size_
  pub max : q.max_size_ ≡ p.max_size_

pub delete_entry-Shorter :
    (p : InternalPage) (index : ℕ) → index < p.size_ → Shorter p index (delete_entry p index)
unfolding delete_entry
delete_entry-Shorter p index a =
    let v = pull_entries-Pulled p index (p.size_ - 1 - index) in
    record {
      keys = λ j b. ground (arith, v.keys j, v.size);
      children = λ j b. ground (arith, v.children j, v.size);
      size = omega (arith, v.size);
      max = v.max;
    }

abbrev pub joined_page : InternalPage → InternalPage → IntegerKey → InternalPage
joined_page l r key = record l {
  size_ = l.size_ + r.size_;
  key_array_ = λ j.
      if ltb j l.size_
      then l.key_array_ j
      else (if j == l.size_ then key else r.key_array_ (j - l.size_));
  page_id_array_ =
      λ j. if ltb j l.size_ then l.page_id_array_ j else r.page_id_array_ (j - l.size_);
}

-- The entries of two pages spread anew, `m` of them on the left one.
pub record RowRespread (l r : InternalPage) (key : IntegerKey) (l' r' : InternalPage) (m : ℕ)
    : Type 0 where
  pub left : Part (joined_page l r key) l' 0
  pub right : Part (joined_page l r key) r' m
  pub left_size : l'.size_ ≡ m
  pub sizes : m + r'.size_ ≡ l.size_ + r.size_
  pub left_max : l'.max_size_ ≡ l.max_size_
  pub right_max : r'.max_size_ ≡ r.max_size_

module _ (l r : InternalPage) (key : IntegerKey) (left_used : 0 < l.size_)
    (right_used : 0 < r.size_) where
  pub borrow_child_left-RowRespread :
      1 < l.size_
      → RowRespread l r key
          (borrow_child_left r l key).1
          (borrow_child_left r l key).0
          (l.size_ - 1)
  unfolding borrow_child_left
  borrow_child_left-RowRespread a =
      let v = shift_entries-Shifted r r.size_ r.size_ (omega arith) in
      record {
        left = record {
          keys = λ j b c. ground arith;
          children = λ j b. ground arith;
          size = omega arith;
          used = omega arith;
        };
        right = record {
          keys = λ j b c. ground (arith, v.size, v.keys j);
          children = λ j b. ground (arith, v.size, v.children j);
          size = omega (arith, v.size);
          used = omega arith;
        };
        left_size = refl;
        sizes = omega (arith, v.size);
        left_max = refl;
        right_max = v.max;
      }

  pub borrow_child_right-RowRespread :
      1 < r.size_
      → RowRespread l r key
          (borrow_child_right l r key).0
          (borrow_child_right l r key).1
          (l.size_ + 1)
  unfolding borrow_child_right
  borrow_child_right-RowRespread a =
      let v = pull_entries-Pulled r 0 (r.size_ - 1) in
      record {
        left = record {
          keys = λ j b c. ground arith;
          children = λ j b. ground arith;
          size = omega arith;
          used = omega arith;
        };
        right = record {
          keys = λ j b c. ground (arith, v.size, v.keys j);
          children = λ j b. ground (arith, v.size, v.children j);
          size = omega (arith, v.size);
          used = omega (arith, v.size);
        };
        left_size = refl;
        sizes = omega (arith, v.size);
        left_max = refl;
        right_max = v.max;
      }

  -- The left page after the merge has all entries.
  pub merge_internal-Part :
      Part (joined_page l r key) (merge_internal l r key).0 0
      × ((merge_internal l r key).0.size_ ≡ l.size_ + r.size_)
      × ((merge_internal l r key).0.max_size_ ≡ l.max_size_)
  unfolding merge_internal
  merge_internal-Part =
      let l1 = resize (put_entry l l.size_ key (r.page_id_array_ 0)) (l.size_ + 1) in
      let v = move_entries-Moved r l1 1 l1.size_ (r.size_ - 1) in
      (
        record {
          keys = λ j b c. ground (arith, v.right_size, v.right_keys j);
          children = λ j b. ground (arith, v.right_size, v.right_children j);
          size = omega (arith, v.right_size);
          used = omega (arith, v.right_size);
        },
        omega (arith, v.right_size),
        v.right_max,
      )
