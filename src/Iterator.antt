-- ===== src/Iterator.antt =====
-- IndexIterator (include/index_iterator.h, src/index_iterator.cpp): a position in the chain of
-- leaves. `read` gives the leaf of a page id, as ReadPage does. `index_` is an `int`'s pattern.
pub mod Traversal
pub mod Begin
pub mod Ends
pub mod Entries
pub mod InOrder
pub mod Agree
use bicycletub.Common.{
  ℕ, zero, suc, ◌+◌, ◌%◌, Bool, true, not, ◌&&◌, ◌||◌, Result, ok, err, blocked, ◌>>=◌,
  if◌then◌else◌, ◌==◌, is_negative, signed_lt, minus_one, word32,
}
use bicycletub.Common
use bicycletub.Tree.{
  Page, leaf_page, internal_page, LeafPage, IntegerKey, Rid, leaf_key_index, value_at,
}

pub record IndexIterator : Type 0 where
  pub page_id_ : ℕ
  pub index_ : ℕ

-- The page id and the index of the default constructor. Its null `bpm_` is not part of the record:
-- no position of an empty tree is read here.
abbrev pub default_iterator : IndexIterator
default_iterator = record { page_id_ = minus_one; index_ = 0 }

-- `operator==`.
abbrev pub same_position : IndexIterator → IndexIterator → Bool
same_position a b = (a.page_id_ == b.page_id_) && (a.index_ == b.index_)

module _ (read : ℕ → Result LeafPage) where
  unfoldable pub is_end : IndexIterator → Result Bool
  is_end it = do p ← read it.page_id_; ok ((p.next_page_id_ == minus_one) && (it.index_ == p.size_))

  abbrev pub entry_at : LeafPage → ℕ → IntegerKey × Rid
  entry_at p i = (p.key_array_ i, p.rid_array_ i)

  -- `operator*`.
  unfoldable pub dereference : IndexIterator → Result (IntegerKey × Rid)
  dereference it = do
    e ← is_end it
    if e then err Common.out_of_range else (do
      p ← read it.page_id_
      if is_negative it.index_ || not (signed_lt it.index_ p.size_)
          then err Common.out_of_range
          else ok (entry_at p it.index_))

  -- The position after the entry at `index_`.
  abbrev pub step_from : IndexIterator → LeafPage → IndexIterator
  step_from it p =
      let i = (it.index_ + 1) % word32 in
      if (i == p.size_) && not (p.next_page_id_ == minus_one)
      then record { page_id_ = p.next_page_id_; index_ = 0 }
      else record it { index_ = i }

  -- `operator++`.
  unfoldable pub increment : IndexIterator → Result IndexIterator
  increment it = do
    e ← is_end it
    if e then err Common.out_of_range else (do
      p ← read it.page_id_
      if is_negative it.index_ || signed_lt p.size_ it.index_
          then err Common.out_of_range
          else ok (step_from it p))

-- `Begin(key)` on the leaf that FindLeafPage reached, with its page id.
unfoldable pub begin_from : ℕ → LeafPage → IntegerKey → IndexIterator
begin_from id p key = record { page_id_ = id; index_ = leaf_key_index p key }

-- The leaf that `Begin()` goes down to, by the first child of each page.
unfoldable pub first_leaf_id : (ℕ → Result Page) → ℕ → ℕ → Result ℕ
first_leaf_id read_page zero id = blocked
first_leaf_id read_page (suc fuel) id = do
  page ← read_page id
  elim page [
    | leaf_page p ↦ ok id
    | internal_page p ↦ value_at p 0 >>= first_leaf_id read_page fuel
  ]

-- `Begin()`, from the root's page id in the header page.
unfoldable pub begin : (ℕ → Result Page) → ℕ → ℕ → Result IndexIterator
begin read_page fuel root_page_id =
    if root_page_id == minus_one
    then ok default_iterator
    else (first_leaf_id read_page fuel root_page_id >>= λ id.
        ok (record { page_id_ = id; index_ = 0 }))

-- The leaf that `End()` goes down to, by the last child of each page, with its page id.
unfoldable pub last_leaf : (ℕ → Result Page) → ℕ → ℕ → Result (ℕ × LeafPage)
last_leaf read_page zero id = blocked
last_leaf read_page (suc fuel) id = do
  page ← read_page id
  elim page [
    | leaf_page p ↦ ok (id, p)
    | internal_page p ↦ value_at p ((p.size_ + minus_one) % word32) >>= last_leaf read_page fuel
  ]

-- `End()`.
unfoldable pub end : (ℕ → Result Page) → ℕ → ℕ → Result IndexIterator
end read_page fuel root_page_id =
    if root_page_id == minus_one
    then ok default_iterator
    else (last_leaf read_page fuel root_page_id >>= λ (id, p).
        ok (record { page_id_ = id; index_ = p.size_ }))
