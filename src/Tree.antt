-- ===== src/Tree.antt =====
-- The pages of the B+ tree (include/b_plus_tree_key.h, include/b_plus_tree_page.h,
-- include/b_plus_tree_leaf_page.h, include/b_plus_tree_internal_page.h and their sources), and the
-- leaf's part of GetValue and Insert (src/b_plus_tree.cpp).
-- A key's `int` is its 32-bit pattern, and so is an `int` argument or result that can be negative.
-- Sizes, and positions inside a page, are not negative; they are at most the number of slots of a
-- page, so that their sums stay far below 2 ^ 31. An array is a function of the position.
pub mod Search
pub mod Arrays
pub mod Leaf
pub mod Split
pub mod Insert
pub mod Internal
pub mod Lookup
use bicycletub.Common.{
  ℕ, zero, suc, ◌+◌, ◌-◌, ◌/◌, Bool, true, false, not, ◌&&◌, ◌||◌, Option, none, some, Result, ok,
  err, blocked, Error, ◌>>=◌, if◌then◌else◌, ltb, leb, ◌==◌, signed_lt, is_negative, minus_one,
}
use bicycletub.Common

pub record IntegerKey : Type 0 where
  pub value_ : ℕ

-- `KeyType{}`.
abbrev pub default_key : IntegerKey
default_key = record { value_ = 0 }

-- IntegerKeyComparator: -1, 1 or 0.
unfoldable pub compare_keys : IntegerKey → IntegerKey → ℕ
compare_keys a b =
    if signed_lt a.value_ b.value_
    then minus_one
    else (if signed_lt b.value_ a.value_ then 1 else 0)

pub record Rid : Type 0 where
  pub page_id : ℕ
  pub slot_num : ℕ

-- `RID{}`.
abbrev pub default_rid : Rid
default_rid = record { page_id = minus_one; slot_num = minus_one }

abbrev pub set_at {ℓ} : {A : Type ℓ} → (ℕ → A) → ℕ → A → ℕ → A
set_at a i x j = if i == j then x else a j

-- A leaf page. `IsLeafPage()` is the choice of this type. An array is a function of the position:
-- the slots of the source's arrays, 340 in a leaf and 510 in an internal page, bound the sizes where
-- a page can pass its maximum (Removal.Climb.in_slots).
pub record LeafPage : Type 0 where
  pub size_ : ℕ
  pub max_size_ : ℕ
  pub next_page_id_ : ℕ
  pub key_array_ : ℕ → IntegerKey
  pub rid_array_ : ℕ → Rid

pub record InternalPage : Type 0 where
  pub size_ : ℕ
  pub max_size_ : ℕ
  pub key_array_ : ℕ → IntegerKey
  pub page_id_array_ : ℕ → ℕ

-- `GetMinSize()` of a page with that maximum.
abbrev pub min_size : ℕ → ℕ
min_size max_size = (max_size + 1) / 2

-- `Init`, which leaves the arrays as they are.
abbrev pub init_leaf : LeafPage → ℕ → LeafPage
init_leaf p max_size = record p { size_ = 0; max_size_ = max_size; next_page_id_ = minus_one }

abbrev pub init_internal : InternalPage → ℕ → InternalPage
init_internal p max_size = record p { size_ = 0; max_size_ = max_size }

-- One round of the loop of `KeyIndex`: the index that is returned, or the next bounds.
pub data Round : Type 0 where
  returns : ℕ → Round
  continues : ℕ → ℕ → Round

unfoldable pub search_round : (ℕ → IntegerKey) → IntegerKey → ℕ → ℕ → Round
search_round keys key l r =
    if ltb l r
    then (let mid = l + (r - l) / 2 in
        let cmp_result = compare_keys key (keys mid) in
        if cmp_result == 0
        then returns mid
        else (if is_negative cmp_result then continues l mid else continues (mid + 1) r))
    else returns l

-- The loop, on fuel: a round makes the range shorter.
unfoldable pub search : (ℕ → IntegerKey) → IntegerKey → ℕ → ℕ → ℕ → ℕ
search keys key zero l r = l
search keys key (suc fuel) l r = elim (search_round keys key l r) [
  | returns i ↦ i
  | continues l' r' ↦ search keys key fuel l' r'
]

-- `KeyIndex` of the two kinds of pages.
abbrev pub leaf_key_index : LeafPage → IntegerKey → ℕ
leaf_key_index p key = search p.key_array_ key p.size_ 0 p.size_

abbrev pub internal_key_index : InternalPage → IntegerKey → ℕ
internal_key_index p key = search p.key_array_ key p.size_ 1 p.size_

-- `KeyAt`, `SetKeyAt` and `ValueAt` of an internal page: `index` is an `int`.
unfoldable pub key_at : InternalPage → ℕ → Result IntegerKey
key_at p index =
    if signed_lt index 1 || not (signed_lt index p.size_)
    then err Common.out_of_range
    else ok (p.key_array_ index)

unfoldable pub set_key_at : InternalPage → ℕ → IntegerKey → Result InternalPage
set_key_at p index key =
    if signed_lt index 1 || not (signed_lt index p.size_)
    then err Common.out_of_range
    else ok (record p { key_array_ = set_at p.key_array_ index key })

unfoldable pub value_at : InternalPage → ℕ → Result ℕ
value_at p index =
    if not (signed_lt index p.size_) || signed_lt index 0
    then err Common.out_of_range
    else ok (p.page_id_array_ index)

-- The loop of `ValueIndex` from `i` on, `n` rounds.
unfoldable pub value_index_from : InternalPage → ℕ → ℕ → ℕ → ℕ
value_index_from p value i zero = minus_one
value_index_from p value i (suc n) =
    let rest = value_index_from p value (i + 1) n in if p.page_id_array_ i == value then i else rest

abbrev pub value_index : InternalPage → ℕ → ℕ
value_index p value = value_index_from p value 0 p.size_

-- The test of GetValue, Insert and Remove: the key stands at the index.
unfoldable pub is_at : LeafPage → ℕ → IntegerKey → Bool
is_at p index key = ltb index p.size_ && (compare_keys (p.key_array_ index) key == 0)

-- GetValue on the leaf.
unfoldable pub get_value : LeafPage → IntegerKey → Option Rid
get_value p key =
    let index = leaf_key_index p key in
    if is_at p index key then some (p.rid_array_ index) else none

-- Insert, `for (int i = size; i > index; i--)`: the slots from the index on go up by one, `n`
-- rounds from `i` down.
abbrev pub shift_one : LeafPage → ℕ → LeafPage
shift_one p i = record p {
  key_array_ = set_at p.key_array_ i (p.key_array_ (i - 1));
  rid_array_ = set_at p.rid_array_ i (p.rid_array_ (i - 1));
}

unfoldable pub shift_up : LeafPage → ℕ → ℕ → LeafPage
shift_up p i zero = p
shift_up p i (suc n) = shift_up (shift_one p i) (i - 1) n

-- "insert key & value into leaf page".
unfoldable pub insert_at : LeafPage → ℕ → IntegerKey → Rid → LeafPage
insert_at p index key value =
    let q = shift_up p p.size_ (p.size_ - index) in
    record q {
      key_array_ = set_at q.key_array_ index key;
      rid_array_ = set_at q.rid_array_ index value;
      size_ = q.size_ + 1;
    }

-- "split leaf before insert": the loop that moves the slots from `j` on to the slots of `new`
-- from `i` on, `n` rounds.
abbrev pub clear_slot : LeafPage → ℕ → LeafPage
clear_slot p j = record p {
  key_array_ = set_at p.key_array_ j default_key;
  rid_array_ = set_at p.rid_array_ j default_rid;
}

abbrev pub copy_slot : LeafPage → LeafPage → ℕ → ℕ → LeafPage
copy_slot p new i j = record new {
  key_array_ = set_at new.key_array_ i (p.key_array_ j);
  rid_array_ = set_at new.rid_array_ i (p.rid_array_ j);
  size_ = new.size_ + 1;
}

unfoldable pub move_slots : LeafPage → LeafPage → ℕ → ℕ → ℕ → LeafPage × LeafPage
move_slots p new i j zero = (p, new)
move_slots p new i j (suc n) = move_slots (clear_slot p j) (copy_slot p new i j) (i + 1) (j + 1) n

-- The two leaves after the split; `new` is the page that NewPage gave, with its id.
unfoldable pub split_leaf : LeafPage → LeafPage → ℕ → ℕ → LeafPage × LeafPage
split_leaf p new new_page_id leaf_max_size =
    let from = min_size p.max_size_ in
    let (l, r) = move_slots p (init_leaf new leaf_max_size) 0 from (p.size_ - from) in
    (
      record l { size_ = l.size_ - (p.size_ - from); next_page_id_ = new_page_id },
      record r { next_page_id_ = p.next_page_id_ },
    )

-- The pages that Insert leaves, and the key and the page for the parent after a split.
pub data Inserted : Type 0 where
  duplicate : Inserted
  into_leaf : LeafPage → Inserted
  into_two : LeafPage → LeafPage → IntegerKey → Inserted

-- Insert on the leaf that FindAndLock reached, up to the insertion into the parent.
unfoldable pub insert_leaf : LeafPage → LeafPage → ℕ → ℕ → IntegerKey → Rid → Inserted
insert_leaf p new new_page_id leaf_max_size key value =
    let index = leaf_key_index p key in
    if is_at p index key
    then duplicate
    else (if leb p.max_size_ p.size_
        then (let (l, r) = split_leaf p new new_page_id leaf_max_size in
            if leb (min_size p.max_size_) index
            then (let r' = insert_at r (index - min_size p.max_size_) key value in
                into_two l r' (r'.key_array_ 0))
            else into_two (insert_at l index key value) r (r.key_array_ 0))
        else into_leaf (insert_at p index key value))

-- The child that FindLeafPage and FindAndLock take. `index` is 1 at least after KeyIndex, so that
-- `index--` does not pass 0.
unfoldable pub child_index : InternalPage → IntegerKey → Result ℕ
child_index p key =
    let index = internal_key_index p key in
    if not (ltb index p.size_)
    then ok (index - 1)
    else (do k ← key_at p index; if compare_keys key k == 0 then ok index else ok (index - 1))

pub data Page : Type 0 where
  leaf_page : LeafPage → Page
  internal_page : InternalPage → Page

-- FindLeafPage from a page on: `read` gives the bytes of a page, as ReadPage does, and `fuel` the
-- rounds of the loop.
unfoldable pub find_leaf_page : (ℕ → Result Page) → IntegerKey → ℕ → ℕ → Result LeafPage
find_leaf_page read key zero id = blocked
find_leaf_page read key (suc fuel) id = do
  page ← read id
  elim page [
    | leaf_page p ↦ ok p
    | internal_page p ↦ child_index p key >>= λ i. (value_at p i >>= find_leaf_page read key fuel)
  ]

-- GetValue from the root page on; the id of an empty tree's root is -1.
unfoldable pub tree_get_value : (ℕ → Result Page) → ℕ → ℕ → IntegerKey → Result (Option Rid)
tree_get_value read fuel root_page_id key =
    if root_page_id == minus_one
    then ok none
    else (find_leaf_page read key fuel root_page_id >>= λ p. ok (get_value p key))
