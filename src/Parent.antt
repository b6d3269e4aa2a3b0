-- ===== src/Parent.antt =====
-- Insert into a parent (src/b_plus_tree.cpp, Insert): a key and a child go into an internal page,
-- and a full page is split. The source has this text twice, for the leaf's parent and in the loop
-- over the pages above it.
pub mod Slots
pub mod Spread
pub mod Route
pub mod Part
use bicycletub.Common.{
  ℕ, zero, suc, ◌+◌, ◌-◌, Option, none, some, Result, ok, err, ◌>>=◌, if◌then◌else◌, ltb, leb, ◌==◌,
  minus_one,
}
use bicycletub.Tree.{
  InternalPage, IntegerKey, default_key, set_at, min_size, init_internal, internal_key_index,
  key_at,
}

-- The writes of one slot.
abbrev pub put_entry : InternalPage → ℕ → IntegerKey → ℕ → InternalPage
put_entry p i key child = record p {
  key_array_ = set_at p.key_array_ i key;
  page_id_array_ = set_at p.page_id_array_ i child;
}

abbrev pub clear_entry : InternalPage → ℕ → InternalPage
clear_entry p i = put_entry p i default_key minus_one

abbrev pub resize : InternalPage → ℕ → InternalPage
resize p n = record p { size_ = n }

-- `for (; i > index; i--)`: the slots go up by one, `n` rounds from `i` down.
abbrev pub shift_entry : InternalPage → ℕ → InternalPage
shift_entry p i = put_entry p i (p.key_array_ (i - 1)) (p.page_id_array_ (i - 1))

unfoldable pub shift_entries : InternalPage → ℕ → ℕ → InternalPage
shift_entries p i zero = p
shift_entries p i (suc n) = shift_entries (shift_entry p i) (i - 1) n

-- `for (; …; i++, j++)`: the slots of `p` from `i` on go to those of `new` from `j` on, `n` rounds.
abbrev pub copy_entry : InternalPage → InternalPage → ℕ → ℕ → InternalPage
copy_entry p new i j =
    resize (put_entry new j (p.key_array_ i) (p.page_id_array_ i)) (new.size_ + 1)

unfoldable pub move_entries : InternalPage → InternalPage → ℕ → ℕ → ℕ → InternalPage × InternalPage
move_entries p new i j zero = (p, new)
move_entries p new i j (suc n) =
    move_entries (clear_entry p i) (copy_entry p new i j) (i + 1) (j + 1) n

-- "insert but no split".
unfoldable pub insert_entry : InternalPage → ℕ → IntegerKey → ℕ → InternalPage
insert_entry p index key child =
    let q = shift_entries p p.size_ (p.size_ - index) in
    resize (put_entry q index key child) (q.size_ + 1)

-- `page_id_array_[0] = child` on an empty page.
abbrev pub first_child : InternalPage → ℕ → InternalPage
first_child new child = record new {
  page_id_array_ = set_at new.page_id_array_ 0 child;
  size_ = new.size_ + 1;
}

abbrev pub Halves : Type 0
Halves = InternalPage × InternalPage × IntegerKey

-- `mid_index == key_insert_index`: the new child is the first of the new page.
unfoldable pub split_at : InternalPage → InternalPage → ℕ → IntegerKey → ℕ → Result Halves
split_at p new mid key child =
    let (l, r) = move_entries p (first_child new child) mid 1 (p.size_ - mid) in
    ok (resize l (l.size_ - (p.size_ - mid)), r, key)

-- `key_insert_index < mid_index`, with `mid` the index after `mid_index--`.
unfoldable pub spread_below :
    InternalPage → InternalPage → ℕ → ℕ → IntegerKey → ℕ → InternalPage × InternalPage
spread_below p new mid index key child =
    let new' = first_child new (p.page_id_array_ mid) in
    let (l, r) = move_entries (clear_entry p mid) new' (mid + 1) 1 (p.size_ - (mid + 1)) in
    let l' = shift_entries (resize l (l.size_ - (1 + (p.size_ - (mid + 1))))) mid (mid - index) in
    (resize (put_entry l' index key child) (l'.size_ + 1), r)

-- `key_insert_index > mid_index`.
unfoldable pub spread_above :
    InternalPage → InternalPage → ℕ → ℕ → IntegerKey → ℕ → InternalPage × InternalPage
spread_above p new mid index key child =
    let new' = first_child new (p.page_id_array_ mid) in
    let (l, r) = move_entries (clear_entry p mid) new' (mid + 1) 1 (index - (mid + 1)) in
    let j = 1 + (index - (mid + 1)) in
    let r' = resize (put_entry r j key child) (r.size_ + 1) in
    let (l', r'') = move_entries l r' index (j + 1) (p.size_ - index) in
    (resize l' (l'.size_ - (p.size_ - mid)), r'')

-- `tmp = KeyAt(mid_index)` is the key for the next level.
abbrev pub with_key : InternalPage × InternalPage → IntegerKey → Result Halves
with_key x key = ok (x.0, x.1, key)

-- The branch "split internal if need (and insert)" on a full page.
unfoldable pub split_internal : InternalPage → InternalPage → ℕ → IntegerKey → ℕ → Result Halves
split_internal p new index key child =
    let mid = min_size p.max_size_ in
    if mid == index
    then split_at p new mid key child
    else (if ltb index mid
        then key_at p (mid - 1) >>= with_key (spread_below p new (mid - 1) index key child)
        else key_at p mid >>= with_key (spread_above p new mid index key child))
