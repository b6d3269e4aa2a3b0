-- ===== src/Join.antt =====
-- The row pages (include/page.h, src/page.cpp, include/types.h) and the block nested loop join on
-- them (include/bnlj.h, src/bnlj.cpp). A relation is a chain of rows: each has the record id of the
-- next. The bytes of a page are its slots, as many as rows fit.
pub mod Blocks
pub mod Chain
use bicycletub.Common.{
  ℕ, zero, suc, ◌+◌, ◌/◌, ◌<◌, Bool, true, false, not, ◌&&◌, ◌≡◌, List, [], ◌∷◌, ◌++◌, Option, none,
  some, Result, ok, err, blocked, null_deref, ◌>>=◌, if◌then◌else◌, leb, ltb, ◌==◌, minus_one,
}
use bicycletub.Tree.{Rid, set_at}

abbrev pub page_size : ℕ
page_size = 4096

-- `RID::IsValid`.
abbrev pub is_valid : Rid → Bool
is_valid r = not (r.page_id == minus_one) && not (r.slot_num == minus_one)

pub record SimpleRow : Type 0 where
  pub next_rid : Rid
  pub col1 : ℕ
  pub col2 : ℕ

pub record LongRow : Type 0 where
  pub next_rid : Rid
  pub col1 : ℕ
  pub col2 : ℕ
  pub col3 : ℕ → ℕ

-- What the templates ask of a row type: `next_rid`, `col1` and its `sizeof`.
pub record RowType (Row : Type 0) : Type 0 where
  pub row_next : Row → Rid
  pub row_col1 : Row → ℕ
  pub row_size : ℕ

abbrev pub simple_row : RowType SimpleRow
simple_row = record { row_next = λ r. r.next_rid; row_col1 = λ r. r.col1; row_size = 16 }

abbrev pub long_row : RowType LongRow
long_row = record { row_next = λ r. r.next_rid; row_col1 = λ r. r.col1; row_size = 80 }

-- `GetRow`, whose null pointer is `none`, and `SetRow`.
unfoldable pub get_row : {Row : Type 0} → RowType Row → (ℕ → Row) → ℕ → Option Row
get_row k page index = if leb (page_size / k.row_size) index then none else some (page index)

unfoldable pub set_row : {Row : Type 0} → RowType Row → (ℕ → Row) → ℕ → Row → (ℕ → Row)
set_row k page index row =
    if leb (page_size / k.row_size) index then page else set_at page index row

-- The row that the join reads by `->`.
unfoldable pub row_at : {Row : Type 0} → RowType Row → (ℕ → Row) → ℕ → Result Row
row_at k page index = elim (get_row k page index) [ none ↦ err null_deref | some row ↦ ok row ]

-- `item`.
pub record Item : Type 0 where
  pub col1 : ℕ
  pub left_rid : Rid

-- A read guard: the page's id and its rows. `read` is ReadPage.
abbrev pub RowGuard : Type 0 → Type 0
RowGuard Row = ℕ × (ℕ → Row)

-- The guard for the row's page: the one at hand, or a new one.
abbrev pub turn_to :
    {Row : Type 0} → (ℕ → Result (ℕ → Row)) → RowGuard Row → ℕ → Result (RowGuard Row)
turn_to read guard page_id =
    if guard.0 == page_id then ok guard else (read page_id >>= λ page. ok (page_id, page))

-- The loop over the items of the block for a row of the right relation.
abbrev pub matches : List Item → ℕ → Rid → List (Rid × Rid)
matches [] col rid = []
matches (item ∷ items) col rid =
    if item.col1 == col then (item.left_rid, rid) ∷ matches items col rid else matches items col rid

module _ {LeftRow RightRow : Type 0} (left : RowType LeftRow) (right : RowType RightRow)
    (read_left : ℕ → Result (ℕ → LeftRow)) (read_right : ℕ → Result (ℕ → RightRow)) where
  -- The loop that fills a block, with the count of its pages. Back come the rid to go on from and
  -- the items.
  unfoldable pub fill_block :
      ℕ → ℕ → RowGuard LeftRow → Rid → ℕ → List Item → Result (Rid × List Item)
  fill_block zero block_size guard rid count items = blocked
  fill_block (suc fuel) block_size guard rid count items =
      elim (leb count block_size && is_valid rid) [
        | false ↦ ok (rid, items)
        | true ↦ turn_to read_left guard rid.page_id >>= λ guard'.
            (row_at left (guard'.1) rid.slot_num >>= λ row.
            fill_block fuel block_size guard' (left.row_next row)
              (if guard.0 == rid.page_id then count else count + 1)
              (items ++ record { col1 = left.row_col1 row; left_rid = rid } ∷ []))
      ]

  -- The loop over the right relation.
  unfoldable pub scan_right :
      ℕ → List Item → RowGuard RightRow → Rid → List (Rid × Rid) → Result (List (Rid × Rid))
  scan_right zero items guard rid results = blocked
  scan_right (suc fuel) items guard rid results = elim (is_valid rid) [
    | false ↦ ok results
    | true ↦ turn_to read_right guard rid.page_id >>= λ guard'.
        (row_at right (guard'.1) rid.slot_num >>= λ row.
        scan_right fuel items guard' (right.row_next row)
          (results ++ matches items (right.row_col1 row) rid))
  ]

  abbrev pub scan_from : ℕ → Rid → List Item → List (Rid × Rid) → Result (List (Rid × Rid))
  scan_from fuel right_start items results = read_right right_start.page_id >>= λ page.
      scan_right fuel items (right_start.page_id, page) right_start results

  -- The outer loop, a block a round. `fuel` bounds the rounds, `rows` those of the loops in them.
  unfoldable pub join_blocks : ℕ → ℕ → ℕ → Rid → Rid → List (Rid × Rid) → Result (List (Rid × Rid))
  join_blocks zero rows block_size rid right_start results = blocked
  join_blocks (suc fuel) rows block_size rid right_start results = elim (is_valid rid) [
    | false ↦ ok results
    | true ↦ read_left rid.page_id >>= λ page.
        (fill_block rows block_size (rid.page_id, page) rid 1 [] >>= λ (rid', items). elim items [
          | [] ↦ ok results
          | item ∷ rest ↦ scan_from rows right_start (item ∷ rest) results >>= λ results'.
              join_blocks fuel rows block_size rid' right_start results'
        ])
  ]

  -- `ExecuteJoin`.
  unfoldable pub execute_join : ℕ → ℕ → Rid → Rid → ℕ → Result (List (Rid × Rid))
  execute_join fuel rows left_start right_start block_size =
      join_blocks fuel rows block_size left_start right_start []
