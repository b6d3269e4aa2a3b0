-- ===== src/Tests/JoinRuns.antt =====
-- A join of two small relations, of which the left one goes over two pages.
use bicycletub.Common.{
  ℕ, ◌≡◌, refl, arith, [], ◌∷◌, List, Result, ok, err, runtime_error, if◌then◌else◌, ◌==◌,
  minus_one,
}
use mathlib.Core.List.{Perm}
use bicycletub.Tree.{Rid, default_rid}
use bicycletub.Join.{
  SimpleRow, LongRow, simple_row, long_row, get_row, set_row, row_at, fill_block, scan_right,
  join_blocks, execute_join,
}
use bicycletub.Join.Chain.{Rows, Chain}
use bicycletub.Join.Blocks.{joined, execute_join-joined, execute_join_throws}

program : Unit {0}
unfolding get_row set_row row_at fill_block scan_right join_blocks execute_join
program = tt

abbrev rid : ℕ → ℕ → Rid
rid page_id slot_num = record { page_id = page_id; slot_num = slot_num }

abbrev row : Rid → ℕ → SimpleRow
row next col1 = record { next_rid = next; col1 = col1; col2 = 0 }

abbrev long : Rid → ℕ → LongRow
long next col1 = record { next_rid = next; col1 = col1; col2 = 0; col3 = λ i. 0 }

-- The columns 7 and 8 on page 3, and 7 on page 4.
abbrev left_page : ℕ → ℕ → SimpleRow
left_page page_id slot_num =
    if page_id == 3
    then (if slot_num == 0 then row (rid 3 1) 7 else row (rid 4 5) 8)
    else row default_rid 7

abbrev right_page : ℕ → LongRow
right_page slot_num = if slot_num == 0 then long (rid 9 2) 8 else long default_rid 7

abbrev read_left : ℕ → Result (ℕ → SimpleRow)
read_left page_id = ok (left_page page_id)

abbrev read_right : ℕ → Result (ℕ → LongRow)
read_right page_id = if page_id == minus_one then err runtime_error else ok right_page

abbrev left_rows : Rows SimpleRow
left_rows =
    (rid 3 0, row (rid 3 1) 7) ∷ (rid 3 1, row (rid 4 5) 8) ∷ (rid 4 5, row default_rid 7) ∷ []

abbrev right_rows : Rows LongRow
right_rows = (rid 9 0, long (rid 9 2) 8) ∷ (rid 9 2, long default_rid 7) ∷ []

abbrev join : Rid → ℕ → Result (List (Rid × Rid))
join right_start block_size =
    execute_join simple_row long_row read_left read_right 4 4 (rid 3 0) right_start block_size

join_run : join (rid 9 0) 1 ≡ ok ((rid 3 1, rid 9 0) ∷ (rid 3 0, rid 9 2) ∷ (rid 4 5, rid 9 2) ∷ [])
unfolding program
join_run = refl

left-Chain : Chain simple_row read_left (rid 3 0) left_rows
unfolding program
left-Chain = (
  refl,
  refl,
  left_page 3,
  refl,
  refl,
  (refl, refl, left_page 3, refl, refl, (refl, refl, left_page 4, refl, refl, refl)),
)

right-Chain : Chain long_row read_right (rid 9 0) right_rows
unfolding program
right-Chain = (refl, refl, right_page, refl, refl, (refl, refl, right_page, refl, refl, refl))

execute_join-joined_example :
    (results : List (Rid × Rid)) × (join (rid 9 0) 1 ≡ ok results)
    × Perm results (joined simple_row long_row right_rows left_rows)
execute_join-joined_example =
    execute_join-joined simple_row long_row read_left read_right (rid 9 0) right_rows 4 1
      right-Chain right_page refl (omega arith) (omega arith) 4 (rid 3 0) left_rows left-Chain
      (omega arith) (omega arith)

execute_join_throws_example : join default_rid 1 ≡ err runtime_error
execute_join_throws_example =
    execute_join_throws simple_row long_row read_left read_right default_rid 4 1 runtime_error refl
      4 (rid 3 0) left_rows left-Chain (omega arith) (omega arith) (omega arith) (omega arith)
