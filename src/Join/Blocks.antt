-- ===== src/Join/Blocks.antt =====
-- What the join returns.
use bicycletub.Common.{
  ℕ, zero, suc, ◌<◌, ◌≤◌, ◌≡◌, refl, ap, ◌∙◌, arith, true, List, [], ◌∷◌, ◌++◌, map, length, Result,
  ok, err, Error, ◌>>=◌, ◌==◌, if◌then◌else◌, Bool-cases, inl, inr,
}
use mathlib.Core.List.{Perm, append_assoc, append-nil, map-append}
use mathlib.Core.List.Perm
use mathlib.Core.List.Permᴰ
use bicycletub.Tree.{Rid}
use bicycletub.Join.{
  RowType, is_valid, Item, matches, fill_block, scan_from, join_blocks, execute_join,
}
use bicycletub.Join.Chain.{Rows, Chain, pairs, item_of, scan_right-pairs, fill_block-Filled}

matches-append :
    (a b : List Item) (col : ℕ) (rid : Rid)
    → matches (a ++ b) col rid ≡ matches a col rid ++ matches b col rid
matches-append [] b col rid = refl
matches-append (x ∷ a) b col rid = elim (Bool-cases (x.col1 == col)) [
  | inl e ↦ rw e (ap (λ l. (x.left_rid, rid) ∷ l) (matches-append a b col rid))
  | inr e ↦ rw e (matches-append a b col rid)
]

Perm-exchange : {A : Type 0} (a b c d : List A) → Perm ((a ++ b) ++ (c ++ d)) ((a ++ c) ++ (b ++ d))
Perm-exchange a b c d =
    rw (append_assoc a b (c ++ d), append_assoc a c (b ++ d))
      (Perm.append_left a (
        rw⁻¹ (append_assoc b c d, append_assoc c b d)
          (Perm.append_right d ∣ Permᴰ.append_comm b c ∣₁)))

-- The pairs of two blocks after each other are those of both at once, in another order.
pairs-Perm :
    {Row : Type 0} (k : RowType Row) (a b : List Item) (rows : Rows Row)
    → Perm (pairs k a rows ++ pairs k b rows) (pairs k (a ++ b) rows)
pairs-Perm k a b [] = Perm.rfl
pairs-Perm k a b ((r, row) ∷ rows) =
    let m = k.row_col1 row in
    rw (matches-append a b m r) (
      Perm.trans (Perm-exchange (matches a m r) (pairs k a rows) (matches b m r) (pairs k b rows))
        (Perm.append_left (matches a m r ++ matches b m r) (pairs-Perm k a b rows)))

pairs-nil : {Row : Type 0} (k : RowType Row) (rows : Rows Row) → pairs k [] rows ≡ []
pairs-nil k [] = refl
pairs-nil k ((r, row) ∷ rows) = pairs-nil k rows

-- A left row with each right row of the same first column.
abbrev pub partners :
    {LeftRow RightRow : Type 0}
    → RowType LeftRow
    → RowType RightRow
    → Rid × LeftRow
    → Rows RightRow
    → List (Rid × Rid)
partners left right l [] = []
partners left right (l, row) ((r, other) ∷ right_rows) =
    if left.row_col1 row == right.row_col1 other
    then (l, r) ∷ partners left right (l, row) right_rows
    else partners left right (l, row) right_rows

-- The equijoin of two relations on their first columns, left row by left row.
abbrev pub joined :
    {LeftRow RightRow : Type 0}
    → RowType LeftRow
    → RowType RightRow
    → Rows RightRow
    → Rows LeftRow
    → List (Rid × Rid)
joined left right right_rows [] = []
joined left right right_rows (x ∷ left_rows) =
    partners left right x right_rows ++ joined left right right_rows left_rows

-- The pairs of the loops, right row by right row.
abbrev paired :
    {LeftRow RightRow : Type 0}
    → RowType LeftRow
    → RowType RightRow
    → Rows RightRow
    → Rows LeftRow
    → List (Rid × Rid)
paired left right right_rows left_rows = pairs right (map (item_of left) left_rows) right_rows

module _ {LeftRow RightRow : Type 0} (left : RowType LeftRow) (right : RowType RightRow) where
  pairs-partners :
      (x : Rid × LeftRow) (right_rows : Rows RightRow)
      → pairs right (item_of left x ∷ []) right_rows ≡ partners left right x right_rows
  pairs-partners x [] = refl
  pairs-partners (l, row) ((r, other) ∷ right_rows) =
      elim (Bool-cases (left.row_col1 row == right.row_col1 other)) [
        | inl e ↦ rw e (ap (λ z. (l, r) ∷ z) (pairs-partners (l, row) right_rows))
        | inr e ↦ rw e (pairs-partners (l, row) right_rows)
      ]

  paired-joined :
      (right_rows : Rows RightRow) (left_rows : Rows LeftRow)
      → Perm (paired left right right_rows left_rows) (joined left right right_rows left_rows)
  paired-joined right_rows [] = rw (pairs-nil right right_rows) Perm.nil
  paired-joined right_rows (x ∷ left_rows) =
      Perm.trans
        (Perm.symm
          (pairs-Perm right (item_of left x ∷ []) (map (item_of left) left_rows) right_rows))
        (rw (pairs-partners x right_rows) (
          Perm.append_left (partners left right x right_rows) (paired-joined right_rows left_rows)))

module _ {LeftRow RightRow : Type 0} (left : RowType LeftRow) (right : RowType RightRow)
    (read_left : ℕ → Result (ℕ → LeftRow)) (read_right : ℕ → Result (ℕ → RightRow))
    (right_start : Rid) (right_rows : Rows RightRow) (rows block_size : ℕ)
    (right_chain : Chain right read_right right_start right_rows) (right_page : ℕ → RightRow)
    (right_read : read_right right_start.page_id ≡ ok right_page)
    (enough_right : length right_rows < rows) (some_page : 1 ≤ block_size) where
  after_block :
      (taken : Rows LeftRow) (results : List (Rid × Rid))
      (go_on : List (Rid × Rid) → Result (List (Rid × Rid)))
      → 0 < length taken
      → elim (map (item_of left) taken) [
        | [] ↦ ok results
        | item ∷ rest ↦
            scan_from left right read_left read_right rows right_start (item ∷ rest) results
            >>= go_on
      ]
        ≡ go_on (results ++ paired left right right_rows taken)
  after_block [] results go_on h = absurd (omega arith)
  after_block (x ∷ taken) results go_on h =
      rw
        (
          right_read,
          scan_right-pairs left right read_left read_right rows (map (item_of left) (x ∷ taken))
              (right_start.page_id, right_page) right_start right_rows results right_chain
              right_read enough_right,
        )
        refl

  after_items :
      (items : List Item) (taken : Rows LeftRow) (results : List (Rid × Rid))
      (go_on : List (Rid × Rid) → Result (List (Rid × Rid)))
      → items ≡ map (item_of left) taken
      → 0 < length taken
      → elim items [
        | [] ↦ ok results
        | item ∷ rest ↦
            scan_from left right read_left read_right rows right_start (item ∷ rest) results
            >>= go_on
      ]
        ≡ go_on (results ++ paired left right right_rows taken)
  after_items items taken results go_on e h = rw e (after_block taken results go_on h)

  paired-Perm :
      (a b : Rows LeftRow)
      → Perm
          (paired left right right_rows a ++ paired left right right_rows b)
          (paired left right right_rows (a ++ b))
  paired-Perm a b =
      rw (map-append (item_of left) a b)
        (pairs-Perm right (map (item_of left) a) (map (item_of left) b) right_rows)

  -- One round, with what the rounds after it give.
  round_step :
      (fuel : ℕ) (rid next : Rid) (items : List Item) (page : ℕ → LeftRow)
      (left_rows taken rest : Rows LeftRow) (results out : List (Rid × Rid))
      → is_valid rid ≡ true
      → read_left rid.page_id ≡ ok page
      → fill_block left right read_left read_right rows block_size (rid.page_id, page) rid 1 []
        ≡ ok (next, items)
      → items ≡ map (item_of left) taken
      → 0 < length taken
      → left_rows ≡ taken ++ rest
      → join_blocks left right read_left read_right fuel rows block_size next right_start
          (results ++ paired left right right_rows taken)
        ≡ ok ((results ++ paired left right right_rows taken) ++ out)
      → Perm out (paired left right right_rows rest)
      → (out : List (Rid × Rid)) × (join_blocks left right read_left read_right
            (suc fuel)
            rows
            block_size
            rid
            right_start
            results
          ≡ ok (results ++ out))
        × Perm out (paired left right right_rows left_rows)
  unfolding join_blocks
  round_step fuel rid next items page left_rows taken rest results out a b x e h all y p = (
    paired left right right_rows taken ++ out,
    rw (join_blocks, a, b, x)
        (after_items items taken results
            (λ r.
              join_blocks left right read_left read_right fuel rows block_size next right_start r)
            e h
          ∙ y
          ∙ ap ok (append_assoc results (paired left right right_rows taken) out)),
    rw all (
        Perm.trans (Perm.append_left (paired left right right_rows taken) p)
          (paired-Perm taken rest)),
  )

  -- The rounds of the outer loop add the pairs of the rows that are left.
  join_blocks-paired :
      (fuel : ℕ) (rid : Rid) (left_rows : Rows LeftRow) (results : List (Rid × Rid))
      → Chain left read_left rid left_rows
      → length left_rows < fuel
      → length left_rows < rows
      → (out : List (Rid × Rid)) × (join_blocks left right read_left read_right fuel rows block_size
            rid right_start results
          ≡ ok (results ++ out))
        × Perm out (paired left right right_rows left_rows)
  unfolding join_blocks
  join_blocks-paired zero rid left_rows results c f g = absurd (omega arith)
  join_blocks-paired (suc fuel) rid [] results c f g =
      ([], rw (join_blocks, c, append-nil results) refl, rw (pairs-nil right right_rows) Perm.nil)
  join_blocks-paired (suc fuel) rid ((r, row) ∷ left_rows) results (e, a, page, b, d, c) f g =
      let (o, x, v, u) =
        fill_block-Filled left right read_left read_right rows block_size (rid.page_id, page) rid 1
          [] ((r, row) ∷ left_rows) (e, a, page, b, d, c) b g in
      let some_taken = u (ground (arith, some_page)) (omega arith) in
      let (out, y, p) =
        join_blocks-paired fuel (o.0) v.rest (results ++ paired left right right_rows v.taken)
          v.chain (omega (arith, v.length_all, some_taken, f)) (omega (arith, v.length_all, g)) in
      round_step fuel rid (o.0) (o.1) page ((r, row) ∷ left_rows) v.taken v.rest results out a b x
        v.block some_taken v.all y p

  -- ExecuteJoin on two chains of rows whose pages are read, with blocks of one page at least, a
  -- readable first page of the right relation, and more fuel than rows: it returns the equijoin,
  -- that is for each left row its id with that of each right row of the same first column, as often
  -- as the rows have it, in some order.
  pub execute_join-joined :
      (fuel : ℕ) (left_start : Rid) (left_rows : Rows LeftRow)
      → Chain left read_left left_start left_rows
      → length left_rows < fuel
      → length left_rows < rows
      → (results : List (Rid × Rid)) × (execute_join left right read_left read_right fuel rows
            left_start right_start block_size
          ≡ ok results)
        × Perm results (joined left right right_rows left_rows)
  unfolding execute_join
  execute_join-joined fuel left_start left_rows c f g =
      let (results, e, p) = join_blocks-paired fuel left_start left_rows [] c f g in
      (results, e, Perm.trans p (paired-joined left right right_rows left_rows))

-- A right relation that has no page to read.
module _ {LeftRow RightRow : Type 0} (left : RowType LeftRow) (right : RowType RightRow)
    (read_left : ℕ → Result (ℕ → LeftRow)) (read_right : ℕ → Result (ℕ → RightRow))
    (right_start : Rid) (rows block_size : ℕ) (e : Error)
    (thrown : read_right right_start.page_id ≡ err e) where
  throws_items :
      (items : List Item) (taken : Rows LeftRow)
      (go_on : List (Rid × Rid) → Result (List (Rid × Rid)))
      → items ≡ map (item_of left) taken
      → 0 < length taken
      → elim items [
        | [] ↦ ok []
        | item ∷ rest ↦
            scan_from left right read_left read_right rows right_start (item ∷ rest) [] >>= go_on
      ]
        ≡ err e
  throws_items items [] go_on f h = absurd (omega arith)
  throws_items items (x ∷ taken) go_on f h = rw (f, thrown) refl

  -- ExecuteJoin on a chain of left rows that is not empty, with blocks of one page at least, fuel for a round and more than the
  -- left rows for the loop that fills a block, throws what ReadPage throws for the first
  -- page id of the right relation.
  pub execute_join_throws :
      (fuel : ℕ) (left_start : Rid) (left_rows : Rows LeftRow)
      → Chain left read_left left_start left_rows
      → 0 < length left_rows
      → 1 ≤ block_size
      → 0 < fuel
      → length left_rows < rows
      → execute_join left right read_left read_right fuel rows left_start right_start block_size
        ≡ err e
  unfolding execute_join join_blocks
  execute_join_throws zero left_start left_rows c some_row b f g = absurd (omega arith)
  execute_join_throws (suc fuel) left_start [] c some_row b f g = absurd (omega arith)
  execute_join_throws (suc fuel) left_start ((r, row) ∷ left_rows) (d, a, page, p, q, c) some_row b
        f g =
      let (o, x, v, u) =
        fill_block-Filled left right read_left read_right rows block_size (left_start.page_id, page)
          left_start 1 [] ((r, row) ∷ left_rows) (d, a, page, p, q, c) p g in
      rw (join_blocks, a, p, x)
        (throws_items (o.1) v.taken
          (λ r.
            join_blocks left right read_left read_right fuel rows block_size (o.0) right_start r)
          v.block (u (ground (arith, b)) (omega arith)))
