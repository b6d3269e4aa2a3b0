-- ===== src/Join/Chain.antt =====
-- The loops of the join over a chain of rows.
use bicycletub.Common.{
  ℕ, zero, suc, ◌+◌, ◌<◌, ◌≡◌, refl, sym, ap, ◌∙◌, subst, arith, Bool, true, false, ◌&&◌, List, [],
  ◌∷◌, ◌++◌, map, length, Result, ok, if◌then◌else◌, leb, ◌==◌, Bool-cases, inl, inr,
}
use mathlib.Core.List.{append_assoc, append-nil}
use bicycletub.Tree.{Rid}
use bicycletub.Join.{
  RowType, RowGuard, is_valid, row_at, turn_to, Item, matches, fill_block, scan_right,
}

abbrev pub Rows : Type 0 → Type 0
Rows Row = List (Rid × Row)

-- The rows of a relation from `rid` on: each page is read, and the last row's next id is not valid.
abbrev pub Chain : {Row : Type 0} → RowType Row → (ℕ → Result (ℕ → Row)) → Rid → Rows Row → Type 0
Chain k read rid [] = is_valid rid ≡ false
Chain {Row} k read rid ((r, row) ∷ rows) =
    (r ≡ rid)
    × (is_valid rid ≡ true)
    × (page : ℕ → Row) × (read rid.page_id ≡ ok page)
    × (row_at k page rid.slot_num ≡ ok row)
    × Chain k read (k.row_next row) rows

abbrev pub Holds : {Row : Type 0} → (ℕ → Result (ℕ → Row)) → RowGuard Row → Type 0
Holds read guard = read (guard.0) ≡ ok (guard.1)

abbrev value_of : {A : Type 0} → A → Result A → A
value_of a (ok b) = b
value_of a _ = a

turn_to_lem :
    {Row : Type 0} (read : ℕ → Result (ℕ → Row)) (guard : RowGuard Row) (page_id : ℕ)
    (page : ℕ → Row)
    → Holds read guard
    → read page_id ≡ ok page
    → turn_to read guard page_id ≡ ok (page_id, page)
turn_to_lem read guard page_id page h e = elim (Bool-cases (guard.0 == page_id)) [
  | inr a ↦ rw (a, e) refl
  | inl a ↦
      let same : guard.0 ≡ page_id = ground (arith, a) in
      let found : read page_id ≡ ok (guard.1) = rw⁻¹ same h in
      rw (a, same) (ap (λ x. ok (page_id, x)) (ap (value_of page) (sym found ∙ e)))
]

and_false : (b : Bool) → (b && false) ≡ false
and_false true = refl
and_false false = refl

-- The pairs of the items with the rows, row by row.
abbrev pub pairs : {Row : Type 0} → RowType Row → List Item → Rows Row → List (Rid × Rid)
pairs k items [] = []
pairs k items ((r, row) ∷ rows) = matches items (k.row_col1 row) r ++ pairs k items rows

abbrev pub item_of : {Row : Type 0} → RowType Row → Rid × Row → Item
item_of k (r, row) = record { col1 = k.row_col1 row; left_rid = r }

module _ {LeftRow RightRow : Type 0} (left : RowType LeftRow) (right : RowType RightRow)
    (read_left : ℕ → Result (ℕ → LeftRow)) (read_right : ℕ → Result (ℕ → RightRow)) where
  pub scan_right-pairs :
      (fuel : ℕ) (items : List Item) (guard : RowGuard RightRow) (rid : Rid) (rows : Rows RightRow)
      (results : List (Rid × Rid))
      → Chain right read_right rid rows
      → Holds read_right guard
      → length rows < fuel
      → scan_right left right read_left read_right fuel items guard rid results
        ≡ ok (results ++ pairs right items rows)
  unfolding scan_right
  scan_right-pairs zero items guard rid rows results c h f = absurd (omega arith)
  scan_right-pairs (suc fuel) items guard rid [] results c h f =
      rw (scan_right, c, append-nil results) refl
  scan_right-pairs (suc fuel) items guard rid ((r, row) ∷ rows) results (e, a, page, b, d, c) h f =
      let next =
        scan_right-pairs fuel items (rid.page_id, page) (right.row_next row) rows
          (results ++ matches items (right.row_col1 row) rid) c b (omega (arith, f)) in
      rw (scan_right, a, turn_to_lem read_right guard rid.page_id page h b, d, e, next)
        (ap ok
          (append_assoc results (matches items (right.row_col1 row) rid) (pairs right items rows)))

  -- What fills a block: the first rows of those that are left, one at least if there is one and the
  -- block has room.
  pub record Filled (rid : Rid) (rows : Rows LeftRow) (r : Rid × List Item) (items : List Item)
      : Type 0 where
    pub taken : Rows LeftRow
    pub rest : Rows LeftRow
    pub all : rows ≡ taken ++ rest
    pub block : r.1 ≡ items ++ map (item_of left) taken
    pub chain : Chain left read_left (r.0) rest
    pub length_all : length taken + length rest ≡ length rows

  Filled-more :
      (rid next : Rid) (row : LeftRow) (rows : Rows LeftRow) (r : Rid × List Item)
      (items : List Item)
      → Filled next rows r (items ++ item_of left (rid, row) ∷ [])
      → (w : Filled rid ((rid, row) ∷ rows) r items) × (0 < length w.taken)
  Filled-more rid next row rows r items v = (
    record {
      taken = (rid, row) ∷ v.taken;
      rest = v.rest;
      all = ap (λ l. (rid, row) ∷ l) v.all;
      block =
          v.block ∙ append_assoc items (item_of left (rid, row) ∷ []) (map (item_of left) v.taken);
      chain = v.chain;
      length_all = omega (arith, v.length_all);
    },
    omega arith,
  )

  pub fill_block-Filled :
      (fuel block_size : ℕ) (guard : RowGuard LeftRow) (rid : Rid) (count : ℕ) (items : List Item)
      (rows : Rows LeftRow)
      → Chain left read_left rid rows
      → Holds read_left guard
      → length rows < fuel
      → (r : Rid × List Item) × (fill_block left right read_left read_right fuel block_size guard
            rid count items
          ≡ ok r)
        × (v : Filled rid rows r items) × (leb count block_size ≡ true
            → 0 < length rows
            → 0 < length v.taken)
  unfolding fill_block
  fill_block-Filled zero block_size guard rid count items rows c h f = absurd (omega arith)
  fill_block-Filled (suc fuel) block_size guard rid count items [] c h f = (
    (rid, items),
    rw (fill_block, c, and_false (leb count block_size)) refl,
    record {
      taken = [];
      rest = [];
      all = refl;
      block = sym (append-nil items);
      chain = c;
      length_all = omega arith;
    },
    λ x y. absurd (omega arith),
  )
  fill_block-Filled (suc fuel) block_size guard rid count items ((r, row) ∷ rows)
        (e, a, page, b, d, c) h f =
      elim (Bool-cases (leb count block_size)) [
        | inr x ↦ (
          (rid, items),
          rw (fill_block, x) refl,
          record {
            taken = [];
            rest = (r, row) ∷ rows;
            all = refl;
            block = sym (append-nil items);
            chain = (e, a, page, b, d, c);
            length_all = omega arith;
          },
          λ y z. absurd (ground (arith, x, y)),
        )
        | inl x ↦
            let (o, g, v, u) =
              fill_block-Filled fuel block_size (rid.page_id, page) (left.row_next row)
                (if guard.0 == rid.page_id then count else count + 1)
                (items ++ item_of left (rid, row) ∷ []) rows c b (omega (arith, f)) in
            let (w, y) =
              subst (λ i. (v : Filled rid ((i, row) ∷ rows) o items) × (0 < length v.taken)) (sym e)
                (Filled-more rid (left.row_next row) row rows o items v) in
            (
              o,
              rw (fill_block, x, a, turn_to_lem read_left guard rid.page_id page h b, d) g,
              w,
              λ l m. y,
            )
      ]
