-- ===== src/Value/Write.antt =====
-- A setter on a well-formed grid changes one cell of the view, and keeps the grid well-formed.
use mathlib.Core.Path.{ap₂, subst}
use native.Mathlib.Decide.{ℕ_discrete}
use excelize.Common.{
  ℕ, suc, ◌+◌, ◌≤◌, ◌<◌, ◌≡◌, sym, ap, ◌∙◌, ◌&&◌, none, some, List, arith, ◌==◌, if◌then◌else◌,
  length, get_elem?, set, get_elem?-set_self, lt_of_get_elem?, get_elem?-lt, Bytes, ◌>>=◌, ok,
  fault,
}
use excelize.Common.Int.{max_int, ◌-ℤ◌, pos}
use excelize.Merge.{merge_cells_parser}
use excelize.Ref.Cell.RoundTrip.{cell_name, cell_name_to_coordinates-cell_name}
use excelize.Sheet.Data.{Cell, Row, Worksheet, modify_at, modify_at-some}
use excelize.Sheet.Grid.{
  IsCells, IsRows, IsGrid, fill_columns-IsCells, grown_rows-IsRows, length-grown_rows,
  length-fill_columns, IsRows-at, set-IsRows, IsCells-at, set-IsCells,
}
use excelize.Sheet.Prepare.{fill_columns, grown_rows, prepare_sheet_xml}
use excelize.Sheet.View.{
  cells_view, rows_view, view, cells_view-fill_columns, rows_view-grown_rows, rows_view-at,
  rows_view-set_ne, rows_view-set_self, cells_view-at, cells_view-set_ne,
}
use excelize.Value.{prepare_cell, modify_in_rows, modify_cell, prepare_cell_style, update_cell}

pub pred-pos : (n : ℕ) → suc n ≤ max_int → pos (suc n) -ℤ pos 1 ≡ pos n
unfolding ◌-ℤ◌
pred-pos n h = ground arith

-- The rows behind prepareSheetXML, with the row and the cell that the caller goes on to use.
record Prepared (xlsx : Worksheet) (i j : ℕ) : Type 0 where
  rows : List Row
  at_row : Row
  at_cell : Cell
  done : prepare_sheet_xml xlsx (pos (suc j)) (pos (suc i)) ≡ ok (record xlsx { rows = rows })
  grid : IsRows 0 rows
  same : (i' j' : ℕ) → rows_view 0 rows i' j' ≡ rows_view 0 xlsx.rows i' j'
  row_there : get_elem? rows i ≡ some at_row
  cell_there : get_elem? at_row.c j ≡ some at_cell

prepare_rows :
    (xlsx : Worksheet) (i j : ℕ) (d : Row)
    → suc i ≤ max_int
    → get_elem? (grown_rows xlsx.rows (pos (suc i))) i ≡ some d
    → prepare_sheet_xml xlsx (pos (suc j)) (pos (suc i))
      ≡ ok (record xlsx {
        rows =
            set (grown_rows xlsx.rows (pos (suc i))) i (fill_columns d (pos (suc j)) (pos (suc i)));
      })
unfolding prepare_sheet_xml
prepare_rows xlsx i j d hi e = rw (pred-pos i hi) (
    ap (λ r. r >>= λ rows. ok (record xlsx { rows = rows }))
      (modify_at-some (grown_rows xlsx.rows (pos (suc i))) i d
        (λ d. fill_columns d (pos (suc j)) (pos (suc i))) e))

view-set_filled :
    (rows : List Row) (i j i' j' : ℕ) (d : Row)
    → get_elem? rows i ≡ some d
    → i < length rows
    → rows_view 0 (set rows i (fill_columns d (pos (suc j)) (pos (suc i)))) i' j'
      ≡ rows_view 0 rows i' j'
view-set_filled rows i j i' j' d e lt = elim (ℕ_discrete i i') [
  | yes same ↦ rw (← same) (
      rows_view-set_self 0 rows i j' (fill_columns d (pos (suc j)) (pos (suc i))) lt
      ∙ cells_view-fill_columns'
      ∙ sym (rows_view-at 0 rows i j' d e))
  | no other ↦ rows_view-set_ne 0 rows i i' j' _ other
]
  where
    cells_view-fill_columns' :
        cells_view (suc (0 + i)) 0 (fill_columns d (pos (suc j)) (pos (suc i))).c j'
        ≡ cells_view (suc (0 + i)) 0 d.c j'
    cells_view-fill_columns' =
        let q : 0 + i ≡ i = omega arith in
        rw q (cells_view-fill_columns (suc i) (suc j) j' d (omega arith))

prepare_sheet_xml-Prepared :
    (xlsx : Worksheet) (i j : ℕ)
    → IsGrid xlsx
    → suc i ≤ max_int
    → suc j ≤ max_int
    → Prepared xlsx i j
prepare_sheet_xml-Prepared xlsx i j g hi hj =
    let grown = grown_rows xlsx.rows (pos (suc i)) in
    let lt : i < length grown = length-grown_rows xlsx.rows (suc i) in
    let (d, e) = get_elem?-lt grown i lt in
    let filled = fill_columns d (pos (suc j)) (pos (suc i)) in
    let grown_grid : IsRows 0 grown = grown_rows-IsRows xlsx.rows (suc i) hi g in
    let (b, er, hc) = IsRows-at 0 grown i d grown_grid e in
    let q : 0 + i ≡ i = omega arith in
    let hc' : IsCells (suc i) 0 d.c = subst (λ n. IsCells (suc n) 0 d.c) q hc in
    let (x, ex) = get_elem?-lt filled.c j (length-fill_columns d (suc j) (pos (suc i))) in
    record {
      rows = set grown i filled;
      at_row = filled;
      at_cell = x;
      done = prepare_rows xlsx i j d hi e;
      grid = set-IsRows 0 grown i filled grown_grid (unfold fill_columns in er) (
          subst (λ n. IsCells (suc n) 0 filled.c) (sym q)
            (fill_columns-IsCells d (suc j) (suc i) (omega arith) hj hc'));
      same = λ i' j'.
          view-set_filled grown i j i' j' d e lt ∙ rows_view-grown_rows xlsx.rows (suc i) i' j';
      row_there = get_elem?-set_self grown i filled lt;
      cell_there = ex;
    }

modify_in_rows_lem :
    (rows : List Row) (i j : ℕ) (d : Row) (x : Cell) (f : Cell → Cell)
    → get_elem? rows i ≡ some d
    → get_elem? d.c j ≡ some x
    → modify_in_rows (pos i) (pos j) f rows ≡ ok (set rows i (record d { c = set d.c j (f x) }))
unfolding modify_in_rows
modify_in_rows_lem rows i j d x f ed ex =
    ap
      (λ o. elim o [
        | none ↦ fault
        | some d ↦ modify_at (pos j) f d.c >>= λ cs. ok (set rows i (record d { c = cs }))
      ])
      ed
    ∙ ap (λ r. r >>= λ cs. ok (set rows i (record d { c = cs }))) (modify_at-some d.c j x f ex)

modify_cell_lem :
    (xlsx : Worksheet) (i j : ℕ) (d : Row) (x : Cell) (f : Cell → Cell)
    → suc i ≤ max_int
    → suc j ≤ max_int
    → get_elem? xlsx.rows i ≡ some d
    → get_elem? d.c j ≡ some x
    → modify_cell (pos (suc j)) (pos (suc i)) f xlsx
      ≡ ok (record xlsx { rows = set xlsx.rows i (record d { c = set d.c j (f x) }) })
modify_cell_lem xlsx i j d x f hi hj ed ex =
    unfold modify_cell in
    ap₂ (λ r c. modify_in_rows r c f xlsx.rows >>= λ rows. ok (record xlsx { rows = rows }))
      (pred-pos i hi) (pred-pos j hj)
    ∙ ap (λ r. r >>= λ rows. ok (record xlsx { rows = rows }))
        (modify_in_rows_lem xlsx.rows i j d x f ed ex)

-- The view with one cell changed.
abbrev pub updated : (ℕ → ℕ → Cell) → ℕ → ℕ → (Cell → Cell) → ℕ → ℕ → Cell
updated v i j f i' j' = if (i == i') && (j == j') then f (v i j) else v i' j'

module _ (rows : List Row) (i j : ℕ) (d : Row) (x : Cell) (f : Cell → Cell) (g : IsRows 0 rows)
    (ed : get_elem? rows i ≡ some d) (ex : get_elem? d.c j ≡ some x) where
  written : Row
  written = record d { c = set d.c j (f x) }

  row_lt : i < length rows
  row_lt = lt_of_get_elem? rows i d ed

  cell_lt : j < length d.c
  cell_lt = lt_of_get_elem? d.c j x ex

  written-IsRows : ((y : Cell) → (f y).r ≡ y.r) → IsRows 0 (set rows i written)
  unfolding written
  written-IsRows keeps =
      let (b, er, hc) = IsRows-at 0 rows i d g ed in
      set-IsRows 0 rows i written g er (
        set-IsCells (suc (0 + i)) 0 d.c j (f x) hc
          (keeps x ∙ IsCells-at (suc (0 + i)) 0 d.c j x hc ex))

  view_here : rows_view 0 rows i j ≡ x
  view_here = rows_view-at 0 rows i j d ed ∙ cells_view-at (suc (0 + i)) 0 d.c j x ex

  written-view :
      (i' j' : ℕ) → rows_view 0 (set rows i written) i' j' ≡ updated (rows_view 0 rows) i j f i' j'
  unfolding written
  written-view i' j' = elim (ℕ_discrete i i') [
    | no other ↦ rows_view-set_ne 0 rows i i' j' written other ∙ ground arith
    | yes same ↦ elim (ℕ_discrete j j') [
      | no other ↦ rw (← same) (
          rows_view-set_self 0 rows i j' written row_lt
          ∙ cells_view-set_ne (suc (0 + i)) 0 d.c j j' (f x) other
          ∙ sym (rows_view-at 0 rows i j' d ed)
          ∙ ground arith)
      | yes same' ↦
          rw (← same, ← same')
            (rows_view-set_self 0 rows i j written row_lt
              ∙ cells_view-at (suc (0 + i)) 0 (set d.c j (f x)) j (f x)
                  (get_elem?-set_self d.c j (f x) cell_lt)
              ∙ ap f (sym view_here)
              ∙ ground arith)
    ]
  ]

-- What a setter writes into the cell.
abbrev pub styled : Worksheet → ℕ → (Cell → Cell) → Cell → Cell
styled xlsx j f x = f (record x { s = prepare_cell_style xlsx (pos (suc j)) x.s })

prepare_cell_lem :
    (axis : Bytes) (xlsx : Worksheet) (i j : ℕ) (p : Prepared xlsx i j)
    → merge_cells_parser xlsx axis ≡ ok (cell_name (suc j) (suc i))
    → suc i ≤ max_int
    → suc j ≤ max_int
    → prepare_cell xlsx axis ≡ ok (record xlsx { rows = p.rows }, pos (suc j), pos (suc i))
unfolding prepare_cell
prepare_cell_lem axis xlsx i j p lead hi hj = rw (
  lead,
  cell_name_to_coordinates-cell_name (suc j) (suc i) (omega arith) hj (omega arith) hi,
  p.done,
)

Written : (Cell → Cell) → Bytes → Worksheet → ℕ → ℕ → Type 0
Written f axis xlsx i j =
    (rows : List Row) × (update_cell f axis xlsx ≡ ok (record xlsx { rows = rows }))
    × IsRows 0 rows
    × ((i' j' : ℕ) → rows_view 0 rows i' j' ≡ updated (view xlsx) i j (styled xlsx j f) i' j')

update-Prepared :
    (f : Cell → Cell) (axis : Bytes) (xlsx : Worksheet) (i j : ℕ) (p : Prepared xlsx i j)
    → ((y : Cell) → (f y).r ≡ y.r)
    → merge_cells_parser xlsx axis ≡ ok (cell_name (suc j) (suc i))
    → suc i ≤ max_int
    → suc j ≤ max_int
    → Written f axis xlsx i j
unfolding Written written
update-Prepared f axis xlsx i j p keeps lead hi hj =
    let grown : Worksheet = record xlsx { rows = p.rows } in
    let h : Cell → Cell = styled grown j f in
    (
      set p.rows i (record p.at_row { c = set p.at_row.c j (h p.at_cell) }),
      unfold update_cell in
          rw (prepare_cell_lem axis xlsx i j p lead hi hj)
            (modify_cell_lem grown i j p.at_row p.at_cell h hi hj p.row_there p.cell_there),
      written-IsRows p.rows i j p.at_row p.at_cell h p.grid p.row_there p.cell_there (λ y. keeps _),
      λ i' j'.
          written-view p.rows i j p.at_row p.at_cell h p.grid p.row_there p.cell_there i' j'
          ∙ unfold prepare_cell_style in
            ap₂ (λ a b. if (i == i') && (j == j') then styled xlsx j f a else b) (p.same i j)
              (p.same i' j'),
    )

-- A setter whose axis leads to a cell with coordinates in range succeeds on a well-formed grid: it
-- changes the rows alone, keeps the grid well-formed, and the new view is the old one with that
-- cell changed.
pub update_cell-view :
    (f : Cell → Cell) (axis : Bytes) (xlsx : Worksheet) (i j : ℕ)
    → ((y : Cell) → (f y).r ≡ y.r)
    → IsGrid xlsx
    → merge_cells_parser xlsx axis ≡ ok (cell_name (suc j) (suc i))
    → suc i ≤ max_int
    → suc j ≤ max_int
    → (rows : List Row) × (update_cell f axis xlsx ≡ ok (record xlsx { rows = rows }))
      × IsRows 0 rows
      × ((i' j' : ℕ) → rows_view 0 rows i' j' ≡ updated (view xlsx) i j (styled xlsx j f) i' j')
unfolding Written
update_cell-view f axis xlsx i j keeps g lead hi hj =
    update-Prepared f axis xlsx i j (prepare_sheet_xml-Prepared xlsx i j g hi hj) keeps lead hi hj

-- A write through the pointer of prepareCell, with the style left as it is: the same for the view.
pub modify_cell-view :
    (f : Cell → Cell) (axis : Bytes) (xlsx : Worksheet) (i j : ℕ)
    → ((y : Cell) → (f y).r ≡ y.r)
    → IsGrid xlsx
    → merge_cells_parser xlsx axis ≡ ok (cell_name (suc j) (suc i))
    → suc i ≤ max_int
    → suc j ≤ max_int
    → (grown : Worksheet) × (rows : List Row) × (prepare_cell xlsx axis
        ≡ ok (grown, pos (suc j), pos (suc i)))
      × (modify_cell (pos (suc j)) (pos (suc i)) f grown ≡ ok (record xlsx { rows = rows }))
      × IsRows 0 rows
      × ((i' j' : ℕ) → rows_view 0 rows i' j' ≡ updated (view xlsx) i j f i' j')
unfolding written
modify_cell-view f axis xlsx i j keeps g lead hi hj =
    let p = prepare_sheet_xml-Prepared xlsx i j g hi hj in
    let grown : Worksheet = record xlsx { rows = p.rows } in
    (
      grown,
      set p.rows i (record p.at_row { c = set p.at_row.c j (f p.at_cell) }),
      prepare_cell_lem axis xlsx i j p lead hi hj,
      modify_cell_lem grown i j p.at_row p.at_cell f hi hj p.row_there p.cell_there,
      written-IsRows p.rows i j p.at_row p.at_cell f p.grid p.row_there p.cell_there keeps,
      λ i' j'.
          written-view p.rows i j p.at_row p.at_cell f p.grid p.row_there p.cell_there i' j'
          ∙ ap₂ (λ a b. if (i == i') && (j == j') then f a else b) (p.same i j) (p.same i' j'),
    )
