-- ===== src/Value/Access.antt =====
-- Reading cells, and reading behind a setter.
use mathlib.Core.Option.{some-injective}
use excelize.Common.{
  ℕ, zero, suc, ◌+◌, ◌≤◌, ◌≡◌, refl, sym, ap, ◌∙◌, ◌≢◌, ◌⊎◌, inl, inr, Bool, true, none, some, List,
  [], ◌∷◌, arith, ltb, if◌then◌else◌, Bool-cases, Option-cases, length, get_elem?, take, get_last?,
  get_elem?-ge, Bytes, str_eq, Result, ◌>>=◌, ok, err, fault,
}
use excelize.Common.Int.{ℤ, max_int, ltb_ℤ, pos}
use excelize.Date.Steps.{within}
use excelize.Merge.{merge_cells_parser}
use excelize.Ref.Cell.RoundTrip.{cell_name, cell_name_to_coordinates-cell_name}
use excelize.Ref.Decimal.{itoa}
use excelize.Sheet.Data.{Cell, Row, Worksheet, blank_cell}
use excelize.Sheet.Grid.{IsRows, IsGrid}
use excelize.Sheet.View.{view, rows_view_blank}
use excelize.Value.{
  Book, formatted_value, value_from, row_search, last_row_num, get_cell_string_func, value_fn,
  get_cell_value, formula_fn, get_cell_formula, prepare_cell_style, update_cell, write_plain,
  set_cell_int, max_chars, clip, write_str, set_cell_str,
}
use excelize.Value.Find.{read, row_search-view}
use excelize.Value.Write.{updated, styled, update_cell-view}
use excelize.Workbook.Lookup.{behind}

get_last?-IsRows :
    (k : ℕ) (ds : List Row) (d : Row)
    → IsRows k ds
    → get_last? ds ≡ some d
    → d.r ≡ pos (k + length ds)
get_last?-IsRows k [] d g e = absurd (cc)
get_last?-IsRows k (x ∷ []) d (b, er, c, g) e =
    let q : k + 1 ≡ suc k = omega arith in
    rw q (sym (ap (λ (y : Row). y.r) (some-injective _ _ e)) ∙ er)
get_last?-IsRows k (x ∷ y ∷ ys) d (b, er, c, g) e =
    let q : k + suc (suc (length ys)) ≡ suc k + suc (length ys) = omega arith in
    rw q (get_last?-IsRows (suc k) (y ∷ ys) d g e)

pub get_last?-ne_none : (x : Row) (xs : List Row) → get_last? (x ∷ xs) ≢ none
get_last?-ne_none x [] e = absurd (cc)
get_last?-ne_none x (y ∷ ys) e = get_last?-ne_none y ys e

last_row_num-IsRows : (ds : List Row) → IsRows 0 ds → last_row_num ds ≡ pos (length ds)
unfolding last_row_num
last_row_num-IsRows [] g = refl
last_row_num-IsRows (x ∷ xs) g = elim (Option-cases (get_last? (x ∷ xs))) [
  | inl e ↦ absurd (get_last?-ne_none x xs e)
  | inr (d, e) ↦
      ap (λ o. elim o [ none ↦ pos 0 | some d ↦ d.r ]) e
      ∙ get_last?-IsRows 0 (x ∷ xs) d g e
      ∙ ap pos (omega arith)
]

none_of_le : (rows : List Row) (i : ℕ) → length rows ≤ i → get_elem? rows i ≡ none
none_of_le rows i h = get_elem?-ge rows i h

module _ (fn : Cell → Result (Bytes × Bool))
    (blank_reads : (name : Bytes) → read (fn (blank_cell name)) ≡ ok []) where
  search_or_blank :
      (xlsx : Worksheet) (i j : ℕ)
      → IsGrid xlsx
      → suc i ≤ max_int
      → suc j ≤ max_int
      → (if ltb_ℤ (last_row_num xlsx.rows) (pos (suc i))
          then ok []
          else row_search fn (cell_name (suc j) (suc i)) (pos (suc i)) xlsx.rows)
        ≡ read (fn (view xlsx i j))
  search_or_blank xlsx i j g hi hj =
      elim (Bool-cases (ltb_ℤ (last_row_num xlsx.rows) (pos (suc i)))) [
        | inl behind ↦
            let far : ltb_ℤ (pos (length xlsx.rows)) (pos (suc i)) ≡ true =
              ap (λ z. ltb_ℤ z (pos (suc i))) (sym (last_row_num-IsRows xlsx.rows g)) ∙ behind in
            rw behind (
              sym (blank_reads _)
              ∙ ap (λ x. read (fn x))
                  (sym (
                    rows_view_blank 0 xlsx.rows i j
                      (none_of_le xlsx.rows i (ground (arith, far))))))
        | inr within ↦ rw within (
            row_search-view fn (suc i) (omega arith) hi blank_reads 0 i j xlsx.rows g (omega arith)
              hj)
      ]

  -- A getter whose axis leads to a cell with coordinates in range reads that cell of the view.
  pub get_cell_string_func-view :
      (axis : Bytes) (xlsx : Worksheet) (i j : ℕ)
      → IsGrid xlsx
      → merge_cells_parser xlsx axis ≡ ok (cell_name (suc j) (suc i))
      → suc i ≤ max_int
      → suc j ≤ max_int
      → get_cell_string_func fn axis xlsx ≡ read (fn (view xlsx i j))
  unfolding get_cell_string_func
  get_cell_string_func-view axis xlsx i j g lead hi hj =
      rw
        (lead, cell_name_to_coordinates-cell_name (suc j) (suc i) (omega arith) hj (omega arith) hi)
        (search_or_blank xlsx i j g hi hj)

read-value_fn : (b : Book) (x : Cell) → read (value_fn b x) ≡ value_from b x
read-value_fn b x = go (value_from b x) refl
  where
    go : (r : Result Bytes) → value_from b x ≡ r → read (value_fn b x) ≡ value_from b x
    go (ok v) e = unfold value_fn in rw e
    go (err u) e = unfold value_fn in rw e
    go fault e = unfold value_fn in rw e

value_fn-blank : (b : Book) (name : Bytes) → read (value_fn b (blank_cell name)) ≡ ok []
unfolding value_fn value_from formatted_value str_eq
value_fn-blank b name = refl

formula_fn-blank :
    (xlsx : Worksheet) (name : Bytes) → read (formula_fn xlsx (blank_cell name)) ≡ ok []
unfolding formula_fn
formula_fn-blank xlsx name = refl

pub get_cell_value-view :
    (b : Book) (axis : Bytes) (xlsx : Worksheet) (i j : ℕ)
    → IsGrid xlsx
    → merge_cells_parser xlsx axis ≡ ok (cell_name (suc j) (suc i))
    → suc i ≤ max_int
    → suc j ≤ max_int
    → get_cell_value b axis xlsx ≡ value_from b (view xlsx i j)
unfolding get_cell_value
get_cell_value-view b axis xlsx i j g lead hi hj =
    get_cell_string_func-view (value_fn b) (value_fn-blank b) axis xlsx i j g lead hi hj
    ∙ read-value_fn b (view xlsx i j)

-- The formula that is read is the one of the cell of the view: its content, or that of the origin
-- of a shared formula; a cell without one gives the empty text.
pub get_cell_formula-view :
    (axis : Bytes) (xlsx : Worksheet) (i j : ℕ)
    → IsGrid xlsx
    → merge_cells_parser xlsx axis ≡ ok (cell_name (suc j) (suc i))
    → suc i ≤ max_int
    → suc j ≤ max_int
    → get_cell_formula axis xlsx ≡ read (formula_fn xlsx (view xlsx i j))
unfolding get_cell_formula
get_cell_formula-view axis xlsx i j g lead hi hj =
    get_cell_string_func-view (formula_fn xlsx) (formula_fn-blank xlsx) axis xlsx i j g lead hi hj

parser_same :
    (xlsx : Worksheet) (rows : List Row) (axis : Bytes)
    → merge_cells_parser (record xlsx { rows = rows }) axis ≡ merge_cells_parser xlsx axis
unfolding merge_cells_parser
parser_same xlsx rows axis = refl

-- Behind any setter the value that is read at an axis is that of the changed view.
pub get-update_cell :
    (b : Book) (f : Cell → Cell) (axis axis' : Bytes) (xlsx : Worksheet) (i j i' j' : ℕ)
    → ((y : Cell) → (f y).r ≡ y.r)
    → IsGrid xlsx
    → merge_cells_parser xlsx axis ≡ ok (cell_name (suc j) (suc i))
    → merge_cells_parser xlsx axis' ≡ ok (cell_name (suc j') (suc i'))
    → suc i ≤ max_int
    → suc j ≤ max_int
    → suc i' ≤ max_int
    → suc j' ≤ max_int
    → (update_cell f axis xlsx >>= get_cell_value b axis')
      ≡ value_from b (updated (view xlsx) i j (styled xlsx j f) i' j')
get-update_cell b f axis axis' xlsx i j i' j' keeps g lead lead' hi hj hi' hj' =
    let (rows, run, grid, seen) = update_cell-view f axis xlsx i j keeps g lead hi hj in
    ap (λ r. r >>= get_cell_value b axis') run
    ∙ get_cell_value-view b axis' (record xlsx { rows = rows }) i' j' grid
        (parser_same xlsx rows axis' ∙ lead') hi' hj'
    ∙ ap (value_from b) (seen i' j')

take_all : (n : ℕ) (s : Bytes) → length s ≤ n → take n s ≡ s
take_all zero [] h = refl
take_all zero (c ∷ s) h = absurd (omega arith)
take_all (suc n) [] h = refl
take_all (suc n) (c ∷ s) h = ap (λ t. c ∷ t) (take_all n s (omega arith))

clip_upto : (n : ℕ) (s : Bytes) → (if ltb n (length s) then take n s else s) ≡ take n s
clip_upto n s = elim (Bool-cases (ltb n (length s))) [
  | inl long ↦ rw long
  | inr fits ↦ rw fits (sym (take_all n s (ground arith)))
]

clip-take : (s : Bytes) → clip s ≡ take max_chars s
unfolding clip
clip-take s = clip_upto max_chars s

updated_same : (v : ℕ → ℕ → Cell) (i j : ℕ) (f : Cell → Cell) → updated v i j f i j ≡ f (v i j)
updated_same v i j f = ground arith

updated_other :
    (v : ℕ → ℕ → Cell) (i j i' j' : ℕ) (f : Cell → Cell)
    → (i ≢ i') ⊎ (j ≢ j')
    → updated v i j f i' j' ≡ v i' j'
updated_other v i j i' j' f ne = ground arith

-- A text of at most 32767 bytes that SetCellStr writes is read back, formatted by the style of the
-- cell, under every axis that leads to the same cell; of a longer one the first 32767 bytes are read.
pub get-set_cell_str :
    (b : Book) (axis axis' value : Bytes) (xlsx : Worksheet) (i j : ℕ)
    → IsGrid xlsx
    → merge_cells_parser xlsx axis ≡ ok (cell_name (suc j) (suc i))
    → merge_cells_parser xlsx axis' ≡ ok (cell_name (suc j) (suc i))
    → suc i ≤ max_int
    → suc j ≤ max_int
    → (set_cell_str axis value xlsx >>= get_cell_value b axis')
      ≡ formatted_value b
          (prepare_cell_style xlsx (pos (suc j)) (view xlsx i j).s)
          (take max_chars value)
unfolding set_cell_str value_from str_eq
get-set_cell_str b axis axis' value xlsx i j g lead lead' hi hj =
    get-update_cell b (write_str (clip value)) axis axis' xlsx i j i j (λ y. refl) g lead lead' hi
      hj hi hj
    ∙ ap (value_from b) (updated_same (view xlsx) i j (styled xlsx j (write_str (clip value))))
    ∙ ap (formatted_value b (prepare_cell_style xlsx (pos (suc j)) (view xlsx i j).s))
        (clip-take value)

-- An int that SetCellInt writes is read back under every axis that leads to the same cell: its decimal
-- print, formatted by the style of the cell, or of its column where the cell has the style 0.
pub get-set_cell_int :
    (b : Book) (axis axis' : Bytes) (value : ℤ) (xlsx : Worksheet) (i j : ℕ)
    → IsGrid xlsx
    → merge_cells_parser xlsx axis ≡ ok (cell_name (suc j) (suc i))
    → merge_cells_parser xlsx axis' ≡ ok (cell_name (suc j) (suc i))
    → suc i ≤ max_int
    → suc j ≤ max_int
    → (set_cell_int axis value xlsx >>= get_cell_value b axis')
      ≡ formatted_value b (prepare_cell_style xlsx (pos (suc j)) (view xlsx i j).s) (itoa value)
unfolding set_cell_int value_from str_eq
get-set_cell_int b axis axis' value xlsx i j g lead lead' hi hj =
    get-update_cell b (write_plain (itoa value)) axis axis' xlsx i j i j (λ y. refl) g lead lead' hi
      hj hi hj
    ∙ ap (value_from b) (updated_same (view xlsx) i j (styled xlsx j (write_plain (itoa value))))

-- A setter leaves the value of every other cell as it was.
pub get-update_cell_other :
    (b : Book) (f : Cell → Cell) (axis axis' : Bytes) (xlsx : Worksheet) (i j i' j' : ℕ)
    → ((y : Cell) → (f y).r ≡ y.r)
    → IsGrid xlsx
    → merge_cells_parser xlsx axis ≡ ok (cell_name (suc j) (suc i))
    → merge_cells_parser xlsx axis' ≡ ok (cell_name (suc j') (suc i'))
    → suc i ≤ max_int
    → suc j ≤ max_int
    → suc i' ≤ max_int
    → suc j' ≤ max_int
    → (i ≢ i') ⊎ (j ≢ j')
    → (update_cell f axis xlsx >>= get_cell_value b axis') ≡ get_cell_value b axis' xlsx
get-update_cell_other b f axis axis' xlsx i j i' j' keeps g lead lead' hi hj hi' hj' ne =
    get-update_cell b f axis axis' xlsx i j i' j' keeps g lead lead' hi hj hi' hj'
    ∙ ap (value_from b) (updated_other (view xlsx) i j i' j' (styled xlsx j f) ne)
    ∙ sym (get_cell_value-view b axis' xlsx i' j' g lead' hi' hj')
