-- ===== src/Exec/Rows/Aligned.antt =====
-- The lines of the table that SELECT prints: the first pass makes the columns wide enough, so every line is as long as the
-- border.
use sqlyt.Base.{
  ℕ, zero, suc, ◌+◌, ◌≤◌, ◌≡◌, refl, ap, ◌∙◌, arith, min, Bool, true, false, List, [], ◌∷◌, ◌==◌,
  length, length-append, Bool-cases, inl, inr,
}
use sqlyt.Page.{Page, slice}
use sqlyt.Table.{column_type_int, Text, Column, Field, layout_fields}
use sqlyt.Parser.Values.{bounded_text_len}
use sqlyt.Exec.Rows.{
  repeat, border_cells, print_table_border, print_table_cell_text, Cell, line_cells, print_line,
  value_length, value_cell, row_cells, widen, header_cells, header_widths,
}

-- Every cell fits into its width.
data Fits : List Cell → List ℕ → Type 0 where
  fits_none : Fits [] []
  fits_one :
      {c : Cell} {w : ℕ} {cs : List Cell} {ws : List ℕ}
      → length c.text ≤ w
      → Fits cs ws
      → Fits (c ∷ cs) (w ∷ ws)

-- Columns, fields and widths, one of each for each column.
data Shape : List Column → List Field → List ℕ → Type 0 where
  shape_none : Shape [] [] []
  shape_one :
      {c : Column} {f : Field} {w : ℕ} {cs : List Column} {fs : List Field} {ws : List ℕ}
      → Shape cs fs ws
      → Shape (c ∷ cs) (f ∷ fs) (w ∷ ws)

length-repeat : (c n : ℕ) → length (repeat c n) ≡ n
unfolding repeat
length-repeat c zero = refl
length-repeat c (suc n) = ap suc (length-repeat c n)

length-print_table_cell_text :
    (text : Text) (w : ℕ) (right : Bool)
    → length text ≤ w
    → length (print_table_cell_text text w right) ≡ w + 2
unfolding print_table_cell_text
length-print_table_cell_text text w true h = simp (length-append, length-repeat) (omega arith)
length-print_table_cell_text text w false h = simp (length-append, length-repeat) (omega arith)

length-line_cells :
    {cells : List Cell} {ws : List ℕ}
    → Fits cells ws
    → length (line_cells cells ws) ≡ length (border_cells ws)
unfolding line_cells border_cells
length-line_cells fits_none = refl
length-line_cells (fits_one {c = c} {w = w} {cs = cs} {ws = ws} h rest) =
    length-append (print_table_cell_text c.text w c.right_align) (124 ∷ line_cells cs ws)
    ∙ omega (
      arith,
      length-print_table_cell_text c.text w c.right_align h,
      length-line_cells rest,
      length-repeat 45 (w + 2),
      length-append (repeat 45 (w + 2)) (43 ∷ border_cells ws),
    )

length-print_line :
    {cells : List Cell} {ws : List ℕ}
    → Fits cells ws
    → length (print_line cells ws) ≡ length (print_table_border ws)
unfolding print_line print_table_border
length-print_line {cells = cells} {ws = ws} fits = omega (
  arith,
  length-line_cells fits,
  length-append (line_cells cells ws) (10 ∷ []),
  length-append (border_cells ws) (10 ∷ []),
)

length-slice : (p : Page) (off n : ℕ) → length (slice p off n) ≡ n
unfolding slice
length-slice p off zero = refl
length-slice p off (suc n) = ap suc (length-slice p (off + 1) n)

length-value_cell :
    (c : Column) (f : Field) (d : Page) (off : ℕ)
    → length (value_cell c f d off).text ≤ value_length c f d off
unfolding value_cell value_length
length-value_cell c f d off = elim (Bool-cases (c.type == column_type_int)) [
  | inl e ↦ rw e (omega arith)
  | inr e ↦ rw e (
      omega (
        arith,
        length-slice d (off + f.offset) (min (bounded_text_len d (off + f.offset) f.size) 255),
      ))
]

module _ (d : Page) (off : ℕ) where
  -- The row that the widths were made for fits.
  widen-Fits :
      {cs : List Column} {fs : List Field} {ws : List ℕ}
      → Shape cs fs ws
      → Fits (row_cells cs fs d off) (widen cs fs d off ws)
  unfolding row_cells widen
  widen-Fits shape_none = fits_none
  widen-Fits (shape_one {c = c} {f = f} {w = w} rest) =
      fits_one (ground (arith, length-value_cell c f d off)) (widen-Fits rest)

  widen-Shape :
      {cs : List Column} {fs : List Field} {ws : List ℕ}
      → Shape cs fs ws
      → Shape cs fs (widen cs fs d off ws)
  unfolding widen
  widen-Shape shape_none = shape_none
  widen-Shape (shape_one rest) = shape_one (widen-Shape rest)

  -- What fitted before fits into the wider columns.
  Fits-widen :
      {cs : List Column} {fs : List Field} {ws : List ℕ} {cells : List Cell}
      → Shape cs fs ws
      → Fits cells ws
      → Fits cells (widen cs fs d off ws)
  unfolding widen
  Fits-widen shape_none fits_none = fits_none
  Fits-widen (shape_one {c = c} {f = f} {w = w} rest) (fits_one h fits) =
      fits_one (ground arith) (Fits-widen rest fits)

-- The rows of a pass, each as its page and offset.
abbrev pub Rows : Type 0
Rows = List (Page × ℕ)

-- The widths after the first pass, from those of the column names.
unfoldable pub widen_all : List Column → List Field → Rows → List ℕ → List ℕ
widen_all cs fs [] ws = ws
widen_all cs fs ((d, off) ∷ rows) ws = widen_all cs fs rows (widen cs fs d off ws)

Fits-widen_all :
    (rows : Rows) {cs : List Column} {fs : List Field} {ws : List ℕ} {cells : List Cell}
    → Shape cs fs ws
    → Fits cells ws
    → Fits cells (widen_all cs fs rows ws)
unfolding widen_all
Fits-widen_all [] shape fits = fits
Fits-widen_all ((d, off) ∷ rows) shape fits =
    Fits-widen_all rows (widen-Shape d off shape) (Fits-widen d off shape fits)

-- A row is one of those of the pass.
pub data Among (d : Page) (off : ℕ) : Rows → Type 0 where
  here : {rows : Rows} → Among d off ((d, off) ∷ rows)
  later : {r : Page × ℕ} {rows : Rows} → Among d off rows → Among d off (r ∷ rows)

row-Fits :
    {d : Page} {off : ℕ} {rows : Rows}
    → Among d off rows
    → {cs : List Column} {fs : List Field} {ws : List ℕ} → Shape cs fs ws
    → Fits (row_cells cs fs d off) (widen_all cs fs rows ws)
unfolding widen_all
row-Fits (here {rows = rows}) shape =
    Fits-widen_all rows (widen-Shape _ _ shape) (widen-Fits _ _ shape)
row-Fits (later {r = (e, o)} among) shape = row-Fits among (widen-Shape e o shape)

header-Fits : (cs : List Column) → Fits (header_cells cs) (header_widths cs)
unfolding header_cells header_widths
header-Fits [] = fits_none
header-Fits (c ∷ cs) = fits_one (omega arith) (header-Fits cs)

layout-Shape : (cs : List Column) (v : ℕ) → Shape cs (layout_fields v cs).fields (header_widths cs)
unfolding layout_fields header_widths
layout-Shape [] v = shape_none
layout-Shape (c ∷ cs) v = shape_one (layout-Shape cs _)

-- In the table that SELECT prints, where the widths come from the column names and a first pass over
-- the rows, the line of the column names and the line of each of these rows are as long as the border.
pub print_line-Aligned :
    (v : ℕ) (cs : List Column) (rows : Rows)
    → let fs = (layout_fields v cs).fields in
      let ws = widen_all cs fs rows (header_widths cs) in
      (length (print_line (header_cells cs) ws) ≡ length (print_table_border ws))
      × ((d : Page) (off : ℕ)
          → Among d off rows
          → length (print_line (row_cells cs fs d off) ws) ≡ length (print_table_border ws))
print_line-Aligned v cs rows = (
  length-print_line (Fits-widen_all rows (layout-Shape cs v) (header-Fits cs)),
  λ d off among. length-print_line (row-Fits among (layout-Shape cs v)),
)
