-- ===== src/Exec/Rows.antt =====
-- How SELECT prints: print_table_border and print_table_cell_text of src/parser.c, and the cells and
-- column widths of execute_select in src/cli.c.
pub mod Aligned
mod Tests
use sqlyt.Base.{
  ℕ, zero, suc, ◌+◌, ◌-◌, min, Bool, true, false, List, [], ◌∷◌, ◌++◌, ltb, ◌==◌, if◌then◌else◌,
  length,
}
use sqlyt.Page.{Page, get_u32, slice}
use sqlyt.Table.{column_type_int, Text, Column, Field}
use sqlyt.Parser.Number.{print_u32}
use sqlyt.Parser.Values.{bounded_text_len}

-- The character `c`, `n` times.
unfoldable pub repeat : (c n : ℕ) → Text
repeat c zero = []
repeat c (suc n) = c ∷ repeat c n

unfoldable pub border_cells : List ℕ → Text
unfolding repeat
border_cells [] = []
border_cells (w ∷ ws) = repeat 45 (w + 2) ++ (43 ∷ border_cells ws)

unfoldable pub print_table_border : (widths : List ℕ) → Text
unfolding border_cells
print_table_border widths = 43 ∷ border_cells widths ++ (10 ∷ [])

unfoldable pub print_table_cell_text : (text : Text) → (width : ℕ) → (right_align : Bool) → Text
unfolding repeat
print_table_cell_text text width right_align =
    let padding = repeat 32 (width - length text) in
    if right_align then 32 ∷ padding ++ text ++ (32 ∷ []) else 32 ∷ text ++ padding ++ (32 ∷ [])

-- A text, and whether it stands at the right.
pub record Cell : Type 0 where
  pub text : Text
  pub right_align : Bool

unfoldable pub line_cells : List Cell → (widths : List ℕ) → Text
unfolding print_table_cell_text
line_cells (c ∷ cs) (w ∷ ws) =
    print_table_cell_text c.text w c.right_align ++ (124 ∷ line_cells cs ws)
line_cells cells widths = []

-- The loop over the columns of one line.
unfoldable pub print_line : List Cell → (widths : List ℕ) → Text
unfolding line_cells
print_line cells widths = 124 ∷ line_cells cells widths ++ (10 ∷ [])

-- The length of a value as the first pass measures it; the row starts at `d + off`.
unfoldable pub value_length : Column → Field → (d : Page) → (off : ℕ) → ℕ
value_length c f d off =
    if c.type == column_type_int
    then length (print_u32 (get_u32 d (off + f.offset)))
    else bounded_text_len d (off + f.offset) f.size

-- A value as the second pass prints it, 255 characters at most.
unfoldable pub value_cell : Column → Field → (d : Page) → (off : ℕ) → Cell
value_cell c f d off =
    if c.type == column_type_int
    then record { text = print_u32 (get_u32 d (off + f.offset)); right_align = true }
    else record {
      text = slice d (off + f.offset) (min (bounded_text_len d (off + f.offset) f.size) 255);
      right_align = false;
    }

unfoldable pub row_cells : List Column → List Field → (d : Page) → (off : ℕ) → List Cell
unfolding value_cell
row_cells (c ∷ cs) (f ∷ fs) d off = value_cell c f d off ∷ row_cells cs fs d off
row_cells columns fields d off = []

-- The widths, made as large as the values of one more row.
unfoldable pub widen : List Column → List Field → (d : Page) → (off : ℕ) → List ℕ → List ℕ
unfolding value_length
widen (c ∷ cs) (f ∷ fs) d off (w ∷ ws) =
    (if ltb w (value_length c f d off) then value_length c f d off else w) ∷ widen cs fs d off ws
widen columns fields d off widths = widths

unfoldable pub header_cells : List Column → List Cell
header_cells [] = []
header_cells (c ∷ cs) = record { text = c.name; right_align = false } ∷ header_cells cs

-- The widths of the column names.
unfoldable pub header_widths : List Column → List ℕ
header_widths [] = []
header_widths (c ∷ cs) = length c.name ∷ header_widths cs
