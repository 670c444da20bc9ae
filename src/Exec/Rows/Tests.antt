-- ===== src/Exec/Rows/Tests.antt =====
-- A table of a number and a text with two rows.
use sqlyt.Base.{ℕ, ◌≡◌, List, [], ◌∷◌, length}
use sqlyt.Page.{Page, put_u32, zero_page, memcpy, of_bytes}
use sqlyt.Pager.Header.{codes}
use sqlyt.Table.{column_type_text, Column, layout_fields}
use sqlyt.Parser.Statements.{id_column}
use sqlyt.Exec.Rows.{print_table_border, print_line, row_cells, header_cells, header_widths}
use sqlyt.Exec.Rows.Aligned.{Among, Rows, widen_all, print_line-Aligned}

abbrev columns : List Column
columns = id_column ∷ record { name = codes "n"; type = column_type_text; max = 8 } ∷ []

abbrev rows : Rows
rows =
    (memcpy (put_u32 zero_page 0 1234) 4 (of_bytes (codes "ab")) 0 2, 0)
    ∷ (put_u32 zero_page 0 7, 0)
    ∷ []

print_line-Aligned_example :
    (length (
        print_line
          (header_cells columns)
          (widen_all columns (layout_fields 0 columns).fields rows (header_widths columns)))
      ≡ length (
          print_table_border
            (widen_all columns (layout_fields 0 columns).fields rows (header_widths columns))))
    × ((d : Page) (off : ℕ)
        → Among d off rows
        → length (
            print_line
              (row_cells columns (layout_fields 0 columns).fields d off)
              (widen_all columns (layout_fields 0 columns).fields rows (header_widths columns)))
          ≡ length (
              print_table_border
                (widen_all columns (layout_fields 0 columns).fields rows (header_widths columns))))
print_line-Aligned_example = print_line-Aligned 0 columns rows
