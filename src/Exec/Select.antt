-- ===== src/Exec/Select.antt =====
-- SELECT: execute_select of src/cli.c, with the text it prints. In quiet mode the rows are only
-- counted.
use sqlyt.Base.{ℕ, zero, suc, ◌+◌, Bool, List, [], ◌++◌, if◌then◌else◌}
use sqlyt.Page.{Page}
use sqlyt.Pager.{M, pure, spent, ◌>>=◌}
use sqlyt.Pager.Header.{codes}
use sqlyt.Table.{Text, Table}
use sqlyt.Parser.Number.{print_u32}
use sqlyt.Parser.Statements.{SqlStatement}
use sqlyt.Cursor.{Cursor, table_start, cursor_value, cursor_advance, max_rows, master_find_table}
use sqlyt.Exec.{
  SqlExecuteResult, sql_exec_ok, sql_exec_table_not_found, sql_exec_select_layout_invalid,
  with_table,
}
use sqlyt.Exec.Rows.{print_table_border, print_line, row_cells, widen, header_cells, header_widths}

-- `while (!cursor->end_of_table)`
unfoldable pub count_rows : ℕ → Cursor → (row_count : ℕ) → M ℕ
count_rows zero cursor row_count = spent
count_rows (suc fuel) cursor row_count =
    if Cursor.end_of_table cursor
    then pure row_count
    else do next ← cursor_advance cursor; count_rows fuel next (row_count + 1)

-- The same loop, with the values of the rows.
unfoldable pub fold_rows : {A : Type 0} → ℕ → ((d : Page) → (off : ℕ) → A → A) → Cursor → A → M A
fold_rows zero step cursor acc = spent
fold_rows (suc fuel) step cursor acc = if Cursor.end_of_table cursor then pure acc else do
  (d, off) ← cursor_value cursor
  next ← cursor_advance cursor
  fold_rows fuel step next (step d off acc)

-- What the second pass has printed, and the rows it has counted.
pub record Printed : Type 0 where
  pub lines : Text
  pub row_count : ℕ

unfoldable pub print_row : Table → (widths : List ℕ) → (d : Page) → (off : ℕ) → Printed → Printed
print_row t widths d off out = record {
  lines = out.lines ++ print_line (row_cells t.schema.columns t.row_layout.fields d off) widths;
  row_count = out.row_count + 1;
}

unfoldable pub printed_table : Table → (widths : List ℕ) → Printed → Text
printed_table t widths out =
    print_table_border widths
    ++ print_line (header_cells t.schema.columns) widths
    ++ print_table_border widths
    ++ out.lines
    ++ print_table_border widths
    ++ codes "("
    ++ print_u32 out.row_count
    ++ codes " rows)\n"

unfoldable pub select_quiet : Table → M (SqlExecuteResult × Text)
unfolding count_rows
select_quiet t = do
  cursor ← table_start t
  row_count ← count_rows max_rows cursor 0
  pure (sql_exec_ok, [])

unfoldable pub select_rows : Table → M (SqlExecuteResult × Text)
unfolding fold_rows print_row printed_table
select_rows t = do
  start ← table_start t
  widths ←
      fold_rows max_rows (widen t.schema.columns t.row_layout.fields) start
        (header_widths t.schema.columns)
  cursor ← table_start t
  out ← fold_rows max_rows (print_row t widths) cursor (record { lines = []; row_count = 0 })
  pure (sql_exec_ok, printed_table t widths out)

unfoldable pub execute_select : (quiet : Bool) → SqlStatement → M (SqlExecuteResult × Text)
unfolding select_quiet select_rows
execute_select quiet stmt = do
  found ← master_find_table stmt.table_name
  with_table (sql_exec_table_not_found, []) (sql_exec_select_layout_invalid, [])
      (λ t. if quiet then select_quiet t else select_rows t) found
