-- ===== src/Exec/Change.antt =====
-- DELETE, UPDATE and DROP TABLE: execute_delete, execute_update and execute_drop_table of src/cli.c.
-- The row buffer of UPDATE is taken to hold zeros behind the row.
use sqlyt.Base.{
  ℕ, zero, suc, ◌+◌, not, Option, none, some, List, ◌∷◌, ltb, ◌==◌, if◌then◌else◌, length,
}
use sqlyt.Page.{Page, zero_page, put_u32, memcpy, memset, of_bytes}
use sqlyt.Pager.{M, pure, spent, ◌>>=◌, ◌>>◌, gets}
use sqlyt.Pager.Cache.{get_page, mark_page_dirty, poke}
use sqlyt.Pager.Header.{codes}
use sqlyt.Table.{
  column_type_int, schema_text_max, Text, Column, Field, Table, table_init_catalog, tbl_leaf_value,
}
use sqlyt.Catalog.{catalog_read_value}
use sqlyt.Parser.Text.{same_text_ci}
use sqlyt.Parser.Number.{parse_u32}
use sqlyt.Parser.Statements.{SqlStatement}
use sqlyt.Cursor.{
  Cursor, table_find, table_start, cursor_value, cursor_advance, max_rows, master_find_table,
}
use sqlyt.Tree.Shrink.{leaf_node_delete}
use sqlyt.Exec.{
  SqlExecuteResult, sql_exec_ok, sql_exec_table_not_found, sql_exec_insert_validation_failed,
  sql_exec_select_layout_invalid, sql_exec_delete_record_not_found,
  sql_exec_update_column_not_found, sql_exec_update_pk_not_allowed,
  sql_exec_update_record_not_found, sql_exec_reserved_drop_table, has_key_at, with_table,
}

unfoldable pub delete_row : (id : ℕ) → Table → M SqlExecuteResult
delete_row id t = do
  cursor ← table_find t id
  page ← get_page (Cursor.page_num cursor)
  if not (has_key_at t page (Cursor.cell_num cursor) id)
      then pure sql_exec_delete_record_not_found
      else (do leaf_node_delete cursor; pure sql_exec_ok)

unfoldable pub execute_delete : SqlStatement → M SqlExecuteResult
unfolding delete_row
execute_delete stmt = do
  found ← master_find_table stmt.table_name
  with_table sql_exec_table_not_found sql_exec_select_layout_invalid (delete_row stmt.id) found

-- The loop that looks for the column, from index `i` on.
unfoldable pub find_column :
    (name : Text) → List Column → List Field → (i : ℕ) → Option (ℕ × Column × Field)
find_column name (c ∷ cs) (f ∷ fs) i =
    let rest = find_column name cs fs (i + 1) in
    if same_text_ci c.name name then some (i, c, f) else rest
find_column name columns fields i = none

-- The row with another value in one column.
unfoldable pub changed_row : Column → Field → (value : Text) → (row_buf : Page) → Option Page
changed_row c f value row_buf =
    if c.type == column_type_int
    then elim (parse_u32 value) [ none ↦ none | some v ↦ some (put_u32 row_buf f.offset v) ]
    else if ltb c.max (length value)
    then none
    else some (memcpy (memset row_buf f.offset 0 f.size) f.offset (of_bytes value) 0 (length value))

unfoldable pub write_row : Table → Cursor → (row_buf : Option Page) → M SqlExecuteResult
write_row t cursor none = pure sql_exec_insert_validation_failed
write_row t cursor (some row_buf) = do
  poke (Cursor.page_num cursor)
      (λ p. memcpy p (tbl_leaf_value t (Cursor.cell_num cursor)) row_buf 0 t.value_size)
  mark_page_dirty (Cursor.page_num cursor)
  pure sql_exec_ok

unfoldable pub update_row : Table → SqlStatement → Option (ℕ × Column × Field) → M SqlExecuteResult
unfolding changed_row write_row
update_row t stmt none = pure sql_exec_update_column_not_found
update_row t stmt (some (target_col, column, field)) =
    if target_col == 0 then pure sql_exec_update_pk_not_allowed else do
      cursor ← table_find t stmt.id
      page ← get_page (Cursor.page_num cursor)
      if not (has_key_at t page (Cursor.cell_num cursor) stmt.id)
          then pure sql_exec_update_record_not_found
          else write_row t cursor (
              changed_row column field stmt.update_value
                (memcpy zero_page 0 page (tbl_leaf_value t (Cursor.cell_num cursor)) t.value_size))

unfoldable pub update_in : SqlStatement → Table → M SqlExecuteResult
unfolding find_column update_row
update_in stmt t =
    update_row t stmt (find_column stmt.update_column t.schema.columns t.row_layout.fields 0)

unfoldable pub execute_update : SqlStatement → M SqlExecuteResult
unfolding update_in
execute_update stmt = do
  found ← master_find_table stmt.table_name
  with_table sql_exec_table_not_found sql_exec_select_layout_invalid (update_in stmt) found

-- The loop over the catalog.
unfoldable pub drop_in_master : ℕ → (table_name : Text) → Cursor → M SqlExecuteResult
drop_in_master zero table_name cursor = spent
drop_in_master (suc fuel) table_name cursor =
    if Cursor.end_of_table cursor then pure sql_exec_table_not_found else do
      (node, off) ← cursor_value cursor
      let (root, name, payload) = catalog_read_value node off (schema_text_max + 1)
      if same_text_ci name table_name
          then (do leaf_node_delete cursor; pure sql_exec_ok)
          else (do next ← cursor_advance cursor; drop_in_master fuel table_name next)

unfoldable pub execute_drop_table : SqlStatement → M SqlExecuteResult
unfolding drop_in_master
execute_drop_table stmt =
    if same_text_ci stmt.table_name (codes "sqlyt_master")
    then pure sql_exec_reserved_drop_table
    else do
      master_root_page ← gets (λ s. s.master_root_page)
      cursor ← table_start (table_init_catalog master_root_page)
      drop_in_master max_rows stmt.table_name cursor
