-- ===== src/Exec/Create.antt =====
-- CREATE TABLE: execute_create_table of src/cli.c. The buffer of the catalog row is written whole, so
-- its first bytes are taken as zeros.
use sqlyt.Base.{◌+◌, Bool, true, false, not, Option, none, some, leb, if◌then◌else◌, length}
use sqlyt.Page.{zero_page}
use sqlyt.Pager.{M, pure, ◌>>=◌, ◌>>◌}
use sqlyt.Pager.Header.{codes, same_bytes}
use sqlyt.Table.{catalog_table_name_size, schema_text_max, Text, Table, compute_row_layout}
use sqlyt.Catalog.{catalog_write_value}
use sqlyt.Parser.Payload.{make_schema_payload}
use sqlyt.Parser.Statements.{SqlStatement}
use sqlyt.Cursor.{master_find_table}
use sqlyt.Database.{allocate_next_root_page, create_table_root}
use sqlyt.Tree.Grow.{ExecuteResult, execute_success, execute_duplicate_key, insert_row_into_table}
use sqlyt.Exec.{
  SqlExecuteResult, sql_exec_ok, sql_exec_reserved_table_name, sql_exec_table_exists,
  sql_exec_row_layout_too_large, sql_exec_table_name_too_long, sql_exec_schema_metadata_too_long,
  sql_exec_duplicate_key,
}

abbrev pub is_found : {A : Type 0} → Option A → Bool
is_found none = false
is_found (some a) = true

unfoldable pub result_of : ExecuteResult → SqlExecuteResult
result_of execute_success = sql_exec_ok
result_of execute_duplicate_key = sql_exec_duplicate_key

-- With the payload of the schema: a root page, and a row in the catalog.
unfoldable pub add_table :
    Table → (table_name : Text) → (payload : Option Text) → M SqlExecuteResult
unfolding result_of
add_table db table_name none = pure sql_exec_schema_metadata_too_long
add_table db table_name (some payload) = do
  root_page ← allocate_next_root_page
  create_table_root root_page
  r ←
      insert_row_into_table db root_page
        (catalog_write_value root_page table_name payload zero_page)
  pure (result_of r)

unfoldable pub execute_create_table : Table → SqlStatement → M SqlExecuteResult
unfolding add_table
execute_create_table db stmt =
    if same_bytes stmt.table_name (codes "sqlyt_master")
    then pure sql_exec_reserved_table_name
    else do
      existing ← master_find_table stmt.table_name
      if is_found existing
          then pure sql_exec_table_exists
          else if not (compute_row_layout stmt.schema).0
          then pure sql_exec_row_layout_too_large
          else if leb catalog_table_name_size (length stmt.table_name)
          then pure sql_exec_table_name_too_long
          else add_table db stmt.table_name (make_schema_payload stmt.schema (schema_text_max + 1))
