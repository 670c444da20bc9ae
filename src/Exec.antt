-- ===== src/Exec.antt =====
-- Running SQL statements on an open database: the execute functions of src/cli.c. What a statement
-- prints is a value; the messages behind an error of a single value are left out.
mod Tests
pub mod Rows
pub mod Create
pub mod Insert
pub mod Select
pub mod Change
pub mod Statement
pub mod Unwritten
pub mod Refused
pub mod RootLeaf
use sqlyt.Base.{ℕ, Bool, true, false, ◌&&◌, Option, none, some, ltb, ◌==◌}
use sqlyt.Page.{Page}
use sqlyt.Node.{leaf_node_num_cells}
use sqlyt.Pager.{M, pure}
use sqlyt.Table.{SqlSchema, Table, tbl_leaf_key, table_init_user}

-- `SqlExecuteResult`
pub data SqlExecuteResult : Type 0 where
  sql_exec_ok : SqlExecuteResult
  sql_exec_create_db_failed : SqlExecuteResult
  sql_exec_reserved_table_name : SqlExecuteResult
  sql_exec_table_exists : SqlExecuteResult
  sql_exec_row_layout_too_large : SqlExecuteResult
  sql_exec_table_name_too_long : SqlExecuteResult
  sql_exec_schema_metadata_too_long : SqlExecuteResult
  sql_exec_duplicate_key : SqlExecuteResult
  sql_exec_table_not_found : SqlExecuteResult
  sql_exec_wrong_value_count : SqlExecuteResult
  sql_exec_schema_invalid_pk : SqlExecuteResult
  sql_exec_insert_validation_failed : SqlExecuteResult
  sql_exec_row_pack_failed : SqlExecuteResult
  sql_exec_select_layout_invalid : SqlExecuteResult
  sql_exec_delete_record_not_found : SqlExecuteResult
  sql_exec_update_column_not_found : SqlExecuteResult
  sql_exec_update_pk_not_allowed : SqlExecuteResult
  sql_exec_update_record_not_found : SqlExecuteResult
  sql_exec_reserved_drop_table : SqlExecuteResult

unfoldable pub is_ok : SqlExecuteResult → Bool
is_ok sql_exec_ok = true
is_ok _ = false

-- The cell is in use and has the key.
abbrev pub has_key_at : Table → Page → (cell_num key : ℕ) → Bool
has_key_at t node cell_num key =
    ltb cell_num (leaf_node_num_cells node) && tbl_leaf_key t node cell_num == key

module _ {A : Type 0} where
  unfoldable pub with_layout : (invalid : A) → (Table → M A) → Option Table → M A
  with_layout invalid run none = pure invalid
  with_layout invalid run (some t) = run t

  -- The table that master_find_table gave, or the two errors of a lookup.
  unfoldable pub with_table : (not_found invalid : A) → (Table → M A) → Option (SqlSchema × ℕ) → M A
  unfolding with_layout
  with_table not_found invalid run none = pure not_found
  with_table not_found invalid run (some (schema, root_page)) =
      with_layout invalid run (table_init_user root_page schema)
