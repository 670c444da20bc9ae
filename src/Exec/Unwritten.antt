-- ===== src/Exec/Unwritten.antt =====
-- Statements change the database in memory only.
pub mod Statement
use sqlyt.Base.{ℕ, zero, suc, ◌+◌, ◌%◌, Bool, true, false, Option, none, some, List, [], ◌∷◌}
use sqlyt.Page.{Page, u32_mod}
use sqlyt.Pager.{Pager, M, modify}
use sqlyt.Pager.Keeps.{after_done, Keeps}
use sqlyt.Pager.Unwritten.{Unwritten, Reads-Unwritten, in_memory}
use sqlyt.Table.{Text, Column, Field, SqlSchema, Table}
use sqlyt.Parser.Insert.{InsertRow}
use sqlyt.Parser.Statements.{
  SqlStatementType, sql_stmt_create_database, sql_stmt_create_table, sql_stmt_insert,
  sql_stmt_select, sql_stmt_delete, sql_stmt_update, sql_stmt_drop_table, SqlStatement,
}
use sqlyt.Cursor.{
  Cursor, table_find, table_start, cursor_value, cursor_advance, find_table_max_key, table_has_key,
  master_find_table,
}
use sqlyt.Cursor.ReadOnly.{
  table_find-Reads, table_start-Reads, cursor_value-Reads, cursor_advance-Reads,
  find_table_max_key-Reads, table_has_key-Reads, master_find_table-Reads,
}
use sqlyt.Database.{allocate_next_root_page, create_table_root}
use sqlyt.Tree.Grow.{ExecuteResult, execute_success, execute_duplicate_key, insert_row_into_table}
use sqlyt.Tree.Shrink.{leaf_node_delete}
use sqlyt.Tree.Unwritten.{tree_rules}
use sqlyt.Tree.Unwritten.Grow.{insert_row_into_table-Unwritten}
use sqlyt.Tree.Unwritten.Shrink.{leaf_node_delete-Unwritten}
use sqlyt.Exec.{SqlExecuteResult, with_layout, with_table}
use sqlyt.Exec.Create.{add_table, execute_create_table}
use sqlyt.Exec.Insert.{
  LastKey, validate_rows, insert_packed, insert_rows, insert_into, insert_into_found,
  execute_insert,
}
use sqlyt.Exec.Select.{count_rows, fold_rows, select_quiet, select_rows, execute_select}
use sqlyt.Exec.Change.{
  delete_row, execute_delete, write_row, update_row, update_in, execute_update, drop_in_master,
  execute_drop_table,
}
use sqlyt.Exec.Statement.{silent, execute_on, execute_statement}

module _ {s0 : Pager} where
  pub table_start-Unwritten : (t : Table) → Keeps (Unwritten s0) (table_start t)
  table_start-Unwritten t = Reads-Unwritten (table_start t) (λ s. table_start-Reads t)

  pub table_find-Unwritten : (t : Table) (key : ℕ) → Keeps (Unwritten s0) (table_find t key)
  table_find-Unwritten t key = Reads-Unwritten (table_find t key) (λ s. table_find-Reads t key)

  pub cursor_value-Unwritten : (c : Cursor) → Keeps (Unwritten s0) (cursor_value c)
  cursor_value-Unwritten c = Reads-Unwritten (cursor_value c) (λ s. cursor_value-Reads c)

  pub cursor_advance-Unwritten : (c : Cursor) → Keeps (Unwritten s0) (cursor_advance c)
  cursor_advance-Unwritten c = Reads-Unwritten (cursor_advance c) (λ s. cursor_advance-Reads c)

  pub find_table_max_key-Unwritten : (t : Table) → Keeps (Unwritten s0) (find_table_max_key t)
  find_table_max_key-Unwritten t =
      Reads-Unwritten (find_table_max_key t) (λ s. find_table_max_key-Reads t)

  pub table_has_key-Unwritten : (t : Table) (key : ℕ) → Keeps (Unwritten s0) (table_has_key t key)
  table_has_key-Unwritten t key =
      Reads-Unwritten (table_has_key t key) (λ s. table_has_key-Reads t key)

  pub master_find_table-Unwritten : (name : Text) → Keeps (Unwritten s0) (master_find_table name)
  master_find_table-Unwritten name =
      Reads-Unwritten (master_find_table name) (λ s. master_find_table-Reads name)

pub ruleset statement_rules = (
  tree_rules, table_start-Unwritten, table_find-Unwritten, cursor_value-Unwritten,
  cursor_advance-Unwritten, find_table_max_key-Unwritten, table_has_key-Unwritten,
  master_find_table-Unwritten,
)

module _ {s0 : Pager} where
  with_layout-Unwritten :
      {A : Type 0} (a : A) (run : Table → M A)
      → ((t : Table) → Keeps (Unwritten s0) (run t))
      → (t : Option Table) → Keeps (Unwritten s0) (with_layout a run t)
  unfolding with_layout
  with_layout-Unwritten a run keeps none = search statement_rules
  with_layout-Unwritten a run keeps (some t) = keeps t

  pub with_table-Unwritten :
      {A : Type 0} (a b : A) (run : Table → M A)
      → ((t : Table) → Keeps (Unwritten s0) (run t))
      → (found : Option (SqlSchema × ℕ)) → Keeps (Unwritten s0) (with_table a b run found)
  unfolding with_table
  with_table-Unwritten a b run keeps none = search statement_rules
  with_table-Unwritten a b run keeps (some (schema, root)) = with_layout-Unwritten b run keeps _

  count_root-Unwritten :
      Keeps
        (Unwritten s0)
        (modify (λ s. record s { next_root_page = (s.next_root_page + 1) % u32_mod }))
  unfolding modify
  count_root-Unwritten = record { at = λ s h. after_done (in_memory s _ _ _ _ _ _ h) }

  allocate_next_root_page-Unwritten : Keeps (Unwritten s0) allocate_next_root_page
  unfolding allocate_next_root_page
  allocate_next_root_page-Unwritten = search (statement_rules, count_root-Unwritten) depth 24

  create_table_root-Unwritten : (n : ℕ) → Keeps (Unwritten s0) (create_table_root n)
  unfolding create_table_root
  create_table_root-Unwritten n = search statement_rules depth 24

  add_table-Unwritten :
      (db : Table) (name : Text) (payload : Option Text)
      → Keeps (Unwritten s0) (add_table db name payload)
  unfolding add_table
  add_table-Unwritten db name none = search statement_rules
  add_table-Unwritten db name (some payload) =
      search
        (
          statement_rules, allocate_next_root_page-Unwritten, create_table_root-Unwritten,
          insert_row_into_table-Unwritten,
        )
        depth 24

  pub execute_create_table-Unwritten :
      (db : Table) (stmt : SqlStatement) → Keeps (Unwritten s0) (execute_create_table db stmt)
  unfolding execute_create_table
  execute_create_table-Unwritten db stmt = search (statement_rules, add_table-Unwritten) depth 24

  validate_rows-Unwritten :
      (t : Table) (rows : List InsertRow) (planned : List ℕ) (last : LastKey)
      → Keeps (Unwritten s0) (validate_rows t rows planned last)
  unfolding validate_rows
  validate_rows-Unwritten t [] planned last = search statement_rules
  validate_rows-Unwritten t (row ∷ rows) planned last =
      search (statement_rules, validate_rows-Unwritten t rows) depth 24

  insert_packed-Unwritten :
      (t : Table) (key : ℕ) (row : Option Page) → Keeps (Unwritten s0) (insert_packed t key row)
  unfolding insert_packed
  insert_packed-Unwritten t key none = search statement_rules
  insert_packed-Unwritten t key (some row) =
      search (statement_rules, insert_row_into_table-Unwritten) depth 24

  insert_rows-Unwritten :
      (t : Table) (rows : List InsertRow) (last : LastKey)
      → Keeps (Unwritten s0) (insert_rows t rows last)
  unfolding insert_rows
  insert_rows-Unwritten t [] last = search statement_rules
  insert_rows-Unwritten t (row ∷ rows) last =
      search (statement_rules, insert_packed-Unwritten, insert_rows-Unwritten t rows) depth 24

  insert_into-Unwritten :
      (rows : List InsertRow) (t : Table) → Keeps (Unwritten s0) (insert_into rows t)
  unfolding insert_into
  insert_into-Unwritten rows t =
      search (statement_rules, validate_rows-Unwritten, insert_rows-Unwritten) depth 24

  insert_into_found-Unwritten :
      (rows : List InsertRow) (found : Option (SqlSchema × ℕ))
      → Keeps (Unwritten s0) (insert_into_found rows found)
  unfolding insert_into_found
  insert_into_found-Unwritten rows none = search statement_rules
  insert_into_found-Unwritten rows (some (schema, root)) =
      search (statement_rules, with_layout-Unwritten, insert_into-Unwritten) depth 24

  pub execute_insert-Unwritten : (stmt : SqlStatement) → Keeps (Unwritten s0) (execute_insert stmt)
  unfolding execute_insert
  execute_insert-Unwritten stmt = search (statement_rules, insert_into_found-Unwritten)
