-- ===== src/Exec/Unwritten/Statement.antt =====
-- SELECT, DELETE, UPDATE and DROP TABLE change the database in memory only, and so does every
-- statement.
use sqlyt.Base.{ap, ◌≡◌, ◌∙◌, ◌&&◌, ℕ, zero, suc, Bool, true, false, Option, none, some}
use sqlyt.Page.{Page}
use sqlyt.Pager.{Pager, M, done, pure, when}
use sqlyt.Pager.Wal.{pager_open, pager_commit_transaction_sync}
use sqlyt.Pager.Keeps.{after_done, After-at, Keeps}
use sqlyt.Pager.Unwritten.{Unwritten, Unwritten-refl}
use sqlyt.Table.{Text, Column, Field, Table}
use sqlyt.Parser.Statements.{
  SqlStatementType, sql_stmt_create_database, sql_stmt_create_table, sql_stmt_insert,
  sql_stmt_select, sql_stmt_delete, sql_stmt_update, sql_stmt_drop_table, SqlStatement,
}
use sqlyt.Cursor.{Cursor}
use sqlyt.Tree.Unwritten.Shrink.{leaf_node_delete-Unwritten}
use sqlyt.Exec.{SqlExecuteResult}
use sqlyt.Exec.Select.{count_rows, fold_rows, select_quiet, select_rows, execute_select}
use sqlyt.Exec.Change.{
  delete_row, execute_delete, write_row, update_row, update_in, execute_update, drop_in_master,
  execute_drop_table,
}
use sqlyt.Exec.Statement.{silent, execute_on, execute_statement, execute_sql}
use sqlyt.Exec.Unwritten.{
  statement_rules, with_table-Unwritten, execute_create_table-Unwritten, execute_insert-Unwritten,
}

module _ {s0 : Pager} where
  count_rows-Unwritten :
      (fuel : ℕ) (c : Cursor) (n : ℕ) → Keeps (Unwritten s0) (count_rows fuel c n)
  unfolding count_rows
  count_rows-Unwritten zero c n = search statement_rules
  count_rows-Unwritten (suc fuel) c n = search (statement_rules, count_rows-Unwritten fuel) depth 24

  fold_rows-Unwritten :
      {A : Type 0} (fuel : ℕ) (step : (d : Page) → (off : ℕ) → A → A) (c : Cursor) (acc : A)
      → Keeps (Unwritten s0) (fold_rows fuel step c acc)
  unfolding fold_rows
  fold_rows-Unwritten zero step c acc = search statement_rules
  fold_rows-Unwritten (suc fuel) step c acc =
      search (statement_rules, fold_rows-Unwritten fuel step) depth 24

  select_quiet-Unwritten : (t : Table) → Keeps (Unwritten s0) (select_quiet t)
  unfolding select_quiet
  select_quiet-Unwritten t = search (statement_rules, count_rows-Unwritten)

  select_rows-Unwritten : (t : Table) → Keeps (Unwritten s0) (select_rows t)
  unfolding select_rows
  select_rows-Unwritten t = search (statement_rules, fold_rows-Unwritten) depth 24

  execute_select-Unwritten :
      (quiet : Bool) (stmt : SqlStatement) → Keeps (Unwritten s0) (execute_select quiet stmt)
  unfolding execute_select
  execute_select-Unwritten quiet stmt =
      search (statement_rules, with_table-Unwritten, select_quiet-Unwritten, select_rows-Unwritten)
        depth 24

  delete_row-Unwritten : (id : ℕ) (t : Table) → Keeps (Unwritten s0) (delete_row id t)
  unfolding delete_row
  delete_row-Unwritten id t = search (statement_rules, leaf_node_delete-Unwritten) depth 24

  execute_delete-Unwritten : (stmt : SqlStatement) → Keeps (Unwritten s0) (execute_delete stmt)
  unfolding execute_delete
  execute_delete-Unwritten stmt =
      search (statement_rules, with_table-Unwritten, delete_row-Unwritten) depth 24

  write_row-Unwritten :
      (t : Table) (c : Cursor) (row : Option Page) → Keeps (Unwritten s0) (write_row t c row)
  unfolding write_row
  write_row-Unwritten t c none = search statement_rules
  write_row-Unwritten t c (some row) = search statement_rules depth 24

  update_row-Unwritten :
      (t : Table) (stmt : SqlStatement) (found : Option (ℕ × Column × Field))
      → Keeps (Unwritten s0) (update_row t stmt found)
  unfolding update_row
  update_row-Unwritten t stmt none = search statement_rules
  update_row-Unwritten t stmt (some (i, c, f)) =
      search (statement_rules, write_row-Unwritten) depth 24

  update_in-Unwritten : (stmt : SqlStatement) (t : Table) → Keeps (Unwritten s0) (update_in stmt t)
  unfolding update_in
  update_in-Unwritten stmt t = search update_row-Unwritten

  execute_update-Unwritten : (stmt : SqlStatement) → Keeps (Unwritten s0) (execute_update stmt)
  unfolding execute_update
  execute_update-Unwritten stmt =
      search (statement_rules, with_table-Unwritten, update_in-Unwritten) depth 24

  drop_in_master-Unwritten :
      (fuel : ℕ) (name : Text) (c : Cursor) → Keeps (Unwritten s0) (drop_in_master fuel name c)
  unfolding drop_in_master
  drop_in_master-Unwritten zero name c = search statement_rules
  drop_in_master-Unwritten (suc fuel) name c =
      search (statement_rules, leaf_node_delete-Unwritten, drop_in_master-Unwritten fuel name) depth
        24

  execute_drop_table-Unwritten :
      (stmt : SqlStatement) → Keeps (Unwritten s0) (execute_drop_table stmt)
  unfolding execute_drop_table
  execute_drop_table-Unwritten stmt = search (statement_rules, drop_in_master-Unwritten) depth 24

  silent-Unwritten :
      (m : M SqlExecuteResult) → Keeps (Unwritten s0) m → Keeps (Unwritten s0) (silent m)
  unfolding silent
  silent-Unwritten m keeps = search statement_rules

  execute_on-Unwritten :
      (quiet : Bool) (created : SqlExecuteResult) (db : Table) (type : SqlStatementType)
      (stmt : SqlStatement)
      → Keeps (Unwritten s0) (execute_on quiet created db type stmt)
  unfolding execute_on
  execute_on-Unwritten quiet created db sql_stmt_create_database stmt = search statement_rules
  execute_on-Unwritten quiet created db sql_stmt_create_table stmt =
      silent-Unwritten _ (execute_create_table-Unwritten db stmt)
  execute_on-Unwritten quiet created db sql_stmt_insert stmt =
      silent-Unwritten _ (execute_insert-Unwritten stmt)
  execute_on-Unwritten quiet created db sql_stmt_select stmt = execute_select-Unwritten quiet stmt
  execute_on-Unwritten quiet created db sql_stmt_delete stmt =
      silent-Unwritten _ (execute_delete-Unwritten stmt)
  execute_on-Unwritten quiet created db sql_stmt_update stmt =
      silent-Unwritten _ (execute_update-Unwritten stmt)
  execute_on-Unwritten quiet created db sql_stmt_drop_table stmt =
      silent-Unwritten _ (execute_drop_table-Unwritten stmt)

  execute_statement-Unwritten :
      (quiet : Bool) (created : SqlExecuteResult) (db : Table) (stmt : SqlStatement)
      → Keeps (Unwritten s0) (execute_statement quiet created db stmt)
  unfolding execute_statement
  execute_statement-Unwritten quiet created db stmt = execute_on-Unwritten quiet created db _ stmt

  no_commit : (b : Bool) → Keeps (Unwritten s0) (when (b && false) pager_commit_transaction_sync)
  unfolding pure
  no_commit true = record { at = λ s h. after_done h }
  no_commit false = record { at = λ s h. after_done h }

  pub execute_sql-Unwritten :
      (quiet : Bool) (created : SqlExecuteResult) (db : Table) (stmt : SqlStatement)
      → Keeps (Unwritten s0) (execute_sql quiet true created db stmt)
  unfolding execute_sql
  execute_sql-Unwritten quiet created db stmt =
      search (statement_rules, execute_statement-Unwritten, no_commit) depth 24

-- The states that statements of a transaction lead to, in any number and order.
pub data Reaches (db : Table) (s : Pager) : Pager → Type 0 where
  begun : Reaches db s s
  executed :
      (quiet : Bool) (created : SqlExecuteResult) (stmt : SqlStatement) (out : Text) {t u : Pager}
      → Reaches db s t
      → execute_sql quiet true created db stmt t ≡ done out u
      → Reaches db s u

reached-Unwritten : {db : Table} {s u : Pager} → Reaches db s u → Unwritten s u
reached-Unwritten {s = s} begun = Unwritten-refl s
reached-Unwritten {db = db} (executed quiet created stmt out {t = t} reaches run) =
    After-at ((execute_sql-Unwritten quiet created db stmt).at t (reached-Unwritten reaches)) run

-- A transaction is not durable before its commit: whatever statements it has executed, in any number and order, the database file and
-- the WAL are those from its beginning, and opening them gives the same pager as then.
pub transaction-Unwritten :
    {db : Table} {s u : Pager}
    → Reaches db s u
    → Unwritten s u × (pager_open u.file u.wal ≡ pager_open s.file s.wal)
transaction-Unwritten {s = s} {u = u} reaches =
    let kept : Unwritten s u = reached-Unwritten reaches in
    (kept, ap (λ f. pager_open f u.wal) kept.file ∙ ap (pager_open s.file) kept.wal)
