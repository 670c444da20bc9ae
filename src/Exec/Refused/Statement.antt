-- ===== src/Exec/Refused/Statement.antt =====
-- Every statement refuses before it writes, and SELECT never writes.
use sqlyt.Base.{ℕ, zero, suc, ◌≡◌, Bool, true, Option, none, some}
use sqlyt.Page.{Page}
use sqlyt.Pager.{Pager, M, done, pure, ◌>>=◌}
use sqlyt.Pager.Keeps.{After, after_done, After-at, After-map, After-bind, Keeps}
use sqlyt.Pager.Cache.Reads.{Reads, Reads-refl, get_page-Reads}
use sqlyt.Cursor.ReadOnly.{
  read_rules, table_find-Reads, table_start-Reads, cursor_value-Reads, cursor_advance-Reads,
  master_find_table-Reads,
}
use sqlyt.Cursor.{Cursor}
use sqlyt.Table.{Text, Column, Field, SqlSchema, Table}
use sqlyt.Parser.Statements.{
  SqlStatementType, sql_stmt_create_database, sql_stmt_create_table, sql_stmt_insert,
  sql_stmt_select, sql_stmt_delete, sql_stmt_update, sql_stmt_drop_table, SqlStatement,
}
use sqlyt.Exec.{SqlExecuteResult, with_layout, with_table}
use sqlyt.Exec.Select.{count_rows, fold_rows, select_quiet, select_rows, execute_select}
use sqlyt.Exec.Change.{
  delete_row, execute_delete, write_row, update_row, update_in, execute_update, drop_in_master,
  execute_drop_table,
}
use sqlyt.Exec.Statement.{silent, execute_on, execute_statement}
use sqlyt.Exec.Refused.{
  is_refused, Refuses, Accepts-bind, ok-Accepts, Refuses-spent, Refuses-Accepts, refuse_rules,
}
use sqlyt.Exec.Refused.Insert.{execute_create_table-Refuses, execute_insert-Refuses}

module _ {s0 : Pager} where
  delete_row-Refuses : (id : ℕ) (t : Table) → Refuses s0 (delete_row id t)
  unfolding delete_row
  delete_row-Refuses id t =
      search
        (refuse_rules, table_find-Reads, get_page-Reads, Refuses-Accepts, Accepts-bind, ok-Accepts)
        depth 12

  execute_delete-Refuses : (stmt : SqlStatement) → Refuses s0 (execute_delete stmt)
  unfolding execute_delete
  execute_delete-Refuses stmt = search (refuse_rules, master_find_table-Reads, delete_row-Refuses)

  write_row-Refuses : (t : Table) (c : Cursor) (row : Option Page) → Refuses s0 (write_row t c row)
  unfolding write_row
  write_row-Refuses t c none = search refuse_rules
  write_row-Refuses t c (some row) = Refuses-Accepts _ (search (Accepts-bind, ok-Accepts))

  update_row-Refuses :
      (t : Table) (stmt : SqlStatement) (found : Option (ℕ × Column × Field))
      → Refuses s0 (update_row t stmt found)
  unfolding update_row
  update_row-Refuses t stmt none = search refuse_rules
  update_row-Refuses t stmt (some (i, c, f)) =
      search (refuse_rules, table_find-Reads, get_page-Reads, write_row-Refuses) depth 12

  update_in-Refuses : (stmt : SqlStatement) (t : Table) → Refuses s0 (update_in stmt t)
  unfolding update_in
  update_in-Refuses stmt t = search update_row-Refuses

  execute_update-Refuses : (stmt : SqlStatement) → Refuses s0 (execute_update stmt)
  unfolding execute_update
  execute_update-Refuses stmt = search (refuse_rules, master_find_table-Reads, update_in-Refuses)

  drop_in_master-Refuses :
      (fuel : ℕ) (name : Text) (c : Cursor) → Refuses s0 (drop_in_master fuel name c)
  unfolding drop_in_master
  drop_in_master-Refuses zero name c = Refuses-spent
  drop_in_master-Refuses (suc fuel) name c =
      search
        (
          refuse_rules,
          cursor_value-Reads,
          cursor_advance-Reads,
          Refuses-Accepts,
          Accepts-bind,
          ok-Accepts,
          drop_in_master-Refuses fuel name,
        )
        depth 16

  execute_drop_table-Refuses : (stmt : SqlStatement) → Refuses s0 (execute_drop_table stmt)
  unfolding execute_drop_table
  execute_drop_table-Refuses stmt =
      search (refuse_rules, read_rules, table_start-Reads, drop_in_master-Refuses) depth 12

  count_rows-Reads : (fuel : ℕ) (c : Cursor) (n : ℕ) → Keeps (Reads s0) (count_rows fuel c n)
  unfolding count_rows
  count_rows-Reads zero c n = search read_rules
  count_rows-Reads (suc fuel) c n =
      search (read_rules, cursor_advance-Reads, count_rows-Reads fuel) depth 12

  fold_rows-Reads :
      {A : Type 0} (fuel : ℕ) (step : (d : Page) → (off : ℕ) → A → A) (c : Cursor) (acc : A)
      → Keeps (Reads s0) (fold_rows fuel step c acc)
  unfolding fold_rows
  fold_rows-Reads zero step c acc = search read_rules
  fold_rows-Reads (suc fuel) step c acc =
      search (read_rules, cursor_value-Reads, cursor_advance-Reads, fold_rows-Reads fuel step) depth
        12

  select_quiet-Reads : (t : Table) → Keeps (Reads s0) (select_quiet t)
  unfolding select_quiet
  select_quiet-Reads t = search (read_rules, table_start-Reads, count_rows-Reads)

  select_rows-Reads : (t : Table) → Keeps (Reads s0) (select_rows t)
  unfolding select_rows
  select_rows-Reads t = search (read_rules, table_start-Reads, fold_rows-Reads) depth 16

  with_layout-Reads :
      {A : Type 0} (a : A) (run : Table → M A)
      → ((t : Table) → Keeps (Reads s0) (run t))
      → (t : Option Table) → Keeps (Reads s0) (with_layout a run t)
  unfolding with_layout
  with_layout-Reads a run keeps none = search read_rules
  with_layout-Reads a run keeps (some t) = keeps t

  with_table-Reads :
      {A : Type 0} (a b : A) (run : Table → M A)
      → ((t : Table) → Keeps (Reads s0) (run t))
      → (found : Option (SqlSchema × ℕ)) → Keeps (Reads s0) (with_table a b run found)
  unfolding with_table
  with_table-Reads a b run keeps none = search read_rules
  with_table-Reads a b run keeps (some (schema, root)) = with_layout-Reads b run keeps _

  execute_select-Keeps :
      (quiet : Bool) (stmt : SqlStatement) → Keeps (Reads s0) (execute_select quiet stmt)
  unfolding execute_select
  execute_select-Keeps quiet stmt =
      search
        (
          read_rules, master_find_table-Reads, with_table-Reads, select_quiet-Reads,
          select_rows-Reads,
        )
        depth 12

  silent-Refuses :
      (m : M SqlExecuteResult)
      → Refuses s0 m
      → (s : Pager) → Reads s0 s
      → After (λ out s'. is_refused out.0 ≡ true → Reads s0 s') (silent m s)
  unfolding silent ◌>>=◌ pure
  silent-Refuses m rm s h = After-bind (rm.at s h) (λ r s' q. after_done q)

  execute_on-Refuses :
      (quiet : Bool) (created : SqlExecuteResult) (db : Table) (type : SqlStatementType)
      (stmt : SqlStatement) (s : Pager)
      → Reads s0 s
      → After
          (λ out s'. is_refused out.0 ≡ true → Reads s0 s')
          (execute_on quiet created db type stmt s)
  unfolding execute_on pure
  execute_on-Refuses quiet created db sql_stmt_create_database stmt s h = after_done (λ e. h)
  execute_on-Refuses quiet created db sql_stmt_create_table stmt s h =
      silent-Refuses _ (execute_create_table-Refuses db stmt) s h
  execute_on-Refuses quiet created db sql_stmt_insert stmt s h =
      silent-Refuses _ (execute_insert-Refuses stmt) s h
  execute_on-Refuses quiet created db sql_stmt_select stmt s h =
      After-map ((execute_select-Keeps quiet stmt).at s h) (λ r s' k e. k)
  execute_on-Refuses quiet created db sql_stmt_delete stmt s h =
      silent-Refuses _ (execute_delete-Refuses stmt) s h
  execute_on-Refuses quiet created db sql_stmt_update stmt s h =
      silent-Refuses _ (execute_update-Refuses stmt) s h
  execute_on-Refuses quiet created db sql_stmt_drop_table stmt s h =
      silent-Refuses _ (execute_drop_table-Refuses stmt) s h

-- A statement that is refused - with any error but a duplicate key or a row that does not pack -
-- leaves the database as it found it: every page shows the same bytes, no page is newly dirty, and
-- the files, the WAL mapping and the numbers of the header are those from before.
pub execute_statement-is_refused :
    (quiet : Bool) (created : SqlExecuteResult) (db : Table) (stmt : SqlStatement) (s s' : Pager)
    (r : SqlExecuteResult) (out : Text)
    → execute_statement quiet created db stmt s ≡ done (r, out) s'
    → is_refused r ≡ true
    → Reads s s'
unfolding execute_statement
execute_statement-is_refused quiet created db stmt s s' r out run refused =
    After-at (execute_on-Refuses quiet created db stmt.type stmt s (Reads-refl s)) run refused

-- SELECT, in quiet mode or not, leaves the database as it found it, whatever its result.
pub execute_select-Reads :
    (quiet : Bool) (stmt : SqlStatement) (s s' : Pager) (out : SqlExecuteResult × Text)
    → execute_select quiet stmt s ≡ done out s'
    → Reads s s'
execute_select-Reads quiet stmt s s' out run =
    After-at ((execute_select-Keeps quiet stmt).at s (Reads-refl s)) run
