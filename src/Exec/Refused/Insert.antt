-- ===== src/Exec/Refused/Insert.antt =====
-- CREATE TABLE and INSERT refuse before they write.
use sqlyt.Base.{ℕ, ◌∷◌, refl, Option, none, some, List, []}
use sqlyt.Page.{Page}
use sqlyt.Pager.{Pager}
use sqlyt.Pager.Keeps.{Keeps}
use sqlyt.Pager.Cache.Reads.{Reads}
use sqlyt.Cursor.ReadOnly.{
  read_rules, find_table_max_key-Reads, table_has_key-Reads, master_find_table-Reads,
}
use sqlyt.Table.{Text, SqlSchema, Table}
use sqlyt.Parser.Insert.{InsertRow}
use sqlyt.Parser.Statements.{SqlStatement}
use sqlyt.Exec.{sql_exec_row_pack_failed}
use sqlyt.Exec.Create.{add_table, execute_create_table}
use sqlyt.Exec.Insert.{
  LastKey, validate_rows, insert_packed, insert_rows, insert_into, insert_into_found,
  execute_insert,
}
use sqlyt.Exec.Refused.{
  is_refused, Refuses, Accepts, Accepts-bind, Accepts-then, Accepts-pure, Accepts-if,
  result_of-Accepts, ok-Accepts, Refuses-Accepts, refuse_rules,
}

insert_packed-Accepts :
    (t : Table) (key : ℕ) (row : Option Page) → Accepts (insert_packed t key row)
unfolding insert_packed is_refused
insert_packed-Accepts t key none = Accepts-pure sql_exec_row_pack_failed refl
insert_packed-Accepts t key (some row) = search (Accepts-bind, result_of-Accepts)

insert_rows-Accepts :
    (t : Table) (rows : List InsertRow) (last : LastKey) → Accepts (insert_rows t rows last)
unfolding insert_rows
insert_rows-Accepts t [] last = ok-Accepts
insert_rows-Accepts t (row ∷ rows) last =
    search
      (Accepts-then, Accepts-if, Accepts-pure, insert_packed-Accepts, insert_rows-Accepts t rows)

module _ {s0 : Pager} where
  add_table-Refuses :
      (db : Table) (name : Text) (payload : Option Text) → Refuses s0 (add_table db name payload)
  unfolding add_table
  add_table-Refuses db name none = search refuse_rules
  add_table-Refuses db name (some payload) =
      Refuses-Accepts _ (search (Accepts-bind, result_of-Accepts))

  pub execute_create_table-Refuses :
      (db : Table) (stmt : SqlStatement) → Refuses s0 (execute_create_table db stmt)
  unfolding execute_create_table
  execute_create_table-Refuses db stmt =
      search (refuse_rules, master_find_table-Reads, add_table-Refuses) depth 12

  validate_rows-Reads :
      (t : Table) (rows : List InsertRow) (planned : List ℕ) (last : LastKey)
      → Keeps (Reads s0) (validate_rows t rows planned last)
  unfolding validate_rows
  validate_rows-Reads t [] planned last = search read_rules
  validate_rows-Reads t (row ∷ rows) planned last =
      search (read_rules, table_has_key-Reads, validate_rows-Reads t rows) depth 16

  insert_into-Refuses : (rows : List InsertRow) (t : Table) → Refuses s0 (insert_into rows t)
  unfolding insert_into
  insert_into-Refuses rows t =
      search
        (
          refuse_rules, find_table_max_key-Reads, validate_rows-Reads, Refuses-Accepts,
          insert_rows-Accepts,
        )
        depth 16

  insert_into_found-Refuses :
      (rows : List InsertRow) (found : Option (SqlSchema × ℕ))
      → Refuses s0 (insert_into_found rows found)
  unfolding insert_into_found
  insert_into_found-Refuses rows none = search refuse_rules
  insert_into_found-Refuses rows (some (schema, root)) = search (refuse_rules, insert_into-Refuses)

  pub execute_insert-Refuses : (stmt : SqlStatement) → Refuses s0 (execute_insert stmt)
  unfolding execute_insert
  execute_insert-Refuses stmt =
      search (refuse_rules, master_find_table-Reads, insert_into_found-Refuses)
