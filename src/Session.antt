-- ===== src/Session.antt =====
-- The session: switch_database, create_database and do_meta_command of src/cli.c, and process_line of
-- src/app.c. The directories under the root path are part of the state: a name has the two files of
-- its database, or there is no such directory. While a database is open, its files are those of its
-- pager. That mkdir succeeds for a name is an argument. The paths stay below the 1,024 bytes of their
-- buffers, since a root path has 511 bytes and a name 28 at most.
pub mod Printed
pub mod Meta
pub mod Main
use sqlyt.Base.{
  ℕ, Bool, true, false, not, ◌&&◌, ◌||◌, Option, none, some, List, [], ◌∷◌, if◌then◌else◌,
}
use sqlyt.Pager.{File, WalFile, Pager, Run, done, exited, fault, out_of_fuel}
use sqlyt.Pager.Header.{same_bytes}
use sqlyt.Table.{max_table_name_length, Text, Table}
use sqlyt.Parser.Text.{is_valid_identifier}
use sqlyt.Parser.Statements.{
  SqlStatementType, sql_stmt_create_database, sql_stmt_create_table, sql_stmt_insert,
  sql_stmt_select, sql_stmt_delete, sql_stmt_update, sql_stmt_drop_table, SqlStatement,
}
use sqlyt.Database.{db_open, db_close}
use sqlyt.Exec.{SqlExecuteResult, sql_exec_ok, sql_exec_create_db_failed}
use sqlyt.Exec.Statement.{print_sql_execute_result, execute_sql}

-- `RunOptions`
pub record RunOptions : Type 0 where
  pub quiet : Bool
  pub timer_enabled : Bool
  pub in_transaction : Bool

-- The files in the directory of a database; a file that is not there is empty.
pub record Files : Type 0 where
  pub file : File
  pub wal : WalFile

-- What db_open gave, with its pager.
pub record Database : Type 0 where
  pub catalog : Table
  pub pager : Pager

pub record Session : Type 0 where
  pub options : RunOptions
  pub directories : Text → Option Files
  pub has_active_database : Bool
  pub active_database : Text
  pub database : Option Database

-- How a line ends: with a value and a session, or as the run that did not return.
pub data Outcome (A : Type 0) : Type 0 where
  returned : A → Session → Outcome A
  ended : Outcome A
  faulted : Outcome A
  unfinished : Outcome A

module _ {A B : Type 0} where
  unfoldable pub on_run : Run A → (A → Pager → Outcome B) → Outcome B
  on_run (done a s) k = k a s
  on_run exited k = ended
  on_run fault k = faulted
  on_run out_of_fuel k = unfinished

  unfoldable pub then_do : Outcome A → (A → Session → Outcome B) → Outcome B
  then_do (returned a s) k = k a s
  then_do ended k = ended
  then_do faulted k = faulted
  then_do unfinished k = unfinished

unfoldable pub set_files : (Text → Option Files) → Text → Files → Text → Option Files
set_files directories name files other =
    if same_bytes other name then some files else directories other

-- db_close, after which the directory holds what the pager left in its files.
unfoldable pub close_database : Session → Outcome (Unit {0})
unfolding on_run set_files
close_database s = elim s.database [
  | none ↦ returned tt s
  | some d ↦ on_run (db_close d.pager) (λ u pager. returned tt (record s {
    directories =
        set_files s.directories s.active_database (record { file = pager.file; wal = pager.wal });
    database = none;
  }))
]

unfoldable pub open_database : (db_name : Text) → Session → Files → Outcome Bool
unfolding on_run
open_database db_name s files = on_run (db_open files.file files.wal) (λ catalog pager.
    returned true (record s {
      database = some (record { catalog = catalog; pager = pager });
      active_database = db_name;
      has_active_database = true;
    }))

unfoldable pub switch_database : (db_name : Text) → Session → Outcome Bool
unfolding then_do close_database open_database
switch_database db_name s =
    if not (is_valid_identifier db_name max_table_name_length)
    then returned false s
    else elim (s.directories db_name) [
      | none ↦ returned false s
      | some found ↦ then_do (close_database s) (λ u closed. elim (closed.directories db_name) [
        | none ↦ returned false closed
        | some files ↦ open_database db_name closed files
      ])
    ]

-- The argument says for which names mkdir succeeds.
unfoldable pub create_database :
    (can_make : Text → Bool) → (db_name : Text) → Session → Bool × Session
unfolding set_files
create_database can_make db_name s =
    if not (is_valid_identifier db_name max_table_name_length)
    then (false, s)
    else elim (s.directories db_name) [
      | some files ↦ (true, s)
      | none ↦
          if can_make db_name
          then (
            true,
            record s {
              directories = set_files s.directories db_name (record {
                file = record { size = 0; byte = λ a. 0 };
                wal = record { frames = []; torn = 0 };
              });
            },
          )
          else (false, s)
    ]

unfoldable pub is_create_database : SqlStatementType → Bool
is_create_database sql_stmt_create_database = true
is_create_database _ = false

unfoldable pub execute_create_database :
    (can_make : Text → Bool) → SqlStatement → Session → SqlExecuteResult × Session
unfolding create_database
execute_create_database can_make stmt s =
    let (made, s') = create_database can_make stmt.table_name s in
    (if made then sql_exec_ok else sql_exec_create_db_failed, s')

-- execute_sql on the open database, if there is one; the text is what it prints.
unfoldable pub run_on_database :
    (created : SqlExecuteResult) → SqlStatement → Session → Outcome Text
unfolding on_run
run_on_database created stmt s = elim s.database [
  | none ↦ returned (print_sql_execute_result s.options.quiet created) s
  | some d ↦
      on_run (execute_sql s.options.quiet s.options.in_transaction created d.catalog stmt d.pager)
        (λ out pager.
          returned out
            (record s { database = some (record { catalog = d.catalog; pager = pager }) }))
]

-- execute_sql with the session.
unfoldable pub run_statement : (can_make : Text → Bool) → SqlStatement → Session → Outcome Text
unfolding is_create_database execute_create_database run_on_database
run_statement can_make stmt s =
    if is_create_database stmt.type
    then (let (created, s') = execute_create_database can_make stmt s in
        run_on_database created stmt s')
    else run_on_database sql_exec_ok stmt s
