-- ===== src/Session/Meta.antt =====
-- The lines of a session: do_meta_command of src/cli.c and process_line of src/app.c. What mkdir does
-- and what list_databases prints are arguments, since they come from the file system.
mod Tests
pub mod Lines
use sqlyt.Base.{
  ℕ, zero, suc, Bool, true, false, not, ◌&&◌, ◌||◌, Option, none, some, List, [], ◌∷◌, ◌++◌, ◌==◌,
  if◌then◌else◌,
}
use sqlyt.Pager.{Pager, Run, M, pure, ◌>>=◌}
use sqlyt.Pager.Header.{codes, same_bytes}
use sqlyt.Pager.Wal.{pager_commit_transaction_sync}
use sqlyt.Table.{Text, SqlSchema, Table, table_init_user}
use sqlyt.Parser.Text.{same_text_ci}
use sqlyt.Parser.Statements.{SqlStatement, parse_sql_statement}
use sqlyt.Cursor.{master_find_table}
use sqlyt.App.{normalize_input_line}
use sqlyt.Session.{
  RunOptions, Database, Session, Outcome, returned, on_run, then_do, switch_database,
  is_create_database, run_statement,
}
use sqlyt.Session.Printed.{print_tree, show_tables, print_constants}

-- `MetaCommandResult`
pub data MetaCommandResult : Type 0 where
  meta_command_success : MetaCommandResult
  meta_command_unrecognized_command : MetaCommandResult
  meta_command_exit : MetaCommandResult

-- What is behind a prefix of a line.
unfoldable pub after_prefix : (prefix line : Text) → Option Text
after_prefix [] line = some line
after_prefix (c ∷ cs) [] = none
after_prefix (c ∷ cs) (d ∷ ds) = let rest = after_prefix cs ds in if c == d then rest else none

unfoldable pub skip_blanks : Text → Text
skip_blanks [] = []
skip_blanks (c ∷ s) = let rest = skip_blanks s in if c == 32 || c == 9 then rest else c ∷ s

-- The argument of a command: the command ends the line, or a blank follows it.
unfoldable pub argument_in : Option Text → Option Text
unfolding skip_blanks
argument_in none = none
argument_in (some []) = some []
argument_in (some (c ∷ s)) = if c == 32 || c == 9 then some (skip_blanks (c ∷ s)) else none

unfoldable pub command_argument : (command line : Text) → Option Text
unfolding after_prefix argument_in
command_argument command line = argument_in (after_prefix command line)

-- `on`, `off` or nothing; anything else leaves the switch as it is.
unfoldable pub switched : (arg : Text) → (before : Bool) → Bool
switched arg before =
    if same_text_ci arg (codes "on")
    then true
    else if same_text_ci arg (codes "off") || same_bytes arg []
    then false
    else before

-- Whether the usage is printed.
unfoldable pub is_switch : (arg : Text) → Bool
is_switch arg = same_text_ci arg (codes "on") || same_text_ci arg (codes "off") || same_bytes arg []

-- A successful command that prints `out`, unless the session is quiet.
unfoldable pub says : Text → Session → Outcome (MetaCommandResult × Text)
says out s = returned (meta_command_success, if s.options.quiet then [] else out) s

-- A command that runs on the open database, if there is one.
unfoldable pub on_database : (Database → M Text) → Session → Outcome (MetaCommandResult × Text)
unfolding on_run says
on_database run s =
    if not s.has_active_database
    then says (codes "No active database. Use .usedatabase <name>.\n") s
    else elim s.database [
      | none ↦ says (codes "No active database. Use .usedatabase <name>.\n") s
      | some d ↦ on_run (run d d.pager) (λ out pager.
          says out (record s { database = some (record { catalog = d.catalog; pager = pager }) }))
    ]

unfoldable pub quiet_command : (arg : Text) → Session → Outcome (MetaCommandResult × Text)
unfolding switched is_switch says
quiet_command arg s =
    if is_switch arg
    then returned (meta_command_success, [])
        (record s { options = record s.options { quiet = switched arg s.options.quiet } })
    else says (codes "Usage: .quiet on|off\n") s

unfoldable pub timer_command : (arg : Text) → Session → Outcome (MetaCommandResult × Text)
unfolding switched is_switch says
timer_command arg s =
    if is_switch arg
    then returned (meta_command_success, [])
        (record s {
          options = record s.options { timer_enabled = switched arg s.options.timer_enabled };
        })
    else says (codes "Usage: .timer on|off\n") s

unfoldable pub begin_command : Session → Outcome (MetaCommandResult × Text)
unfolding says
begin_command s =
    says (codes "Transaction started.\n")
      (record s { options = record s.options { in_transaction = true } })

unfoldable pub committed : Session → Outcome (MetaCommandResult × Text)
unfolding says
committed s =
    says (codes "Transaction committed.\n")
      (record s { options = record s.options { in_transaction = false } })

unfoldable pub commit_command : Session → Outcome (MetaCommandResult × Text)
unfolding on_run committed
commit_command s = elim s.database [
  | none ↦ committed s
  | some d ↦ on_run (pager_commit_transaction_sync d.pager) (λ u pager.
      committed (record s { database = some (record { catalog = d.catalog; pager = pager }) }))
]

unfoldable pub use_command : (db_name : Text) → Session → Outcome (MetaCommandResult × Text)
unfolding then_do switch_database says
use_command [] s = says (codes "Unable to use database.\n") s
use_command (c ∷ cs) s = then_do (switch_database (c ∷ cs) s) (λ used s'.
    if used
    then says (codes "Using database " ++ c ∷ cs ++ codes "\n") s'
    else says (codes "Unable to use database.\n") s')

-- The tree of a table that was looked up; in quiet mode it is not walked.
unfoldable pub tree_of_layout : (quiet : Bool) → (root_page : ℕ) → Option Table → M Text
tree_of_layout quiet root_page none = pure (codes "Error: Invalid table layout.\n")
tree_of_layout quiet root_page (some t) =
    if quiet
    then pure []
    else do tree ← print_tree root_page 0 t.cell_size; pure (codes "Tree:\n" ++ tree)

unfoldable pub tree_of : (quiet : Bool) → Option (SqlSchema × ℕ) → M Text
unfolding tree_of_layout
tree_of quiet none = pure (codes "Error: Table not found.\n")
tree_of quiet (some (schema, root_page)) =
    tree_of_layout quiet root_page (table_init_user root_page schema)

unfoldable pub btree_command : (quiet : Bool) → (table_name : Text) → M Text
unfolding tree_of
btree_command quiet table_name = do found ← master_find_table table_name; tree_of quiet found

abbrev pub unrecognized : Session → Outcome (MetaCommandResult × Text)
unrecognized s = returned (meta_command_unrecognized_command, []) s

-- The commands from .showdatabases on.
unfoldable pub show_command : (listing line : Text) → Session → Outcome (MetaCommandResult × Text)
unfolding on_database says btree_command
show_command listing line s =
    if same_bytes line (codes ".showdatabases")
    then says listing s
    else if same_bytes line (codes ".showtables")
    then on_database (λ d. if s.options.quiet then pure [] else show_tables) s
    else elim (after_prefix (codes ".btree ") line) [
      | some table_name ↦ on_database (λ d. btree_command s.options.quiet table_name) s
      | none ↦
          if same_bytes line (codes ".constants")
          then says (codes "Constants:\n" ++ print_constants) s
          else unrecognized s
    ]

-- The commands from .begin on.
unfoldable pub transaction_command :
    (listing line : Text) → Session → Outcome (MetaCommandResult × Text)
unfolding begin_command commit_command use_command show_command
transaction_command listing line s =
    if same_bytes line (codes ".begin")
    then begin_command s
    else if same_bytes line (codes ".commit")
    then commit_command s
    else elim (command_argument (codes ".usedatabase") line) [
      | some db_name ↦ use_command db_name s
      | none ↦ show_command listing line s
    ]

unfoldable pub do_meta_command :
    (listing line : Text) → Session → Outcome (MetaCommandResult × Text)
unfolding command_argument quiet_command timer_command transaction_command
do_meta_command listing line s =
    if same_bytes line (codes ".exit")
    then returned (meta_command_exit, []) s
    else elim (command_argument (codes ".quiet") line) [
      | some arg ↦ quiet_command arg s
      | none ↦ elim (command_argument (codes ".timer") line) [
        | some arg ↦ timer_command arg s
        | none ↦ transaction_command listing line s
      ]
    ]

-- The results 0, 1 and -1 of process_line.
pub data LineResult : Type 0 where
  line_done : LineResult
  line_exit : LineResult
  line_failed : LineResult

unfoldable pub meta_result :
    (line : Text) → MetaCommandResult × Text → Session → Outcome (LineResult × Text)
meta_result line (meta_command_success, out) s = returned (line_done, out) s
meta_result line (meta_command_exit, out) s = returned (line_exit, out) s
meta_result line (meta_command_unrecognized_command, out) s =
    returned
      (
        line_done,
        if s.options.quiet then [] else codes "Unrecognized command '" ++ line ++ codes "'\n",
      )
      s

abbrev pub is_open : Session → Bool
is_open s = s.has_active_database && elim s.database [ none ↦ false | some d ↦ true ]

unfoldable pub sql_line :
    (can_make : Text → Bool) → Option SqlStatement → Session → Outcome (LineResult × Text)
unfolding then_do
sql_line can_make none s =
    returned
      (
        line_failed,
        if s.options.quiet then [] else codes "Syntax error. Could not parse SQL statement.\n",
      )
      s
sql_line can_make (some stmt) s =
    if not (is_create_database stmt.type) && not (is_open s)
    then returned
        (
          line_failed,
          if s.options.quiet then [] else codes "No active database. Use .usedatabase <name>.\n",
        )
        s
    else then_do (run_statement can_make stmt s) (λ out s'. returned (line_done, out) s')

-- A line whose blanks at both ends are cut off.
unfoldable pub normalized_line :
    (can_make : Text → Bool) → (listing line : Text) → Session → Outcome (LineResult × Text)
unfolding then_do do_meta_command meta_result sql_line
normalized_line can_make listing [] s = returned (line_done, []) s
normalized_line can_make listing (c ∷ line) s =
    if c == 46
    then then_do (do_meta_command listing (c ∷ line) s) (meta_result (c ∷ line))
    else sql_line can_make (parse_sql_statement (c ∷ line)) s

unfoldable pub process_line :
    (can_make : Text → Bool) → (listing line : Text) → Session → Outcome (LineResult × Text)
unfolding normalized_line
process_line can_make listing line s =
    normalized_line can_make listing (normalize_input_line line) s
