-- ===== src/Exec/Statement.antt =====
-- Dispatch and commit: execute_statement on an open database, execute_sql and
-- print_sql_execute_result of src/cli.c. CREATE DATABASE touches no open database.
use sqlyt.Base.{Bool, true, false, not, ◌&&◌, [], ◌++◌, if◌then◌else◌}
use sqlyt.Pager.{M, pure, ◌>>=◌, ◌>>◌, when}
use sqlyt.Pager.Header.{codes}
use sqlyt.Pager.Wal.{pager_commit_transaction_sync}
use sqlyt.Table.{Text, Table}
use sqlyt.Parser.Statements.{
  SqlStatementType, sql_stmt_create_database, sql_stmt_create_table, sql_stmt_insert,
  sql_stmt_select, sql_stmt_delete, sql_stmt_update, sql_stmt_drop_table, SqlStatement,
}
use sqlyt.Exec
use sqlyt.Exec.{SqlExecuteResult, is_ok}
use sqlyt.Exec.Create.{execute_create_table}
use sqlyt.Exec.Insert.{execute_insert}
use sqlyt.Exec.Select.{execute_select}
use sqlyt.Exec.Change.{execute_delete, execute_update, execute_drop_table}

-- A statement that prints nothing of its own.
unfoldable pub silent : M SqlExecuteResult → M (SqlExecuteResult × Text)
silent m = do r ← m; pure (r, [])

-- `created` is the result of CREATE DATABASE.
unfoldable pub execute_on :
    (quiet : Bool)
    → (created : SqlExecuteResult) → Table
    → SqlStatementType
    → SqlStatement
    → M (SqlExecuteResult × Text)
unfolding silent
execute_on quiet created db sql_stmt_create_database stmt = pure (created, [])
execute_on quiet created db sql_stmt_create_table stmt = silent (execute_create_table db stmt)
execute_on quiet created db sql_stmt_insert stmt = silent (execute_insert stmt)
execute_on quiet created db sql_stmt_select stmt = execute_select quiet stmt
execute_on quiet created db sql_stmt_delete stmt = silent (execute_delete stmt)
execute_on quiet created db sql_stmt_update stmt = silent (execute_update stmt)
execute_on quiet created db sql_stmt_drop_table stmt = silent (execute_drop_table stmt)

unfoldable pub execute_statement :
    (quiet : Bool)
    → (created : SqlExecuteResult) → Table
    → SqlStatement
    → M (SqlExecuteResult × Text)
unfolding execute_on
execute_statement quiet created db stmt = execute_on quiet created db stmt.type stmt

unfoldable pub result_message : SqlExecuteResult → Text
result_message Exec.sql_exec_ok = codes "Executed.\n"
result_message Exec.sql_exec_create_db_failed = codes "Error: Could not create database.\n"
result_message Exec.sql_exec_reserved_table_name = codes "Error: Reserved table name.\n"
result_message Exec.sql_exec_table_exists = codes "Error: Table already exists.\n"
result_message Exec.sql_exec_row_layout_too_large =
    codes "Error: Row layout too large for one page.\n"
result_message Exec.sql_exec_table_name_too_long = codes "Error: Table name too long for catalog.\n"
result_message Exec.sql_exec_schema_metadata_too_long = codes "Error: Schema metadata too long.\n"
result_message Exec.sql_exec_duplicate_key = codes "Error: Duplicate key.\n"
result_message Exec.sql_exec_table_not_found = codes "Error: Table not found.\n"
result_message Exec.sql_exec_wrong_value_count = []
result_message Exec.sql_exec_schema_invalid_pk =
    codes "Error: First column must be int primary key.\n"
result_message Exec.sql_exec_insert_validation_failed = []
result_message Exec.sql_exec_row_pack_failed = codes "Error: Row pack failed.\n"
result_message Exec.sql_exec_select_layout_invalid = codes "Error: Invalid table layout.\n"
result_message Exec.sql_exec_delete_record_not_found = codes "Error: Record not found to delete.\n"
result_message Exec.sql_exec_update_column_not_found = codes "Error: Column not found for update.\n"
result_message Exec.sql_exec_update_pk_not_allowed =
    codes "Error: Updating primary key is not supported.\n"
result_message Exec.sql_exec_update_record_not_found = codes "Error: Record not found to update.\n"
result_message Exec.sql_exec_reserved_drop_table = codes "Error: Cannot drop reserved table.\n"

-- In quiet mode success is not reported; the two results without a message never are.
unfoldable pub print_sql_execute_result : (quiet : Bool) → SqlExecuteResult → Text
unfolding result_message
print_sql_execute_result quiet r = if quiet && is_ok r then [] else result_message r

-- The statements that execute_sql commits.
unfoldable pub is_write : SqlStatementType → Bool
is_write sql_stmt_select = false
is_write _ = true

-- The text is what the statement and its result print; the timer is left out.
unfoldable pub execute_sql :
    (quiet in_transaction : Bool) → (created : SqlExecuteResult) → Table → SqlStatement → M Text
unfolding execute_statement print_sql_execute_result is_write
execute_sql quiet in_transaction created db stmt = do
  (r, out) ← execute_statement quiet created db stmt
  when (is_ok r && is_write stmt.type && not in_transaction) pager_commit_transaction_sync
  pure (out ++ print_sql_execute_result quiet r)
