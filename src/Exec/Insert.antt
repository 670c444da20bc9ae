-- ===== src/Exec/Insert.antt =====
-- INSERT: execute_insert of src/cli.c, which checks every row before it writes the first one. A row
-- buffer is taken to hold zeros before the row is packed into it.
pub mod Keys
mod Tests
use sqlyt.Base.{
  ℕ, zero, suc, ◌+◌, ◌%◌, Bool, true, false, not, ◌||◌, Option, none, some, List, [], ◌∷◌, ltb,
  ◌==◌, if◌then◌else◌, length,
}
use sqlyt.Page.{Page, u32_mod, zero_page}
use sqlyt.Pager.{M, pure, ◌>>=◌}
use sqlyt.Table.{column_type_int, Text, Column, SqlSchema, Table, table_init_user}
use sqlyt.Parser.Number.{print_u32}
use sqlyt.Parser.Insert.{InsertRow}
use sqlyt.Parser.Values.{other_values, parse_u32_tokens_for_insert_values, pack_insert_row_values}
use sqlyt.Parser.Statements.{SqlStatement}
use sqlyt.Cursor.{find_table_max_key, table_has_key, master_find_table}
use sqlyt.Tree.Grow.{insert_row_into_table}
use sqlyt.Exec.{
  SqlExecuteResult, sql_exec_ok, sql_exec_row_layout_too_large, sql_exec_duplicate_key,
  sql_exec_table_not_found, sql_exec_wrong_value_count, sql_exec_schema_invalid_pk,
  sql_exec_insert_validation_failed, sql_exec_row_pack_failed, is_ok, with_layout,
}
use sqlyt.Exec.Create.{is_found, result_of}

-- The largest key so far, if there is one.
pub record LastKey : Type 0 where
  pub max_key : ℕ
  pub has_rows : Bool

-- The key of a row: its own, or the one after the largest.
unfoldable pub row_key : LastKey → InsertRow → ℕ
row_key last row =
    if row.auto_id then (if last.has_rows then (last.max_key + 1) % u32_mod else 1) else row.id

unfoldable pub next_last_key : LastKey → InsertRow → LastKey
unfolding row_key
next_last_key last row = record {
  max_key =
      if row.auto_id || not last.has_rows || ltb last.max_key (row_key last row)
      then row_key last row
      else last.max_key;
  has_rows = true;
}

-- The values with the key that was given out.
unfoldable pub row_values : InsertRow → (key : ℕ) → List Text
row_values row key = if row.auto_id then print_u32 key ∷ other_values row.values else row.values

abbrev pub is_planned : List ℕ → (key : ℕ) → Bool
is_planned [] key = false
is_planned (k ∷ ks) key = k == key || is_planned ks key

unfoldable pub packed_row : Table → InsertRow → (key : ℕ) → Option Page
unfolding row_values
packed_row t row key = pack_insert_row_values (row_values row key) t.schema t.row_layout zero_page

-- The first loop; the keys of the rows before are `planned`.
unfoldable pub validate_rows :
    Table → List InsertRow → (planned : List ℕ) → LastKey → M SqlExecuteResult
unfolding next_last_key packed_row
validate_rows t [] planned last = pure sql_exec_ok
validate_rows t (row ∷ rows) planned last =
    let key = row_key last row in
    if not (length row.values == length t.schema.columns)
    then pure sql_exec_wrong_value_count
    else if not (parse_u32_tokens_for_insert_values (row_values row key) t.schema key)
    then pure sql_exec_insert_validation_failed
    else if not (is_found (packed_row t row key))
    then pure sql_exec_row_pack_failed
    else if is_planned planned key
    then pure sql_exec_duplicate_key
    else do
      taken ← table_has_key t key
      if taken
          then pure sql_exec_duplicate_key
          else validate_rows t rows (key ∷ planned) (next_last_key last row)

unfoldable pub insert_packed : Table → (key : ℕ) → Option Page → M SqlExecuteResult
unfolding result_of
insert_packed t key none = pure sql_exec_row_pack_failed
insert_packed t key (some row_buf) = do r ← insert_row_into_table t key row_buf; pure (result_of r)

-- The second loop.
unfoldable pub insert_rows : Table → List InsertRow → LastKey → M SqlExecuteResult
unfolding insert_packed
insert_rows t [] last = pure sql_exec_ok
insert_rows t (row ∷ rows) last = do
  r ← insert_packed t (row_key last row) (packed_row t row (row_key last row))
  if is_ok r then insert_rows t rows (next_last_key last row) else pure r

unfoldable pub insert_into : List InsertRow → Table → M SqlExecuteResult
unfolding validate_rows insert_rows
insert_into rows t = do
  (max_key, has_rows) ← find_table_max_key t
  checked ← validate_rows t rows [] (record { max_key = max_key; has_rows = has_rows })
  if not (is_ok checked) then pure checked else do
    (last_key, any_rows) ← find_table_max_key t
    insert_rows t rows (record { max_key = last_key; has_rows = any_rows })

-- The first column is the key.
unfoldable pub has_int_key : List Column → Bool
has_int_key [] = false
has_int_key (c ∷ cs) = c.type == column_type_int

unfoldable pub insert_into_found : List InsertRow → Option (SqlSchema × ℕ) → M SqlExecuteResult
unfolding has_int_key insert_into
insert_into_found rows none = pure sql_exec_table_not_found
insert_into_found rows (some (schema, root_page)) =
    if not (has_int_key schema.columns)
    then pure sql_exec_schema_invalid_pk
    else with_layout sql_exec_row_layout_too_large (insert_into rows)
        (table_init_user root_page schema)

unfoldable pub execute_insert : SqlStatement → M SqlExecuteResult
unfolding insert_into_found
execute_insert stmt = do
  found ← master_find_table stmt.table_name
  insert_into_found stmt.rows found
