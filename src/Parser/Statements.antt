-- ===== src/Parser/Statements.antt =====
-- The statement parsers of src/parser.c. A line is cut to the size of the buffer it is copied to.
use sqlyt.Base.{
  ℕ, zero, suc, ◌+◌, ◌-◌, Bool, ◌&&◌, Option, none, some, List, [], ◌∷◌, map, leb, ◌==◌,
  if◌then◌else◌, length, take, drop,
}
use sqlyt.Pager.Header.{codes, same_bytes}
use sqlyt.Table.{
  max_table_name_length, max_schema_columns, max_column_name_length, max_cell_text, column_type_int,
  column_type_text, schema_text_max, Text, Column, SqlSchema, empty_schema,
}
use sqlyt.Parser.Text.{
  ◌>>=◌, ◌>>◌, require, is_valid_identifier, same_text_ci, parse_identifier_token_ci,
  consume_keyword_ci,
}
use sqlyt.Parser.Number.{parse_u32}
use sqlyt.Parser.Tokens.{split_tokens_sql, token}
use sqlyt.Parser.Insert.{InsertRow, parse_insert_values_clause}

-- `SqlStatementType`
pub data SqlStatementType : Type 0 where
  sql_stmt_create_database : SqlStatementType
  sql_stmt_create_table : SqlStatementType
  sql_stmt_insert : SqlStatementType
  sql_stmt_select : SqlStatementType
  sql_stmt_delete : SqlStatementType
  sql_stmt_update : SqlStatementType
  sql_stmt_drop_table : SqlStatementType

-- `SqlStatement`; `rows` are the entries below `row_count`.
pub record SqlStatement : Type 0 where
  pub type : SqlStatementType
  pub table_name : Text
  pub id : ℕ
  pub update_column : Text
  pub update_value : Text
  pub rows : List InsertRow
  pub schema : SqlSchema

-- SQL_LINE_BUF
abbrev pub sql_line_buf : ℕ
sql_line_buf = 1024

-- A statement on a table, with the fields that memset has cleared.
abbrev pub statement : SqlStatementType → Text → SqlStatement
statement type name = record {
  type = type;
  table_name = name;
  id = 0;
  update_column = [];
  update_value = [];
  rows = [];
  schema = empty_schema;
}

-- The tokens of a line that is copied to a buffer first.
abbrev pub tokens_of : (buffer max_tokens : ℕ) → Text → List Text
tokens_of buffer max_tokens line = split_tokens_sql max_tokens (take (buffer - 1) line)

abbrev pub word_at : List Text → ℕ → Text → Bool
word_at tokens i word = same_text_ci (token tokens i) word

unfoldable pub column_of : Text → Text → Option Column
column_of name type =
    if same_text_ci type (codes "int")
    then some (record { name = name; type = column_type_int; max = 0 })
    else if same_text_ci type (codes "text")
    then some (record { name = name; type = column_type_text; max = max_cell_text })
    else none

-- The columns that pairs of tokens declare, where `room` more fit; a last token alone is passed over.
unfoldable pub parse_columns : ℕ → List Text → Option (List Column)
parse_columns room [] = some []
parse_columns room (name ∷ []) = some []
parse_columns zero (name ∷ type ∷ rest) = none
parse_columns (suc room) (name ∷ type ∷ rest) = do
  require (is_valid_identifier name max_column_name_length)
  column ← column_of name type
  columns ← parse_columns room rest
  some (column ∷ columns)

abbrev pub id_column : Column
id_column = record { name = codes "id"; type = column_type_int; max = 0 }

unfoldable pub parse_create_table : Text → Option SqlStatement
parse_create_table line = do
  let tokens = tokens_of sql_line_buf 64 line
  require (
      leb 8 (length tokens)
      && word_at tokens 0 (codes "create")
      && word_at tokens 1 (codes "table"))
  require (is_valid_identifier (token tokens 2) max_table_name_length)
  require (word_at tokens 3 (codes "id") && word_at tokens 4 (codes "int"))
  let index = if word_at tokens 5 (codes "primary") && word_at tokens 6 (codes "key") then 7 else 5
  columns ← parse_columns (max_schema_columns - 1) (drop index tokens)
  some (record (statement sql_stmt_create_table (token tokens 2)) {
    schema = record {
      columns = id_column ∷ columns;
      create_sql = take schema_text_max (take (sql_line_buf - 1) line);
    };
  })

unfoldable pub parse_insert_into : Text → Option SqlStatement
parse_insert_into line = do
  p ← consume_keyword_ci line (codes "insert")
  q ← consume_keyword_ci p (codes "into")
  (name, r) ← parse_identifier_token_ci q (max_table_name_length + 1)
  values_start ← consume_keyword_ci r (codes "values")
  rows ← parse_insert_values_clause values_start
  let first : ℕ = elim rows [ [] ↦ 0 | row ∷ rest ↦ InsertRow.id row ]
  some (record (statement sql_stmt_insert name) { id = first; rows = rows })

unfoldable pub parse_create_database : Text → Option SqlStatement
parse_create_database line = do
  let tokens = tokens_of 128 4 line
  require (
      length tokens == 3
      && word_at tokens 0 (codes "create")
      && word_at tokens 1 (codes "database"))
  require (is_valid_identifier (token tokens 2) max_table_name_length)
  some (statement sql_stmt_create_database (token tokens 2))

unfoldable pub parse_select_from : Text → Option SqlStatement
parse_select_from line = do
  let tokens = tokens_of sql_line_buf 16 line
  require (
      length tokens == 4
      && word_at tokens 0 (codes "select")
      && same_bytes (token tokens 1) (codes "*")
      && word_at tokens 2 (codes "from"))
  require (is_valid_identifier (token tokens 3) max_table_name_length)
  some (statement sql_stmt_select (token tokens 3))

-- The loop that turns each `=` into a blank.
unfoldable pub blank_equals : Text → Text
blank_equals s = map (λ c. if c == 61 then 32 else c) s

unfoldable pub parse_delete_from : Text → Option SqlStatement
parse_delete_from line = do
  let tokens = split_tokens_sql 16 (blank_equals (take (sql_line_buf - 1) line))
  require (
      length tokens == 6
      && word_at tokens 0 (codes "delete")
      && word_at tokens 1 (codes "from")
      && word_at tokens 3 (codes "where")
      && word_at tokens 4 (codes "id"))
  require (is_valid_identifier (token tokens 2) max_table_name_length)
  id ← parse_u32 (token tokens 5)
  some (record (statement sql_stmt_delete (token tokens 2)) { id = id })

unfoldable pub parse_update_table : Text → Option SqlStatement
parse_update_table line = do
  let tokens = split_tokens_sql 32 (blank_equals (take (sql_line_buf - 1) line))
  require (
      length tokens == 8
      && word_at tokens 0 (codes "update")
      && word_at tokens 2 (codes "set")
      && word_at tokens 5 (codes "where")
      && word_at tokens 6 (codes "id"))
  require (
      is_valid_identifier (token tokens 1) max_table_name_length
      && is_valid_identifier (token tokens 3) max_column_name_length)
  id ← parse_u32 (token tokens 7)
  some (record (statement sql_stmt_update (token tokens 1)) {
    id = id;
    update_column = token tokens 3;
    update_value = take 255 (token tokens 4);
  })

unfoldable pub parse_drop_table : Text → Option SqlStatement
parse_drop_table line = do
  let tokens = tokens_of sql_line_buf 8 line
  require
      (length tokens == 3 && word_at tokens 0 (codes "drop") && word_at tokens 1 (codes "table"))
  require (is_valid_identifier (token tokens 2) max_table_name_length)
  some (statement sql_stmt_drop_table (token tokens 2))

module _ {A : Type 0} where
  infixr 20 ◌<|>◌
  abbrev pub ◌<|>◌ : Option A → Option A → Option A
  none <|> n = n
  some a <|> n = some a

unfoldable pub parse_sql_statement : Text → Option SqlStatement
parse_sql_statement line =
    parse_create_database line
    <|> parse_create_table line
    <|> parse_insert_into line
    <|> parse_select_from line
    <|> parse_delete_from line
    <|> parse_update_table line
    <|> parse_drop_table line
