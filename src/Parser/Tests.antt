-- ===== src/Parser/Tests.antt =====
-- Lines that are parsed, and the schema of a small table stored and read.
use sqlyt.Base.{◌≡◌, refl, arith, true, false, some, [], ◌∷◌}
use sqlyt.Pager.Header.{codes, same_bytes}
use sqlyt.Table.{Text, Column, SqlSchema}
use sqlyt.Parser.Number.{parse_u32, print_u32, decimal_value, sign, skip_white, strtoul}
use sqlyt.Parser.Prints.{parse_u32-print}
use sqlyt.Parser.Insert.{
  parse_insert_values_clause, consume_char, insert_row, parse_row_values, parse_rows,
  parse_sql_value_token, skip_semicolon, value_token,
}
use sqlyt.Parser.Statements.{
  statement, sql_stmt_update, parse_sql_statement, parse_create_table, id_column, blank_equals,
  parse_create_database, parse_delete_from, parse_insert_into, parse_select_from,
  parse_update_table,
}
use sqlyt.Parser.Tokens.{next_token, skip_separators, split_tokens_sql, token}
use sqlyt.Parser.Text.{consume_keyword_ci, is_valid_identifier, same_text_ci, skip_spaces}
use sqlyt.Parser.Payload.{make_schema_payload, split_schema_payload}
use sqlyt.Parser.Created.{Accepts, AreColumns, parse_create_table-AreColumns}
use sqlyt.Parser.Stored.{int_column, text_column, no_columns, one_column, split_schema_payload-make}

parse_u32-print_example : parse_u32 (print_u32 4294967295) ≡ some 4294967295
parse_u32-print_example = parse_u32-print 4294967295 (omega arith)

abbrev name_column : Column
name_column = record { name = codes "name"; type = 2; max = 64 }

abbrev user_schema : SqlSchema
user_schema = record { columns = id_column ∷ name_column ∷ []; create_sql = [] }

split_schema_payload-make_example :
    (payload : Text) × (make_schema_payload user_schema 513 ≡ some payload)
    × (split_schema_payload payload
        ≡ some (record { columns = user_schema.columns; create_sql = payload }))
split_schema_payload-make_example =
    split_schema_payload-make user_schema
      (one_column (int_column (record { nonempty = omega arith; no_bar = refl }) (omega arith)) (
        one_column
          (text_column (record { nonempty = omega arith; no_bar = refl }) (omega arith)
            (omega arith) (omega arith))
          no_columns))
      (omega arith)

-- The quoted value loses its equals sign.
update_line :
    parse_sql_statement (codes "update t set name = \"a=b\" where id = 1")
    ≡ some (record (statement sql_stmt_update (codes "t")) {
      id = 1;
      update_column = codes "name";
      update_value = codes "a b";
    })
unfolding parse_sql_statement parse_create_database split_tokens_sql parse_create_table same_text_ci
    same_bytes token parse_insert_into consume_keyword_ci skip_spaces parse_select_from
    parse_delete_from blank_equals parse_update_table is_valid_identifier parse_u32 strtoul sign
    skip_white decimal_value next_token skip_separators
update_line = refl

insert_values :
    parse_insert_values_clause (codes " (1, \"a b\"), (null, c);")
    ≡ some (
        record { values = codes "1" ∷ codes "a b" ∷ []; id = 1; auto_id = false }
        ∷ record { values = codes "null" ∷ codes "c" ∷ []; id = 0; auto_id = true }
        ∷ [])
unfolding parse_insert_values_clause parse_rows skip_spaces consume_char parse_row_values
    parse_sql_value_token value_token insert_row same_text_ci same_bytes parse_u32 strtoul sign
    skip_white decimal_value skip_semicolon
insert_values = refl

abbrev create_line : Text
create_line = codes "CREATE TABLE user (id INT PRIMARY KEY, name TEXT)"

parse_create_table-AreColumns_example :
    Accepts (λ st. AreColumns 10 st.schema.columns) (parse_create_table create_line)
parse_create_table-AreColumns_example = parse_create_table-AreColumns create_line
