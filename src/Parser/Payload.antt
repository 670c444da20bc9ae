-- ===== src/Parser/Payload.antt =====
-- The text in which the catalog keeps a schema: make_schema_payload and split_schema_payload of
-- src/parser.c, with strtok_r.
use sqlyt.Base.{
  ℕ, zero, suc, ◌+◌, ◌*◌, not, ◌&&◌, ◌||◌, Option, none, some, List, [], ◌∷◌, ◌++◌, ltb, leb, ◌==◌,
  if◌then◌else◌, length, take, drop,
}
use sqlyt.Table.{
  max_schema_columns, max_column_name_length, max_cell_text, column_type_int, column_type_text,
  schema_text_max, Text, Column, SqlSchema,
}
use sqlyt.Parser.Text.{◌>>=◌, ◌>>◌, require, span}
use sqlyt.Parser.Number.{parse_u32, print_u32}

-- `'|'`
abbrev pub bar : ℕ
bar = 124

unfoldable pub column_text : Column → Text
column_text c = bar ∷ c.name ++ bar ∷ print_u32 c.type ++ bar ∷ print_u32 c.max

-- The loop of make_schema_payload, with `written` in the buffer.
unfoldable pub write_columns : (out_size : ℕ) → (written : Text) → List Column → Option Text
write_columns out_size written [] = some written
write_columns out_size written (c ∷ cs) = do
  require (ltb (length (written ++ column_text c)) out_size)
  write_columns out_size (written ++ column_text c) cs

unfoldable pub make_schema_payload : SqlSchema → (out_size : ℕ) → Option Text
make_schema_payload schema out_size = do
  let count = print_u32 (length schema.columns)
  require (ltb (length count) out_size)
  write_columns out_size count schema.columns

unfoldable pub skip_bars : Text → Text
skip_bars [] = []
skip_bars (c ∷ s) = if c == bar then skip_bars s else c ∷ s

-- The first `n` tokens of `strtok_r(s, "|", ...)`.
unfoldable pub strtok : ℕ → Text → List Text
unfolding skip_bars
strtok zero s = []
strtok (suc n) s = elim (skip_bars s) [
  | [] ↦ []
  | c ∷ r ↦ let (w, rest) = span (λ d. not (d == bar)) (c ∷ r) in w ∷ strtok n (drop 1 rest)
]

-- One column from its three parts.
unfoldable pub parse_column : (name type max : Text) → Option Column
parse_column name type max = do
  parsed_type ← parse_u32 type
  parsed_max ← parse_u32 max
  require (parsed_type == column_type_int || parsed_type == column_type_text)
  let column_max = if parsed_type == column_type_int then 0 else parsed_max
  require
      (not (parsed_type == column_type_text && (column_max == 0 || ltb max_cell_text column_max)))
  some (record { name = take max_column_name_length name; type = parsed_type; max = column_max })

unfoldable pub parse_column_parts : List Text → Option (List Column)
parse_column_parts (name ∷ type ∷ max ∷ parts) = do
  column ← parse_column name type max
  columns ← parse_column_parts parts
  some (column ∷ columns)
parse_column_parts parts = some []

unfoldable pub columns_of_parts : List Text → Option (List Column)
columns_of_parts [] = none
columns_of_parts (count ∷ parts) = do
  column_count ← parse_u32 count
  require (leb column_count max_schema_columns)
  require (length parts == column_count * 3)
  parse_column_parts parts

unfoldable pub split_schema_payload : Text → Option SqlSchema
split_schema_payload payload = do
  let temp = take schema_text_max payload
  columns ← columns_of_parts (strtok (1 + max_schema_columns * 3) temp)
  some (record { columns = columns; create_sql = take schema_text_max payload })
