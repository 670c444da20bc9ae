-- ===== src/Parser/Insert.antt =====
-- INSERT in src/parser.c: parse_sql_value_token and parse_insert_values_clause.
use sqlyt.Base.{
  ℕ, zero, suc, Bool, true, false, not, ◌&&◌, ◌||◌, Option, none, some, List, [], ◌∷◌, ltb, ◌==◌,
  if◌then◌else◌, length,
}
use sqlyt.Pager.Header.{codes}
use sqlyt.Table.{max_schema_columns, Text}
use sqlyt.Parser.Text.{◌>>=◌, ◌>>◌, require, is_blank, skip_spaces, same_text_ci}
use sqlyt.Parser.Number.{parse_u32}

-- MAX_INSERT_ROWS
abbrev pub max_insert_rows : ℕ
max_insert_rows = 32

-- One row of `values`, with its entry of `row_ids` and `row_auto_id`.
pub record InsertRow : Type 0 where
  pub values : List Text
  pub id : ℕ
  pub auto_id : Bool

-- The bytes up to the closing quote, where `room` more fit, and what follows it.
unfoldable pub quoted_value : ℕ → Text → Option (Text × Text)
quoted_value room [] = none
quoted_value zero (c ∷ s) = if c == 34 then some ([], s) else none
quoted_value (suc room) (c ∷ s) = elim (c == 34) [
  | true ↦ some ([], s)
  | false ↦ do (w, r) ← quoted_value room s; some (c ∷ w, r)
]

abbrev pub ends_value : ℕ → Bool
ends_value c = c == 44 || c == 41 || c == 59 || is_blank c

-- The bytes up to a comma, a closing parenthesis, a semicolon or a blank, where `room` more fit.
unfoldable pub bare_value : ℕ → Text → Option (Text × Text)
bare_value room [] = some ([], [])
bare_value zero (c ∷ s) = if ends_value c then some ([], c ∷ s) else none
bare_value (suc room) (c ∷ s) = elim (ends_value c) [
  | true ↦ some ([], c ∷ s)
  | false ↦ do (w, r) ← bare_value room s; some (c ∷ w, r)
]

-- `out_size` is 256.
unfoldable pub value_token : Text → Option (Text × Text)
unfolding quoted_value bare_value
value_token [] = bare_value 255 []
value_token (c ∷ s) = elim (c == 34) [ true ↦ quoted_value 255 s | false ↦ bare_value 255 (c ∷ s) ]

unfoldable pub parse_sql_value_token : Text → Option (Text × Text)
parse_sql_value_token p = do
  (out, r) ← value_token (skip_spaces p)
  require (ltb 0 (length out))
  some (out, r)

-- The character at the cursor, if it is `c`, is passed over.
unfoldable pub consume_char : ℕ → Text → Option Text
consume_char c [] = none
consume_char c (d ∷ s) = if d == c then some s else none

-- The values of one row up to its closing parenthesis, at most `n` of them.
unfoldable pub parse_row_values : ℕ → Text → Option (List Text × Text)
parse_row_values zero p = none
parse_row_values (suc n) p = do
  (v, r) ← parse_sql_value_token p
  let q = skip_spaces r
  elim (consume_char 44 q) [
    | some s ↦ do (vs, t) ← parse_row_values n (skip_spaces s); some (v ∷ vs, t)
    | none ↦ do t ← consume_char 41 q; some (v ∷ [], t)
  ]

-- A row is numbered by its first value; `null` asks for a number.
unfoldable pub insert_row : List Text → Option InsertRow
insert_row [] = none
insert_row (v ∷ vs) = elim (same_text_ci v (codes "null")) [
  | true ↦ some (record { values = v ∷ vs; id = 0; auto_id = true })
  | false ↦ do id ← parse_u32 v; some (record { values = v ∷ vs; id = id; auto_id = false })
]

-- The rows, at most `n` of them, and what follows the last one. The loop also ends where the text
-- ends behind a comma.
unfoldable pub parse_rows : ℕ → Text → Option (List InsertRow × Text)
parse_rows n [] = some ([], [])
parse_rows zero (c ∷ p) = none
parse_rows (suc n) (c ∷ p) = do
  s ← consume_char 40 (c ∷ p)
  (values, r) ← parse_row_values max_schema_columns (skip_spaces s)
  row ← insert_row values
  let q = skip_spaces r
  elim (consume_char 44 q) [
    | some t ↦ do (rows, u) ← parse_rows n (skip_spaces t); some (row ∷ rows, u)
    | none ↦ some (row ∷ [], q)
  ]

-- What is left behind an optional semicolon.
unfoldable pub skip_semicolon : Text → Text
skip_semicolon p = elim (consume_char 59 p) [ none ↦ p | some s ↦ skip_spaces s ]

unfoldable pub parse_insert_values_clause : Text → Option (List InsertRow)
parse_insert_values_clause values_start = do
  (rows, p) ← parse_rows max_insert_rows (skip_spaces values_start)
  require (length (skip_semicolon (skip_spaces p)) == 0 && not (length rows == 0))
  some rows
