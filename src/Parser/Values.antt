-- ===== src/Parser/Values.antt =====
-- Rows of values: parse_u32_tokens_for_insert_values, pack_insert_row_values and bounded_text_len of
-- src/parser.c. `values` are the values of one row; those behind them are empty, as memset left
-- them. What the first function prints is left out.
use sqlyt.Base.{
  ℕ, zero, suc, ◌+◌, Bool, true, false, not, ◌&&◌, ◌||◌, Option, none, some, List, [], ◌∷◌, ltb,
  leb, ◌==◌, if◌then◌else◌, length,
}
use sqlyt.Page.{Page, put_u32, memcpy, memset, of_bytes}
use sqlyt.Table.{column_type_int, column_type_text, Text, Column, SqlSchema, Field, RowLayout}
use sqlyt.Parser.Text.{◌>>=◌, ◌>>◌, require}
use sqlyt.Parser.Number.{parse_u32}

abbrev pub first_value : List Text → Text
first_value [] = []
first_value (v ∷ vs) = v

abbrev pub other_values : List Text → List Text
other_values [] = []
other_values (v ∷ vs) = vs

-- Whether a value suits its column; that of the column at index 0 has to be the key.
unfoldable pub value_is_valid : (index key : ℕ) → Column → Text → Bool
value_is_valid index key c v =
    if c.type == column_type_int
    then elim (parse_u32 v) [ none ↦ false | some parsed ↦ not (index == 0) || parsed == key ]
    else not (c.type == column_type_text && ltb c.max (length v))

-- The columns from index `i` on.
unfoldable pub values_are_valid : (i key : ℕ) → List Column → List Text → Bool
values_are_valid i key [] values = true
values_are_valid i key (c ∷ cs) values =
    value_is_valid i key c (first_value values)
    && values_are_valid (i + 1) key cs (other_values values)

unfoldable pub parse_u32_tokens_for_insert_values : List Text → SqlSchema → (key : ℕ) → Bool
parse_u32_tokens_for_insert_values values schema key = values_are_valid 0 key schema.columns values

unfoldable pub pack_value : Column → Field → Text → Page → Option Page
pack_value c f s out =
    if c.type == column_type_int
    then (do v ← parse_u32 s; some (put_u32 out f.offset v))
    else (do require (leb (length s) f.size); some (memcpy out f.offset (of_bytes s) 0 (length s)))

-- The loop over the columns, with their fields in the layout of their schema.
unfoldable pub pack_values : List Column → List Field → List Text → Page → Option Page
pack_values (c ∷ cs) (f ∷ fs) values out = do
  next ← pack_value c f (first_value values) out
  pack_values cs fs (other_values values) next
pack_values cs fs values out = some out

unfoldable pub pack_insert_row_values : List Text → SqlSchema → RowLayout → Page → Option Page
pack_insert_row_values values schema layout out =
    pack_values schema.columns layout.fields values (memset out 0 0 layout.value_size)

-- `n` bytes at most, from offset `k` on.
unfoldable pub text_len_from : Page → (n k : ℕ) → ℕ
text_len_from text zero k = 0
text_len_from text (suc n) k =
    let rest = text_len_from text n (k + 1) in if text k == 0 then 0 else suc rest

unfoldable pub bounded_text_len : Page → (off max_len : ℕ) → ℕ
bounded_text_len text off max_len = text_len_from text max_len off
