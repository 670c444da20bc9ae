-- ===== src/Parser/Stored.antt =====
-- Schemas that make_schema_payload writes and split_schema_payload reads.
use mathlib.Core.List.{append_assoc, append-nil}
use sqlyt.Base.{
  ℕ, zero, suc, ◌*◌, ◌≤◌, ◌<◌, ◌≡◌, refl, sym, ap, subst, ◌∙◌, arith, Bool, true, false, not, ◌&&◌,
  some, List, [], ◌∷◌, ◌++◌, ◌==◌, length, drop, take_all, length-append, lt→ltb, ltb_ge, le→leb,
  ==_ne, ==_self,
}
use sqlyt.Table.{column_type_int, column_type_text, Text, Column, SqlSchema}
use sqlyt.Parser.Text.{is_digit, all, span}
use sqlyt.Parser.Number.{print_u32, decimal_digits}
use sqlyt.Parser.Prints.{
  span-append, all_mono, decimal_digits-all, length-decimal_digits, print_u32-nonempty,
  parse_u32-print,
}
use sqlyt.Parser.Payload.{
  bar, column_text, write_columns, make_schema_payload, skip_bars, strtok, parse_column,
  parse_column_parts, columns_of_parts, split_schema_payload,
}

abbrev not_bar : ℕ → Bool
not_bar d = not (d == bar)

-- A text that is one token between bars.
pub record IsWord (w : Text) : Type 0 where
  pub nonempty : 0 < length w
  pub no_bar : all not_bar w ≡ true

-- A column that CREATE TABLE can declare.
pub data IsColumn : Column → Type 0 where
  int_column :
      {name : Text}
      → IsWord name
      → length name ≤ 24
      → IsColumn (record { name = name; type = column_type_int; max = 0 })
  text_column :
      {name : Text} {max : ℕ}
      → IsWord name
      → length name ≤ 24
      → 0 < max
      → max ≤ 64
      → IsColumn (record { name = name; type = column_type_text; max = max })

pub data AllColumns : List Column → Type 0 where
  no_columns : AllColumns []
  one_column : {c : Column} {cs : List Column} → IsColumn c → AllColumns cs → AllColumns (c ∷ cs)

data AllWords : List Text → Type 0 where
  no_words : AllWords []
  one_word : {w : Text} {ws : List Text} → IsWord w → AllWords ws → AllWords (w ∷ ws)

print_u32-IsWord : (v : ℕ) → IsWord (print_u32 v)
unfolding print_u32
print_u32-IsWord v = record {
  nonempty = print_u32-nonempty v;
  no_bar =
      all_mono is_digit not_bar (λ c h. ground arith) (decimal_digits 10 v)
        (decimal_digits-all 10 v);
}

-- The words, each behind a bar.
join : List Text → Text
join [] = []
join (w ∷ ws) = bar ∷ w ++ join ws

skip_bars_word : (c : ℕ) (s : Text) → (c == bar) ≡ false → skip_bars (c ∷ s) ≡ c ∷ s
unfolding skip_bars
skip_bars_word c s h = rw h refl

strtok_word :
    (n c : ℕ) (s t : Text)
    → IsWord (c ∷ s)
    → span not_bar t ≡ ([], t)
    → strtok (suc n) (c ∷ s ++ t) ≡ (c ∷ s) ∷ strtok n (drop 1 t)
unfolding strtok
strtok_word n c s t h e =
    let no_bar : not_bar c && all not_bar s ≡ true = h.no_bar in
    let first : (c == bar) ≡ false = ground arith in
    rw (strtok, skip_bars_word c (s ++ t) first, span-append not_bar (c ∷ s) t h.no_bar e) refl

strtok_empty : (n : ℕ) → strtok n [] ≡ []
unfolding strtok skip_bars
strtok_empty zero = refl
strtok_empty (suc n) = refl

-- strtok_r finds the words again.
strtok-join :
    (n : ℕ) (w : Text) (ws : List Text)
    → IsWord w
    → AllWords ws
    → length ws < n
    → strtok n (w ++ join ws) ≡ w ∷ ws
unfolding join
strtok-join zero w ws hw hs l = absurd (omega arith)
strtok-join (suc n) [] ws hw hs l = absurd (omega (arith, hw.nonempty))
strtok-join (suc n) (c ∷ s) [] hw hs l =
    strtok_word n c s [] hw refl ∙ ap (λ ws. (c ∷ s) ∷ ws) (strtok_empty n)
strtok-join (suc n) (c ∷ s) (v ∷ vs) hw (one_word hv hs) l =
    strtok_word n c s (bar ∷ v ++ join vs) hw refl
    ∙ ap (λ ws. (c ∷ s) ∷ ws) (strtok-join n v vs hv hs (omega arith))

-- The words of the columns, behind the word of their number.
column_words : List Column → List Text
column_words [] = []
column_words (c ∷ cs) = c.name ∷ print_u32 c.type ∷ print_u32 c.max ∷ column_words cs

name_of : {c : Column} → IsColumn c → IsWord c.name
name_of (int_column h l) = h
name_of (text_column h l lo hi) = h

column_words-AllWords : (cs : List Column) → AllColumns cs → AllWords (column_words cs)
unfolding column_words
column_words-AllWords [] h = no_words
column_words-AllWords (c ∷ cs) (one_column h hs) = one_word (name_of h) (
    one_word (print_u32-IsWord c.type)
      (one_word (print_u32-IsWord c.max) (column_words-AllWords cs hs)))

length-column_words : (cs : List Column) → length (column_words cs) ≡ length cs * 3
unfolding column_words
length-column_words [] = refl
length-column_words (c ∷ cs) = omega (arith, length-column_words cs)

parse_column-print :
    (c : Column) → IsColumn c → parse_column c.name (print_u32 c.type) (print_u32 c.max) ≡ some c
unfolding parse_column
parse_column-print c (int_column {name = name} h l) =
    rw (parse_u32-print 1 (omega arith), parse_u32-print 0 (omega arith), take_all 24 name l) refl
parse_column-print c (text_column {name = name} {max = max} h l lo hi) =
    rw
      (
        parse_u32-print 2 (omega arith),
        parse_u32-print max (omega arith),
        ==_ne max 0 (λ e. absurd (omega arith)),
        ltb_ge 64 max hi,
        take_all 24 name l,
      )
      refl

parse_column_parts-words :
    (cs : List Column) → AllColumns cs → parse_column_parts (column_words cs) ≡ some cs
unfolding parse_column_parts column_words
parse_column_parts-words [] h = refl
parse_column_parts-words (c ∷ cs) (one_column h hs) =
    rw (parse_column-print c h, parse_column_parts-words cs hs) refl

columns_of_parts-words :
    (cs : List Column)
    → AllColumns cs
    → length cs ≤ 10
    → columns_of_parts (print_u32 (length cs) ∷ column_words cs) ≡ some cs
unfolding columns_of_parts
columns_of_parts-words cs h l =
    rw
      (
        parse_u32-print (length cs) (omega arith),
        le→leb (length cs) 10 l,
        length-column_words cs,
        ==_self (length cs * 3),
        parse_column_parts-words cs h,
      )
      refl

parts_text :
    (w : Text) (c : Column) (cs : List Column)
    → (w ++ column_text c) ++ join (column_words cs) ≡ w ++ join (column_words (c ∷ cs))
unfolding column_text join column_words
parts_text w c cs = simp append_assoc refl

write_columns-join :
    (size : ℕ) (w : Text) (cs : List Column)
    → length (w ++ join (column_words cs)) < size
    → write_columns size w cs ≡ some (w ++ join (column_words cs))
unfolding write_columns join column_words
write_columns-join size w [] h = ap some (sym (append-nil w))
write_columns-join size w (c ∷ cs) h =
    step ∙ write_columns-join size (w ++ column_text c) cs h' ∙ ap some (parts_text w c cs)
  where
    h' : length ((w ++ column_text c) ++ join (column_words cs)) < size
    h' = subst (λ t. length t < size) (sym (parts_text w c cs)) h

    fits : length (w ++ column_text c) < size
    fits = omega (arith, h', length-append {0} (w ++ column_text c) (join (column_words cs)))

    step : write_columns size w (c ∷ cs) ≡ write_columns size (w ++ column_text c) cs
    step = rw (lt→ltb (length (w ++ column_text c)) size fits) refl

length-print_u32 : (v : ℕ) → length (print_u32 v) ≤ 10
unfolding print_u32
length-print_u32 v = length-decimal_digits 10 v

name_le : {c : Column} → IsColumn c → length c.name ≤ 24
name_le (int_column h l) = l
name_le (text_column h l lo hi) = l

length-join : (cs : List Column) → AllColumns cs → length (join (column_words cs)) ≤ 47 * length cs
unfolding join column_words
length-join [] h = omega arith
length-join (c ∷ cs) (one_column h hs) =
    let rest = join (column_words cs) in
    let maxed = print_u32 c.max ++ rest in
    let typed = print_u32 c.type ++ bar ∷ maxed in
    omega (
      arith,
      length-join cs hs,
      length-append {0} c.name (bar ∷ typed),
      length-append {0} (print_u32 c.type) (bar ∷ maxed),
      length-append {0} (print_u32 c.max) rest,
      length-print_u32 c.type,
      length-print_u32 c.max,
      name_le h,
    )

-- make_schema_payload fits every schema of CREATE TABLE, with ten columns at most, into the buffer of
-- the catalog, and split_schema_payload reads the same columns from that text, which it keeps.
pub split_schema_payload-make :
    (schema : SqlSchema)
    → AllColumns schema.columns
    → length schema.columns ≤ 10
    → (payload : Text) × (make_schema_payload schema 513 ≡ some payload)
      × (split_schema_payload payload
          ≡ some (record { columns = schema.columns; create_sql = payload }))
unfolding make_schema_payload split_schema_payload
split_schema_payload-make schema h l = (payload, made, split)
  where
    cs : List Column
    cs = schema.columns

    payload : Text
    payload = print_u32 (length cs) ++ join (column_words cs)

    short : length payload ≤ 480
    short = omega (
      arith,
      length-append {0} (print_u32 (length cs)) (join (column_words cs)),
      length-print_u32 (length cs),
      length-join cs h,
    )

    made : make_schema_payload schema 513 ≡ some payload
    made =
        rw
          (lt→ltb (length (print_u32 (length cs))) 513
            (omega (arith, length-print_u32 (length cs))))
          (write_columns-join 513 (print_u32 (length cs)) cs (omega (arith, short)))

    split :
        split_schema_payload payload
        ≡ some (record { columns = schema.columns; create_sql = payload })
    split =
        rw
          (
            take_all 512 payload (omega (arith, short)),
            strtok-join 31 (print_u32 (length cs)) (column_words cs) (print_u32-IsWord (length cs))
                (column_words-AllWords cs h) (omega (arith, length-column_words cs)),
            columns_of_parts-words cs h l,
          )
          refl
