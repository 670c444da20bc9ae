-- ===== src/Parser/Created.antt =====
-- The schemas that parse_create_table accepts are those that the catalog can keep.
use sqlyt.Base.{
  ℕ, zero, suc, ◌≤◌, ◌≡◌, refl, arith, Bool, true, false, ◌&&◌, Option, none, some, List, [], ◌∷◌,
  leb, if◌then◌else◌, length, Bool-cases, inl, inr, drop,
}
use sqlyt.Pager.Header.{codes}
use sqlyt.Table.{Text, Column}
use sqlyt.Parser.Text.{◌>>=◌, require, is_valid_identifier, is_identifier_char, same_text_ci, all}
use sqlyt.Parser.Prints.{all_mono}
use sqlyt.Parser.Stored.{
  IsWord, IsColumn, int_column, text_column, AllColumns, no_columns, one_column,
}
use sqlyt.Parser.Tokens.{token}
use sqlyt.Parser.Statements.{
  tokens_of, sql_line_buf, word_at, id_column, column_of, parse_columns, parse_create_table,
}

identifier-IsWord :
    (name : Text) (m : ℕ) → is_valid_identifier name m ≡ true → IsWord name × (length name ≤ m)
unfolding is_valid_identifier
identifier-IsWord name m h = elim (Bool-cases (all is_identifier_char name)) [
  | inl e ↦ (
    record {
      nonempty = ground arith;
      no_bar = all_mono is_identifier_char _ (λ c hc. ground arith) name e;
    },
    ground arith,
  )
  | inr e ↦ absurd (ground arith)
]

-- The result of a parser, where it accepts its input, satisfies a predicate.
pub data Accepts {A : Type 0} (P : A → Type 0) : Option A → Type 0 where
  rejects : Accepts P none
  accepts : {a : A} → P a → Accepts P (some a)

module _ {A : Type 0} {P : A → Type 0} where
  Accepts-bind :
      {B : Type 0} {Q : B → Type 0} {m : Option A} {k : A → Option B}
      → Accepts P m
      → ((a : A) → P a → Accepts Q (k a))
      → Accepts Q (m >>= k)
  Accepts-bind rejects next = rejects
  Accepts-bind (accepts p) next = next _ p

require-Accepts : (b : Bool) → Accepts (λ _. b ≡ true) (require b)
require-Accepts true = accepts refl
require-Accepts false = rejects

column_of-IsColumn :
    (name type : Text) → IsWord name → length name ≤ 24 → Accepts IsColumn (column_of name type)
unfolding column_of
column_of-IsColumn name type w le = elim (Bool-cases (same_text_ci type (codes "int"))) [
  | inl e ↦ rw e (accepts (int_column w le))
  | inr e ↦ rw e (elim (Bool-cases (same_text_ci type (codes "text"))) [
    | inl f ↦ rw f (accepts (text_column w le (omega arith) (omega arith)))
    | inr f ↦ rw f rejects
  ])
]

-- Columns of a schema, `room` of them at most.
pub record AreColumns (room : ℕ) (cs : List Column) : Type 0 where
  pub columns : AllColumns cs
  pub few : length cs ≤ room

parse_columns-AreColumns :
    (room : ℕ) (tokens : List Text) → Accepts (AreColumns room) (parse_columns room tokens)
unfolding parse_columns
parse_columns-AreColumns zero [] = accepts (record { columns = no_columns; few = omega arith })
parse_columns-AreColumns (suc room) [] =
    accepts (record { columns = no_columns; few = omega arith })
parse_columns-AreColumns zero (name ∷ []) =
    accepts (record { columns = no_columns; few = omega arith })
parse_columns-AreColumns (suc room) (name ∷ []) =
    accepts (record { columns = no_columns; few = omega arith })
parse_columns-AreColumns zero (name ∷ type ∷ rest) = rejects
parse_columns-AreColumns (suc room) (name ∷ type ∷ rest) =
    Accepts-bind (require-Accepts (is_valid_identifier name 24)) (λ _ valid.
      let (w, le) = identifier-IsWord name 24 valid in
      Accepts-bind (column_of-IsColumn name type w le) (λ c hc.
        Accepts-bind (parse_columns-AreColumns room rest) (λ cs hcs.
          accepts (record { columns = one_column hc hcs.columns; few = omega (arith, hcs.few) }))))

id_column-IsColumn : IsColumn id_column
id_column-IsColumn =
    int_column {name = codes "id"} (record { nonempty = omega arith; no_bar = refl }) (omega arith)

-- A schema that parse_create_table accepts has ten columns at most, each of which the catalog can
-- keep: a name without bars of 24 bytes at most, and a number or a text of 1 to 64 bytes.
pub parse_create_table-AreColumns :
    (line : Text) → Accepts (λ st. AreColumns 10 st.schema.columns) (parse_create_table line)
unfolding parse_create_table
parse_create_table-AreColumns line =
    Accepts-bind
      (require-Accepts (
        leb 8 (length tokens)
        && word_at tokens 0 (codes "create")
        && word_at tokens 1 (codes "table")))
      (λ _ _. Accepts-bind (require-Accepts (is_valid_identifier (token tokens 2) 28)) (λ _ _.
        Accepts-bind
          (require-Accepts (word_at tokens 3 (codes "id") && word_at tokens 4 (codes "int")))
          (λ _ _. Accepts-bind (parse_columns-AreColumns 9 (drop index tokens)) (λ cs hcs.
            accepts (record {
              columns = one_column id_column-IsColumn hcs.columns;
              few = omega (arith, hcs.few);
            })))))
  where
    tokens : List Text
    tokens = tokens_of sql_line_buf 64 line

    index : ℕ
    index = if word_at tokens 5 (codes "primary") && word_at tokens 6 (codes "key") then 7 else 5
