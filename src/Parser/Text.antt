-- ===== src/Parser/Text.antt =====
-- Characters and words of src/parser.c: is_valid_identifier, skip_spaces, parse_identifier_token_ci
-- and consume_keyword_ci, with strcasecmp and strncasecmp in the C locale.
use sqlyt.Base.{
  ℕ, zero, suc, ◌+◌, ◌-◌, Bool, true, false, not, ◌&&◌, ◌||◌, Option, none, some, [], ◌∷◌, map, ltb,
  leb, ◌==◌, if◌then◌else◌, length, take, drop,
}
use sqlyt.Pager.Header.{same_bytes}
use sqlyt.Table.{Text}

module _ {A B : Type 0} where
  infixl 5 ◌>>=◌ ◌>>◌
  abbrev pub ◌>>=◌ : Option A → (A → Option B) → Option B
  none >>= k = none
  some a >>= k = k a

  abbrev pub ◌>>◌ : Option A → Option B → Option B
  m >> n = m >>= λ _. n

abbrev pub require : Bool → Option (Unit {0})
require true = some tt
require false = none

abbrev pub between : ℕ → ℕ → ℕ → Bool
between lo hi c = leb lo c && leb c hi

-- `' '`, `'\t'`, `'\n'` and `'\r'`
abbrev pub is_blank : ℕ → Bool
is_blank c = c == 32 || c == 9 || c == 10 || c == 13

abbrev pub is_letter : ℕ → Bool
is_letter c = between 97 122 c || between 65 90 c

abbrev pub is_digit : ℕ → Bool
is_digit c = between 48 57 c

abbrev pub is_identifier_char : ℕ → Bool
is_identifier_char c = is_letter c || is_digit c || c == 95

abbrev pub all : (ℕ → Bool) → Text → Bool
all f [] = true
all f (c ∷ s) = f c && all f s

-- The bytes before the first one that fails the test, and the rest.
abbrev pub span : (ℕ → Bool) → Text → Text × Text
span f [] = ([], [])
span f (c ∷ s) = let (w, r) = span f s in if f c then (c ∷ w, r) else ([], c ∷ s)

unfoldable pub is_valid_identifier : Text → ℕ → Bool
is_valid_identifier name max_len =
    not (length name == 0 || ltb max_len (length name)) && all is_identifier_char name

unfoldable pub skip_spaces : Text → Text
skip_spaces [] = []
skip_spaces (c ∷ s) = if is_blank c then skip_spaces s else c ∷ s

abbrev pub to_lower : ℕ → ℕ
to_lower c = if between 65 90 c then c + 32 else c

-- `strcasecmp(a, b) == 0`
unfoldable pub same_text_ci : Text → Text → Bool
same_text_ci a b = same_bytes (map to_lower a) (map to_lower b)

-- The loop of parse_identifier_token_ci, with `room` more bytes to take.
unfoldable pub identifier_prefix : ℕ → Text → Text × Text
identifier_prefix zero s = ([], s)
identifier_prefix (suc room) [] = ([], [])
identifier_prefix (suc room) (c ∷ s) =
    let (w, r) = identifier_prefix room s in
    if is_identifier_char c then (c ∷ w, r) else ([], c ∷ s)

abbrev pub starts_identifier : Text → Bool
starts_identifier [] = false
starts_identifier (c ∷ s) = is_letter c || c == 95

-- The identifier, and what follows it.
unfoldable pub parse_identifier_token_ci : Text → ℕ → Option (Text × Text)
parse_identifier_token_ci p out_size = do
  let s = skip_spaces p
  require (starts_identifier s)
  let (out, r) = identifier_prefix (out_size - 1) s
  require (is_valid_identifier out (out_size - 1))
  some (out, r)

abbrev pub ends_keyword : Text → Bool
ends_keyword [] = true
ends_keyword (c ∷ s) = not (is_identifier_char c)

-- What follows the keyword.
unfoldable pub consume_keyword_ci : Text → (keyword : Text) → Option Text
consume_keyword_ci p keyword = do
  let s = skip_spaces p
  let klen = length keyword
  require (same_text_ci (take klen s) keyword && ends_keyword (drop klen s))
  some (drop klen s)
