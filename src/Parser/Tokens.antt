-- ===== src/Parser/Tokens.antt =====
-- split_tokens_sql of src/parser.c: words between separators, and quoted words.
use sqlyt.Base.{
  ℕ, zero, suc, Bool, not, ◌||◌, List, [], ◌∷◌, ◌==◌, if◌then◌else◌, drop, get_elem?, none, some,
}
use sqlyt.Table.{Text}
use sqlyt.Parser.Text.{is_blank, span}

abbrev pub is_separator : ℕ → Bool
is_separator c = is_blank c || c == 40 || c == 41 || c == 44 || c == 59

unfoldable pub skip_separators : Text → Text
skip_separators [] = []
skip_separators (c ∷ s) = if is_separator c then skip_separators s else c ∷ s

-- The token that begins at `c ∷ s`, and what follows the byte that ends it.
unfoldable pub next_token : ℕ → Text → Text × Text
next_token c s =
    if c == 34
    then (let (w, r) = span (λ d. not (d == 34)) s in (w, drop 1 r))
    else (let (w, r) = span (λ d. not (is_separator d)) (c ∷ s) in (w, drop 1 r))

-- At most `n` tokens.
unfoldable pub split_tokens_sql : ℕ → Text → List Text
unfolding skip_separators next_token
split_tokens_sql zero p = []
split_tokens_sql (suc n) p = elim (skip_separators p) [
  | [] ↦ []
  | c ∷ s ↦ let (w, r) = next_token c s in w ∷ split_tokens_sql n r
]

-- `tokens[i]`, which is only read below their number.
unfoldable pub token : List Text → ℕ → Text
token tokens i = elim (get_elem? tokens i) [ none ↦ [] | some w ↦ w ]
