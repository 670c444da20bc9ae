-- ===== src/Parser/Number.antt =====
-- Decimal numbers: parse_u32 of src/parser.c over strtoul, and the `%u` that make_schema_payload
-- prints with. `unsigned long` has 64 bits.
use sqlyt.Base.{
  ℕ, zero, suc, ◌+◌, ◌-◌, ◌*◌, ◌/◌, ◌%◌, Bool, true, false, ◌||◌, Option, some, [], ◌∷◌, ◌++◌, ltb,
  leb, ◌==◌, if◌then◌else◌, length,
}
use sqlyt.Page.{u32_max}
use sqlyt.Table.{Text}
use sqlyt.Parser.Text.{◌>>=◌, ◌>>◌, require, is_blank, is_digit, span}

abbrev pub u64_mod : ℕ
u64_mod = 0x1_0000_0000_0000_0000

-- isspace: the blanks, and `'\v'` and `'\f'`.
unfoldable pub skip_white : Text → Text
skip_white [] = []
skip_white (c ∷ s) = if is_blank c || c == 11 || c == 12 then skip_white s else c ∷ s

-- Whether there is a minus sign, and what follows the sign.
unfoldable pub sign : Text → Bool × Text
sign [] = (false, [])
sign (c ∷ s) = if c == 45 then (true, s) else if c == 43 then (false, s) else (false, c ∷ s)

unfoldable pub decimal_value : ℕ → Text → ℕ
decimal_value acc [] = acc
decimal_value acc (c ∷ s) = decimal_value (acc * 10 + (c - 48)) s

-- `strtoul(text, &endptr, 10)`: the value and the text at endptr, or none where endptr is the text.
unfoldable pub strtoul : Text → Option (ℕ × Text)
strtoul text = do
  let (negative, s) = sign (skip_white text)
  let (digits, end) = span is_digit s
  require (ltb 0 (length digits))
  let m = decimal_value 0 digits
  some (if leb u64_mod m then u64_mod - 1 else if negative then (u64_mod - m) % u64_mod else m, end)

unfoldable pub parse_u32 : Text → Option ℕ
parse_u32 text = do
  (parsed, end) ← strtoul text
  require (length end == 0)
  require (leb parsed u32_max)
  some parsed

-- The digits of `v`, at most `n` of them.
unfoldable pub decimal_digits : ℕ → ℕ → Text
decimal_digits zero v = []
decimal_digits (suc n) v =
    let front = decimal_digits n (v / 10) in
    if ltb v 10 then (v + 48) ∷ [] else front ++ ((v % 10 + 48) ∷ [])

-- `%u`: a 32-bit number has ten digits at most.
unfoldable pub print_u32 : ℕ → Text
print_u32 v = decimal_digits 10 v
