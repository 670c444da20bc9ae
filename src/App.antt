-- ===== src/App.antt =====
-- normalize_input_line of src/app.c: the blanks at both ends of a line are cut off.
mod Tests
pub mod Trims
use sqlyt.Base.{
  ℕ, zero, suc, ◌-◌, Bool, false, ◌&&◌, Option, none, some, List, [], ◌∷◌, ltb, if◌then◌else◌,
  length, get_elem?, take, drop,
}
use sqlyt.Table.{Text}
use sqlyt.Parser.Text.{is_blank}

-- The first loop: the number of blanks in front.
unfoldable pub leading_blanks : Text → ℕ
leading_blanks [] = 0
leading_blanks (c ∷ s) = let rest = leading_blanks s in if is_blank c then suc rest else 0

abbrev pub blank_at : Text → ℕ → Bool
blank_at s i = elim (get_elem? s i) [ none ↦ false | some c ↦ is_blank c ]

-- The second loop: `end` goes down while it is behind `start` and the byte before it is blank.
unfoldable pub trim_end : Text → (start end : ℕ) → ℕ
trim_end s start zero = 0
trim_end s start (suc end) =
    let rest = trim_end s start end in
    if ltb start (suc end) && blank_at s end then rest else suc end

-- The bytes of the buffer up to its new end.
unfoldable pub normalize_input_line : Text → Text
unfolding leading_blanks trim_end
normalize_input_line s =
    let start = leading_blanks s in
    let end = trim_end s start (length s) in take (end - start) (drop start s)
