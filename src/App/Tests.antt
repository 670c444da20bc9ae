-- ===== src/App/Tests.antt =====
-- A line with blanks around it.
use sqlyt.Base.{◌≡◌, refl, [], ◌∷◌}
use sqlyt.Table.{Text}
use sqlyt.App.{leading_blanks, trim_end, normalize_input_line}
use sqlyt.App.Trims.{Trims, normalize_input_line-Trims}

-- Two blanks, `.e`, a blank and a line feed.
abbrev exit_line : Text
exit_line = 32 ∷ 32 ∷ 46 ∷ 101 ∷ 32 ∷ 10 ∷ []

exit_line_kept : normalize_input_line exit_line ≡ 46 ∷ 101 ∷ []
unfolding normalize_input_line leading_blanks trim_end
exit_line_kept = refl

normalize_input_line-Trims_example : Trims exit_line (normalize_input_line exit_line)
normalize_input_line-Trims_example = normalize_input_line-Trims exit_line
