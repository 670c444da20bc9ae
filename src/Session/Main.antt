-- ===== src/Session/Main.antt =====
-- main of src/app.c: the arguments of the program and the loop over the lines of a script. The lines
-- come without the newline; a `--run` or `--root` without a value behind it is an unknown argument.
use sqlyt.Base.{
  Bool, true, false, not, ◌&&◌, Option, none, some, List, [], ◌∷◌, ◌++◌, ◌==◌, if◌then◌else◌,
}
use sqlyt.Pager.Header.{codes, same_bytes}
use sqlyt.Table.{Text}
use sqlyt.Session.{Session, Outcome, returned, then_do, close_database}
use sqlyt.Session.Meta.{line_done, line_exit, line_failed, process_line}

-- `none` for the root path is DEFAULT_ROOT_PATH.
pub record Arguments : Type 0 where
  pub quiet : Bool
  pub timer_enabled : Bool
  run_path : Option Text
  root_path : Option Text

unfoldable pub starts_with_dash : Text → Bool
starts_with_dash [] = false
starts_with_dash (c ∷ s) = c == 45

unfoldable pub is_default : Option Text → Bool
is_default none = true
is_default (some path) = false

-- A path alone is the root path, if there is none yet; `none` is EXIT_FAILURE.
unfoldable pub path_argument : Text → Arguments → Option Arguments
unfolding starts_with_dash is_default
path_argument arg a =
    if not (starts_with_dash arg) && is_default a.root_path
    then some (record a { root_path = some arg })
    else none

-- The loop over the arguments.
unfoldable pub parse_arguments : List Text → Arguments → Option Arguments
unfolding path_argument
parse_arguments [] a = some a
parse_arguments (arg ∷ []) a =
    if same_bytes arg (codes "--quiet")
    then some (record a { quiet = true })
    else if same_bytes arg (codes "--timer")
    then some (record a { timer_enabled = true })
    else path_argument arg a
parse_arguments (arg ∷ value ∷ rest) a =
    let quiet = parse_arguments (value ∷ rest) (record a { quiet = true }) in
    let timer = parse_arguments (value ∷ rest) (record a { timer_enabled = true }) in
    let run = parse_arguments rest (record a { run_path = some value }) in
    let root = parse_arguments rest (record a { root_path = some value }) in
    if same_bytes arg (codes "--quiet")
    then quiet
    else if same_bytes arg (codes "--timer")
    then timer
    else if same_bytes arg (codes "--run")
    then run
    else if same_bytes arg (codes "--root")
    then root
    else elim (path_argument arg a) [ none ↦ none | some b ↦ parse_arguments (value ∷ rest) b ]

-- The open database is closed; the status is whether the script succeeded.
unfoldable pub finish : (status : Bool) → (out : Text) → Session → Outcome (Bool × Text)
unfolding then_do close_database
finish status out s = then_do (close_database s) (λ u s'. returned (status, out) s')

-- The lines of a script, up to .exit, a line that fails or the end; `out` is printed so far.
unfoldable pub run_script :
    (can_make : Text → Bool)
    → (listing : Text) → List Text
    → (out : Text) → Session
    → Outcome (Bool × Text)
unfolding finish then_do
run_script can_make listing [] out s = finish true out s
run_script can_make listing (line ∷ lines) out s =
    then_do (process_line can_make listing line s) (λ (r, printed) s'. elim r [
      | line_done ↦ run_script can_make listing lines (out ++ printed) s'
      | line_exit ↦ finish true (out ++ printed) s'
      | line_failed ↦ finish false (out ++ printed) s'
    ])
