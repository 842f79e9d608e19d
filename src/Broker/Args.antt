-- ===== src/Broker/Args.antt =====
-- `parse_args` of keepty/src/broker.rs: the broker's command line, as texts.
use keepty.Base.{
  ℕ, ◌^◌, ◌-◌, Bool, true, false, ◌||◌, List, [], ◌∷◌, ◌++◌, Option, none, some, if◌then◌else◌,
}
use keepty.Base.Results.{Result, ok, err}
use keepty.Base.Text.{codes, same_bytes, parse}

abbrev pub Text : Type 0
Text = List ℕ

abbrev pub max_u16 : ℕ
max_u16 = 2 ^ 16 - 1

-- What `parse_args` returns, and its variables on the way.
pub record Args : Type 0 where
  pub session_id : Text
  pub argv : List Text
  pub working_dir : Option Text
  pub cols : ℕ
  pub rows : ℕ

abbrev pub unset : Args
unset = record { session_id = []; argv = []; working_dir = none; cols = 80; rows = 24 }

pub data ArgsError : Type 0 where
  missing_value : Text → ArgsError
  invalid_number usage : ArgsError

abbrev pub is_empty {ℓ} : {A : Type ℓ} → List A → Bool
is_empty [] = true
is_empty (x ∷ xs) = false

abbrev number : Option ℕ → (ℕ → Args) → Result ArgsError Args
number none set = err invalid_number
number (some n) set = ok (set n)

-- The options that take a value; `none` is another argument.
unfoldable pub set_option : Text → Text → Args → Option (Result ArgsError Args)
set_option option value a =
    if same_bytes option (codes "--session-id")
    then some (ok (record a { session_id = value }))
    else if same_bytes option (codes "--working-dir")
    then some (ok (record a { working_dir = some value }))
    else if same_bytes option (codes "--cols")
    then some (number (parse max_u16 value) (λ n. record a { cols = n }))
    else if same_bytes option (codes "--rows")
    then some (number (parse max_u16 value) (λ n. record a { rows = n }))
    else none

-- The loop over the arguments behind the program's name.
unfoldable pub args_loop : List Text → Args → Result ArgsError Args
unfolding set_option
args_loop [] a = ok a
args_loop (arg ∷ []) a =
    if same_bytes arg (codes "--")
    then ok a
    else elim (set_option arg [] a) [ none ↦ ok a | some r ↦ err (missing_value arg) ]
args_loop (arg ∷ value ∷ rest) a =
    if same_bytes arg (codes "--")
    then ok (record a { argv = a.argv ++ (value ∷ rest) })
    else elim (set_option arg value a) [
      | none ↦ args_loop (value ∷ rest) a
      | some (ok a') ↦ args_loop rest a'
      | some (err e) ↦ err e
    ]

unfoldable pub complete : Result ArgsError Args → Result ArgsError Args
complete (err e) = err e
complete (ok a) = if is_empty a.session_id || is_empty a.argv then err usage else ok a

-- `parse_args` on what `std::env::args` gives.
unfoldable pub parse_args : List Text → Result ArgsError Args
unfolding args_loop complete
parse_args [] = complete (ok unset)
parse_args (program ∷ args) = complete (args_loop args unset)
