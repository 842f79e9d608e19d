-- ===== src/Cli/Start.antt =====
-- `cmd_start` of keepty/src/main.rs up to starting the broker: its options, the defaults, and the
-- broker's command line.
pub mod Launch
use keepty.Base.{
  ℕ, ◌≤◌, ◌≡◌, ◌≢◌, refl, ap, ap₂, sym, ◌∙◌, Bool, true, false, not, ◌&&◌, ◌||◌, List, [], ◌∷◌,
  ◌++◌, Option, none, some, ◌==◌, if◌then◌else◌,
}
use keepty.Base.Results.{Result, ok, err}
use keepty.Base.Text.{codes, same_bytes, starts_with, to_string, parse, parse-to_string}
use keepty.Broker.Args.{
  Text, max_u16, Args, ArgsError, usage, is_empty, parse_args, args_loop, complete, set_option,
}

-- The variables that the options set.
pub record Options : Type 0 where
  pub session_id : Option Text
  pub working_dir : Option Text
  pub cols : ℕ
  pub rows : ℕ
  pub command_parts : List Text
  pub detach : Bool

abbrev pub unset : Options
unset = record {
  session_id = none;
  working_dir = none;
  cols = 80;
  rows = 24;
  command_parts = [];
  detach = false;
}

-- An early return: help, with status 0, or a complaint, with status 1.
pub data Stops : Type 0 where
  help : Stops
  unknown_option : Text → Stops
  no_session_id : Stops
  already_running : Stops
  no_executable : Stops

abbrev one_of : Text → Text → Text → Bool
one_of a b arg = same_bytes arg a || same_bytes arg b

abbrev pub number : ℕ → Option Text → ℕ
number default none = default
number default (some value) = elim (parse max_u16 value) [ none ↦ default | some n ↦ n ]

-- The options that take the next argument, if there is one; `none` is another argument.
unfoldable pub take_value : Text → Option Text → Options → Option Options
take_value arg value o =
    if same_bytes arg (codes "--working-dir")
    then some (record o { working_dir = value })
    else if same_bytes arg (codes "--cols")
    then some (record o { cols = number 80 value })
    else if same_bytes arg (codes "--rows")
    then some (record o { rows = number 24 value })
    else none

-- The other arguments before the separator.
unfoldable pub take_flag : Text → Options → Result Stops Options
take_flag arg o =
    if one_of (codes "--detach") (codes "-d") arg
    then ok (record o { detach = true })
    else if one_of (codes "--help") (codes "-h") arg
    then err help
    else if not (starts_with (codes "-") arg)
        && (elim o.session_id [ none ↦ true | some id ↦ false ])
    then ok (record o { session_id = some arg })
    else err (unknown_option arg)

-- The loop over the arguments.
unfoldable pub options_loop : List Text → Options → Result Stops Options
unfolding take_value take_flag
options_loop [] o = ok o
options_loop (arg ∷ []) o =
    if same_bytes arg (codes "--")
    then ok o
    else elim (take_value arg none o) [ some o' ↦ ok o' | none ↦ take_flag arg o ]
options_loop (arg ∷ next ∷ rest) o =
    if same_bytes arg (codes "--")
    then ok (record o { command_parts = o.command_parts ++ (next ∷ rest) })
    else elim (take_value arg (some next) o) [
      | some o' ↦ options_loop rest o'
      | none ↦ elim (take_flag arg o) [ ok o' ↦ options_loop (next ∷ rest) o' | err e ↦ err e ]
    ]

-- What `cmd_start` asks the system for: the shell, whether a session answers, the terminal's size,
-- whether its own executable has a path, and the current directory.
pub record Environment : Type 0 where
  pub shell : Text
  pub is_running : Text → Bool
  pub term_cols : ℕ
  pub term_rows : ℕ
  pub has_exe : Bool
  pub current_dir : Text

-- The terminal's size where the options leave the default.
abbrev pub size_or : ℕ → ℕ → ℕ → ℕ
size_or default chosen terminal =
    if chosen == default && not (terminal == default) then terminal else chosen

abbrev pub command_or : Text → List Text → List Text
command_or shell [] = shell ∷ []
command_or shell (c ∷ cs) = c ∷ cs

abbrev pub dir_or : Text → Option Text → Text
dir_or current none = current
dir_or current (some dir) = dir

-- The arguments that the broker process is given.
unfoldable pub broker_args : Text → ℕ → ℕ → Text → List Text → List Text
broker_args session_id cols rows dir command =
    codes "broker"
    ∷ codes "--session-id"
    ∷ session_id
    ∷ codes "--cols"
    ∷ to_string cols
    ∷ codes "--rows"
    ∷ to_string rows
    ∷ codes "--working-dir"
    ∷ dir
    ∷ codes "--"
    ∷ command

unfoldable pub chosen : Environment → Options → Text → Result Stops (List Text)
unfolding broker_args
chosen env o id =
    if env.is_running id
    then err already_running
    else if not env.has_exe
    then err no_executable
    else ok (
        broker_args id (size_or 80 o.cols env.term_cols) (size_or 24 o.rows env.term_rows)
          (dir_or env.current_dir o.working_dir) (command_or env.shell o.command_parts))

-- `cmd_start` up to `spawn`: the broker's arguments, or an early return.
unfoldable pub start_args : Environment → List Text → Result Stops (List Text)
unfolding options_loop chosen
start_args env args = elim (options_loop args unset) [
  | err e ↦ err e
  | ok o ↦ elim o.session_id [ none ↦ err no_session_id | some id ↦ chosen env o id ]
]
