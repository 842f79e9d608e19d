-- ===== src/Cli/Agent.antt =====
-- The arguments of `run_agent` of keepty/src/main.rs: `keepty screen`, `send`, `keys` and `wait`.
pub mod Loop
pub mod Checked
pub mod Send
pub mod Typed
pub mod Calls
pub mod KeysCommand
pub mod SendCommand
pub mod Wait
pub mod ShowCommand
mod Tests
use keepty.Base.{
  ℕ, ◌^◌, ◌-◌, Bool, true, false, not, ◌&&◌, ◌||◌, List, [], ◌∷◌, Option, none, some, ltb, ◌==◌,
  if◌then◌else◌,
}
use keepty.Base.Results.{Result, ok, err, ◌>>=◌}
use keepty.Base.Text.{codes, same_bytes, starts_with, parse}
use keepty.Broker.Args.{Text, max_u16, is_empty}
use keepty.Cli.Keys.{named_key}

pub data Command : Type 0 where
  screen send keys wait : Command

-- The variables that the arguments set; `names` are the arguments behind the id of `keepty keys`.
pub record Agent : Type 0 where
  pub id : Text
  pub cols : ℕ
  pub rows : ℕ
  pub submit : Bool
  pub delay : ℕ
  pub timeout : ℕ
  pub text : Option Text
  pub quiet : Option ℕ
  pub history : Option ℕ
  pub new_text : Bool
  pub names : List Text
  pub keys : List (List ℕ)

abbrev pub defaults : Text → Agent
defaults id = record {
  id = id;
  cols = 80;
  rows = 24;
  submit = false;
  delay = 1000;
  timeout = 30;
  text = none;
  quiet = none;
  history = none;
  new_text = false;
  names = [];
  keys = [];
}

pub data AgentError : Type 0 where
  invalid : AgentError
  unknown_key : Text → AgentError

abbrev pub max_u64 : ℕ
max_u64 = 2 ^ 64 - 1

-- The bytes of every name, in the mode without application cursor keys.
unfoldable pub key_bytes : List Text → Result AgentError (List (List ℕ))
key_bytes [] = ok []
key_bytes (name ∷ names) =
    let rest = key_bytes names in
    elim (named_key name false) [
      | none ↦ err (unknown_key name)
      | some key ↦ rest >>= λ keys. ok (key ∷ keys)
    ]

abbrev pub is_none {ℓ} : {A : Type ℓ} → Option A → Bool
is_none none = true
is_none (some a) = false

-- The options that stand alone.
unfoldable pub flag : Command → Text → Agent → Option Agent
flag Command.screen option a =
    if same_bytes option (codes "--scrollback")
    then some (record a { history = some 1000 })
    else none
flag Command.send option a =
    if same_bytes option (codes "--submit") then some (record a { submit = true }) else none
flag Command.keys option a = none
flag Command.wait option a =
    if same_bytes option (codes "--new") then some (record a { new_text = true }) else none

-- Whether the value belongs to a `--scrollback` before it.
abbrev pub counts_lines : Command → Text → Text → Bool
counts_lines Command.screen option value =
    same_bytes option (codes "--scrollback") && not (starts_with (codes "--") value)
counts_lines Command.send option value = false
counts_lines Command.keys option value = false
counts_lines Command.wait option value = false

-- A number with a use for it.
abbrev pub put : Option ℕ → (ℕ → Agent) → Option Agent
put none set = none
put (some n) set = some (set n)

-- `.parse().ok().filter(|n| *n > 0)`
abbrev pub positive : Option ℕ → Option ℕ
positive none = none
positive (some n) = if n == 0 then none else some n

-- The options that take a value; `none` is the error of invalid arguments.
unfoldable pub set_value : Command → Text → Text → Agent → Option Agent
set_value Command.screen option value a =
    if same_bytes option (codes "--cols")
    then put (positive (parse max_u16 value)) (λ n. record a { cols = n })
    else if same_bytes option (codes "--rows")
    then put (positive (parse max_u16 value)) (λ n. record a { rows = n })
    else none
set_value Command.send option value a =
    if same_bytes option (codes "--submit-delay")
    then put (parse max_u64 value) (λ n. record a { delay = n })
    else none
set_value Command.keys option value a = none
set_value Command.wait option value a =
    if same_bytes option (codes "--timeout")
    then put (parse max_u64 value) (λ n. record a { timeout = n })
    else if same_bytes option (codes "--text") && (is_none a.text && is_none a.quiet)
    then some (record a { text = some value })
    else if same_bytes option (codes "--quiet") && (is_none a.text && is_none a.quiet)
    then put (parse max_u64 value) (λ n. record a { quiet = some n })
    else none

-- The loop over the arguments.
unfoldable pub agent_loop : Command → List Text → Agent → Option Agent
unfolding flag set_value
agent_loop c [] a = some a
agent_loop c (option ∷ []) a = flag c option a
agent_loop c (option ∷ value ∷ rest) a =
    if counts_lines c option value
    then (elim (parse max_u64 value) [
      | none ↦ none
      | some n ↦ agent_loop c rest (record a { history = some n })
    ])
    else elim (flag c option a) [
      | some a' ↦ agent_loop c (value ∷ rest) a'
      | none ↦ elim (set_value c option value a) [ some a' ↦ agent_loop c rest a' | none ↦ none ]
    ]

-- The arguments behind the id.
unfoldable pub read_options : Command → Text → List Text → Result AgentError Agent
unfolding agent_loop key_bytes
read_options Command.keys id [] = err invalid
read_options Command.keys id (name ∷ names) = key_bytes (name ∷ names) >>= λ keys.
    ok (record (defaults id) { names = name ∷ names; keys = keys })
read_options Command.send id [] = err invalid
read_options Command.send id (text ∷ rest) =
    elim (agent_loop Command.send rest (record (defaults id) { text = some text })) [
      | none ↦ err invalid
      | some a ↦ ok a
    ]
read_options Command.screen id rest = elim (agent_loop Command.screen rest (defaults id)) [
  | none ↦ err invalid
  | some a ↦ ok a
]
read_options Command.wait id rest = elim (agent_loop Command.wait rest (defaults id)) [
  | none ↦ err invalid
  | some a ↦ ok a
]

abbrev pub is_wait : Command → Bool
is_wait Command.wait = true
is_wait Command.screen = false
is_wait Command.send = false
is_wait Command.keys = false

abbrev pub is_some_empty : Option Text → Bool
is_some_empty none = false
is_some_empty (some t) = is_empty t

abbrev pub is_some_zero : Option ℕ → Bool
is_some_zero none = false
is_some_zero (some n) = n == 0

-- The checks behind the loop.
unfoldable pub checked : Command → Agent → Result AgentError Agent
checked c a =
    if is_wait c && ((is_none a.text && is_none a.quiet) || (a.new_text && is_none a.text))
    then err invalid
    else if ltb a.delay 50 || (is_some_zero a.quiet || (is_wait c && is_some_empty a.text))
    then err invalid
    else ok a

-- `run_agent` up to its first connection: what its arguments ask for, or an error.
unfoldable pub agent_args : Command → List Text → Result AgentError Agent
unfolding read_options checked
agent_args c [] = err invalid
agent_args c (id ∷ args) =
    if starts_with (codes "-") id then err invalid else read_options c id args >>= checked c
