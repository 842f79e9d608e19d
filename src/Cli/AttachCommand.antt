-- ===== src/Cli/AttachCommand.antt =====
-- `cmd_attach` of keepty/src/main.rs: its arguments, and the exit code of what they ask for.
mod Tests
use keepty.Base.{
  ℕ, ◌≡◌, refl, ◌∙◌, sym, Bool, true, false, ◌||◌, List, [], ◌∷◌, Option, none, some, if◌then◌else◌,
  if-cases, if-satisfies,
}
use mathlib.Core.Option.{some-ne-none}
use keepty.Base.Results.{Result, ok, err}
use keepty.Base.Text.{codes, same_bytes, starts_with}
use keepty.Broker.Args.{Text}
use keepty.Wire.{IoError}
use keepty.Attach.Session.{Setting, Round, attach_session}

-- What the arguments ask for: help, the usage message or that of an unknown option, or a session.
pub data AttachArgs : Type 0 where
  helps refuses : AttachArgs
  attaches : Text → Bool → AttachArgs

-- The loop over the arguments, and the check for a session behind it.
unfoldable pub attach_loop : List Text → Option Text → Bool → AttachArgs
attach_loop [] none watch_mode = refuses
attach_loop [] (some id) watch_mode = attaches id watch_mode
attach_loop (arg ∷ args) session_id watch_mode =
    let watching = attach_loop args session_id true in
    let named = attach_loop args (some arg) watch_mode in
    if same_bytes arg (codes "--watch") || same_bytes arg (codes "-w")
    then watching
    else if same_bytes arg (codes "--help") || same_bytes arg (codes "-h")
    then helps
    else if starts_with (codes "-") arg
    then refuses
    else named

-- The exit code behind `attach::run`.
unfoldable pub run_attach : Bool → (Text → Setting) → List Round → Text → ℕ
unfolding attach_session
run_attach watch_mode setting rounds id = elim (attach_session watch_mode (setting id) rounds) [
  | ok result ↦ 0
  | err e ↦ 1
]

-- `cmd_attach`, with what the session of each id answers and the rounds of its main loop.
unfoldable pub cmd_attach : List Text → (Text → Setting) → List Round → ℕ
unfolding attach_loop run_attach
cmd_attach args setting rounds = elim (attach_loop args none false) [
  | helps ↦ 0
  | refuses ↦ 1
  | attaches id watch_mode ↦ run_attach watch_mode setting rounds id
]

abbrev IsName : Option Text → Type 0
IsName none = Unit
IsName (some id) = starts_with (codes "-") id ≡ false

abbrev AttachesName : AttachArgs → Type 0
AttachesName helps = Unit
AttachesName refuses = Unit
AttachesName (attaches id watch_mode) = starts_with (codes "-") id ≡ false

-- No option is taken for a session: one whose id begins with a dash cannot be attached to.
attach_loop-AttachesName :
    (args : List Text) (session_id : Option Text) (watch_mode : Bool)
    → IsName session_id
    → AttachesName (attach_loop args session_id watch_mode)
unfolding attach_loop
attach_loop-AttachesName [] none watch_mode h = tt
attach_loop-AttachesName [] (some id) watch_mode h = h
attach_loop-AttachesName (arg ∷ args) session_id watch_mode h =
    if-satisfies AttachesName (same_bytes arg (codes "--watch") || same_bytes arg (codes "-w"))
      (attach_loop args session_id true)
      (if same_bytes arg (codes "--help") || same_bytes arg (codes "-h")
        then helps
        else if starts_with (codes "-") arg
        then refuses
        else attach_loop args (some arg) watch_mode)
      (attach_loop-AttachesName args session_id true h)
      (if-satisfies AttachesName (same_bytes arg (codes "--help") || same_bytes arg (codes "-h"))
        helps
        (if starts_with (codes "-") arg then refuses else attach_loop args (some arg) watch_mode) tt
        (if-cases AttachesName (starts_with (codes "-") arg) refuses
          (attach_loop args (some arg) watch_mode) (λ _. tt)
          (λ name. attach_loop-AttachesName args (some arg) watch_mode name)))
