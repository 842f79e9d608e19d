-- ===== src/Cli/Agent/ShowCommand.antt =====
-- `keepty screen` of keepty/src/main.rs behind its connection, up to what it prints; and the exit codes of the
-- agent's commands.
use keepty.Base.{ℕ, refl, subst, sym, Bool, true, false, List, Option, none, some, if◌then◌else◌}
use keepty.Base.Results.{Result, ok, err}
use keepty.Wire.{IoError, ErrorKind}
use keepty.Cli.Agent.{Agent}
use keepty.Screen.{Parser, ReadEvent, ScreenReader, Returns, Polled, is_aborted, poll}
use keepty.Screen.Poll.{Returning, poll-Ends}
use keepty.Screen.Sync.{sync, sync-Told}

-- `map(|_| ())`
abbrev pub replay_result : Result IoError ℕ → Result IoError (Unit {0})
replay_result (ok n) = ok tt
replay_result (err e) = err e

-- What `keepty screen` returns behind the replay.
abbrev pub shown_code : Result IoError (Unit {0}) → Result IoError ℕ
shown_code (ok u) = ok 0
shown_code (err e) = if is_aborted e.kind then ok 3 else err e

-- `cmd_agent`
abbrev pub is_invalid_input : ErrorKind → Bool
is_invalid_input ErrorKind.invalid_input = true
is_invalid_input _ = false

abbrev pub agent_exit_code : Result IoError ℕ → ℕ
agent_exit_code (ok code) = code
agent_exit_code (err e) = if is_invalid_input e.kind then 2 else 1

module _ {S : Type 0} where
  abbrev polled_once : Option (Polled S) → Option (Returns S Unit)
  polled_once none = none
  polled_once (some q) = some (replay_result q.result, q.reader)

  abbrev coded : Option (Returns S Unit) → Option (Returns S ℕ)
  coded none = none
  coded (some (result, r)) = some (shown_code result, r)

  -- With `--scrollback` the replay is waited for with `sync`, else for 20 ms with `poll`.
  unfoldable pub screen_command :
      Parser S
      → Agent
      → List (List ReadEvent)
      → List ReadEvent
      → ScreenReader S
      → Option (Returns S ℕ)
  screen_command p a first events r = elim a.history [
    | some lines ↦ coded (sync p first r)
    | none ↦ coded (polled_once (poll p true events r))
  ]

  -- `keepty screen` returns, whatever is read.
  screen_command-Returning :
      (p : Parser S) (a : Agent) (first : List (List ReadEvent)) (events : List ReadEvent)
      (r : ScreenReader S)
      → Returning (λ (w : Returns S ℕ). Unit {0}) (screen_command p a first events r)
  unfolding screen_command
  screen_command-Returning p a first events r = by_history a.history
    where
      by_history :
          (h : Option ℕ)
          → Returning
              (λ (w : Returns S ℕ). Unit {0})
              (elim h as (λ x. Option (Returns S ℕ)) [
                | some lines ↦ coded (sync p first r)
                | none ↦ coded (polled_once (poll p true events r))
              ])
      by_history (some lines) =
          let (w, same, told) = sync-Told p first r in
          subst (λ o. Returning (λ (w : Returns S ℕ). Unit {0}) (coded o)) (sym same) (_, refl, tt)
      by_history none =
          let (q, ended) = poll-Ends p true events r in
          subst (λ o. Returning (λ (w : Returns S ℕ). Unit {0}) (coded (polled_once o))) (sym ended)
            (_, refl, tt)
