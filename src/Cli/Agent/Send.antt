-- ===== src/Cli/Agent/Send.antt =====
-- `keepty send` and `keepty keys` of keepty/src/main.rs behind their connection: the last part of
-- `run_agent` for these two commands.
use keepty.Base.{ℕ, Bool, true, false, List, [], ◌∷◌, ◌++◌, Option, none, some, if◌then◌else◌}
use keepty.Base.Results.{Result, ok, err}
use keepty.Base.Text.{codes}
use keepty.Wire.{IoError, ErrorKind}
use keepty.Broker.Args.{Text}
use keepty.Cli.Keys.{named_key}
use keepty.Cli.Agent.{Agent}
use keepty.Screen.{Parser, ReadEvent, ScreenReader, Returns, poll, send_keys}
use keepty.Screen.Sync.{sync}

-- What is asked of the vt100 crate's screen.
pub record ScreenModes (S : Type 0) : Type 0 where
  pub bracketed_paste : S → Bool
  pub application_cursor : S → Bool

-- The errors behind which the session is gone.
abbrev pub is_gone : ErrorKind → Bool
is_gone ErrorKind.connection_reset = true
is_gone ErrorKind.connection_aborted = true
is_gone ErrorKind.broken_pipe = true
is_gone _ = false

-- The exit code of the last `sync`.
abbrev pub exit_code : Result IoError (Unit {0}) → Result IoError ℕ
exit_code (ok u) = ok 0
exit_code (err e) = if is_gone e.kind then ok 3 else err e

-- The text, as a paste where the screen wants one.
abbrev pub paste : Bool → Text → List ℕ
paste true text = (0x1b ∷ codes "[200~") ++ text ++ (0x1b ∷ codes "[201~")
paste false text = text

module _ {S : Type 0} where
  -- `?` on a call, and what follows it; `none` is a panic.
  abbrev pub and_then :
      {A B : Type 0}
      → Option (Returns S A)
      → (ScreenReader S → Option (Returns S B))
      → Option (Returns S B)
  and_then none next = none
  and_then (some (err e, r)) next = some (err e, r)
  and_then (some (ok a, r)) next = next r

  abbrev pub with_exit_code : Option (Returns S Unit) → Option (Returns S ℕ)
  with_exit_code none = none
  with_exit_code (some (result, r)) = some (exit_code result, r)

  -- The bytes of a key in the mode that the screen is in; `none` is a panic of `unwrap`.
  abbrev pub key_in_mode : ScreenModes S → ScreenReader S → Text → List ℕ → Option (List ℕ)
  key_in_mode m r name key = if m.application_cursor r.parser then named_key name true else some key

  -- The loop of `keepty keys`.
  unfoldable pub send_named :
      ScreenModes S → List Text → List (List ℕ) → ScreenReader S → Option (Returns S Unit)
  send_named m [] keys r = some (ok tt, r)
  send_named m (name ∷ names) [] r = some (ok tt, r)
  send_named m (name ∷ names) (key ∷ keys) r = elim (key_in_mode m r name key) [
    | none ↦ none
    | some bytes ↦ and_then (some (send_keys bytes r)) (send_named m names keys)
  ]

  -- `keepty keys`, with what the reads of its first and last `sync` answer.
  unfoldable pub keys_command :
      Parser S
      → ScreenModes S
      → Agent
      → List (List ReadEvent)
      → List (List ReadEvent)
      → ScreenReader S
      → Option (Returns S ℕ)
  unfolding send_named
  keys_command p m a first last r =
      and_then (sync p first r)
        (λ r'. and_then (send_named m a.names a.keys r') (λ r''. with_exit_code (sync p last r'')))

  -- The polls while the delay lasts, each with whether time is left when it is called, which is later
  -- than the test of the loop.
  unfoldable pub wait_polls :
      Parser S → List (Bool × List ReadEvent) → ScreenReader S → Option (Returns S Unit)
  wait_polls p [] r = some (ok tt, r)
  wait_polls p ((has_time, events) ∷ rounds) r = elim (poll p has_time events r) [
    | none ↦ none
    | some q ↦ elim q.result [
      | err e ↦ some (err e, q.reader)
      | ok n ↦ wait_polls p rounds q.reader
    ]
  ]

  -- The carriage return behind the delay.
  unfoldable pub submit :
      Parser S → Agent → List (Bool × List ReadEvent) → ScreenReader S → Option (Returns S Unit)
  unfolding wait_polls
  submit p a delay r =
      if a.submit
      then and_then (wait_polls p delay r) (λ r'. some (send_keys (b'\r' ∷ []) r'))
      else some (ok tt, r)

  -- `keepty send` with its text.
  unfoldable pub send_text :
      Parser S
      → ScreenModes S
      → Agent
      → List (List ReadEvent)
      → List (Bool × List ReadEvent)
      → List (List ReadEvent)
      → ScreenReader S
      → Text
      → Option (Returns S ℕ)
  unfolding submit
  send_text p m a first delay last r text = and_then (sync p first r) (λ r1.
      and_then (some (send_keys (paste (m.bracketed_paste r1.parser) text) r1))
        (λ r2. and_then (submit p a delay r2) (λ r3. with_exit_code (sync p last r3))))

  -- `keepty send`; `none` is also the panic of `text.unwrap()`.
  unfoldable pub send_command :
      Parser S
      → ScreenModes S
      → Agent
      → List (List ReadEvent)
      → List (Bool × List ReadEvent)
      → List (List ReadEvent)
      → ScreenReader S
      → Option (Returns S ℕ)
  unfolding send_text
  send_command p m a first delay last r = elim a.text [
    | none ↦ none
    | some text ↦ send_text p m a first delay last r text
  ]
