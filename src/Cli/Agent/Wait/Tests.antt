-- ===== src/Cli/Agent/Wait/Tests.antt =====
-- Runs of `keepty wait`, and the theorem about it at a concrete input.
use keepty.Base.{ℕ, ◌≡◌, refl, List, [], ◌∷◌, ◌++◌, Option, some, none, false}
use keepty.Base.Results.{Result, ok}
use keepty.Base.Text.{codes}
use keepty.Wire.{IoError, Role, Frame, MsgKind, encode, read_from, kind_of_byte}
use keepty.Cli.Agent.{Agent, defaults}
use keepty.Cli.Painted.{Vt, contains}
use keepty.Screen.{
  Parser, gives, blocks, ScreenReader, poll, poll_loop, read_frame, check_buffer, take_frame,
  handle,
}
use keepty.Cli.Agent.Wait.{
  normalize, Round, Flow, returns, wait_command, wait_loop, wait_round, observe_all, observer,
}

-- A screen that is the bytes it was given.
abbrev as_bytes : Parser (List ℕ)
as_bytes = record {
  new_parser = λ rows cols history. [];
  process = λ bytes screen. screen ++ bytes;
  set_size = λ rows cols screen. screen;
}

abbrev vt : Vt (List ℕ) (List ℕ)
vt = record {
  new_parser = λ rows cols. [];
  screen = λ p. p;
  set_screen = λ s p. s;
  process = λ bytes p. p ++ bytes;
  size = λ s. (0, 0);
  cell = λ s row col. none;
  alternate_screen = λ s. false;
}

abbrev monitor : ScreenReader (List ℕ)
monitor = record {
  sent = [];
  broken = none;
  parser = [];
  role = Role.monitor;
  pty_pid = 7;
  read_buffer = [];
  exited = false;
  pongs = 0;
}

-- keepty wait work --text hi, with a second's quiet
abbrev for_hi : Agent
for_hi = record (defaults (codes "work")) { text = some (codes "hi"); quiet = some 1000 }

abbrev says : List ℕ → Frame
says bytes = record { kind = MsgKind.output; payload = bytes }

abbrev at : ℕ → List ℕ → Round
at now bytes = record {
  quiet_at = now;
  limit_at = now;
  interval_at = now;
  events = gives bytes ∷ blocks ∷ [];
  observed_at = λ n. now;
  checked_at = now;
}

-- Two frames, and the next look at the screen finds the text.
abbrev rounds : List Round
rounds = at 10 (encode (says (codes "oh"))) ∷ at 20 (encode (says (codes "i"))) ∷ at 30 [] ∷ []

spinner : normalize (codes "a" ++ 0xe2 ∷ 0xa0 ∷ 0x8b ∷ codes "b") ≡ codes "a b"
unfolding normalize
spinner = refl

abbrev result_of : Option (Flow (List ℕ)) → Option (Result IoError ℕ)
result_of (some (returns result w)) = some result
result_of _ = none

finds : result_of (wait_command vt (λ s. s) for_hi as_bytes 0 0 [] 5 rounds monitor) ≡ some (ok 0)
unfolding wait_command wait_loop wait_round observe_all observer poll poll_loop read_frame
    check_buffer take_frame handle encode read_from kind_of_byte contains normalize
finds = refl
