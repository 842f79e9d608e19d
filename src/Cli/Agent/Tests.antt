-- ===== src/Cli/Agent/Tests.antt =====
-- Runs of the agent's commands, and the theorems about them at concrete inputs.
use keepty.Base.{ℕ, ◌≡◌, refl, List, [], ◌∷◌, ◌++◌, some, none, true, false}
use keepty.Base.Results.{ok}
use keepty.Base.Text.{codes, parse}
use keepty.Wire.{read_from, kind_of_byte, Role, MsgKind, encode}
use keepty.Cli.Keys.{named_key}
use keepty.Screen.{
  Parser, ReadEvent, gives, blocks, ScreenReader, empty_frame, handle, write, poll, send_keys,
  as_writer, poll_loop, read_frame, check_buffer,
}
use keepty.Screen.Poll.{Returning}
use keepty.Screen.Sync.{sync, sync_loop}
use keepty.Cli.Agent.{
  Command, Agent, agent_args, defaults, agent_loop, flag, set_value, checked, read_options,
  key_bytes,
}
use keepty.Cli.Agent.Checked.{Valid, agent_args-Valid}
use keepty.Cli.Agent.Send.{ScreenModes, keys_command, send_named, send_command}
use keepty.Wire.Inputs.{inputs}
use keepty.Cli.Agent.Typed.{On}
use keepty.Cli.Agent.KeysCommand.{TypesKeys, keys_command-TypesKeys}
use keepty.Cli.Agent.SendCommand.{TypesText, send_command-TypesText}

-- keepty wait work --text ready --new --timeout 5
wait_line :
    agent_args Command.wait (
      codes "work"
      ∷ codes "--text"
      ∷ codes "ready"
      ∷ codes "--new"
      ∷ codes "--timeout"
      ∷ codes "5"
      ∷ [])
    ≡ ok (record (defaults (codes "work")) {
      text = some (codes "ready");
      new_text = true;
      timeout = 5;
    })
unfolding agent_args agent_loop flag set_value checked read_options parse
wait_line = refl

-- keepty keys work up Ctrl-C
abbrev up_ctrl_c : Agent
up_ctrl_c = record (defaults (codes "work")) {
  names = codes "up" ∷ codes "Ctrl-C" ∷ [];
  keys = (0x1b ∷ b'[' ∷ b'A' ∷ []) ∷ (3 ∷ []) ∷ [];
}

agent_args-Valid_example : Valid Command.keys up_ctrl_c
unfolding agent_args read_options checked key_bytes named_key
agent_args-Valid_example =
    agent_args-Valid Command.keys (codes "work" ∷ codes "up" ∷ codes "Ctrl-C" ∷ []) up_ctrl_c refl

-- A screen that is the bytes it was given, and that wants application cursor keys once it has any.
abbrev as_bytes : Parser (List ℕ)
as_bytes = record {
  new_parser = λ rows cols history. [];
  process = λ bytes screen. screen ++ bytes;
  set_size = λ rows cols screen. screen;
}

abbrev modes : ScreenModes (List ℕ)
modes = record {
  bracketed_paste = λ screen. true;
  application_cursor = λ screen. elim screen [ [] ↦ false | b ∷ bs ↦ true ];
}

abbrev writer : ScreenReader (List ℕ)
writer = record {
  sent = [];
  broken = none;
  parser = [];
  role = Role.writer;
  pty_pid = 7;
  read_buffer = [];
  exited = false;
  pongs = 0;
}

-- One poll that reads output and the Pong, and one that reads the Pong alone.
abbrev shows : List (List ReadEvent)
shows =
    (gives (encode (record { kind = MsgKind.output; payload = b'$' ∷ [] }))
      ∷ gives (encode (empty_frame MsgKind.pong))
      ∷ blocks
      ∷ [])
    ∷ []

abbrev answers : List (List ReadEvent)
answers = (gives (encode (empty_frame MsgKind.pong)) ∷ blocks ∷ []) ∷ []

up_ctrl_c-Valid : Valid Command.keys up_ctrl_c
unfolding agent_args read_options checked key_bytes named_key
up_ctrl_c-Valid =
    agent_args-Valid Command.keys (codes "work" ∷ codes "up" ∷ codes "Ctrl-C" ∷ []) up_ctrl_c refl

-- The cursor key is typed in its application form, and the exit code is 0.
types_in_mode :
    (r : ScreenReader (List ℕ)) × (keys_command as_bytes modes up_ctrl_c shows answers writer
      ≡ some (ok 0, r))
    × (inputs r.sent ≡ (0x1b ∷ b'O' ∷ b'A' ∷ []) ∷ (3 ∷ []) ∷ [])
unfolding keys_command sync send_named named_key encode write poll handle as_writer send_keys
    poll_loop read_frame check_buffer sync_loop read_from kind_of_byte
types_in_mode = (_, refl, refl)

keys_command-TypesKeys_example :
    Returning
      (On (TypesKeys as_bytes modes up_ctrl_c shows writer))
      (keys_command as_bytes modes up_ctrl_c shows answers writer)
keys_command-TypesKeys_example =
    keys_command-TypesKeys as_bytes modes up_ctrl_c shows answers writer up_ctrl_c-Valid refl

-- keepty send work ls --submit
abbrev ls : Agent
ls = record (defaults (codes "work")) { text = some (codes "ls"); submit = true }

ls-Valid : Valid Command.send ls
unfolding agent_args read_options checked agent_loop flag set_value parse
ls-Valid = agent_args-Valid Command.send (codes "work" ∷ codes "ls" ∷ codes "--submit" ∷ []) ls refl

send_command-TypesText_example :
    Returning
      (On (TypesText as_bytes modes ls shows writer))
      (send_command as_bytes modes ls shows ((true, blocks ∷ []) ∷ []) answers writer)
send_command-TypesText_example =
    send_command-TypesText as_bytes modes ls shows ((true, blocks ∷ []) ∷ []) answers writer
      ls-Valid refl
