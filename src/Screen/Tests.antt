-- ===== src/Screen/Tests.antt =====
-- Runs of the screen client, and the theorems about it at concrete inputs.
use keepty.Base.{ℕ, ◌≡◌, refl, List, [], ◌∷◌, ◌++◌, none, some, arith, true, false, take, drop}
use keepty.Wire.{Role, MsgKind, Frame, encode}
use keepty.Wire.Messages.{encode_hello_ack}
use keepty.Screen.{
  Parser, ReadEvent, gives, interrupts, blocks, ends, ScreenReader, Polled, read_frame, poll,
  empty_frame, handle,
}
use keepty.Screen.Incremental.{Returned, read_frame-Returned}
use keepty.Screen.Poll.{poll-Ends}
use keepty.Screen.Frames.{IsPart, Agrees, poll_frames}
use keepty.Screen.Frames.Agree.{poll-Agrees}
use keepty.Screen.Connect.{connect, Connected, connect-Connected, answering, hello_ack_frame}

-- A screen that is the bytes it was given.
abbrev as_bytes : Parser (List ℕ)
as_bytes = record {
  new_parser = λ rows cols history. [];
  process = λ bytes screen. screen ++ bytes;
  set_size = λ rows cols screen. screen;
}

abbrev new_reader : ScreenReader (List ℕ)
new_reader = record {
  sent = [];
  broken = none;
  parser = [];
  role = Role.monitor;
  pty_pid = 1234;
  read_buffer = [];
  exited = true;
  pongs = 0;
}

abbrev live_reader : ScreenReader (List ℕ)
live_reader = record new_reader { exited = false }

abbrev hi : Frame
hi = record { kind = MsgKind.output; payload = 104 ∷ 105 ∷ [] }

abbrev pong_frame : Frame
pong_frame = empty_frame MsgKind.pong

-- The first three bytes of a frame, an interrupted read, then its end and all of the next.
abbrev in_two : Frame → Frame → List ReadEvent
in_two f g = gives (take 3 (encode f)) ∷ interrupts ∷ gives (drop 3 (encode f) ++ encode g) ∷ []

nothing-IsPart : IsPart []
unfolding encode
nothing-IsPart = record {
  frame = pong_frame;
  missing = encode pong_frame;
  small = omega arith;
  whole = refl;
  unfinished = omega arith;
}

read_frame-Returned_example :
    Returned hi (encode pong_frame) (ends ∷ []) (read_frame (in_two hi pong_frame ++ ends ∷ []) [])
unfolding encode
read_frame-Returned_example =
    read_frame-Returned (in_two hi pong_frame) (ends ∷ []) [] hi (encode pong_frame)
      (tt, (tt, (tt, tt))) (omega arith) refl

poll-Ends_example :
    (q : Polled (List ℕ)) × (poll as_bytes true (in_two hi pong_frame) live_reader ≡ some q)
poll-Ends_example = poll-Ends as_bytes true (in_two hi pong_frame) live_reader

-- Both frames are handled, the payload is observed once, and the Pong is counted.
two_frames :
    (poll_frames as_bytes (hi ∷ pong_frame ∷ []) live_reader 0 []).observed
    ≡ (104 ∷ 105 ∷ [], 104 ∷ 105 ∷ []) ∷ []
unfolding poll_frames handle
two_frames = refl

poll-Agrees_example :
    Agrees []
      (poll as_bytes true (in_two hi pong_frame ++ blocks ∷ []) live_reader)
      (poll_frames as_bytes (hi ∷ pong_frame ∷ []) live_reader 0 [])
unfolding encode
poll-Agrees_example =
    poll-Agrees as_bytes (in_two hi pong_frame) (hi ∷ pong_frame ∷ []) [] live_reader
      (tt, (tt, (tt, tt))) (omega arith, (omega arith, tt)) nothing-IsPart refl

connect-Connected_example :
    Connected as_bytes Role.monitor 80 24 0
      (1234, 100, 30)
      (hi ∷ [])
      []
      (connect as_bytes Role.monitor 80 24 0 (answering (in_two (hello_ack_frame 1234 100 30) hi)))
unfolding encode encode_hello_ack
connect-Connected_example =
    connect-Connected as_bytes Role.monitor 80 24 0 1234 100 30
      (in_two (hello_ack_frame 1234 100 30) hi) (hi ∷ []) [] (omega arith) (omega arith)
      (omega arith) (tt, (tt, (tt, tt))) (omega arith, tt) nothing-IsPart refl
