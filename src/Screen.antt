-- ===== src/Screen.antt =====
-- keepty-screen/src/lib.rs: `ScreenReader`, a client that keeps a parsed screen. The socket is what
-- its reads answer, in order; the vt100 parser is the crate's, a record of the operations used.
pub mod Incremental
pub mod Progress
pub mod Poll
pub mod Frames
pub mod Sync
pub mod Connect
mod Tests
use keepty.Base.{
  ℕ, zero, suc, ◌+◌, ◌<◌, ◌≤◌, Bool, true, false, not, ◌||◌, ◌^◌, ◌-◌, List, [], ◌∷◌, ◌++◌, Option,
  none, some, length, take, drop, add64, ltb, leb, ◌==◌, if◌then◌else◌,
}
use keepty.Base.Results.{Result, ok, err}
use keepty.Wire.{
  Role, role_byte, Frame, MsgKind, kind_byte, IoError, ErrorKind, Reason, read_from, Source,
  header_len, max_frame_body_size, invalid,
}
use keepty.Wire.Messages.{encode_hello, decode_hello_ack, decode_resize_ack, encode_resize}

-- What the reader uses of the vt100 crate's parser.
pub record Parser (Screen : Type 0) : Type 0 where
  pub new_parser : ℕ → ℕ → ℕ → Screen
  pub process : List ℕ → Screen → Screen
  pub set_size : ℕ → ℕ → Screen → Screen

-- What a read of the socket answers within the time left, or that no time is left. Bytes that are
-- given are one at least; no event more is a deadline that has passed.
pub data ReadEvent : Type 0 where
  gives : List ℕ → ReadEvent
  ends blocks interrupts expires : ReadEvent
  fails : IoError → ReadEvent

abbrev pub error_of : ErrorKind → IoError
error_of kind = record { kind = kind; reason = Reason.from_reader }

-- The buffered part of a frame: more bytes are wanted, or an answer with the buffer behind it.
pub data Buffered : Type 0 where
  wants : Buffered
  answers : Result IoError (Option Frame) → List ℕ → Buffered

-- `?` on what was read, then `drain`: an error leaves the buffer.
abbrev pub drained : Result IoError (Option (Frame × Source)) → List ℕ → List ℕ → Buffered
drained (err e) buffer behind = answers (err e) buffer
drained (ok none) buffer behind = answers (ok none) behind
drained (ok (some (f, rest))) buffer behind = answers (ok (some f)) behind

-- `Frame::read_from` on the bytes of one frame.
unfoldable pub take_frame : ℕ → List ℕ → Buffered
take_frame size buffer =
    drained (read_from (record { bytes = take size buffer; ending = none })) buffer
      (drop size buffer)

-- The check of the buffer at the head of the loop in `read_frame`.
unfoldable pub check_buffer : List ℕ → Buffered
unfolding take_frame
check_buffer buffer =
    let len = header_len (take 4 buffer) in
    if leb 4 (length buffer)
    then (if ltb len 2 || ltb max_frame_body_size len
        then answers (err (error_of ErrorKind.invalid_data)) buffer
        else if leb (len + 4) (length buffer)
        then take_frame (len + 4) buffer
        else wants)
    else wants

-- What `read_frame` returns, the buffer behind it, and the reads that are still to come.
pub record Round : Type 0 where
  pub result : Result IoError (Option Frame)
  pub buffer : List ℕ
  pub events : List ReadEvent

abbrev pub settle : Buffered → List ReadEvent → Round → Round
settle wants events next = next
settle (answers r buffer) events next = record { result = r; buffer = buffer; events = events }

-- `read_frame`
unfoldable pub read_frame : List ReadEvent → List ℕ → Round
unfolding check_buffer
read_frame [] buffer =
    settle (check_buffer buffer) [] (record { result = ok none; buffer = buffer; events = [] })
read_frame (gives bytes ∷ es) buffer =
    settle (check_buffer buffer) (gives bytes ∷ es) (read_frame es (buffer ++ bytes))
read_frame (interrupts ∷ es) buffer =
    settle (check_buffer buffer) (interrupts ∷ es) (read_frame es buffer)
read_frame (expires ∷ es) buffer =
    settle (check_buffer buffer) (expires ∷ es)
      (record { result = ok none; buffer = buffer; events = expires ∷ es })
read_frame (blocks ∷ es) buffer =
    settle (check_buffer buffer) (blocks ∷ es)
      (record { result = ok none; buffer = buffer; events = es })
read_frame (ends ∷ es) buffer =
    settle (check_buffer buffer) (ends ∷ es) (record {
      result = err (error_of ErrorKind.connection_aborted);
      buffer = buffer;
      events = es;
    })
read_frame (fails e ∷ es) buffer =
    settle (check_buffer buffer) (fails e ∷ es)
      (record { result = err e; buffer = buffer; events = es })

-- `ScreenReader`. Of its socket: the frames written, and the error of a write if it is broken.
pub record ScreenReader (S : Type 0) : Type 0 where
  pub sent : List Frame
  pub broken : Option IoError
  pub parser : S
  pub role : Role
  pub pty_pid : ℕ
  pub read_buffer : List ℕ
  pub exited : Bool
  pub pongs : ℕ

-- A method's result, with the reader behind it.
abbrev pub Returns : Type 0 → Type 0 → Type 0
Returns S A = Result IoError A × ScreenReader S

-- What one frame does in `poll_with_raw`: the reader behind it, with what is observed, or the error
-- that ends the call.
pub data Handled (S : Type 0) : Type 0 where
  goes_on : ScreenReader S → Option (List ℕ) → Handled S
  gives_up : ScreenReader S → IoError → Handled S

abbrev pub empty_frame : MsgKind → Frame
empty_frame kind = record { kind = kind; payload = [] }

module _ {S : Type 0} where
  -- `Frame::write_to` on the socket
  unfoldable pub write : Frame → ScreenReader S → Returns S Unit
  write f r = elim r.broken [
    | some e ↦ (err e, r)
    | none ↦ (ok tt, record r { sent = r.sent ++ f ∷ [] })
  ]

  unfoldable pub apply_resize_ack : Parser S → List ℕ → ScreenReader S → Handled S
  apply_resize_ack p payload r = elim (decode_resize_ack payload) [
    | none ↦ gives_up r (error_of ErrorKind.invalid_data)
    | some (gen, cols, rows) ↦
        goes_on (record r { parser = p.set_size rows cols r.parser }) (some [])
  ]

  unfoldable pub reply : Returns S Unit → Handled S
  reply (ok u, r) = goes_on r none
  reply (err e, r) = gives_up r e

  unfoldable pub handle : Parser S → Frame → ScreenReader S → Handled S
  unfolding write apply_resize_ack reply
  handle p f r = elim f.kind [
    | MsgKind.output ↦ goes_on (record r { parser = p.process f.payload r.parser }) (some f.payload)
    | MsgKind.resize_ack ↦ apply_resize_ack p f.payload r
    | MsgKind.ping ↦ reply (write (empty_frame MsgKind.pong) r)
    | MsgKind.pong ↦ goes_on (record r { pongs = add64 r.pongs 1 }) none
    | MsgKind.exit ↦ goes_on (record r { exited = true }) none
    | _ ↦ goes_on r none
  ]

-- What a poll returns: the count, or an error; the reader behind it; the reads that were not made;
-- and what was observed, oldest first: the payloads, each with the parser behind it.
pub record Polled (S : Type 0) : Type 0 where
  pub result : Result IoError ℕ
  pub reader : ScreenReader S
  pub events : List ReadEvent
  pub observed : List (S × List ℕ)

abbrev pub observe : {S : Type 0} → S → Option (List ℕ) → List (S × List ℕ) → List (S × List ℕ)
observe parser none seen = seen
observe parser (some payload) seen = seen ++ (parser, payload) ∷ []

-- A frame of Output or ResizeAck is counted.
abbrev pub counted : Option (List ℕ) → ℕ → ℕ
counted none n = n
counted (some payload) n = add64 n 1

-- Whether the deadline has passed.
abbrev pub is_over : List ReadEvent → Bool
is_over [] = true
is_over (expires ∷ es) = true
is_over (gives bytes ∷ es) = false
is_over (interrupts ∷ es) = false
is_over (blocks ∷ es) = false
is_over (ends ∷ es) = false
is_over (fails e ∷ es) = false

abbrev pub is_aborted : ErrorKind → Bool
is_aborted ErrorKind.connection_aborted = true
is_aborted _ = false

module _ {S : Type 0} where
  abbrev pub stopped :
      Result IoError ℕ → ScreenReader S → List ReadEvent → List (S × List ℕ) → Option (Polled S)
  stopped result r events seen =
      some (record { result = result; reader = r; events = events; observed = seen })

  -- An error of `read_frame`; a disconnect is an exit.
  abbrev pub read_error : IoError → ScreenReader S → ScreenReader S
  read_error e r = if is_aborted e.kind then record r { exited = true } else r

  -- The loop of `poll_with_raw`, on fuel; `none` is no fuel left.
  unfoldable pub poll_loop :
      ℕ → Parser S → List ReadEvent → ScreenReader S → ℕ → List (S × List ℕ) → Option (Polled S)
  unfolding read_frame handle
  poll_loop zero p events r count seen = none
  poll_loop (suc fuel) p events r count seen =
      if r.exited
      then stopped (err (error_of ErrorKind.connection_aborted)) r events seen
      else if is_over events
      then stopped (ok count) r events seen
      else let round = read_frame events r.read_buffer in
        let r' = record r { read_buffer = round.buffer } in
        elim round.result [
          | err e ↦ stopped (err e) (read_error e r') round.events seen
          | ok none ↦ stopped (ok count) r' round.events seen
          | ok (some f) ↦ elim (handle p f r') [
            | gives_up r'' e ↦ stopped (err e) r'' round.events seen
            | goes_on r'' payload ↦
                poll_loop fuel p round.events r'' (counted payload count)
                  (observe r''.parser payload seen)
          ]
        ]

-- The bytes that reads will give.
abbrev pub delivered : List ReadEvent → List ℕ
delivered [] = []
delivered (gives bytes ∷ es) = bytes ++ delivered es
delivered (interrupts ∷ es) = delivered es
delivered (expires ∷ es) = delivered es
delivered (blocks ∷ es) = delivered es
delivered (ends ∷ es) = delivered es
delivered (fails e ∷ es) = delivered es

module _ {S : Type 0} where
  -- `poll_with_raw`: each round but the last takes a frame, so a round for each byte is enough.
  unfoldable pub poll : Parser S → Bool → List ReadEvent → ScreenReader S → Option (Polled S)
  poll p has_time events r =
      if has_time
      then poll_loop (suc (length (r.read_buffer ++ delivered events))) p events r 0 []
      else stopped (err (error_of ErrorKind.invalid_input)) r events []

  -- `send_keys`, `resize` and `shutdown`
  unfoldable pub as_writer : Frame → ScreenReader S → Returns S Unit
  unfolding write
  as_writer f r =
      if role_byte r.role == role_byte Role.writer
      then write f r
      else (err (error_of ErrorKind.permission_denied), r)

  unfoldable pub send_keys : List ℕ → ScreenReader S → Returns S Unit
  unfolding as_writer
  send_keys keys r = as_writer (record { kind = MsgKind.input; payload = keys }) r

  unfoldable pub resize : ℕ → ℕ → ScreenReader S → Returns S Unit
  unfolding as_writer
  resize cols rows r =
      as_writer (record { kind = MsgKind.resize; payload = encode_resize cols rows }) r

  unfoldable pub shutdown : ScreenReader S → Returns S Unit
  unfolding write
  shutdown r = write (empty_frame MsgKind.shutdown) r
