-- ===== src/Screen/Connect.antt =====
-- `connect_with_size_history_timeout` of keepty-screen/src/lib.rs: the handshake with the broker and the
-- first poll.
use keepty.Base.{
  ℕ, ◌<◌, ◌^◌, ◌≡◌, refl, ap, ap₂, sym, append-nil, ◌∙◌, Bool, true, false, List, [], ◌∷◌, ◌++◌,
  Option, none, some, arith, if◌then◌else◌, ◌==◌, All, append_assoc,
}
use keepty.Base.Results.{Result, ok, err}
use keepty.Wire.{IoError, ErrorKind, Frame, MsgKind, Role, kind_byte, encode}
use keepty.Wire.Codec.{IsSmall}
use keepty.Wire.Messages.{
  encode_hello, encode_hello_ack, decode_hello_ack, decode_hello_ack-encode_hello_ack,
}
use keepty.Screen.{
  Parser, ReadEvent, Round, blocks, error_of, read_frame, delivered, ScreenReader, Polled, poll,
  is_aborted,
}
use keepty.Screen.Incremental.{Live, read_frame-Returned}
use keepty.Screen.Frames.{poll_frames, stream, IsPart, Agrees}
use keepty.Screen.Frames.Agree.{poll-Agrees}

-- What the socket and the clock answer to a client that connects: whether its timeout is positive,
-- the errors of the connection and of the write of Hello, what its reads answer, and whether time is
-- left behind the handshake.
pub record Connecting : Type 0 where
  pub has_time : Bool
  pub refused : Option IoError
  pub unwritten : Option IoError
  pub reads : List ReadEvent
  pub time_left : Bool

module _ {S : Type 0} where
  -- The first poll: a disconnect is for the next one to tell.
  abbrev pub replayed : Option (Polled S) → Option (Result IoError (ScreenReader S))
  replayed none = none
  replayed (some q) = elim q.result [
    | ok n ↦ some (ok q.reader)
    | err e ↦ some (if is_aborted e.kind then ok q.reader else err e)
  ]

  -- The reader behind a handshake.
  abbrev pub greeted : Parser S → Role → ℕ → ℕ → ℕ → List ℕ → ℕ × ℕ × ℕ → ScreenReader S
  greeted p role cols rows history buffer (pid, ack_cols, ack_rows) = record {
    sent = record { kind = MsgKind.hello; payload = encode_hello role cols rows } ∷ [];
    broken = none;
    parser = p.new_parser ack_rows ack_cols history;
    role = role;
    pty_pid = pid;
    read_buffer = buffer;
    exited = false;
    pongs = 0;
  }

  abbrev pub fails_with : ErrorKind → Option (Result IoError (ScreenReader S))
  fails_with kind = some (err (error_of kind))

  -- What is made of the frame that answers Hello.
  unfoldable pub handshake :
      Parser S → Role → ℕ → ℕ → ℕ → Bool → Round → Option (Result IoError (ScreenReader S))
  handshake p role cols rows history time_left round = elim round.result [
    | err e ↦ some (err e)
    | ok none ↦ fails_with ErrorKind.timed_out
    | ok (some ack) ↦
        if kind_byte ack.kind == kind_byte MsgKind.hello_ack
        then (elim (decode_hello_ack ack.payload) [
          | none ↦ fails_with ErrorKind.invalid_data
          | some size ↦
              if time_left
              then replayed
                  (poll p true round.events (greeted p role cols rows history round.buffer size))
              else fails_with ErrorKind.timed_out
        ])
        else fails_with ErrorKind.invalid_data
  ]

  -- `connect_with_size_history_timeout`
  unfoldable pub connect :
      Parser S → Role → ℕ → ℕ → ℕ → Connecting → Option (Result IoError (ScreenReader S))
  unfolding handshake
  connect p role cols rows history env =
      if env.has_time
      then (elim env.refused [
        | some e ↦ some (err e)
        | none ↦ elim env.unwritten [
          | some e ↦ some (err e)
          | none ↦ handshake p role cols rows history env.time_left (read_frame env.reads [])
        ]
      ])
      else fails_with ErrorKind.timed_out

-- The HelloAck of a broker.
abbrev pub hello_ack_frame : ℕ → ℕ → ℕ → Frame
hello_ack_frame pid cols rows = record {
  kind = MsgKind.hello_ack;
  payload = encode_hello_ack pid cols rows;
}

hello_ack-IsSmall : (pid cols rows : ℕ) → IsSmall (hello_ack_frame pid cols rows)
unfolding encode_hello_ack
hello_ack-IsSmall pid cols rows = omega arith

-- What the socket and the clock answer when nothing goes wrong and nothing comes after `reads`.
abbrev pub answering : List ReadEvent → Connecting
answering reads = record {
  has_time = true;
  refused = none;
  unwritten = none;
  reads = reads ++ blocks ∷ [];
  time_left = true;
}

module _ {S : Type 0} (p : Parser S) where
  handshake-replayed :
      (role : Role) (cols rows history pid ack_cols ack_rows : ℕ) (buffer : List ℕ)
      (events : List ReadEvent)
      → pid < 2 ^ 32
      → ack_cols < 2 ^ 16
      → ack_rows < 2 ^ 16
      → handshake p role cols rows history true (record {
        result = ok (some (hello_ack_frame pid ack_cols ack_rows));
        buffer = buffer;
        events = events;
      })
        ≡ replayed
            (poll p true events (greeted p role cols rows history buffer (pid, ack_cols, ack_rows)))
  unfolding handshake
  handshake-replayed role cols rows history pid ack_cols ack_rows buffer events hp hc hr =
      rw decoded refl
    where
      decoded :
          decode_hello_ack (encode_hello_ack pid ack_cols ack_rows) ≡ some (pid, ack_cols, ack_rows)
      decoded =
          ap decode_hello_ack (sym (append-nil (encode_hello_ack pid ack_cols ack_rows)))
          ∙ decode_hello_ack-encode_hello_ack [] pid ack_cols ack_rows hp hc hr

  -- Of what a client's connection returns: it is made of a first poll of a new reader, with the size
  -- and pid of the broker's HelloAck, that came to what the frames behind the HelloAck come to.
  pub record Connected (role : Role) (cols rows history : ℕ) (size : ℕ × ℕ × ℕ) (fs : List Frame)
      (part : List ℕ) (r : Option (Result IoError (ScreenReader S))) : Type 0 where
    pub buffer : List ℕ
    pub polled : Option (Polled S)
    pub returned : r ≡ replayed polled
    pub agrees :
        Agrees part polled (poll_frames p fs (greeted p role cols rows history buffer size) 0 [])

  -- When nothing is refused and time is left: however the bytes of a broker's HelloAck, of whole frames
  -- behind it and of a part of a next one are cut into reads, the connection makes a first poll of a
  -- reader with the pid and size of the HelloAck, returns what that poll decides, and the poll comes
  -- to what those frames come to one after another, with no byte lost. The pid is a 32-bit number,
  -- the sizes are 16-bit numbers, and each frame's payload is within the limit.
  pub connect-Connected :
      (role : Role) (cols rows history pid ack_cols ack_rows : ℕ) (reads : List ReadEvent)
      (fs : List Frame) (part : List ℕ)
      → pid < 2 ^ 32
      → ack_cols < 2 ^ 16
      → ack_rows < 2 ^ 16
      → All Live reads
      → All IsSmall fs
      → IsPart part
      → delivered reads ≡ stream (hello_ack_frame pid ack_cols ack_rows ∷ fs) ++ part
      → Connected role cols rows history
          (pid, ack_cols, ack_rows)
          fs
          part
          (connect p role cols rows history (answering reads))
  unfolding connect
  connect-Connected role cols rows history pid ack_cols ack_rows reads fs part hp hc hr live small
        partial same =
      let ack = hello_ack_frame pid ack_cols ack_rows in
      let round = read_frame (reads ++ blocks ∷ []) [] in
      let ret =
        read_frame-Returned reads (blocks ∷ []) [] ack (stream fs ++ part) live
          (hello_ack-IsSmall pid ack_cols ack_rows)
          (same ∙ append_assoc (encode ack) (stream fs) part) in
      let shape : round ≡ record {
        result = ok (some ack);
        buffer = round.buffer;
        events = ret.left ++ blocks ∷ [];
      } =
        ap₂ (λ x y. record { result = x; buffer = round.buffer; events = y }) ret.result
          ret.events in
      record {
        buffer = round.buffer;
        polled = _;
        returned =
            ap (handshake p role cols rows history true) shape
            ∙ handshake-replayed role cols rows history pid ack_cols ack_rows round.buffer
                (ret.left ++ blocks ∷ []) hp hc hr;
        agrees =
            poll-Agrees p ret.left fs part
              (greeted p role cols rows history round.buffer (pid, ack_cols, ack_rows)) ret.live
              small partial ret.behind;
      }
