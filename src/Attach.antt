-- ===== src/Attach.antt =====
-- keepty/src/attach.rs: the terminal that is attached to a session. The reader thread, newlines,
-- the write loop, the keys that detach, and the debounced resize. The terminal itself, its raw mode
-- and its signals are the operating system's.
pub mod Newlines
pub mod Detach
pub mod Reader
pub mod Session
mod Tests
use keepty.Base.{
  ℕ, ◌+◌, ◌*◌, ◌%◌, ◌^◌, Bool, true, false, not, ◌&&◌, ◌||◌, List, [], ◌∷◌, ◌++◌, Option, none,
  some, take, drop, leb, ltb, ◌==◌, if◌then◌else◌,
}
use keepty.Wire.{Frame, MsgKind}
use keepty.Wire.Messages.{encode_resize, decode_exit}
use keepty.Base.Int.{ℤ, negsuc}

-- `[u8]::contains` and `[u8]::last`
abbrev pub contains : ℕ → List ℕ → Bool
contains b [] = false
contains b (x ∷ xs) = x == b || contains b xs

abbrev pub last : List ℕ → Option ℕ
last [] = none
last (x ∷ xs) = elim (last xs) [ none ↦ some x | some y ↦ some y ]

abbrev pub is_cr : Option ℕ → Bool
is_cr none = false
is_cr (some b) = b == 13

-- `if let Some(&last) = data.last()`
abbrev pub updated : Bool → Option ℕ → Bool
updated last_was_cr none = last_was_cr
updated last_was_cr (some b) = b == 13

-- The scan for bare newlines, with whether the byte before is a carriage return.
unfoldable pub convert : Bool → List ℕ → List ℕ
convert prev_is_cr [] = []
convert prev_is_cr (b ∷ bs) =
    let rest = convert (b == 13) bs in if b == 10 && not prev_is_cr then 13 ∷ b ∷ rest else b ∷ rest

-- `raw_write_stdout`: what it hands to `raw_write_bytes`, and `last_was_cr` behind it.
unfoldable pub raw_write_stdout : List ℕ → Bool → List ℕ × Bool
unfolding convert
raw_write_stdout bytes last_was_cr =
    if not (contains 10 bytes)
    then (bytes, updated last_was_cr (last bytes))
    else (convert last_was_cr bytes, is_cr (last bytes))

-- What one `write` answers: a count, EINTR, or another error.
pub data WriteOutcome : Type 0 where
  wrote : ℕ → WriteOutcome
  interrupted failed : WriteOutcome

-- `raw_write_bytes`: what is written, and what is left, by the answers of the writes in order.
unfoldable pub raw_write_bytes : List WriteOutcome → List ℕ → List ℕ × List ℕ
raw_write_bytes [] bytes = ([], bytes)
raw_write_bytes (o ∷ os) [] = ([], [])
raw_write_bytes (wrote n ∷ os) (b ∷ bs) =
    let rest = raw_write_bytes os (drop n (b ∷ bs)) in
    if ltb 0 n then (take n (b ∷ bs) ++ rest.0, rest.1) else ([], b ∷ bs)
raw_write_bytes (interrupted ∷ os) (b ∷ bs) = raw_write_bytes os (b ∷ bs)
raw_write_bytes (failed ∷ os) (b ∷ bs) = ([], b ∷ bs)

-- `pack_resize` of two 16-bit numbers.
unfoldable pub pack_resize : ℕ → ℕ → ℕ
pack_resize cols rows = cols * 2 ^ 16 + rows

-- One byte in the detach state machine: the count of commas behind it, or detach.
unfoldable pub detach_step : ℕ → ℕ → Option ℕ
detach_step comma_count b =
    if b == b','
    then some ((comma_count + 1) % 2 ^ 32)
    else if b == b'd' && leb 3 comma_count
    then none
    else some 0

-- The loop over a read's bytes; `none` is `should_detach`.
unfoldable pub scan : ℕ → List ℕ → Option ℕ
unfolding detach_step
scan comma_count [] = some comma_count
scan comma_count (b ∷ bs) = elim (detach_step comma_count b) [ none ↦ none | some c ↦ scan c bs ]

-- What the main loop does with bytes from the terminal: leave, or send frames.
pub data Typed : Type 0 where
  detaches : Typed
  sends : List Frame → ℕ → Typed

abbrev pub input : List ℕ → Frame
input bytes = record { kind = MsgKind.input; payload = bytes }

abbrev pub resize : ℕ → ℕ → Frame
resize cols rows = record { kind = MsgKind.resize; payload = encode_resize cols rows }

unfoldable pub on_stdin : Bool → ℕ × ℕ → ℕ → List ℕ → Typed
unfolding scan
on_stdin watch_mode (cols, rows) comma_count bytes =
    if watch_mode
    then (if contains 0x03 bytes || contains b'q' bytes
        then detaches
        else sends ((if contains b'r' bytes then resize cols rows ∷ [] else []) ++ input bytes ∷ [])
            comma_count)
    else elim (scan comma_count bytes) [ none ↦ detaches | some c ↦ sends (input bytes ∷ []) c ]

-- `debounce` and `last_sent_dims`; times in milliseconds.
pub record Debounce : Type 0 where
  pub waiting : Option (ℕ × ℕ × ℕ)
  pub last_sent_dims : ℕ

abbrev pub resize_debounce_ms : ℕ
resize_debounce_ms = 50

-- The resize pipe was written to.
unfoldable pub on_winch : Bool → ℕ → ℕ → ℕ → Debounce → Debounce
unfolding pack_resize
on_winch watch_mode now cols rows d =
    let new_dims = pack_resize cols rows in
    if not (new_dims == d.last_sent_dims) || watch_mode
    then record { waiting = some (now, cols, rows); last_sent_dims = new_dims }
    else d

due : ℕ → Option (ℕ × ℕ × ℕ) → Debounce → Option Frame × Debounce
due now none d = (none, d)
due now (some (started, cols, rows)) d =
    if leb (started + resize_debounce_ms) now
    then (some (resize cols rows), record d { waiting = none })
    else (none, d)

-- The check of the debounce in each round: the Resize that it sends, if any.
unfoldable pub on_tick : ℕ → Debounce → Option Frame × Debounce
unfolding due
on_tick now d = due now d.waiting d

-- How the reader thread ends: with the child's exit code, or without the broker.
pub data Ending : Type 0 where
  exited : ℤ → Ending
  disconnected : Ending

-- `decode_exit(..).unwrap_or(-1)`
abbrev pub exit_code : Option ℤ → ℤ
exit_code none = negsuc 0
exit_code (some code) = code

abbrev pub pong : Frame
pong = record { kind = MsgKind.pong; payload = [] }

-- The reader thread on the frames that arrive, while the main thread does not end: the bytes handed
-- to stdout, the frames sent back, and the end.
unfoldable pub read_loop : List Frame → Bool → List ℕ × List Frame × Ending
unfolding raw_write_stdout
read_loop [] last_was_cr = ([], [], disconnected)
read_loop (f ∷ fs) last_was_cr = elim f.kind [
  | MsgKind.output ↦
      let (out, cr) = raw_write_stdout f.payload last_was_cr in
      let (rest, back, ending) = read_loop fs cr in (out ++ rest, back, ending)
  | MsgKind.exit ↦ ([], [], exited (exit_code (decode_exit f.payload)))
  | MsgKind.ping ↦
      let (rest, back, ending) = read_loop fs last_was_cr in (rest, pong ∷ back, ending)
  | _ ↦ read_loop fs last_was_cr
]
