-- ===== src/Attach/Session.antt =====
-- `run` and `draw_watcher_overlay` of keepty/src/attach.rs: the handshake, the main thread's loop over the
-- terminal, and what a watcher is shown.
pub mod Sizes
pub mod Settles
pub mod Inputs
pub mod Delivers
mod Tests
use keepty.Base.{
  ℕ, zero, suc, ◌+◌, ◌-◌, Bool, true, false, not, ◌&&◌, ◌||◌, List, [], ◌∷◌, ◌++◌, Option, none,
  some, max, ltb, ◌==◌, if◌then◌else◌,
}
use keepty.Base.Results.{Result, ok, err}
use keepty.Base.Text.{codes, to_string}
use keepty.Wire.{Frame, MsgKind, Role, IoError, ErrorKind, Reason, Source, kind_byte, read_from}
use keepty.Wire.Messages.{encode_hello, decode_hello_ack}
use keepty.Attach.{Debounce, on_winch, on_tick, Typed, detaches, sends, on_stdin, pack_resize}

-- `draw_watcher_overlay`: the bytes it writes, by the terminal's size, the session's name and size.
-- The line above the last tells of a session of another size.
unfoldable pub size_warning : ℕ → ℕ → Option (ℕ × ℕ) → List ℕ
size_warning term_cols term_rows none = []
size_warning term_cols term_rows (some (session_cols, session_rows)) =
    if ltb 1 term_rows && (not (session_cols == term_cols) || not (session_rows == term_rows))
    then (0x1b ∷ codes "[")
      ++ to_string (term_rows - 1)
      ++ codes ";1H"
      ++ (0x1b ∷ codes "[2K")
      ++ (0x1b ∷ codes "[33;2m[Session is ")
      ++ to_string session_cols
      ++ codes "x"
      ++ to_string session_rows
      ++ codes ", your terminal is "
      ++ to_string term_cols
      ++ codes "x"
      ++ to_string term_rows
      ++ codes "]"
      ++ (0x1b ∷ codes "[0m")
    else []

unfoldable pub size_str : Option (ℕ × ℕ) → List ℕ
size_str none = []
size_str (some (cols, rows)) =
    codes " (" ++ to_string cols ++ codes "x" ++ to_string rows ++ codes ")"

unfoldable pub watcher_overlay : ℕ → ℕ → List ℕ → Option (ℕ × ℕ) → List ℕ
unfolding size_warning size_str
watcher_overlay term_cols terminal_rows session_name session_size =
    let term_rows = max terminal_rows 1 in
    (0x1b ∷ codes "7")
    ++ size_warning term_cols term_rows session_size
    ++ (0x1b ∷ codes "[")
    ++ to_string term_rows
    ++ codes ";1H"
    ++ (0x1b ∷ codes "[2K")
    ++ (0x1b ∷ codes "[7m[")
    ++ session_name
    ++ size_str session_size
    ++ codes "] q detach | r refresh"
    ++ (0x1b ∷ codes "[0m")
    ++ (0x1b ∷ codes "8")

-- What `run` meets before its terminal is in raw mode: whether the standard input is a terminal, the
-- errors of the connection and of the write of Hello, the terminal's size, and the socket's bytes.
pub record Setting : Type 0 where
  pub is_terminal : Bool
  pub is_running : Bool
  pub size : ℕ × ℕ
  pub unwritten : Option IoError
  pub socket : Source

abbrev pub fails : {A : Type 0} → ErrorKind → Result IoError A
fails kind = err (record { kind = kind; reason = Reason.from_reader })

abbrev pub role_in : Bool → Role
role_in watch_mode = if watch_mode then Role.watcher else Role.writer

abbrev pub hello_frame : Bool → ℕ → ℕ → Frame
hello_frame watch_mode cols rows = record {
  kind = MsgKind.hello;
  payload = encode_hello (role_in watch_mode) cols rows;
}

-- `watcher_session_size`
abbrev pub session_size : Bool → Option (ℕ × ℕ × ℕ) → Option (ℕ × ℕ)
session_size watch_mode none = none
session_size watch_mode (some (pid, cols, rows)) = if watch_mode then some (cols, rows) else none

-- The handshake of `run`: the session's size for a watcher.
unfoldable pub attach_handshake : Bool → Setting → Result IoError (Option (ℕ × ℕ))
attach_handshake watch_mode s =
    if not s.is_terminal
    then fails ErrorKind.other
    else if not s.is_running
    then fails ErrorKind.not_found
    else elim s.unwritten [
      | some e ↦ err e
      | none ↦ elim (read_from s.socket) [
        | err e ↦ err e
        | ok none ↦ fails ErrorKind.unexpected_eof
        | ok (some (f, rest)) ↦
            if kind_byte f.kind == kind_byte MsgKind.hello_ack
            then ok (session_size watch_mode (decode_hello_ack f.payload))
            else fails ErrorKind.invalid_data
      ]
    ]

-- What a read of the terminal answers, if it is ready.
pub data Stdin : Type 0 where
  not_ready would_block ends read_fails : Stdin
  types : List ℕ → Stdin

-- A round of the main loop: whether the reader thread has ended, whether `select` failed, the size that
-- is read if the resize pipe is ready and when, when the debounce is looked at, the read, the size at
-- the read, and how many writes succeed before one fails, if one does. Times are milliseconds.
pub record Round : Type 0 where
  pub shutdown : Bool
  pub select_fails : Bool
  pub winch : Option (ℕ × ℕ × ℕ)
  pub checked_at : ℕ
  pub stdin : Stdin
  pub size : ℕ × ℕ
  pub writes_left : Option ℕ

-- The variables of the loop, with the frames that have been sent.
pub record Loop : Type 0 where
  pub debounce : Debounce
  pub comma_count : ℕ
  pub sent : List Frame

-- The loop goes on, or is left.
pub data Flow : Type 0 where
  goes_on : Loop → Flow
  leaves : Loop → Flow

-- Frames that are written one after another: those that are, whether all are, and the writes left.
unfoldable pub write_frames : Option ℕ → List Frame → List Frame × Bool × Option ℕ
write_frames none fs = (fs, true, none)
write_frames (some n) [] = ([], true, some n)
write_frames (some zero) (f ∷ fs) = ([], false, some zero)
write_frames (some (suc n)) (f ∷ fs) =
    let (sent, all, left) = write_frames (some n) fs in (f ∷ sent, all, left)

-- The resize pipe.
abbrev pub winched : Bool → Option (ℕ × ℕ × ℕ) → Debounce → Debounce
winched watch_mode none d = d
winched watch_mode (some (now, cols, rows)) d = on_winch watch_mode now cols rows d

-- The end of a round: what was typed.
abbrev pub typed : Typed → Option ℕ → Loop → Flow
typed detaches left l = leaves l
typed (sends fs comma_count) left l =
    let (sent, all, _) = write_frames left fs in
    let l' = record l { sent = l.sent ++ sent; comma_count = comma_count } in
    if all then goes_on l' else leaves l'

abbrev pub on_read : Bool → Round → Option ℕ → Loop → Flow
on_read watch_mode r left l = elim r.stdin [
  | not_ready ↦ goes_on l
  | would_block ↦ goes_on l
  | ends ↦ leaves l
  | read_fails ↦ leaves l
  | types bytes ↦ typed (on_stdin watch_mode r.size l.comma_count bytes) left l
]

-- The debounce, then what was typed; a Resize that is not written leaves the debounce as it was.
abbrev pub on_due : Bool → Round → Option Frame × Debounce → Loop → Flow
on_due watch_mode r (none, d) l = on_read watch_mode r r.writes_left l
on_due watch_mode r (some f, d) l =
    let (sent, all, left) = write_frames r.writes_left (f ∷ []) in
    if all
    then on_read watch_mode r left (record l { debounce = d; sent = l.sent ++ sent })
    else leaves l

-- The body of the loop.
unfoldable pub loop_round : Bool → Round → Loop → Flow
unfolding write_frames
loop_round watch_mode r l =
    if r.shutdown
    then leaves l
    else if r.select_fails
    then goes_on l
    else let l' = record l { debounce = winched watch_mode r.winch l.debounce } in
      on_due watch_mode r (on_tick r.checked_at l'.debounce) l'

unfoldable pub main_loop : Bool → List Round → Loop → Flow
unfolding loop_round
main_loop watch_mode [] l = goes_on l
main_loop watch_mode (r ∷ rs) l = elim (loop_round watch_mode r l) [
  | leaves l' ↦ leaves l'
  | goes_on l' ↦ main_loop watch_mode rs l'
]

-- The variables before the loop, behind the Hello.
abbrev pub entered : Bool → ℕ → ℕ → Loop
entered watch_mode cols rows = record {
  debounce = record { waiting = none; last_sent_dims = pack_resize cols rows };
  comma_count = 0;
  sent = hello_frame watch_mode cols rows ∷ [];
}

-- `run`: the session's size for a watcher, which the overlay shows, and the main loop. The calls that
-- set up raw mode, the resize pipe and the reader thread succeed.
unfoldable pub attach_session : Bool → Setting → List Round → Result IoError (Option (ℕ × ℕ) × Flow)
unfolding attach_handshake main_loop
attach_session watch_mode s rs = elim (attach_handshake watch_mode s) [
  | err e ↦ err e
  | ok session_size ↦
      ok (session_size, main_loop watch_mode rs (entered watch_mode s.size.0 s.size.1))
]
