-- ===== src/Wire.antt =====
-- keepty-protocol/src/lib.rs: roles, message kinds, and frames on the wire.
-- A byte is a number below 256. A reader is the bytes that it still delivers, and how it ends.
pub mod Kinds
pub mod Codec
pub mod Inputs
pub mod Messages
mod Tests
use keepty.Base.{
  ℕ, ◌+◌, ◌%◌, ◌^◌, Bool, true, false, List, [], ◌∷◌, ◌++◌, Option, none, some, ltb, leb, ◌==◌,
  if◌then◌else◌, length, take, drop, be32, from_be32,
}
use keepty.Base.Results.{Result, ok, err, ◌>>=◌}

abbrev pub protocol_version : ℕ
protocol_version = 1

abbrev pub max_payload_size : ℕ
max_payload_size = 1_048_576

abbrev pub max_frame_body_size : ℕ
max_frame_body_size = max_payload_size + 2

pub data Role : Type 0 where
  writer watcher monitor : Role

pub data MsgKind : Type 0 where
  hello hello_ack input output resize resize_ack exit shutdown ping pong error : MsgKind

-- `role as u8`, `kind as u8`
abbrev pub role_byte : Role → ℕ
role_byte Role.writer = 1
role_byte Role.watcher = 2
role_byte Role.monitor = 3

abbrev pub kind_byte : MsgKind → ℕ
kind_byte MsgKind.hello = 1
kind_byte MsgKind.hello_ack = 2
kind_byte MsgKind.input = 3
kind_byte MsgKind.output = 4
kind_byte MsgKind.resize = 5
kind_byte MsgKind.resize_ack = 6
kind_byte MsgKind.exit = 10
kind_byte MsgKind.shutdown = 11
kind_byte MsgKind.ping = 12
kind_byte MsgKind.pong = 13
kind_byte MsgKind.error = 127

-- `MsgKind::try_from`
unfoldable pub kind_of_byte : ℕ → Result ℕ MsgKind
kind_of_byte v =
    if v == 1
    then ok MsgKind.hello
    else if v == 2
    then ok MsgKind.hello_ack
    else if v == 3
    then ok MsgKind.input
    else if v == 4
    then ok MsgKind.output
    else if v == 5
    then ok MsgKind.resize
    else if v == 6
    then ok MsgKind.resize_ack
    else if v == 10
    then ok MsgKind.exit
    else if v == 11
    then ok MsgKind.shutdown
    else if v == 12
    then ok MsgKind.ping
    else if v == 13
    then ok MsgKind.pong
    else if v == 127
    then ok MsgKind.error
    else err v

-- `Role::try_from`
unfoldable pub role_of_byte : ℕ → Result ℕ Role
role_of_byte v =
    if v == 1
    then ok Role.writer
    else if v == 2
    then ok Role.watcher
    else if v == 3
    then ok Role.monitor
    else err v

pub record Frame : Type 0 where
  pub kind : MsgKind
  pub payload : List ℕ

-- `Frame::encode`; `frame_len as u32` keeps the low 32 bits.
unfoldable pub encode : Frame → List ℕ
encode f =
    let frame_len = 2 + length f.payload in
    be32 (frame_len % 2 ^ 32) ++ protocol_version ∷ kind_byte f.kind ∷ f.payload

-- `io::ErrorKind`, as far as the program tells kinds apart.
pub data ErrorKind : Type 0 where
  unexpected_eof invalid_data invalid_input timed_out would_block interrupted : ErrorKind
  connection_aborted connection_reset connection_refused broken_pipe : ErrorKind
  permission_denied not_found other : ErrorKind

-- What an `io::Error` of `read_from` says beside its kind. `panic` is an index out of range,
-- which is no error value in the source; no read ends in it.
pub data Reason : Type 0 where
  from_reader frame_too_short panic : Reason
  frame_too_large unsupported_version unknown_kind : ℕ → Reason

pub record IoError : Type 0 where
  pub kind : ErrorKind
  pub reason : Reason

-- A reader: the bytes to come, then end of file (`none`) or an error.
pub record Source : Type 0 where
  pub bytes : List ℕ
  pub ending : Option IoError

abbrev pub eof_error : IoError
eof_error = record { kind = ErrorKind.unexpected_eof; reason = Reason.from_reader }

-- What `read_exact` reports when the bytes end too early.
abbrev pub ending_error : Option IoError → IoError
ending_error none = eof_error
ending_error (some e) = e

abbrev pub invalid : Reason → IoError
invalid r = record { kind = ErrorKind.invalid_data; reason = r }

-- `Read::read_exact`: the next `n` bytes, or the error that comes before them.
abbrev pub read_exact : ℕ → Source → Result IoError (List ℕ × Source)
read_exact n src =
    if leb n (length src.bytes)
    then ok (take n src.bytes, record src { bytes = drop n src.bytes })
    else err (ending_error src.ending)

-- `u32::from_be_bytes(len_buf)` of a buffer of four bytes.
abbrev pub header_len : List ℕ → ℕ
header_len (a ∷ b ∷ c ∷ d ∷ rest) = from_be32 a b c d
header_len _ = 0

-- `MsgKind::try_from(data[1])` with its error mapped, and the frame.
with_kind : Result ℕ MsgKind → List ℕ → Result IoError Frame
with_kind (ok k) payload = ok (record { kind = k; payload = payload })
with_kind (err v) payload = err (invalid (Reason.unknown_kind v))

-- The checks on the body that was read: `data[0]`, `data[1]`, `data[2..]`.
parse_body : List ℕ → Result IoError Frame
unfolding with_kind
parse_body [] = err (invalid Reason.panic)
parse_body (version ∷ []) = err (invalid Reason.panic)
parse_body (version ∷ kind ∷ payload) =
    if version == protocol_version
    then with_kind (kind_of_byte kind) payload
    else err (invalid (Reason.unsupported_version version))

read_body : ℕ → Source → Result IoError (Option (Frame × Source))
unfolding parse_body
read_body frame_len src =
    if ltb frame_len 2
    then err (invalid Reason.frame_too_short)
    else if ltb max_frame_body_size frame_len
    then err (invalid (Reason.frame_too_large frame_len))
    else (read_exact frame_len src >>= λ (d : List ℕ × Source).
        parse_body d.0 >>= λ f. ok (some (f, d.1)))

abbrev pub is_eof : ErrorKind → Bool
is_eof ErrorKind.unexpected_eof = true
is_eof _ = false

-- `Frame::read_from`: a frame and the reader behind it, or `none` at the end of the file.
unfoldable pub read_from : Source → Result IoError (Option (Frame × Source))
unfolding read_body
read_from src = elim (read_exact 4 src) [
  | ok (len_buf, src') ↦ read_body (header_len len_buf) src'
  | err e ↦ if is_eof e.kind then ok none else err e
]
