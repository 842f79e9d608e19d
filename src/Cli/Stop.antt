-- ===== src/Cli/Stop.antt =====
-- `cmd_stop` of keepty/src/main.rs: the request to stop a session, and the wait for its socket to go.
pub mod Pending
mod Tests
use keepty.Base.{
  ℕ, Bool, true, false, not, ◌&&◌, ◌||◌, List, [], ◌∷◌, Option, none, some, ◌==◌, if◌then◌else◌,
}
use keepty.Base.Results.{Result, ok, err}
use keepty.Base.Text.{codes, starts_with}
use keepty.Broker.Args.{Text}
use keepty.Wire.{Frame, MsgKind, Role, IoError, Source, kind_byte, read_from}
use keepty.Wire.Messages.{encode_hello}

-- What `symlink_metadata` answers for the socket: its device and inode, or an error.
pub data Metadata : Type 0 where
  endpoint : ℕ → ℕ → Metadata
  not_found unreadable : Metadata

-- What a read of the stream answers; `waits` is an error of the kinds that are passed over.
pub data StreamRead : Type 0 where
  ends gives waits fails : StreamRead

-- A round of the loop: the socket's metadata, whether time is left, and the read, if one is made.
pub record Round : Type 0 where
  pub metadata : Metadata
  pub time_left : Bool
  pub read : StreamRead

-- How the loop stands: it waits, with `disconnected`; the endpoint is gone; or the time is over.
pub data Waited : Type 0 where
  waiting : Bool → Waited
  gone timed_out : Waited

-- Whether the endpoint that was found at first has disappeared or has been replaced.
abbrev pub is_gone : Option (ℕ × ℕ) → Metadata → Bool
is_gone identity not_found = true
is_gone identity unreadable = false
is_gone none (endpoint dev ino) = false
is_gone (some (dev', ino')) (endpoint dev ino) = not (dev == dev' && ino == ino')

-- `disconnected` behind the read or the sleep of a round.
abbrev pub disconnects : StreamRead → Bool → Bool
disconnects ends disconnected = true
disconnects gives disconnected = disconnected
disconnects waits disconnected = disconnected
disconnects fails disconnected = true

unfoldable pub stop_loop : Option (ℕ × ℕ) → Bool → List Round → Waited
stop_loop identity disconnected [] = waiting disconnected
stop_loop identity disconnected (r ∷ rs) =
    let rest = stop_loop identity (disconnected || disconnects r.read disconnected) rs in
    if is_gone identity r.metadata then gone else if not r.time_left then timed_out else rest

-- What `cmd_stop` meets: the socket's identity before it connects, whether it can connect, whether its two
-- frames are written, and what the broker answers.
pub record Setting : Type 0 where
  pub identity : Option (ℕ × ℕ)
  pub connects : Bool
  pub writes_hello : Bool
  pub socket : Source
  pub writes_shutdown : Bool

-- What it has sent and whether it fails, with exit code 1, or how its wait stands; the exit code is then 0.
pub data Stop : Type 0 where
  refuses : List Frame → Stop
  stops : List Frame → Waited → Stop

abbrev pub monitor_hello : Frame
monitor_hello = record { kind = MsgKind.hello; payload = encode_hello Role.monitor 1 1 }

abbrev pub shutdown_frame : Frame
shutdown_frame = record { kind = MsgKind.shutdown; payload = [] }

-- Whether the broker answers with HelloAck.
abbrev pub acknowledged : Result IoError (Option (Frame × Source)) → Bool
acknowledged (ok (some (f, rest))) = kind_byte f.kind == kind_byte MsgKind.hello_ack
acknowledged (ok none) = false
acknowledged (err e) = false

-- `args.first()` that is no option
abbrev pub has_session : List Text → Bool
has_session [] = false
has_session (id ∷ args) = not (starts_with (codes "-") id)

unfoldable pub cmd_stop : List Text → Setting → List Round → Stop
unfolding stop_loop
cmd_stop args s rounds =
    if not (has_session args)
    then refuses []
    else if not s.connects
    then refuses []
    else if not s.writes_hello
    then refuses []
    else if not (acknowledged (read_from s.socket))
    then refuses (monitor_hello ∷ [])
    else if not s.writes_shutdown
    then refuses (monitor_hello ∷ [])
    else stops (monitor_hello ∷ shutdown_frame ∷ []) (stop_loop s.identity false rounds)
