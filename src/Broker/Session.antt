-- ===== src/Broker/Session.antt =====
-- The shared state of keepty/src/broker.rs and the parts of its threads that run under one lock or
-- as one atomic operation: `BrokerState`, registering and removing clients, broadcasting.
-- The shadow screen is the vt100 crate's; the PTY is the operating system's: of it the model keeps
-- the bytes written to it and the sizes set on it, in order.
pub mod Connect
pub mod Frames
pub mod System
pub mod Quiet
pub mod Roles
pub mod Connections
pub mod Confined
pub mod Streams
pub mod Delivery
pub mod Attached
pub mod Exit
mod Tests
use keepty.Base.{
  ℕ, ◌+◌, ◌-◌, ◌*◌, Bool, true, false, List, [], ◌∷◌, ◌++◌, map, Option, none, some, ◌==◌,
  if◌then◌else◌,
}
use keepty.Base.Int.{ℤ}
use keepty.Wire.{Role, role_byte, Frame, MsgKind, encode}
use keepty.Wire.Messages.{encode_exit}
use keepty.Broker.Ring.{RingBuffer}
use keepty.Broker.Ring
use keepty.Broker.Queue.{Pending, send, close}
use keepty.Broker.Replay.{output}

-- What the broker uses of the vt100 crate's parser and screen.
pub record Terminal (Screen : Type 0) : Type 0 where
  pub process : List ℕ → Screen → Screen
  pub set_size : ℕ → ℕ → Screen → Screen
  pub alternate_screen : Screen → Bool
  pub state_formatted : Screen → List ℕ
  pub input_mode_formatted : Screen → List ℕ

-- `ClientSender`
pub record Client : Type 0 where
  pub tx : Pending
  pub role : Role

-- The pseudo-terminal once it is open.
pub record Pty : Type 0 where
  pub input : List ℕ
  pub sizes : List (ℕ × ℕ)

-- `BrokerState`, with `OutputState` (`clients`, `ring`) and the values that the threads of `run`
-- share beside it: `spawned`, the PTY, the child. A removed client's queue is closed and moves to
-- `dropped`, where its drain thread still empties it. `nudges` are the waiting nudge threads.
pub record BrokerState (Screen : Type 0) : Type 0 where
  pub clients : List (ℕ × Client)
  pub dropped : List (ℕ × Pending)
  pub ring : RingBuffer
  pub writer_id : ℕ
  pub next_client_id : ℕ
  pub screen : Screen
  pub running : Bool
  pub pty_pid : ℕ
  pub cols : ℕ
  pub rows : ℕ
  pub resize_gen : ℕ
  pub active_connections : ℕ
  pub spawned : Bool
  pub pty : Option Pty
  pub nudges : List ℕ

abbrev pub max_connections : ℕ
max_connections = 32

abbrev pub is_role : Role → Role → Bool
is_role a b = role_byte a == role_byte b

module _ {S : Type 0} where
  -- The state that `run` sets up.
  abbrev pub start : S → ℕ → ℕ → BrokerState S
  start screen cols rows = record {
    clients = [];
    dropped = [];
    ring = Ring.new (1024 * 1024);
    writer_id = 0;
    next_client_id = 1;
    screen = screen;
    running = true;
    pty_pid = 0;
    cols = cols;
    rows = rows;
    resize_gen = 0;
    active_connections = 0;
    spawned = false;
    pty = none;
    nudges = [];
  }

-- `HashMap::get` and `HashMap::remove`
unfoldable pub find {ℓ} : {A : Type ℓ} → ℕ → List (ℕ × A) → Option A
find k [] = none
find k ((j, a) ∷ m) = if j == k then some a else find k m

unfoldable pub remove {ℓ} : {A : Type ℓ} → ℕ → List (ℕ × A) → List (ℕ × A)
remove k [] = []
remove k ((j, a) ∷ m) = if j == k then remove k m else (j, a) ∷ remove k m

-- `AtomicU32::compare_exchange`: the value behind it.
abbrev pub compare_exchange : ℕ → ℕ → ℕ → ℕ
compare_exchange current new value = if value == current then new else value

-- The loop over the clients in a broadcast: the queues behind it, and the clients that refused.
unfoldable pub send_all : List ℕ → List (ℕ × Client) → List (ℕ × Client) × List ℕ
send_all encoded [] = ([], [])
send_all encoded ((id, c) ∷ cs) =
    let (cs', dead) = send_all encoded cs in
    elim (send encoded c.tx) [
      | some q ↦ ((id, record c { tx = q }) ∷ cs', dead)
      | none ↦ ((id, c) ∷ cs', id ∷ dead)
    ]

module _ {S : Type 0} where
  unfoldable pub drop_found : ℕ → Option Client → BrokerState S → BrokerState S
  drop_found id none s = s
  drop_found id (some c) s = record s {
    clients = remove id s.clients;
    dropped = (id, close c.tx) ∷ s.dropped;
  }

  -- `out.clients.remove(&id)`; dropping the `ClientSender` closes its queue.
  unfoldable pub drop_client : ℕ → BrokerState S → BrokerState S
  unfolding drop_found
  drop_client id s = drop_found id (find id s.clients) s

  -- A client whose queue refused: removed, and no longer the writer.
  unfoldable pub evict : List ℕ → BrokerState S → BrokerState S
  evict [] s = s
  evict (id ∷ dead) s =
      evict dead (record (drop_client id s) {
        writer_id = compare_exchange id 0 (drop_client id s).writer_id;
      })

  -- One encoded frame to every client, under the output lock.
  unfoldable pub broadcast : List ℕ → BrokerState S → BrokerState S
  broadcast encoded s =
      let (cs, dead) = send_all encoded s.clients in evict dead (record s { clients = cs })

  -- Setting the PTY's size, where there is a PTY.
  abbrev pub pty_resize : ℕ → ℕ → BrokerState S → BrokerState S
  pty_resize cols rows s = record s {
    pty = elim s.pty [
      | none ↦ none
      | some p ↦ some (record p { sizes = p.sizes ++ (cols, rows) ∷ [] })
    ];
  }

  -- The double resize that makes the child draw again: one column fewer and back.
  abbrev pub nudge_size : BrokerState S → BrokerState S
  nudge_size s = pty_resize s.cols s.rows (pty_resize (s.cols - 1) s.rows s)

  -- The end of the reader thread: end of file or an error.
  abbrev pub pty_end : BrokerState S → BrokerState S
  pty_end s = record s { running = false }

  -- A chunk that `start_pty_reader`'s thread has read, under the screen and output locks.
  unfoldable pub pty_output : Terminal S → List ℕ → BrokerState S → BrokerState S
  pty_output t bytes s =
      broadcast (encode (output bytes))
        (record s { screen = t.process bytes s.screen; ring = Ring.push bytes s.ring })

unfoldable pub exit_sent : ℕ → List ℕ → ℕ × Client → ℕ × Pending
exit_sent deadline encoded (id, c) =
    let q = record (c.tx) { shutdown_deadline = some deadline } in
    (id, close (elim (send encoded q) [ none ↦ q | some q' ↦ q' ]))

module _ {S : Type 0} where
  -- The end of `run`: Exit to every client with the deadline set, then every sender is dropped.
  unfoldable pub broadcast_exit : ℕ → ℤ → BrokerState S → BrokerState S
  unfolding exit_sent
  broadcast_exit deadline exit_code s =
      let encoded = encode (record { kind = MsgKind.exit; payload = encode_exit exit_code }) in
      record s {
        running = false;
        clients = [];
        dropped = map (exit_sent deadline encoded) s.clients ++ s.dropped;
      }
