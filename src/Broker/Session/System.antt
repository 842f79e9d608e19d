-- ===== src/Broker/Session/System.antt =====
-- The threads of keepty/src/broker.rs together: the accept loop, a handler and a drain thread for
-- each client, the PTY reader and the main thread, interleaved at their atomic parts.
use keepty.Base.{
  ℕ, ◌+◌, ◌-◌, ◌^◌, ◌≤◌, ◌<◌, ◌≡◌, Bool, false, List, ◌∷◌, Option, none, some, length, ◌==◌,
  if◌then◌else◌,
}
use keepty.Base.Int.{ℤ}
use keepty.Wire.{Role, Frame}
use keepty.Broker.Queue.{recv}
use keepty.Broker.Queue.Recv.{queue_of}
use keepty.Broker.Session.{
  BrokerState, Client, Terminal, start, find, remove, pty_output, pty_end, broadcast_exit,
}
use keepty.Broker.Session.Connect.{
  admit, release, assign_id, open_session, claim_writer, take_over, register_first, launch, join,
  rejoin_nudge,
}
use keepty.Broker.Session.Frames.{on_frame, leave}

-- The shared state, with what the threads keep: the `ConnectionSlot`s that are held, and of each
-- handler its client's role and the writer before it. Client ids count up from 1, so both are tables
-- by id.
pub record System (S : Type 0) : Type 0 where
  pub broker : BrokerState S
  pub slots : ℕ
  pub role_of : ℕ → Option Role
  pub previous_of : ℕ → ℕ

abbrev pub update {ℓ} : {A : Type ℓ} → (ℕ → A) → ℕ → A → ℕ → A
update f k v j = if j == k then v else f j

-- One atomic part of some thread. `leaves` is the clean-up of a handler or of a drain thread.
pub data Event : Type 0 where
  accepts slot_freed reader_ends : Event
  connects : Role → Event
  opens : Bool → ℕ → ℕ → Event
  claims : ℕ → Event
  registers_first : ℕ → Event
  launches : Option ℕ → Event
  takes_over : ℕ → ℕ → ℕ → Event
  joins : ℕ → Role → Event
  rejoins : Role → Event
  receives : ℕ → Role → Frame → Event
  drains : ℕ → ℕ → Event
  leaves : ℕ → Event
  reads : List ℕ → Event
  exits : ℕ → ℤ → Event

-- What holds of an event by the thread that it belongs to: only a slot that is held is dropped. An id is given out below 2 ^ 32.
abbrev pub Allowed : {S : Type 0} → Event → System S → Type 0
Allowed accepts s = Unit {0}
Allowed slot_freed s = 1 ≤ s.slots
Allowed reader_ends s = Unit {0}
Allowed (connects role) s = s.broker.next_client_id + 1 < 2 ^ 32
Allowed (opens opened cols rows) s = s.broker.spawned ≡ false
Allowed (claims id) s = s.role_of id ≡ some Role.writer
Allowed (registers_first id) s = s.role_of id ≡ some Role.writer
Allowed (launches result) s = Unit {0}
Allowed (takes_over id cols rows) s = s.role_of id ≡ some Role.writer
Allowed (joins id role) s = s.role_of id ≡ some role
Allowed (rejoins role) s = Unit {0}
Allowed (receives id role f) s = s.role_of id ≡ some role
Allowed (drains id now) s = Unit {0}
Allowed (leaves id) s = Unit {0}
Allowed (reads bytes) s = length bytes ≤ 16384
Allowed (exits deadline code) s = Unit {0}

module _ {S : Type 0} where
  -- The drain thread of a registered client takes a frame off its queue.
  unfoldable pub drain_found : ℕ → ℕ → Option Client → BrokerState S → BrokerState S
  drain_found id now none b = b
  drain_found id now (some c) b = record b {
    clients = (id, record c { tx = queue_of (recv now c.tx) }) ∷ remove id b.clients;
  }

  abbrev with_previous : ℕ → System S → ℕ × BrokerState S → System S
  with_previous id s (previous, b) = record s {
    broker = b;
    previous_of = update s.previous_of id previous;
  }

  unfoldable pub fire : Terminal S → Event → System S → System S
  unfolding drain_found
  fire t accepts s =
      let (admitted, b) = admit s.broker in
      record s { broker = b; slots = if admitted then s.slots + 1 else s.slots }
  fire t slot_freed s = record s { broker = release s.broker; slots = s.slots - 1 }
  fire t reader_ends s = record s { broker = pty_end s.broker }
  fire t (connects role) s =
      let (id, b) = assign_id s.broker in
      record s {
        broker = b;
        role_of = update s.role_of id (some role);
        previous_of = update s.previous_of id 0;
      }
  fire t (opens opened cols rows) s = record s { broker = open_session t opened cols rows s.broker }
  fire t (claims id) s = with_previous id s (claim_writer id s.broker)
  fire t (registers_first id) s = record s { broker = register_first id s.broker }
  fire t (launches result) s = record s { broker = launch result s.broker }
  fire t (takes_over id cols rows) s = with_previous id s (take_over id cols rows s.broker)
  fire t (joins id role) s = record s { broker = join t id role s.broker }
  fire t (rejoins role) s = record s { broker = rejoin_nudge role s.broker }
  fire t (receives id role f) s = record s { broker = (on_frame t id role f s.broker).1 }
  fire t (drains id now) s = record s {
    broker = drain_found id now (find id s.broker.clients) s.broker;
  }
  fire t (leaves id) s = record s { broker = leave id (s.previous_of id) s.broker }
  fire t (reads bytes) s = record s { broker = pty_output t bytes s.broker }
  fire t (exits deadline code) s = record s { broker = broadcast_exit deadline code s.broker }

  -- A system before any connection.
  abbrev pub initial : S → ℕ → ℕ → System S
  initial screen cols rows = record {
    broker = start screen cols rows;
    slots = 0;
    role_of = λ id. none;
    previous_of = λ id. 0;
  }

-- The states that the threads can bring the broker to, in any interleaving.
pub data Reach {S : Type 0} (t : Terminal S) (s : System S) : System S → Type 0 where
  here : Reach t s s
  next : {u : System S} (e : Event) → Reach t s u → Allowed e u → Reach t s (fire t e u)
