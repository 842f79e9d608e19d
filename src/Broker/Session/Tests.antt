-- ===== src/Broker/Session/Tests.antt =====
-- Runs of the broker, with a terminal whose screen is the bytes that it was fed.
use keepty.Base.{
  ℕ, ◌+◌, ◌-◌, ◌*◌, ◌/◌, ◌≡◌, ◌≤◌, refl, List, [], ◌∷◌, ◌++◌, some, false, arith, length, flatten,
  ltb, All, map,
}
use keepty.Wire.{Role, Frame, MsgKind, encode, max_payload_size}
use keepty.Wire.Codec.{IsSmall}
use keepty.Broker.Ring.{new, push, recent}
use keepty.Broker.Queue
use keepty.Broker.Queue.{send}
use keepty.Broker.Ring.History.{push_all, pushed_Tracks, last_bytes}
use keepty.Broker.Queue.View.{byte, stream}
use keepty.Broker.Replay.{chunks, output, replay_frames, replay_frames_lem, replayed}
use keepty.Broker.Session.{
  BrokerState, Terminal, start, find, remove, send_all, evict, broadcast, pty_output,
  max_connections,
}
use keepty.Broker.Session.Connect.{admit, join, modes, send_each, replay_data}
use keepty.Broker.Session.Frames.{on_frame}
use keepty.Broker.Session.System.{
  System, accepts, slot_freed, connects, claims, initial, fire, Reach, here, next,
}
use keepty.Broker.Session.Roles.{Sound, Reach-Sound}
use keepty.Broker.Session.Connections.{Counted, Reach-Counted}
use keepty.Broker.Session.Confined.{Untouched, on_frame-Untouched}
use keepty.Broker.Session.Attached.{Hears, outputs, outputs-join}

abbrev plain : Terminal (List ℕ)
plain = record {
  process = λ bytes screen. screen ++ bytes;
  set_size = λ rows cols screen. screen;
  alternate_screen = λ screen. false;
  state_formatted = λ screen. screen;
  input_mode_formatted = λ screen. b'm' ∷ [];
}

replay_frames_lem_example :
    (replay_frames (1 ∷ 2 ∷ []) ≡ map encode (replayed (1 ∷ 2 ∷ [])))
    × All IsSmall (replayed (1 ∷ 2 ∷ []))
    × (stream (replayed (1 ∷ 2 ∷ [])) ≡ map byte (1 ∷ 2 ∷ []))
    × (length (replay_frames (1 ∷ 2 ∷ [])) ≡ (2 + max_payload_size - 1) / max_payload_size)
replay_frames_lem_example = replay_frames_lem (1 ∷ 2 ∷ [])

-- A Writer and a Watcher have connected, and the Writer has claimed the session.
abbrev empty : System (List ℕ)
empty = initial [] 80 24

abbrev two_clients : System (List ℕ)
two_clients =
    fire plain (claims 1)
      (fire plain (connects Role.watcher) (fire plain (connects Role.writer) empty))

two_clients-Reach : Reach plain empty two_clients
unfolding fire
two_clients-Reach =
    next (claims 1)
      (next (connects Role.watcher) (next (connects Role.writer) here (omega arith)) (omega arith))
      refl

Reach-Sound_example : Sound two_clients
Reach-Sound_example = Reach-Sound plain [] 80 24 two_clients two_clients-Reach

-- Two connections, one of which has ended.
abbrev one_slot : System (List ℕ)
one_slot = fire plain slot_freed (fire plain accepts (fire plain accepts empty))

one_slot-Reach : Reach plain empty one_slot
unfolding fire admit
one_slot-Reach = next slot_freed (next accepts (next accepts here tt) tt) (omega arith)

Reach-Counted_example :
    Counted one_slot × ((admit one_slot.broker).0 ≡ ltb one_slot.slots max_connections)
Reach-Counted_example = Reach-Counted plain [] 80 24 one_slot one_slot-Reach

abbrev typed_x : Frame
typed_x = record { kind = MsgKind.input; payload = b'x' ∷ [] }

watcher_connected : two_clients.role_of 2 ≡ some Role.watcher
unfolding fire
watcher_connected = refl

on_frame-Untouched_example :
    Untouched Role.watcher MsgKind.input two_clients.broker
      (on_frame plain 2 Role.watcher typed_x two_clients.broker).1
on_frame-Untouched_example =
    on_frame-Untouched plain [] 80 24 two_clients two_clients-Reach 2 Role.watcher typed_x
      watcher_connected (λ e. cc e)

-- A ring of four slots, after ten bytes in three chunks.
abbrev before : List (List ℕ)
before = (1 ∷ 2 ∷ 3 ∷ 4 ∷ []) ∷ (5 ∷ 6 ∷ 7 ∷ 8 ∷ []) ∷ (9 ∷ 10 ∷ []) ∷ []

abbrev session : BrokerState (List ℕ)
session = record (start [] 80 24) { ring = push_all before (new 4) }

abbrev later : List (List ℕ)
later = (11 ∷ 12 ∷ []) ∷ (13 ∷ []) ∷ []

session_room : session.ring.capacity ≤ 1024 * 1024
session_room = omega (arith, (pushed_Tracks 4 before (omega arith) (omega arith)).1)

outputs-join_example : Hears (outputs plain later (join plain 7 Role.writer session)) 7 (
    map byte
      (last_bytes session.ring.capacity (flatten before) ++ modes plain session ++ flatten later))
outputs-join_example =
    outputs-join plain 7 Role.writer session (flatten before) later
      (pushed_Tracks 4 before (omega arith) (omega arith)).0 session_room refl (omega arith)
      (omega arith, (omega arith, tt))

-- What the newcomer's queue carries: the last four bytes, CAN and the modes, and the later output.
hears :
    outputs plain later (join plain 7 Role.writer session)
    ≡ record (outputs plain later (join plain 7 Role.writer session)) {
      clients =
          (
            7,
            record {
              tx = record Queue.new {
                frames = encode (output (7 ∷ 8 ∷ 9 ∷ 10 ∷ 24 ∷ b'm' ∷ 11 ∷ 12 ∷ 13 ∷ [])) ∷ [];
                bytes = 15;
              };
              role = Role.writer;
            },
          )
          ∷ [];
    }
unfolding join pty_output recent push new send encode find remove broadcast send_all evict
    replay_frames send_each replay_data chunks
hears = refl
