-- ===== src/Broker/Session/Attached.antt =====
-- A client of keepty/src/broker.rs from its joining on: the history, then every later chunk, with
-- no byte lost, repeated or out of order.
use keepty.Base.{
  ℕ, ◌-◌, ◌*◌, ◌≤◌, ◌≡◌, refl, ap, sym, ◌∙◌, Bool, true, false, List, [], ◌∷◌, ◌++◌, map, some,
  arith, if◌then◌else◌, subst, eq→==, length-drop, length, flatten, All, append_assoc, append-nil,
  not, ◌&&◌,
}
use mathlib.Core.List.{map-append}
use mathlib.Core.Option.{some-injective}
use keepty.Wire.{Role, Frame, MsgKind, encode, max_payload_size}
use keepty.Wire.Codec.{IsSmall}
use keepty.Broker.Ring.{recent}
use keepty.Broker.Ring.History.{Tracks, last_bytes, recent-Tracks}
use keepty.Broker.Queue.{new}
use keepty.Broker.Queue.View.{Token, byte, tokens, is}
use keepty.Broker.Replay.{output, replay_frames}
use keepty.Broker.Session.{
  BrokerState, Client, Terminal, find, remove, is_role, broadcast, pty_output,
}
use keepty.Broker.Session.Connect.{join, replay_data, try_send, send_each, modes}
use keepty.Broker.Session.Streams.{Feeds, sent-Feeds, replay_Feeds, try_send-Feeds}
use keepty.Broker.Session.Delivery.{broadcast_reaches, broadcast_keeps}

-- If client `id` is registered, its queue is open and it will read `toks`.
abbrev pub Hears : {S : Type 0} → BrokerState S → ℕ → List Token → Type 0
Hears b id toks = (c : Client) → find id b.clients ≡ some c → Feeds c.tx toks

greeting_parts :
    (writer : Bool) {past : List ℕ} (kept ms : List ℕ)
    → past ≡ kept
    → (if writer then past ++ ms else past) ≡ kept ++ (if writer then ms else [])
greeting_parts true kept ms e = ap (λ xs. xs ++ ms) e
greeting_parts false kept ms e = e ∙ sym (append-nil kept)

-- A replay, and for a Writer its modes behind it.
greeted :
    (writer : Bool) (past ms : List ℕ)
    → length past ≤ 14 * 1024 * 1024
    → length ms ≤ max_payload_size
    → Feeds
        (if writer
          then try_send (encode (output ms)) (send_each (replay_frames past) new)
          else send_each (replay_frames past) new)
        (map byte (if writer then past ++ ms else past))
greeted true past ms small ms_small =
    let (v, le) = replay_Feeds past (omega arith) in
    subst (Feeds (try_send (encode (output ms)) (send_each (replay_frames past) new)))
      (sym (map-append byte past ms))
      (try_send-Feeds _ (map byte past) ms v ms_small (omega (arith, le))).0
greeted false past ms small ms_small = (replay_Feeds past (omega arith)).0

module _ {S : Type 0} where
  -- One broadcast frame.
  broadcast-Hears :
      (f : Frame) (b : BrokerState S) (id : ℕ) (toks : List Token)
      → IsSmall f
      → (is MsgKind.exit f ≡ true → length f.payload ≡ 4)
      → Hears b id toks
      → Hears (broadcast (encode f) b) id (toks ++ tokens f)
  broadcast-Hears f b id toks small exit_size h c' after =
      let (c, before) = broadcast_keeps (encode f) b id c' after in
      let (sent, role) = broadcast_reaches (encode f) b id c c' before after in
      sent-Feeds c.tx c'.tx toks f (h c before) small exit_size sent

  pty_output-Hears :
      (t : Terminal S) (bytes : List ℕ) (b : BrokerState S) (id : ℕ) (toks : List Token)
      → length bytes ≤ max_payload_size
      → Hears b id toks
      → Hears (pty_output t bytes b) id (toks ++ map byte bytes)
  unfolding pty_output
  pty_output-Hears t bytes b id toks small h =
      broadcast-Hears (output bytes) _ id toks small (λ e. cc e) h

  -- Chunks of output, one after another.
  abbrev pub outputs : Terminal S → List (List ℕ) → BrokerState S → BrokerState S
  outputs t [] b = b
  outputs t (c ∷ cs) b = outputs t cs (pty_output t c b)

  outputs-Hears :
      (t : Terminal S) (cs : List (List ℕ)) (b : BrokerState S) (id : ℕ) (toks : List Token)
      → All (λ c. length c ≤ max_payload_size) cs
      → Hears b id toks
      → Hears (outputs t cs b) id (toks ++ map byte (flatten cs))
  outputs-Hears t [] b id toks small h = subst (Hears b id) (sym (append-nil toks)) h
  outputs-Hears t (c ∷ cs) b id toks small h =
      subst (Hears (outputs t (c ∷ cs) b) id)
        (append_assoc toks (map byte c) (map byte (flatten cs))
          ∙ ap (◌++◌ toks) (sym (map-append byte c (flatten cs))))
        (outputs-Hears t cs _ id _ small.1 (pty_output-Hears t c b id toks small.0 h))

  -- What a joining client is sent: the replay, and for a Writer the input modes.
  abbrev pub greeting : Terminal S → Role → BrokerState S → List ℕ
  greeting t role b =
      if is_role role Role.writer then replay_data t role b ++ modes t b else replay_data t role b

  join-Hears :
      (t : Terminal S) (id : ℕ) (role : Role) (b : BrokerState S)
      → length (replay_data t role b) ≤ 14 * 1024 * 1024
      → length (modes t b) ≤ max_payload_size
      → Hears (join t id role b) id (map byte (greeting t role b))
  unfolding join find
  join-Hears t id role b small modes_small c e =
      let replayed = send_each (replay_frames (replay_data t role b)) new in
      let queue =
        if is_role role Role.writer
        then try_send (encode (output (modes t b))) replayed
        else replayed in
      let same : record { tx = queue; role = role } ≡ c = some-injective _ _ (
        sym (
          ap
            (λ x.
              if x
              then some (record { tx = queue; role = role })
              else find id (remove id b.clients))
            (eq→== id id refl))
        ∙ e) in
      subst (λ (x : Client). Feeds x.tx (map byte (greeting t role b))) same
        (greeted (is_role role Role.writer) (replay_data t role b) (modes t b) small modes_small)

-- A client that joins while its screen is not replayed from a snapshot, and is still registered
-- after any chunks of output have been broadcast, has an open queue that carries, byte for byte:
-- the last bytes of the history, as many as the ring holds; for a Writer the input modes; and
-- then the chunks. The ring holds the history, and is a megabyte or less; the modes and each chunk
-- fit a frame.
pub outputs-join :
    {S : Type 0} (t : Terminal S) (id : ℕ) (role : Role) (b : BrokerState S) (history : List ℕ)
    (cs : List (List ℕ))
    → Tracks b.ring history
    → b.ring.capacity ≤ 1024 * 1024
    → (not (is_role role Role.writer) && t.alternate_screen b.screen) ≡ false
    → length (modes t b) ≤ max_payload_size
    → All (λ c. length c ≤ max_payload_size) cs
    → Hears (outputs t cs (join t id role b)) id (
        map byte (
          last_bytes b.ring.capacity history
          ++ (if is_role role Role.writer then modes t b else [])
          ++ flatten cs))
unfolding replay_data
outputs-join t id role b history cs tracks room plain modes_small small =
    let kept = last_bytes b.ring.capacity history in
    let past : replay_data t role b ≡ kept =
      ap
        (λ x.
          if x
          then 0x1b ∷ b'[' ∷ b'?' ∷ b'1' ∷ b'0' ∷ b'4' ∷ b'9' ∷ b'h' ∷ t.state_formatted b.screen
          else recent b.ring)
        plain
      ∙ recent-Tracks b.ring history tracks in
    let mode = if is_role role Role.writer then modes t b else [] in
    let bound : length (replay_data t role b) ≤ 14 * 1024 * 1024 = omega (
      arith,
      ap (λ (xs : List ℕ). length xs) past,
      length-drop (length history - b.ring.capacity) history,
      room,
    ) in
    subst (Hears (outputs t cs (join t id role b)) id)
      (ap (λ x. map byte x ++ map byte (flatten cs))
          (greeting_parts (is_role role Role.writer) kept (modes t b) past)
        ∙ sym (map-append byte (kept ++ mode) (flatten cs)))
      (outputs-Hears t cs (join t id role b) id _ small (join-Hears t id role b bound modes_small))
