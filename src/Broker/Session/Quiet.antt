-- ===== src/Broker/Session/Quiet.antt =====
-- Which operations of keepty/src/broker.rs leave the client counter and the writer alone.
use keepty.Base.{
  ℕ, ◌≡◌, refl, ◌∙◌, ◌⊎◌, inl, Bool, true, false, List, [], ◌∷◌, Option, none, some, arith,
  if◌then◌else◌,
}
use keepty.Base.Int.{ℤ}
use keepty.Wire.{Role, Frame, MsgKind}
use keepty.Wire.Messages.{decode_resize}
use mathlib.Core.Bool.{◌&&◌}
use keepty.Broker.Session.{
  is_role, BrokerState, Client, Terminal, find, drop_found, drop_client, evict, broadcast, send_all,
  pty_output, broadcast_exit,
}
use keepty.Broker.Session.Connect.{open_session, launch, join, rejoin_nudge}
use keepty.Broker.Session.Frames.{
  controls, on_frame, apply_resize, on_resize, on_input, on_shutdown, on_ping, pong_to,
  watcher_nudge,
}
use keepty.Broker.Session.System.{drain_found}

module _ {S : Type 0} where
  -- A change of the broker that gives out no id, counts no connection, and leaves the writer or clears it.
  pub record Quiet (b b' : BrokerState S) : Type 0 where
    pub ids : b'.next_client_id ≡ b.next_client_id
    pub same_or_none : (b'.writer_id ≡ b.writer_id) ⊎ (b'.writer_id ≡ 0)
    pub connections : b'.active_connections ≡ b.active_connections

  pub drop_found-Quiet :
      (id : ℕ) (found : Option Client) (b : BrokerState S)
      → ((drop_found id found b).writer_id ≡ b.writer_id)
        × ((drop_found id found b).next_client_id ≡ b.next_client_id)
        × ((drop_found id found b).active_connections ≡ b.active_connections)
  unfolding drop_found
  drop_found-Quiet id none b = (refl, refl, refl)
  drop_found-Quiet id (some c) b = (refl, refl, refl)

  pub drop_client-Quiet :
      (id : ℕ) (b : BrokerState S)
      → ((drop_client id b).writer_id ≡ b.writer_id)
        × ((drop_client id b).next_client_id ≡ b.next_client_id)
        × ((drop_client id b).active_connections ≡ b.active_connections)
  unfolding drop_client
  drop_client-Quiet id b = drop_found-Quiet id (find id b.clients) b

  pub evict-Quiet : (dead : List ℕ) (b b' : BrokerState S) → Quiet b b' → Quiet b (evict dead b')
  unfolding evict
  evict-Quiet [] b b' q = q
  evict-Quiet (id ∷ dead) b b' q =
      let w = drop_client-Quiet id b' in
      evict-Quiet dead b _ record {
        ids = w.1 ∙ q.ids;
        same_or_none = ground (arith, w.0, q.same_or_none);
        connections = w.2 ∙ q.connections;
      }

  pub broadcast-Quiet :
      (encoded : List ℕ) (b b' : BrokerState S) → Quiet b b' → Quiet b (broadcast encoded b')
  unfolding broadcast
  broadcast-Quiet encoded b b' q =
      evict-Quiet (send_all encoded b'.clients).1 b _
        record { ids = q.ids; same_or_none = q.same_or_none; connections = q.connections }

  pub apply_resize-Quiet :
      (t : Terminal S) (c r : ℕ) (b : BrokerState S) → Quiet b (apply_resize t c r b)
  unfolding apply_resize
  apply_resize-Quiet t c r b =
      let q =
        broadcast-Quiet _ b _ record { ids = refl; same_or_none = inl refl; connections = refl } in
      record { ids = q.ids; same_or_none = q.same_or_none; connections = q.connections }

  pub unchanged : (b : BrokerState S) → Quiet b b
  unchanged b = record { ids = refl; same_or_none = inl refl; connections = refl }

  pub watcher_nudge-Quiet : (c : ℕ) (b : BrokerState S) → Quiet b (watcher_nudge c b)
  unfolding watcher_nudge
  watcher_nudge-Quiet c b = ground arith

  pub on_input-Quiet :
      (id : ℕ) (payload : List ℕ) (b : BrokerState S) → Quiet b (on_input id payload b)
  unfolding on_input
  on_input-Quiet id payload b = ground arith

  pub pong_to-Quiet :
      (id : ℕ) (found : Option Client) (b : BrokerState S) → Quiet b (pong_to id found b).1
  unfolding pong_to
  pong_to-Quiet id none b = unchanged b
  pong_to-Quiet id (some c) b = ground (arith, drop_client-Quiet id b)

  pub if-Quiet :
      (c : Bool) (b x y : BrokerState S) → Quiet b x → Quiet b y → Quiet b (if c then x else y)
  if-Quiet true b x y hx hy = hx
  if-Quiet false b x y hx hy = hy

  pub decoded-Quiet :
      (o : Option (ℕ × ℕ)) (f : ℕ × ℕ → BrokerState S) (b : BrokerState S)
      → ((x : ℕ × ℕ) → Quiet b (f x))
      → Quiet b (elim o [ none ↦ b | some x ↦ f x ])
  decoded-Quiet none f b h = unchanged b
  decoded-Quiet (some x) f b h = h x

  pub on_resize-Quiet :
      (t : Terminal S) (id : ℕ) (role : Role) (payload : List ℕ) (b : BrokerState S)
      → Quiet b (on_resize t id role payload b)
  unfolding on_resize
  on_resize-Quiet t id role payload b =
      if-Quiet (controls id b) b _ _
        (decoded-Quiet (decode_resize payload) (λ x. apply_resize t x.0 x.1 b) b
          (λ x. apply_resize-Quiet t x.0 x.1 b))
        (if-Quiet (is_role role Role.watcher && b.spawned) b _ _
          (decoded-Quiet (decode_resize payload) (λ x. watcher_nudge x.0 b) b
            (λ x. watcher_nudge-Quiet x.0 b))
          (unchanged b))

  pub on_shutdown-Quiet :
      (id : ℕ) (role : Role) (b : BrokerState S) → Quiet b (on_shutdown id role b).1
  unfolding on_shutdown
  on_shutdown-Quiet id role b = ground arith

  pub on_frame-Quiet :
      (t : Terminal S) (id : ℕ) (role : Role) (f : Frame) (b : BrokerState S)
      → Quiet b (on_frame t id role f b).1
  unfolding on_frame on_ping
  on_frame-Quiet t id role f b =
      elim f.kind as (λ k. Quiet b (on_frame t id role (record f { kind = k }) b).1) [
        | MsgKind.input ↦ on_input-Quiet id f.payload b
        | MsgKind.resize ↦ on_resize-Quiet t id role f.payload b
        | MsgKind.shutdown ↦ on_shutdown-Quiet id role b
        | MsgKind.ping ↦ pong_to-Quiet id (find id b.clients) b
        | _ ↦ unchanged b
      ]

  pub pty_output-Quiet :
      (t : Terminal S) (bytes : List ℕ) (b : BrokerState S) → Quiet b (pty_output t bytes b)
  unfolding pty_output
  pty_output-Quiet t bytes b =
      broadcast-Quiet _ b _ record { ids = refl; same_or_none = inl refl; connections = refl }

  pub drain_found-Quiet :
      (id now : ℕ) (found : Option Client) (b : BrokerState S)
      → Quiet b (drain_found id now found b)
  unfolding drain_found
  drain_found-Quiet id now none b = unchanged b
  drain_found-Quiet id now (some c) b = record {
    ids = refl;
    same_or_none = inl refl;
    connections = refl;
  }

  pub launch-Quiet : (result : Option ℕ) (b : BrokerState S) → Quiet b (launch result b)
  unfolding launch
  launch-Quiet none b = unchanged b
  launch-Quiet (some pid) b = ground arith

  pub join-Quiet :
      (t : Terminal S) (id : ℕ) (role : Role) (b : BrokerState S) → Quiet b (join t id role b)
  unfolding join
  join-Quiet t id role b = record { ids = refl; same_or_none = inl refl; connections = refl }

  pub broadcast_exit-Quiet :
      (deadline : ℕ) (code : ℤ) (b : BrokerState S) → Quiet b (broadcast_exit deadline code b)
  unfolding broadcast_exit
  broadcast_exit-Quiet deadline code b = record {
    ids = refl;
    same_or_none = inl refl;
    connections = refl;
  }

  pub open_session-Quiet :
      (t : Terminal S) (opened : Bool) (cols rows : ℕ) (b : BrokerState S)
      → Quiet b (open_session t opened cols rows b)
  unfolding open_session
  open_session-Quiet t opened cols rows b = ground arith

  pub rejoin_nudge-Quiet : (role : Role) (b : BrokerState S) → Quiet b (rejoin_nudge role b)
  unfolding rejoin_nudge
  rejoin_nudge-Quiet role b = ground arith
