-- ===== src/Broker/Session/Connections.antt =====
-- The cap on connections in keepty/src/broker.rs: the accept loop's counter against the slots that are held.
use keepty.Base.{
  ℕ, ◌+◌, ◌≤◌, ◌≡◌, refl, ap, ◌∙◌, Bool, arith, leb, ltb, if◌then◌else◌, if-cases, leb→lt,
}
use keepty.Broker.Session.{BrokerState, Terminal, find, max_connections}
use keepty.Broker.Session.Connect.{admit, take_over}
use keepty.Broker.Session.Frames.{leave}
use keepty.Broker.Session.System.{
  System, Event, accepts, slot_freed, reader_ends, connects, opens, claims, registers_first,
  launches, takes_over, joins, rejoins, receives, drains, leaves, reads, exits, Allowed, fire,
  initial, Reach, here, next,
}
use keepty.Broker.Session.Quiet.{
  Quiet, drain_found-Quiet, broadcast_exit-Quiet, join-Quiet, launch-Quiet, rejoin_nudge-Quiet,
  pty_output-Quiet, open_session-Quiet, on_frame-Quiet, drop_client-Quiet,
}

-- The counter is the number of slots held, which is at most the cap.
pub record Counted {S : Type 0} (s : System S) : Type 0 where
  pub count : s.broker.active_connections ≡ s.slots
  pub capped : s.slots ≤ max_connections

module _ {S : Type 0} where
  Quiet-Counted :
      (s : System S) (b' : BrokerState S)
      → Quiet s.broker b'
      → Counted s
      → Counted (record s { broker = b' })
  Quiet-Counted s b' q v = record { count = q.connections ∙ v.count; capped = v.capped }

  leave-Counted :
      (id : ℕ) (s : System S)
      → Counted s
      → Counted (record s { broker = leave id (s.previous_of id) s.broker })
  unfolding leave
  leave-Counted id s v = record {
    count = (drop_client-Quiet id s.broker).2 ∙ v.count;
    capped = v.capped;
  }

  fire-Counted :
      (t : Terminal S) (e : Event) (s : System S) → Allowed e s → Counted s → Counted (fire t e s)
  unfolding fire take_over admit
  fire-Counted t accepts s h v =
      if-cases
        (λ (p : Bool × BrokerState S).
          Counted (record s { broker = p.1; slots = if p.0 then s.slots + 1 else s.slots }))
        (leb max_connections s.broker.active_connections) _ _
        (λ full. record { count = v.count; capped = v.capped })
        (λ free. record {
          count = omega (arith, v.count, v.capped);
          capped = omega (arith, v.count, leb→lt _ _ free);
        })
  fire-Counted t slot_freed s h v = record {
    count = omega (arith, v.count, v.capped, h);
    capped = omega (arith, v.capped);
  }
  fire-Counted t reader_ends s h v = record { count = v.count; capped = v.capped }
  fire-Counted t (connects role) s h v = record { count = v.count; capped = v.capped }
  fire-Counted t (opens opened cols rows) s h v =
      Quiet-Counted s _ (open_session-Quiet t opened cols rows s.broker) v
  fire-Counted t (claims id) s h v = record { count = v.count; capped = v.capped }
  fire-Counted t (registers_first id) s h v = record { count = v.count; capped = v.capped }
  fire-Counted t (launches result) s h v = Quiet-Counted s _ (launch-Quiet result s.broker) v
  fire-Counted t (takes_over id cols rows) s h v = record { count = v.count; capped = v.capped }
  fire-Counted t (joins id role) s h v = Quiet-Counted s _ (join-Quiet t id role s.broker) v
  fire-Counted t (rejoins role) s h v = Quiet-Counted s _ (rejoin_nudge-Quiet role s.broker) v
  fire-Counted t (receives id role f) s h v =
      Quiet-Counted s _ (on_frame-Quiet t id role f s.broker) v
  fire-Counted t (drains id now) s h v =
      Quiet-Counted s _ (drain_found-Quiet id now (find id s.broker.clients) s.broker) v
  fire-Counted t (leaves id) s h v = leave-Counted id s v
  fire-Counted t (reads bytes) s h v = Quiet-Counted s _ (pty_output-Quiet t bytes s.broker) v
  fire-Counted t (exits deadline code) s h v =
      Quiet-Counted s _ (broadcast_exit-Quiet deadline code s.broker) v

  Reach-Counted_from : (t : Terminal S) {s u : System S} → Reach t s u → Counted s → Counted u
  Reach-Counted_from t here v = v
  Reach-Counted_from t (next e r h) v = fire-Counted t e _ h (Reach-Counted_from t r v)

  admit-ltb : (b : BrokerState S) → (admit b).0 ≡ ltb b.active_connections max_connections
  unfolding admit
  admit-ltb b = ground arith

  -- In every state that the threads reach from the start, in any interleaving, the counter of
  -- connections is the number of slots that are held, at most 32 are, and the accept loop lets the next connection in
  -- exactly if fewer are.
  pub Reach-Counted :
      (t : Terminal S) (screen : S) (cols rows : ℕ) (s : System S)
      → Reach t (initial screen cols rows) s
      → Counted s × ((admit s.broker).0 ≡ ltb s.slots max_connections)
  Reach-Counted t screen cols rows s r =
      let v = Reach-Counted_from t r (record { count = refl; capped = omega arith }) in
      (v, admit-ltb s.broker ∙ ap (λ n. ltb n max_connections) v.count)
