-- ===== src/Broker/Session/Roles.antt =====
-- Who may do what in keepty/src/broker.rs: the writer is a Writer, and nobody else reaches the PTY.
use keepty.Base.{
  ℕ, ◌+◌, ◌-◌, ◌≤◌, Bool, leb, ◌≡◌, ◌≢◌, refl, ap, sym, ◌∙◌, ◌⊎◌, inl, inr, Option, none, some,
  arith, ◌==◌, if◌then◌else◌, subst, ne→==, if-satisfies,
}
use keepty.Wire.{Role}
use mathlib.Core.Option.{some-ne-none}
use keepty.Broker.Session.{BrokerState, Terminal, find, max_connections}
use keepty.Broker.Session.Connect.{take_over, admit}
use keepty.Broker.Session.Frames.{leave}
use keepty.Broker.Session.System.{
  System, Event, accepts, slot_freed, reader_ends, connects, opens, claims, registers_first,
  launches, takes_over, joins, rejoins, receives, drains, leaves, reads, exits, Allowed, fire,
  initial, update, Reach, here, next,
}
use keepty.Broker.Session.Quiet.{
  Quiet, drain_found-Quiet, broadcast_exit-Quiet, join-Quiet, launch-Quiet, rejoin_nudge-Quiet,
  pty_output-Quiet, open_session-Quiet, on_frame-Quiet, drop_client-Quiet,
}

-- No writer, or the id of a client that connected as Writer.
abbrev pub WriterOrNone : (ℕ → Option Role) → ℕ → Type 0
WriterOrNone role_of id = (id ≡ 0) ⊎ (role_of id ≡ some Role.writer)

pub record Sound {S : Type 0} (s : System S) : Type 0 where
  pub counted : 1 ≤ s.broker.next_client_id
  pub nobody : s.role_of 0 ≡ none
  pub fresh : (id : ℕ) → s.broker.next_client_id ≤ id → s.role_of id ≡ none
  pub writer : WriterOrNone s.role_of s.broker.writer_id
  pub previous : (id : ℕ) → WriterOrNone s.role_of (s.previous_of id)

update-ne {ℓ} : {A : Type ℓ} (f : ℕ → A) (k : ℕ) (v : A) (j : ℕ) → j ≢ k → update f k v j ≡ f j
update-ne f k v j h = ap (λ c. if c then v else f j) (ne→== j k h)

-- A new client takes nobody's id.
update-WriterOrNone :
    (role_of : ℕ → Option Role) (id w : ℕ) (role : Role)
    → role_of id ≡ none
    → WriterOrNone role_of w
    → WriterOrNone (update role_of id (some role)) w
update-WriterOrNone role_of id w role new (inl z) = inl z
update-WriterOrNone role_of id w role new (inr h) =
    inr (update-ne role_of id (some role) w (λ e. some-ne-none _ (sym h ∙ ap role_of e ∙ new)) ∙ h)

module _ {S : Type 0} where
  Quiet-Sound :
      (s : System S) (b' : BrokerState S)
      → Quiet s.broker b'
      → Sound s
      → Sound (record s { broker = b' })
  Quiet-Sound s b' q v = record {
    counted = omega (arith, q.ids, v.counted);
    nobody = v.nobody;
    fresh = λ id le. v.fresh id (omega (arith, q.ids));
    writer = elim q.same_or_none [
      | inl same ↦ elim v.writer [ inl z ↦ inl (same ∙ z) | inr w ↦ inr (ap s.role_of same ∙ w) ]
      | inr z ↦ inl z
    ];
    previous = v.previous;
  }

  -- Nothing of it depends on the count of connections.
  counted-Sound :
      (s : System S) (n m : ℕ)
      → Sound s
      → Sound (record s { broker = record (s.broker) { active_connections = n }; slots = m })
  counted-Sound s n m v = record {
    counted = v.counted;
    nobody = v.nobody;
    fresh = v.fresh;
    writer = v.writer;
    previous = v.previous;
  }

  -- A Writer takes the place of the writer, whom its handler remembers.
  claimed-Sound :
      (s : System S) (id : ℕ) (b : BrokerState S)
      → s.role_of id ≡ some Role.writer
      → b.writer_id ≡ id
      → b.next_client_id ≡ s.broker.next_client_id
      → Sound s
      → Sound (record s { broker = b; previous_of = update s.previous_of id s.broker.writer_id })
  claimed-Sound s id b h w n v = record {
    counted = omega (arith, n, v.counted);
    nobody = v.nobody;
    fresh = λ i le. v.fresh i (omega (arith, n));
    writer = inr (ap s.role_of w ∙ h);
    previous = λ i. if-satisfies (WriterOrNone s.role_of) (i == id) _ _ v.writer (v.previous i);
  }

  leave-Sound :
      (id : ℕ) (s : System S)
      → Sound s
      → Sound (record s { broker = leave id (s.previous_of id) s.broker })
  unfolding leave
  leave-Sound id s v =
      let w = drop_client-Quiet id s.broker in
      record {
        counted = omega (arith, w.1, v.counted);
        nobody = v.nobody;
        fresh = λ i le. v.fresh i (omega (arith, w.1));
        writer =
            if-satisfies (WriterOrNone s.role_of) _ _ _ (v.previous id)
              (subst (WriterOrNone s.role_of) (sym w.0) v.writer);
        previous = v.previous;
      }

  fire-Sound :
      (t : Terminal S) (e : Event) (s : System S) → Allowed e s → Sound s → Sound (fire t e s)
  unfolding fire take_over admit
  fire-Sound t accepts s h v =
      if-satisfies
        (λ (p : Bool × BrokerState S).
          Sound (record s { broker = p.1; slots = if p.0 then s.slots + 1 else s.slots }))
        (leb max_connections s.broker.active_connections) _ _
        (counted-Sound s s.broker.active_connections s.slots v) (counted-Sound s _ (s.slots + 1) v)
  fire-Sound t slot_freed s h v = counted-Sound s _ (s.slots - 1) v
  fire-Sound t reader_ends s h v =
      Quiet-Sound s _ record { ids = refl; same_or_none = inl refl; connections = refl } v
  fire-Sound t (connects role) s h v = record {
    counted = omega (arith, v.counted, h);
    nobody =
        update-ne s.role_of s.broker.next_client_id (some role) 0 (omega (arith, v.counted))
        ∙ v.nobody;
    fresh = λ i le.
        update-ne s.role_of s.broker.next_client_id (some role) i (omega (arith, h, le))
        ∙ v.fresh i (omega (arith, h, le));
    writer =
        update-WriterOrNone s.role_of s.broker.next_client_id s.broker.writer_id role
          (v.fresh s.broker.next_client_id (omega arith)) v.writer;
    previous = λ i.
        update-WriterOrNone s.role_of _ _ role (v.fresh s.broker.next_client_id (omega arith)) (
          if-satisfies (WriterOrNone s.role_of) (i == s.broker.next_client_id) _ _ (inl refl)
            (v.previous i));
  }
  fire-Sound t (opens opened cols rows) s h v =
      Quiet-Sound s _ (open_session-Quiet t opened cols rows s.broker) v
  fire-Sound t (claims id) s h v = claimed-Sound s id _ h refl refl v
  fire-Sound t (registers_first id) s h v =
      Quiet-Sound s _ record { ids = refl; same_or_none = inl refl; connections = refl } v
  fire-Sound t (launches result) s h v = Quiet-Sound s _ (launch-Quiet result s.broker) v
  fire-Sound t (takes_over id cols rows) s h v = claimed-Sound s id _ h refl refl v
  fire-Sound t (joins id role) s h v = Quiet-Sound s _ (join-Quiet t id role s.broker) v
  fire-Sound t (rejoins role) s h v = Quiet-Sound s _ (rejoin_nudge-Quiet role s.broker) v
  fire-Sound t (receives id role f) s h v = Quiet-Sound s _ (on_frame-Quiet t id role f s.broker) v
  fire-Sound t (drains id now) s h v =
      Quiet-Sound s _ (drain_found-Quiet id now (find id s.broker.clients) s.broker) v
  fire-Sound t (leaves id) s h v = leave-Sound id s v
  fire-Sound t (reads bytes) s h v = Quiet-Sound s _ (pty_output-Quiet t bytes s.broker) v
  fire-Sound t (exits deadline code) s h v =
      Quiet-Sound s _ (broadcast_exit-Quiet deadline code s.broker) v

  Reach-Sound_from : (t : Terminal S) {s u : System S} → Reach t s u → Sound s → Sound u
  Reach-Sound_from t here v = v
  Reach-Sound_from t (next e r h) v = fire-Sound t e _ h (Reach-Sound_from t r v)

  initial-Sound : (screen : S) (cols rows : ℕ) → Sound (initial screen cols rows)
  initial-Sound screen cols rows = record {
    counted = omega arith;
    nobody = refl;
    fresh = λ id le. refl;
    writer = inl refl;
    previous = λ id. inl refl;
  }

  -- In every state that the threads reach from the start, in any interleaving, the writer's id is 0
  -- or the id of a client that connected as Writer, the same holds of the writer that each handler
  -- would hand back to, ids not yet given out have no role, and 0 is nobody's id.
  pub Reach-Sound :
      (t : Terminal S) (screen : S) (cols rows : ℕ) (s : System S)
      → Reach t (initial screen cols rows) s
      → Sound s
  Reach-Sound t screen cols rows s r = Reach-Sound_from t r (initial-Sound screen cols rows)
