-- ===== src/Broker/Session/Confined.antt =====
-- Role enforcement in keepty/src/broker.rs: what a frame of a Watcher or a Monitor can change.
use keepty.Base.{
  ℕ, ◌≡◌, ◌≢◌, refl, ap, sym, ◌∙◌, ◌⊎◌, inl, inr, true, false, List, [], ◌∷◌, ◌&&◌, Option, none,
  some, arith, ◌==◌, if◌then◌else◌, subst, if-satisfies, if-cases, ◌||◌, option-satisfies,
}
use keepty.Broker.Queue.{send}
use mathlib.Core.Option.{some-ne-none, some-injective}
use keepty.Wire.{Role, Frame, MsgKind, encode}
use keepty.Wire.Messages.{decode_resize}
use keepty.Broker.Session.{
  nudge_size, remove, BrokerState, Client, Pty, Terminal, find, drop_found, drop_client, is_role,
}
use keepty.Broker.Session.Frames.{
  pty_write, Next, reads_on, breaks, returns, pong, controls, on_frame, on_resize, on_input,
  on_shutdown, on_ping, pong_to, watcher_nudge, apply_resize,
}
use keepty.Broker.Session.System.{System, initial, Reach}
use keepty.Broker.Session.Roles.{Reach-Sound}

-- What the child has been sent.
abbrev pub typed : Option Pty → List ℕ
typed none = []
typed (some p) = p.input

allowed :
    (id : ℕ) (role : Role) (w : ℕ)
    → w ≢ id
    → (w == id || (is_role role Role.monitor || w == 0)) ≡ true
    → (role ≡ Role.monitor) ⊎ (w ≡ 0)
allowed id Role.monitor w ne h = inl refl
allowed id Role.writer w ne h = inr (ground arith)
allowed id Role.watcher w ne h = inr (ground arith)

module _ {S : Type 0} where
  -- The child's input, its geometry and its screen, the history, and who writes are as before; the
  -- session is only stopped by a Shutdown, and that by a Monitor or with no writer there.
  pub record Untouched (role : Role) (kind : MsgKind) (b b' : BrokerState S) : Type 0 where
    pub input : typed b'.pty ≡ typed b.pty
    pub cols : b'.cols ≡ b.cols
    pub rows : b'.rows ≡ b.rows
    pub screen : b'.screen ≡ b.screen
    pub ring : b'.ring ≡ b.ring
    pub writer_id : b'.writer_id ≡ b.writer_id
    pub running :
        (b'.running ≡ b.running)
        ⊎ ((kind ≡ MsgKind.shutdown) × ((role ≡ Role.monitor) ⊎ (b.writer_id ≡ 0)))

  same : (role : Role) (kind : MsgKind) (b : BrokerState S) → Untouched role kind b b
  same role kind b = record {
    input = refl;
    cols = refl;
    rows = refl;
    screen = refl;
    ring = refl;
    writer_id = refl;
    running = inl refl;
  }

  typed_nudged :
      (b : BrokerState S) (pty : Option Pty)
      → typed (nudge_size (record b { pty = pty })).pty ≡ typed pty
  typed_nudged b none = refl
  typed_nudged b (some p) = refl

  nudged :
      (role : Role) (kind : MsgKind) (c : ℕ) (b : BrokerState S)
      → Untouched role kind b (watcher_nudge c b)
  unfolding watcher_nudge
  nudged role kind c b =
      if-satisfies (Untouched role kind b) _ (nudge_size b) b
        record {
          input = typed_nudged b b.pty;
          cols = refl;
          rows = refl;
          screen = refl;
          ring = refl;
          writer_id = refl;
          running = inl refl;
        }
        (same role kind b)

  dropped-Untouched :
      (role : Role) (kind : MsgKind) (id : ℕ) (found : Option Client) (b : BrokerState S)
      → Untouched role kind b (drop_found id found b)
  unfolding drop_found
  dropped-Untouched role kind id none b = same role kind b
  dropped-Untouched role kind id (some c) b = record {
    input = refl;
    cols = refl;
    rows = refl;
    screen = refl;
    ring = refl;
    writer_id = refl;
    running = inl refl;
  }

  pinged :
      (role : Role) (kind : MsgKind) (id : ℕ) (found : Option Client) (b : BrokerState S)
      → Untouched role kind b (pong_to id found b).1
  unfolding pong_to drop_client
  pinged role kind id none b = same role kind b
  pinged role kind id (some c) b =
      option-satisfies (λ (r : Next × BrokerState S). Untouched role kind b r.1)
        (send (encode pong) c.tx) (breaks, drop_client id b)
        (λ q. (reads_on, record b { clients = (id, record c { tx = q }) ∷ remove id b.clients }))
        (dropped-Untouched role kind id (find id b.clients) b)
        (λ q. record {
          input = refl;
          cols = refl;
          rows = refl;
          screen = refl;
          ring = refl;
          writer_id = refl;
          running = inl refl;
        })

  not_in_control : (id : ℕ) (b : BrokerState S) → b.writer_id ≢ id → controls id b ≡ false
  not_in_control id b h = ground arith

  stopped :
      (id : ℕ) (role : Role) (b : BrokerState S)
      → b.writer_id ≢ id
      → Untouched role MsgKind.shutdown b (on_shutdown id role b).1
  unfolding on_shutdown
  stopped id role b h =
      if-cases (λ (r : Next × BrokerState S). Untouched role MsgKind.shutdown b r.1) _
        (returns, record b { running = false }) (reads_on, b)
        (λ e. record {
          input = refl;
          cols = refl;
          rows = refl;
          screen = refl;
          ring = refl;
          writer_id = refl;
          running = inr (refl, allowed id role b.writer_id h e);
        })
        (λ e. same role MsgKind.shutdown b)

  sized :
      (t : Terminal S) (kind : MsgKind) (id : ℕ) (role : Role) (payload : List ℕ)
      (b : BrokerState S)
      → b.writer_id ≢ id
      → Untouched role kind b (on_resize t id role payload b)
  unfolding on_resize
  sized t kind id role payload b h =
      let resized : BrokerState S = elim (decode_resize payload) [
        | none ↦ b
        | some (cols, rows) ↦ apply_resize t cols rows b
      ] in
      let asked : BrokerState S = elim (decode_resize payload) [
        | none ↦ b
        | some (cols, rows) ↦ watcher_nudge cols b
      ] in
      subst
        (λ c.
          Untouched role kind b
            (if c then resized else if is_role role Role.watcher && b.spawned then asked else b))
        (sym (not_in_control id b h))
        (if-satisfies (Untouched role kind b) (is_role role Role.watcher && b.spawned) asked b
          (option-satisfies (Untouched role kind b) (decode_resize payload) b
            (λ x. watcher_nudge x.0 b) (same role kind b) (λ x. nudged role kind x.0 b))
          (same role kind b))

  handled :
      (t : Terminal S) (id : ℕ) (role : Role) (f : Frame) (b : BrokerState S)
      → b.writer_id ≢ id
      → Untouched role f.kind b (on_frame t id role f b).1
  unfolding on_frame on_ping on_input
  handled t id role f b h =
      elim f.kind as (λ k. Untouched role k b (on_frame t id role (record f { kind = k }) b).1) [
        | MsgKind.input ↦
            subst (λ c. Untouched role MsgKind.input b (if c then pty_write f.payload b else b))
              (sym (not_in_control id b h)) (same role MsgKind.input b)
        | MsgKind.resize ↦ sized t MsgKind.resize id role f.payload b h
        | MsgKind.shutdown ↦ stopped id role b h
        | MsgKind.ping ↦ pinged role MsgKind.ping id (find id b.clients) b
        | _ ↦ same role _ b
      ]

-- In every state that the threads reach from the start, a frame of any kind from a client that
-- connected as Watcher or Monitor leaves the bytes sent to the child, the columns and rows, the
-- shadow screen, the history and the writer's id as they are, and stops the session only if it is a
-- Shutdown and the client is a Monitor or the writer's id is 0.
pub on_frame-Untouched :
    {S : Type 0} (t : Terminal S) (screen : S) (cols rows : ℕ) (s : System S)
    → Reach t (initial screen cols rows) s
    → (id : ℕ) (role : Role) (f : Frame) → s.role_of id ≡ some role
    → role ≢ Role.writer
    → Untouched role f.kind s.broker (on_frame t id role f s.broker).1
on_frame-Untouched t screen cols rows s r id role f h ne =
    let v = Reach-Sound t screen cols rows s r in
    handled t id role f s.broker λ e. elim v.writer [
      | inl z ↦ some-ne-none _ (sym h ∙ ap s.role_of (sym e ∙ z) ∙ v.nobody)
      | inr w ↦ ne (some-injective _ _ (sym h ∙ ap s.role_of (sym e) ∙ w))
    ]
