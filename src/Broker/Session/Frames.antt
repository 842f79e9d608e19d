-- ===== src/Broker/Session/Frames.antt =====
-- The read loop of `handle_client` in keepty/src/broker.rs: what each frame of a client does, and
-- the clean-up behind the loop.
use keepty.Base.{
  ℕ, ◌+◌, ◌%◌, ◌^◌, Bool, false, ◌&&◌, ◌||◌, List, [], ◌∷◌, ◌++◌, Option, none, some, leb, ltb,
  ◌==◌, if◌then◌else◌,
}
use keepty.Wire.{Role, Frame, MsgKind, encode}
use keepty.Wire.Messages.{decode_resize, encode_resize_ack}
use keepty.Broker.Queue.{send}
use keepty.Broker.Session.{
  BrokerState, Client, Terminal, is_role, find, remove, drop_client, compare_exchange, broadcast,
  pty_resize, nudge_size,
}

-- Whether the thread reads on, breaks to the clean-up, or returns at once.
pub data Next : Type 0 where
  reads_on breaks returns : Next

abbrev pub pong : Frame
pong = record { kind = MsgKind.pong; payload = [] }

abbrev pub resize_ack : ℕ → ℕ → ℕ → Frame
resize_ack gen cols rows = record {
  kind = MsgKind.resize_ack;
  payload = encode_resize_ack gen cols rows;
}

module _ {S : Type 0} where
  -- Writing to the PTY, where there is one; a failed write is ignored.
  abbrev pub pty_write : List ℕ → BrokerState S → BrokerState S
  pty_write bytes s = record s {
    pty = elim s.pty [ none ↦ none | some p ↦ some (record p { input = p.input ++ bytes }) ];
  }

  -- A sender that is the current writer of a spawned session.
  abbrev pub controls : ℕ → BrokerState S → Bool
  controls id s = s.spawned && s.writer_id == id

  unfoldable pub on_input : ℕ → List ℕ → BrokerState S → BrokerState S
  on_input id payload s = if controls id s then pty_write payload s else s

  -- The writer's resize, with ResizeAck queued under the same output lock.
  unfoldable pub apply_resize : Terminal S → ℕ → ℕ → BrokerState S → BrokerState S
  apply_resize t new_cols new_rows s =
      let sized = pty_resize new_cols new_rows (record s {
        cols = new_cols;
        rows = new_rows;
        screen = t.set_size new_rows new_cols s.screen;
      }) in
      let gen : ℕ = (s.resize_gen + 1) % 2 ^ 32 in
      let acked =
        broadcast (encode (resize_ack gen new_cols new_rows)) (record sized { resize_gen = gen }) in
      record acked { nudges = if ltb s.cols new_cols then gen ∷ acked.nudges else acked.nudges }

  -- A Watcher that is as wide as the session at least asks the child to draw again.
  unfoldable pub watcher_nudge : ℕ → BrokerState S → BrokerState S
  watcher_nudge watcher_cols s =
      if leb s.cols watcher_cols && (ltb 0 s.pty_pid && ltb 1 s.cols) then nudge_size s else s

  unfoldable pub on_resize : Terminal S → ℕ → Role → List ℕ → BrokerState S → BrokerState S
  unfolding watcher_nudge
  on_resize t id role payload s =
      if controls id s
      then (elim (decode_resize payload) [
        | none ↦ s
        | some (cols, rows) ↦ apply_resize t cols rows s
      ])
      else if is_role role Role.watcher && s.spawned
      then (elim (decode_resize payload) [ none ↦ s | some (cols, rows) ↦ watcher_nudge cols s ])
      else s

  -- Shutdown by the writer, a Monitor, or anybody in a session without a writer.
  unfoldable pub on_shutdown : ℕ → Role → BrokerState S → Next × BrokerState S
  on_shutdown id role s =
      if s.writer_id == id || (is_role role Role.monitor || s.writer_id == 0)
      then (returns, record s { running = false })
      else (reads_on, s)

  unfoldable pub pong_to : ℕ → Option Client → BrokerState S → Next × BrokerState S
  pong_to id none s = (reads_on, s)
  pong_to id (some c) s = elim (send (encode pong) c.tx) [
    | some q ↦ (reads_on, record s { clients = (id, record c { tx = q }) ∷ remove id s.clients })
    | none ↦ (breaks, drop_client id s)
  ]

  unfoldable pub on_ping : ℕ → BrokerState S → Next × BrokerState S
  unfolding pong_to
  on_ping id s = pong_to id (find id s.clients) s

  -- The `match frame.kind` of the read loop.
  unfoldable pub on_frame : Terminal S → ℕ → Role → Frame → BrokerState S → Next × BrokerState S
  unfolding on_input on_resize on_shutdown on_ping
  on_frame t id role f s = elim f.kind [
    | MsgKind.input ↦ (reads_on, on_input id f.payload s)
    | MsgKind.resize ↦ (reads_on, on_resize t id role f.payload s)
    | MsgKind.shutdown ↦ on_shutdown id role s
    | MsgKind.ping ↦ on_ping id s
    | _ ↦ (reads_on, s)
  ]

  -- Behind the loop, and at the end of the drain thread: the client is removed, and a writer hands
  -- back to the writer before it.
  unfoldable pub leave : ℕ → ℕ → BrokerState S → BrokerState S
  leave id previous s =
      let s' = drop_client id s in
      record s' { writer_id = compare_exchange id previous s'.writer_id }

  -- The nudge thread when its 40 ms are over: the process that it signals, if any.
  unfoldable pub fire_nudge : ℕ → BrokerState S → Option ℕ
  fire_nudge gen s = if s.resize_gen == gen && ltb 0 s.pty_pid then some s.pty_pid else none
