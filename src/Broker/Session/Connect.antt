-- ===== src/Broker/Session/Connect.antt =====
-- `handle_client` of keepty/src/broker.rs up to its read loop, and the accept loop's counting. Each
-- definition is one atomic part; the writes of HelloAck between them touch no shared state, and
-- where one fails the thread ends there.
use keepty.Base.{
  ℕ, ◌+◌, ◌-◌, ◌%◌, ◌^◌, Bool, true, false, not, ◌&&◌, List, [], ◌∷◌, Option, none, some, leb, ltb,
  if◌then◌else◌,
}
use keepty.Wire.{Role, encode}
use keepty.Broker.Ring
use keepty.Broker.Queue.{Pending, send, new}
use keepty.Broker.Replay.{replay_frames, output}
use keepty.Broker.Session.{
  BrokerState, Terminal, max_connections, is_role, remove, pty_resize, nudge_size,
}

module _ {S : Type 0} where
  -- The accept loop: `fetch_add`, and `fetch_sub` again where the cap is reached.
  unfoldable pub admit : BrokerState S → Bool × BrokerState S
  admit s =
      if leb max_connections s.active_connections
      then (false, s)
      else (true, record s { active_connections = (s.active_connections + 1) % 2 ^ 32 })

  -- Dropping the `ConnectionSlot`.
  abbrev pub release : BrokerState S → BrokerState S
  release s = record s { active_connections = (s.active_connections + 2 ^ 32 - 1) % 2 ^ 32 }

  -- `next_client_id.fetch_add(1)`
  abbrev pub assign_id : BrokerState S → ℕ × BrokerState S
  assign_id s = (s.next_client_id, record s { next_client_id = (s.next_client_id + 1) % 2 ^ 32 })

  -- Whether this connection starts the child: `spawned.compare_exchange(false, true)` by a Writer.
  abbrev pub is_first : Role → BrokerState S → Bool
  is_first role s = is_role role Role.writer && not s.spawned

  -- The first Writer sets the geometry and opens the PTY; if that fails, its thread ends here.
  unfoldable pub open_session : Terminal S → Bool → ℕ → ℕ → BrokerState S → BrokerState S
  open_session t opened cols rows s =
      let s' = record s {
        spawned = true;
        cols = cols;
        rows = rows;
        screen = t.set_size rows cols s.screen;
      } in
      if opened
      then record s' { pty = some (record { input = []; sizes = (cols, rows) ∷ [] }) }
      else s'

  -- `writer_id.swap(client_id)`, with the value before it.
  abbrev pub claim_writer : ℕ → BrokerState S → ℕ × BrokerState S
  claim_writer id s = (s.writer_id, record s { writer_id = id })

  -- A later Writer also sets the geometry and the PTY's size.
  unfoldable pub take_over : ℕ → ℕ → ℕ → BrokerState S → ℕ × BrokerState S
  take_over id cols rows s =
      let (previous, s') = claim_writer id s in
      (previous, pty_resize cols rows (record s' { cols = cols; rows = rows }))

  -- `out.clients.insert(id, ClientSender { tx, role })`
  abbrev pub register : ℕ → Role → Pending → BrokerState S → BrokerState S
  register id role tx s = record s {
    clients = (id, record { tx = tx; role = role }) ∷ remove id s.clients;
  }

  -- The first Writer's queue starts empty.
  abbrev pub register_first : ℕ → BrokerState S → BrokerState S
  register_first id s = register id Role.writer new s

  -- The deferred spawn under the child lock: `none` is a failed spawn; a child without an id is 0.
  unfoldable pub launch : Option ℕ → BrokerState S → BrokerState S
  launch none s = s
  launch (some pid) s = if s.running then record s { pty_pid = pid } else s

-- `let _ = tx.send(encoded)`
abbrev pub try_send : List ℕ → Pending → Pending
try_send encoded q = elim (send encoded q) [ none ↦ q | some q' ↦ q' ]

unfoldable pub send_each : List (List ℕ) → Pending → Pending
send_each [] q = q
send_each (f ∷ fs) q = send_each fs (try_send f q)

module _ {S : Type 0} where
  -- What a joining client is sent first: a snapshot of the alternate screen, or the history.
  unfoldable pub replay_data : Terminal S → Role → BrokerState S → List ℕ
  replay_data t role s =
      if not (is_role role Role.writer) && t.alternate_screen s.screen
      then 0x1b ∷ b'[' ∷ b'?' ∷ b'1' ∷ b'0' ∷ b'4' ∷ b'9' ∷ b'h' ∷ t.state_formatted s.screen
      else Ring.recent s.ring

  -- CAN, then the input modes.
  abbrev pub modes : Terminal S → BrokerState S → List ℕ
  modes t s = 0x18 ∷ t.input_mode_formatted s.screen

  -- Snapshot and registration under the screen and output locks.
  unfoldable pub join : Terminal S → ℕ → Role → BrokerState S → BrokerState S
  join t id role s =
      let replayed = send_each (replay_frames (replay_data t role s)) new in
      register id role
        (if is_role role Role.writer
          then try_send (encode (output (modes t s))) replayed
          else replayed)
        s

  -- A reattached Writer's double resize.
  unfoldable pub rejoin_nudge : Role → BrokerState S → BrokerState S
  rejoin_nudge role s =
      if is_role role Role.writer && (ltb 0 s.pty_pid && s.spawned) && ltb 1 s.cols
      then nudge_size s
      else s
