-- ===== src/Cli/Stop/Pending.antt =====
-- When `keepty stop` of keepty/src/main.rs has done.
use keepty.Base.{
  ◌≡◌, refl, ap, ℕ, Bool, true, false, not, ◌&&◌, ◌||◌, ◌==◌, List, [], ◌∷◌, ◌++◌, Option, All,
  if◌then◌else◌, if-cases,
}
use keepty.Broker.Args.{Text}
use keepty.Wire.{Frame, MsgKind, kind_byte, read_from}
use keepty.Cli.Stop.{
  Round, Waited, waiting, gone, timed_out, is_gone, disconnects, stop_loop, Setting, Stop, refuses,
  stops, monitor_hello, shutdown_frame, cmd_stop, has_session, acknowledged,
}

-- The endpoint is still there, and time is left.
pub record Pending (identity : Option (ℕ × ℕ)) (r : Round) : Type 0 where
  pub there : is_gone identity r.metadata ≡ false
  pub early : r.time_left ≡ true

-- The first round that is not pending ends the wait, whatever is read.
pub data Ended (identity : Option (ℕ × ℕ)) (rs : List Round) : Waited → Type 0 where
  still_waiting :
      (disconnected : Bool) → All (Pending identity) rs → Ended identity rs (waiting disconnected)
  by_socket :
      (before : List Round) (r : Round) (after : List Round)
      → rs ≡ before ++ r ∷ after
      → All (Pending identity) before
      → is_gone identity r.metadata ≡ true
      → Ended identity rs gone
  by_deadline :
      (before : List Round) (r : Round) (after : List Round)
      → rs ≡ before ++ r ∷ after
      → All (Pending identity) before
      → is_gone identity r.metadata ≡ false
      → r.time_left ≡ false
      → Ended identity rs timed_out

later :
    (identity : Option (ℕ × ℕ)) (r : Round) (rs : List Round) (w : Waited)
    → Pending identity r
    → Ended identity rs w
    → Ended identity (r ∷ rs) w
later identity r rs w p (still_waiting d all) = still_waiting d (p, all)
later identity r rs w p (by_socket before q after same all is) =
    by_socket (r ∷ before) q after (ap (◌∷◌ r) same) (p, all) is
later identity r rs w p (by_deadline before q after same all there over) =
    by_deadline (r ∷ before) q after (ap (◌∷◌ r) same) (p, all) there over

-- The wait for the endpoint ends in the first round in which it has gone or been replaced, or else no
-- time is left, whatever is read from the stream and whether the broker has hung up.
stop_loop-Ended :
    (identity : Option (ℕ × ℕ)) (disconnected : Bool) (rs : List Round)
    → Ended identity rs (stop_loop identity disconnected rs)
unfolding stop_loop
stop_loop-Ended identity disconnected [] = still_waiting disconnected tt
stop_loop-Ended identity disconnected (r ∷ rs) =
    if-cases (Ended identity (r ∷ rs)) (is_gone identity r.metadata) _ _
      (λ is. by_socket [] r rs refl tt is)
      (λ there.
        if-cases (Ended identity (r ∷ rs)) (not r.time_left) _ _
          (λ over. by_deadline [] r rs refl tt there (off r.time_left over))
          (λ left.
            later identity r rs _ (record { there = there; early = on r.time_left left })
              (stop_loop-Ended identity (disconnected || disconnects r.read disconnected) rs)))
  where
    off : (b : Bool) → not b ≡ true → b ≡ false
    off true e = absurd cc
    off false e = refl

    on : (b : Bool) → not b ≡ false → b ≡ true
    on true e = refl
    on false e = absurd cc

-- Everything up to the Shutdown succeeds.
abbrev pub reaches : List Text → Setting → Bool
reaches args s =
    has_session args
    && (s.connects && (s.writes_hello && (acknowledged (read_from s.socket) && s.writes_shutdown)))

abbrev pub NoShutdown : Frame → Type 0
NoShutdown f = (kind_byte f.kind == kind_byte MsgKind.shutdown) ≡ false

abbrev pub StopsIf : Bool → Option (ℕ × ℕ) → List Round → Stop → Type 0
StopsIf reached identity rounds (refuses sent) = (reached ≡ false) × All NoShutdown sent
StopsIf reached identity rounds (stops sent w) =
    (reached ≡ true) × (sent ≡ monitor_hello ∷ shutdown_frame ∷ []) × Ended identity rounds w

abbrev pub Stops : List Text → Setting → List Round → Stop → Type 0
Stops args s = StopsIf (reaches args s) s.identity

-- `keepty stop` fails, and has sent no Shutdown, if it is given no session, cannot connect, cannot write its
-- Hello or the Shutdown, or is not answered with HelloAck. Else it has sent a Monitor's Hello and one Shutdown, and waits while the endpoint
-- that it found at first is there and time is left: the first other round ends the wait, whatever is read and
-- whether the broker has hung up.
pub cmd_stop-Stops :
    (args : List Text) (s : Setting) (rounds : List Round)
    → Stops args s rounds (cmd_stop args s rounds)
unfolding cmd_stop
cmd_stop-Stops args s rounds =
    by_flags (has_session args) s.connects s.writes_hello (acknowledged (read_from s.socket))
      s.writes_shutdown
  where
    by_flags :
        (a b c d e : Bool)
        → StopsIf (a && (b && (c && (d && e)))) s.identity rounds (
            if not a
            then refuses []
            else if not b
            then refuses []
            else if not c
            then refuses []
            else if not d
            then refuses (monitor_hello ∷ [])
            else if not e
            then refuses (monitor_hello ∷ [])
            else stops (monitor_hello ∷ shutdown_frame ∷ []) (stop_loop s.identity false rounds))
    by_flags false b c d e = (refl, tt)
    by_flags true false c d e = (refl, tt)
    by_flags true true false d e = (refl, tt)
    by_flags true true true false e = (refl, (refl, tt))
    by_flags true true true true false = (refl, (refl, tt))
    by_flags true true true true true = (refl, refl, stop_loop-Ended s.identity false rounds)
