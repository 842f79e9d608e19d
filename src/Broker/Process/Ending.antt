-- ===== src/Broker/Process/Ending.antt =====
-- The end of the broker in keepty/src/broker.rs as its clients see it.
use keepty.Base.{ℕ, ◌+◌, ◌≤◌, ◌≡◌, false, List, [], ◌++◌, Option, none, some, map, All}
use keepty.Wire.Messages.{encode_exit, decode_exit}
use keepty.Broker.Queue.{Pending}
use keepty.Broker.Queue.View.{Token, tokens}
use keepty.Broker.Session.{find}
use keepty.Broker.Session.Exit.{exit_frame, Ends}
use keepty.Broker.Process.{Tick, Ended, interrupted, shutdown_drain_timeout, shutdown_drain_grace}
use keepty.Broker.Process.Decides.{Idle, Decided}

-- When the waits are over at the latest.
abbrev pub fallback : ℕ → ℕ
fallback now = now + shutdown_drain_timeout + shutdown_drain_grace

-- The end, for the client `id` that would read `toks`.
pub record Concludes {S : Type 0} (ts : List Tick) (now : ℕ) (finishing : List (Option ℕ)) (id : ℕ)
    (toks : List Token) (e : Ended S) : Type 0 where
  pub decided : Decided ts e.exit_code
  pub unregistered : e.broker.clients ≡ []
  pub stopped : e.broker.running ≡ false
  pub queue : Pending
  pub dropped : find id e.broker.dropped ≡ some queue
  pub ends : Ends queue (now + shutdown_drain_timeout) (toks ++ tokens (exit_frame e.exit_code))
  pub told : decode_exit (encode_exit e.exit_code) ≡ some e.exit_code
  pub in_time : e.waited_until ≤ fallback now
  pub interruptions : e.interruptions ≡ map (interrupted (fallback now)) finishing

abbrev pub Runs :
    {S : Type 0} → List Tick → ℕ → List (Option ℕ) → ℕ → List Token → Option (Ended S) → Type 0
Runs ts now finishing id toks none = All Idle ts
Runs ts now finishing id toks (some e) = Concludes ts now finishing id toks e
