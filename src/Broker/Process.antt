-- ===== src/Broker/Process.antt =====
-- The main thread of `run` in keepty/src/broker.rs, from the wait for the child to the end of the process:
-- the exit code, the Exit broadcast and the bounded wait for the drain threads.
pub mod Decides
pub mod Drains
pub mod Ending
mod Tests
use keepty.Base.{
  ℕ, ◌+◌, Bool, true, false, not, List, [], ◌∷◌, Option, none, some, leb, max, map, ◌==◌,
  if◌then◌else◌,
}
use keepty.Base.Int.{ℤ, pos, of_u32}
use keepty.Broker.Session.{BrokerState, broadcast_exit}

-- What `try_wait` answers for the child, if there is one: still running, an exit code, or an error.
pub data ChildStatus : Type 0 where
  not_spawned still_running wait_fails : ChildStatus
  exited : ℕ → ChildStatus

-- What a round of the loop finds: the child, the shared flag, and the byte in the signal pipe.
pub record Tick : Type 0 where
  pub child : ChildStatus
  pub running : Bool
  pub signal : Option ℕ

abbrev pub sighup : ℕ
sighup = 1

-- The end of a round: the shared flag, then the signal pipe.
abbrev pub on_signal : Tick → Option ℤ
on_signal t =
    if not t.running
    then some (pos 143)
    else elim t.signal [ none ↦ none | some sig ↦ if sig == sighup then none else some (pos 143) ]

-- A round of the loop: the exit code, if it ends the loop.
unfoldable pub tick : Tick → Option ℤ
tick t = elim t.child [
  | exited code ↦ some (of_u32 code)
  | wait_fails ↦ some (pos 1)
  | not_spawned ↦ on_signal t
  | still_running ↦ on_signal t
]

-- The loop; `none` goes on.
unfoldable pub wait_child : List Tick → Option ℤ
unfolding tick
wait_child [] = none
wait_child (t ∷ ts) = elim (tick t) [ some code ↦ some code | none ↦ wait_child ts ]

abbrev pub shutdown_drain_timeout : ℕ
shutdown_drain_timeout = 2000

abbrev pub shutdown_drain_grace : ℕ
shutdown_drain_grace = 700

-- The wait for one drain thread, which is finished at some time or never: the time behind it.
abbrev pub wait_finished : ℕ → ℕ → Option ℕ → ℕ
wait_finished fallback now none = max now fallback
wait_finished fallback now (some finished) =
    if leb finished fallback then max now finished else max now fallback

-- The wait for all of them, under one deadline.
unfoldable pub wait_drains : ℕ → ℕ → List (Option ℕ) → ℕ
wait_drains fallback now [] = now
wait_drains fallback now (q ∷ qs) = wait_drains fallback (wait_finished fallback now q) qs

-- Whether the socket of a queue is shut down, at the end of the wait.
abbrev pub interrupted : ℕ → Option ℕ → Bool
interrupted now none = true
interrupted now (some finished) = not (leb finished now)

-- The end of the process: its exit code, the broker behind the broadcast, the time at which the wait ends,
-- and which queues' sockets are shut down.
pub record Ended (S : Type 0) : Type 0 where
  pub exit_code : ℤ
  pub broker : BrokerState S
  pub waited_until : ℕ
  pub interruptions : List Bool

module _ {S : Type 0} where
  -- Behind the loop, which ends with `code` at the time `now`; `finishing` is when each queue's drain
  -- thread is finished.
  unfoldable pub shut_down : ℕ → List (Option ℕ) → BrokerState S → ℤ → Ended S
  unfolding wait_drains
  shut_down now finishing b code =
      let deadline = now + shutdown_drain_timeout in
      let waited = wait_drains (deadline + shutdown_drain_grace) now finishing in
      record {
        exit_code = code;
        broker = broadcast_exit deadline code b;
        waited_until = waited;
        interruptions = map (interrupted waited) finishing;
      }

  unfoldable pub run_end : List Tick → ℕ → List (Option ℕ) → BrokerState S → Option (Ended S)
  unfolding wait_child shut_down
  run_end ticks now finishing b = elim (wait_child ticks) [
    | none ↦ none
    | some code ↦ some (shut_down now finishing b code)
  ]
