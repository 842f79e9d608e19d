-- ===== src/Broker/Process/Tests.antt =====
-- Runs of the broker's main thread, and the theorem about its end at a concrete input.
use keepty.Base.{ℕ, ◌-◌, ◌^◌, ◌≡◌, refl, true, List, [], ◌∷◌, Option, none, some}
use keepty.Base.Int.{pos, negsuc}
use keepty.Wire.{Role}
use keepty.Broker.Queue
use keepty.Broker.Session.{BrokerState, Client, start}
use keepty.Broker.Process.{Tick, not_spawned, still_running, exited, wait_child, wait_drains}

abbrev quiet : Tick
quiet = record { child = still_running; running = true; signal = none }

-- The child starts, a SIGHUP comes, and it exits while a SIGTERM comes.
abbrev ticks : List Tick
ticks =
    record quiet { child = not_spawned }
    ∷ record quiet { signal = some 1 }
    ∷ record quiet { child = exited (2 ^ 32 - 1); signal = some 15 }
    ∷ []

exits : wait_child ticks ≡ some (negsuc 0)
unfolding wait_child
exits = refl

terminated : wait_child (quiet ∷ record quiet { signal = some 15 } ∷ ticks) ≡ some (pos 143)
unfolding wait_child
terminated = refl

-- A drain thread that is finished early, one that is finished late, and one that never is.
abbrev finishing : List (Option ℕ)
finishing = some 1500 ∷ some 5000 ∷ none ∷ []

waits : wait_drains 3700 1000 finishing ≡ 3700
unfolding wait_drains
waits = refl

-- A client whose queue holds two bytes of output.
abbrev waiting : Queue.Pending
waiting = record Queue.new { frames = (0 ∷ 0 ∷ 0 ∷ 4 ∷ 1 ∷ 4 ∷ 104 ∷ 105 ∷ []) ∷ []; bytes = 8 }

abbrev client : Client
client = record { tx = waiting; role = Role.watcher }

abbrev session : BrokerState (List ℕ)
session = record (start [] 80 24) { clients = (1, client) ∷ []; spawned = true; pty_pid = 7 }
