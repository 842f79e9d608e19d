-- ===== src/Broker/Queue/Tests.antt =====
-- Runs of a client queue, after the tests in keepty/src/broker.rs.
use keepty.Base.{◌≡◌, refl, List, [], ◌∷◌, ◌++◌, none, some, false, arith, if◌then◌else◌, leb}
use keepty.Wire.{Frame, MsgKind, encode}
use keepty.Broker.Queue.{Pending, new, send, recv, accept, total}
use keepty.Broker.Queue.View.{tokens, stream, Holds, IsBounded}
use keepty.Broker.Queue.Send.{send-Holds, send_accepts, send-IsBounded, limit_of}
use keepty.Broker.Queue.Recv.{recv-Takes, kept, Takes}
use keepty.Broker.Queue.Fifo.{Op, sends, receives, closes, run, start, Kept, run-start-Kept}

abbrev hi : Frame
hi = record { kind = MsgKind.output; payload = 104 ∷ 105 ∷ [] }

abbrev bang : Frame
bang = record { kind = MsgKind.output; payload = 33 ∷ [] }

abbrev bye : Frame
bye = record { kind = MsgKind.exit; payload = 0 ∷ 0 ∷ 0 ∷ 0 ∷ [] }

abbrev both : Frame
both = record { kind = MsgKind.output; payload = 104 ∷ 105 ∷ 33 ∷ [] }

abbrev one_queued : Pending
one_queued = record new { frames = (0 ∷ 0 ∷ 0 ∷ 4 ∷ 1 ∷ 4 ∷ 104 ∷ 105 ∷ []) ∷ []; bytes = 8 }

abbrev joined : Pending
joined = record new { frames = (0 ∷ 0 ∷ 0 ∷ 5 ∷ 1 ∷ 4 ∷ 104 ∷ 105 ∷ 33 ∷ []) ∷ []; bytes = 9 }

one_queued-Holds : Holds one_queued (hi ∷ [])
unfolding encode
one_queued-Holds = record { queued = refl; small = omega arith; counted = refl }

joins : send (encode bang) one_queued ≡ some joined
unfolding send encode
joins = refl

send-Holds_example :
    (after : List Frame) × Holds joined after × (stream after ≡ stream (hi ∷ []) ++ tokens bang)
send-Holds_example =
    send-Holds one_queued joined (hi ∷ []) bang one_queued-Holds (omega arith) (omega arith) joins

send_accepts_example : send (encode bang) one_queued ≡ (
    if leb (total (accept (encode bang) one_queued).frames) (limit_of bang)
    then some (accept (encode bang) one_queued)
    else none)
send_accepts_example =
    send_accepts one_queued (hi ∷ []) bang one_queued-Holds (omega arith) (omega arith)

send-IsBounded_example : IsBounded joined
send-IsBounded_example =
    send-IsBounded one_queued joined (hi ∷ []) bang one_queued-Holds (omega arith) (omega arith)
      (λ e. cc e) joins

-- The deadline passed: the Output is discarded.
abbrev late : Pending
late = record one_queued { shutdown_deadline = some 700 }

late-Holds : Holds late (hi ∷ [])
unfolding encode
late-Holds = record { queued = refl; small = omega arith; counted = refl }

recv-Takes_example : Takes false (kept 701 (some 700) (hi ∷ [])) (recv 701 late)
recv-Takes_example = recv-Takes 701 late (hi ∷ []) late-Holds (omega arith)

abbrev script : List Op
script = sends hi ∷ sends bang ∷ receives 0 ∷ sends bye ∷ closes ∷ receives 5 ∷ []

run-start-Kept_example : Kept (run script start)
run-start-Kept_example = run-start-Kept script (
  (omega arith, λ e. cc e),
  ((omega arith, λ e. cc e), (tt, ((omega arith, λ e. refl), (tt, (tt, tt))))),
)

delivers : (run script start).delivered ≡ encode both ∷ encode bye ∷ []
unfolding run send recv encode
delivers = refl
