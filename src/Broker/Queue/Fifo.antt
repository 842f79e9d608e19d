-- ===== src/Broker/Queue/Fifo.antt =====
-- Whole runs of a client queue of keepty/src/broker.rs: sends by the broker's threads and receives
-- by the drain thread, in any order.
use keepty.Base.{
  ℕ, ◌^◌, ◌≤◌, ◌<◌, ◌≡◌, refl, ap, sym, ◌∙◌, true, List, [], ◌∷◌, ◌++◌, map, Option, none, some,
  arith, length, All, append_assoc, subst,
}
use mathlib.Core.List.{map-append}
use keepty.Wire.{Frame, MsgKind, encode}
use keepty.Wire.Codec.{IsSmall}
use keepty.Broker.Queue.{Pending, Received, frame, ended, waits, send, recv, close, new}
use keepty.Broker.Queue.View.{tokens, stream, stream-one, is, Holds, IsBounded}
use keepty.Broker.Queue.Send.{send_keeps, send-Holds, send-IsBounded}
use keepty.Broker.Queue.Recv.{recv-Takes, recv_keeps, kept, Takes, takes, ends, blocks, queue_of}

pub data Op : Type 0 where
  sends : Frame → Op
  receives : ℕ → Op
  closes : Op

-- The broker sends frames within the payload limit, and Exit frames of four bytes.
abbrev pub IsSent : Op → Type 0
IsSent (sends f) = IsSmall f × (is MsgKind.exit f ≡ true → length f.payload ≡ 4)
IsSent (receives now) = Unit {0}
IsSent closes = Unit {0}

-- The queue, the frames accepted and the bytes delivered so far, each in order.
pub record Run : Type 0 where
  pub queue : Pending
  pub accepted : List Frame
  pub delivered : List (List ℕ)

abbrev sent : Frame → Run → Option Pending → Run
sent f r none = r
sent f r (some p) = record r { queue = p; accepted = r.accepted ++ f ∷ [] }

abbrev received : Run → Received → Run
received r (frame b p) = record r { queue = p; delivered = r.delivered ++ b ∷ [] }
received r (ended p) = record r { queue = p }
received r (waits p) = record r { queue = p }

unfoldable pub step : Op → Run → Run
step (sends f) r = sent f r (send (encode f) r.queue)
step (receives now) r = received r (recv now r.queue)
step closes r = record r { queue = close r.queue }

unfoldable pub run : List Op → Run → Run
unfolding step
run [] r = r
run (o ∷ os) r = run os (step o r)

abbrev pub start : Run
start = record { queue = new; accepted = []; delivered = [] }

-- What was delivered and what is queued are together what was accepted.
pub record Kept (r : Run) : Type 0 where
  pub given : List Frame
  pub left : List Frame
  pub sent_on : r.delivered ≡ map encode given
  pub holds : Holds r.queue left
  pub whole : stream given ++ stream left ≡ stream r.accepted
  pub bounded : IsBounded r.queue
  pub no_deadline : r.queue.shutdown_deadline ≡ none

sent-Kept :
    (f : Frame) (r : Run) (o : Option Pending)
    → IsSent (sends f)
    → Kept r
    → send (encode f) r.queue ≡ o
    → Kept (sent f r o)
sent-Kept f r none h k e = k
sent-Kept f r (some p) h k e =
    let (after, holds, extended) = send-Holds r.queue p k.left f k.holds k.bounded h.0 e in
    record {
      given = k.given;
      left = after;
      sent_on = k.sent_on;
      holds = holds;
      whole =
          ap (◌++◌ (stream k.given)) extended
          ∙ sym (append_assoc (stream k.given) (stream k.left) (tokens f))
          ∙ ap (λ ts. ts ++ tokens f) k.whole
          ∙ sym (stream-one r.accepted f);
      bounded = send-IsBounded r.queue p k.left f k.holds k.bounded h.0 h.1 e;
      no_deadline = (send_keeps r.queue p f e).1 ∙ k.no_deadline;
    }

-- A queue within its bound stays so where bytes are taken out.
IsBounded-le :
    (p q : Pending) → q.bytes ≤ p.bytes → q.exit_queued ≡ p.exit_queued → IsBounded p → IsBounded q
IsBounded-le p q le e b = ground arith

IsBounded-lt : (p : Pending) → IsBounded p → p.bytes < 2 ^ 64
IsBounded-lt p b = ground arith

-- Nothing was there to take.
emptied :
    (r : Run) (k : Kept r) (p : Pending)
    → k.left ≡ []
    → Holds p []
    → IsBounded p
    → p.shutdown_deadline ≡ none
    → Kept (record r { queue = p })
emptied r k p none_left holds b d = record {
  given = k.given;
  left = [];
  sent_on = k.sent_on;
  holds = holds;
  whole = ap (λ fs. stream k.given ++ stream fs) (sym none_left) ∙ k.whole;
  bounded = b;
  no_deadline = d;
}

received-Kept :
    (r : Run) (res : Received) (k : Kept r)
    → (queue_of res).bytes ≤ r.queue.bytes
    → (queue_of res).exit_queued ≡ r.queue.exit_queued
    → (queue_of res).shutdown_deadline ≡ r.queue.shutdown_deadline
    → Takes r.queue.closed k.left res
    → Kept (received r res)
received-Kept r res k le x d (takes f rest p' first e holds) =
    let q : queue_of res ≡ p' = ap queue_of e in
    rw e (record {
      given = k.given ++ f ∷ [];
      left = rest;
      sent_on = rw k.sent_on (sym (map-append encode k.given (f ∷ [])));
      holds = holds;
      whole =
          ap (λ ts. ts ++ stream rest) (stream-one k.given f)
          ∙ append_assoc (stream k.given) (tokens f) (stream rest)
          ∙ ap (λ fs. stream k.given ++ stream fs) (sym first)
          ∙ k.whole;
      bounded = subst IsBounded q (IsBounded-le r.queue (queue_of res) le x k.bounded);
      no_deadline = subst (λ z. z.shutdown_deadline ≡ none) q (d ∙ k.no_deadline);
    })
received-Kept r res k le x d (ends p' none_left c e holds) = rw e (
    emptied r k p' none_left holds
      (subst IsBounded (ap queue_of e) (IsBounded-le r.queue (queue_of res) le x k.bounded))
      (subst (λ z. z.shutdown_deadline ≡ none) (ap queue_of e) (d ∙ k.no_deadline)))
received-Kept r res k le x d (blocks p' none_left c e holds) = rw e (
    emptied r k p' none_left holds
      (subst IsBounded (ap queue_of e) (IsBounded-le r.queue (queue_of res) le x k.bounded))
      (subst (λ z. z.shutdown_deadline ≡ none) (ap queue_of e) (d ∙ k.no_deadline)))

step-Kept : (o : Op) (r : Run) → IsSent o → Kept r → Kept (step o r)
unfolding step
step-Kept (sends f) r h k = sent-Kept f r (send (encode f) r.queue) h k refl
step-Kept (receives now) r h k =
    let fits = IsBounded-lt r.queue k.bounded in
    let (le, x, d) = recv_keeps now r.queue k.left k.holds fits in
    received-Kept r (recv now r.queue) k le x d (
      subst (λ z. Takes r.queue.closed (kept now z k.left) (recv now r.queue)) k.no_deadline
        (recv-Takes now r.queue k.left k.holds fits))
step-Kept closes r h k = record {
  given = k.given;
  left = k.left;
  sent_on = k.sent_on;
  holds = record { queued = k.holds.queued; small = k.holds.small; counted = k.holds.counted };
  whole = k.whole;
  bounded = k.bounded;
  no_deadline = k.no_deadline;
}

run-Kept : (os : List Op) (r : Run) → All IsSent os → Kept r → Kept (run os r)
unfolding run
run-Kept [] r h k = k
run-Kept (o ∷ os) r h k = run-Kept os (step o r) h.1 (step-Kept o r h.0 k)

-- Whatever the order of sends, receives and a close, and before a shutdown deadline is set: the
-- frames delivered decode, what they and the queue hold is exactly the stream of the accepted
-- frames in order, and the queue keeps its memory bound.
pub run-start-Kept : (os : List Op) → All IsSent os → Kept (run os start)
run-start-Kept os h = run-Kept os start h (record {
  given = [];
  left = [];
  sent_on = refl;
  holds = record { queued = refl; small = tt; counted = refl };
  whole = refl;
  bounded = omega arith;
  no_deadline = refl;
})
