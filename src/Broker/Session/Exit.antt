-- ===== src/Broker/Session/Exit.antt =====
-- The end of a session in keepty/src/broker.rs: the Exit broadcast of `run`.
use keepty.Base.{
  ℕ, ◌≡◌, refl, ap, sym, ◌∙◌, true, false, List, [], ◌∷◌, ◌++◌, map, Option, none, some, arith,
  ◌==◌, if◌then◌else◌, subst, inl, inr, Bool-cases, length,
}
use mathlib.Core.Option.{none-ne-some, some-injective}
use keepty.Base.Int.{ℤ}
use keepty.Wire.{Frame, MsgKind, encode}
use keepty.Wire.Codec.{IsSmall}
use keepty.Wire.Messages.{encode_exit}
use keepty.Broker.Queue.{Pending, send, accept, close}
use keepty.Broker.Queue.View.{Token, tokens, stream, Holds}
use keepty.Broker.Queue.Send.{send-Holds, send_accepts, send_keeps}
use keepty.Broker.Session.{BrokerState, Client, find, exit_sent, broadcast_exit}
use keepty.Broker.Session.Streams.{Feeds}

abbrev pub exit_frame : ℤ → Frame
exit_frame code = record { kind = MsgKind.exit; payload = encode_exit code }

-- A queue that is closed behind its last frame, with the deadline of the shutdown.
pub record Ends (q : Pending) (deadline : ℕ) (toks : List Token) : Type 0 where
  pub frames : List Frame
  pub holds : Holds q frames
  pub closed : q.closed ≡ true
  pub timed : q.shutdown_deadline ≡ some deadline
  pub reads : stream frames ≡ toks

length-encode_exit : (code : ℤ) → length (encode_exit code) ≡ 4
unfolding encode_exit
length-encode_exit code = refl

exit_sent-Ends :
    (deadline : ℕ) (code : ℤ) (id : ℕ) (c : Client) (toks : List Token)
    → Feeds c.tx toks
    → c.tx.exit_queued ≡ false
    → Ends
        (exit_sent deadline (encode (exit_frame code)) (id, c)).1
        deadline
        (toks ++ tokens (exit_frame code))
unfolding exit_sent
exit_sent-Ends deadline code id c toks v none_yet =
    let q = record (c.tx) { shutdown_deadline = some deadline } in
    let holds : Holds q v.frames = record {
      queued = v.holds.queued;
      small = v.holds.small;
      counted = v.holds.counted;
    } in
    let small : IsSmall (exit_frame code) = omega (arith, length-encode_exit code) in
    let e : send (encode (exit_frame code)) q ≡ some (accept (encode (exit_frame code)) q) =
      send_accepts q v.frames (exit_frame code) holds v.bounded small
      ∙ ap
          (λ b.
            if b
            then none
            else if c.tx.exit_queued
            then none
            else some (accept (encode (exit_frame code)) q))
          v.still_open
      ∙ ap (λ b. if b then none else some (accept (encode (exit_frame code)) q)) none_yet in
    let (after, holds', reads) =
      send-Holds q _ v.frames (exit_frame code) holds v.bounded small e in
    let sent = accept (encode (exit_frame code)) q in
    let Goal : Pending → Type 0 = λ x. Ends (close x) deadline (toks ++ tokens (exit_frame code)) in
    subst Goal (sym (ap (λ (o : Option Pending). elim o [ none ↦ q | some x ↦ x ]) e)) (record {
      frames = after;
      holds = record { queued = holds'.queued; small = holds'.small; counted = holds'.counted };
      closed = refl;
      timed = (send_keeps q sent (exit_frame code) e).1;
      reads = reads ∙ ap (λ ts. ts ++ tokens (exit_frame code)) v.reads;
    })

find-map :
    (deadline : ℕ) (encoded : List ℕ) (id : ℕ) (cs : List (ℕ × Client)) (rest : List (ℕ × Pending))
    (c : Client)
    → find id cs ≡ some c
    → find id (map (exit_sent deadline encoded) cs ++ rest)
      ≡ some (exit_sent deadline encoded (id, c)).1
unfolding find exit_sent
find-map deadline encoded id [] rest c e = absurd (none-ne-some c e)
find-map deadline encoded id ((j, d) ∷ cs) rest c e = elim (Bool-cases (j == id)) [
  | inl same ↦
      let found : d ≡ c =
        some-injective d c (sym (ap (λ b. if b then some d else find id cs) same) ∙ e) in
      ap
        (λ b.
          if b
          then some (exit_sent deadline encoded (j, d)).1
          else find id (map (exit_sent deadline encoded) cs ++ rest))
        same
      ∙ ap (λ x. some (exit_sent deadline encoded (id, x)).1) found
  | inr other ↦
      ap
        (λ b.
          if b
          then some (exit_sent deadline encoded (j, d)).1
          else find id (map (exit_sent deadline encoded) cs ++ rest))
        other
      ∙ find-map deadline encoded id cs rest c
          (sym (ap (λ b. if b then some d else find id cs) other) ∙ e)
]

-- At the end of a session no client stays registered and the broker no longer runs. The queue of
-- each client that was registered, open and without an Exit is closed, has the deadline, and carries
-- what it carried before and then Exit with the child's code, however full it was.
pub broadcast_exit-Ends :
    {S : Type 0} (deadline : ℕ) (code : ℤ) (b : BrokerState S) (id : ℕ) (c : Client)
    (toks : List Token)
    → find id b.clients ≡ some c
    → Feeds c.tx toks
    → c.tx.exit_queued ≡ false
    → ((broadcast_exit deadline code b).clients ≡ [])
      × ((broadcast_exit deadline code b).running ≡ false)
      × ((q : Pending) × (find id (broadcast_exit deadline code b).dropped ≡ some q)
          × Ends q deadline (toks ++ tokens (exit_frame code)))
unfolding broadcast_exit
broadcast_exit-Ends deadline code b id c toks found v none_yet = (
  refl,
  refl,
  (
    (exit_sent deadline (encode (exit_frame code)) (id, c)).1,
    find-map deadline (encode (exit_frame code)) id b.clients b.dropped c found,
    exit_sent-Ends deadline code id c toks v none_yet,
  ),
)
