-- ===== src/Broker/Session/Streams.antt =====
-- What a client of keepty/src/broker.rs reads: the history up to its joining, then every later
-- chunk of output, with no byte lost, repeated or out of order.
use keepty.Base.{
  ℕ, ◌+◌, ◌-◌, ◌*◌, ◌/◌, ◌≤◌, ◌≡◌, refl, ap, sym, ◌∙◌, true, false, List, [], ◌∷◌, ◌++◌, map,
  Option, none, some, arith, subst, length, flatten, length-append, All, append_assoc, append-nil,
}
use mathlib.Core.List.{map-append}
use keepty.Wire.{Frame, MsgKind, encode, max_payload_size}
use keepty.Wire.Codec.{IsSmall}
use keepty.Broker.Queue.{Pending, send, new, client_queue_bytes}
use keepty.Broker.Queue.View.{Token, byte, tokens, stream, is, Holds, IsBounded}
use keepty.Broker.Queue.Send.{send-Holds, send-IsBounded, send_fits, send_keeps}
use keepty.Broker.Replay.{
  chunks, output, replay_frames, length-chunks, flatten-chunks, chunks-IsSmall,
}
use keepty.Broker.Session.Connect.{try_send, send_each}

-- The queue is open, and its client will read `toks`.
pub record Feeds (q : Pending) (toks : List Token) : Type 0 where
  pub frames : List Frame
  pub holds : Holds q frames
  pub bounded : IsBounded q
  pub still_open : q.closed ≡ false
  pub reads : stream frames ≡ toks

pub new-Feeds : Feeds new []
new-Feeds = record {
  frames = [];
  holds = record { queued = refl; small = tt; counted = refl };
  bounded = omega arith;
  still_open = refl;
  reads = refl;
}

-- An accepted frame is what the client reads next.
pub sent-Feeds :
    (q q' : Pending) (toks : List Token) (f : Frame)
    → Feeds q toks
    → IsSmall f
    → (is MsgKind.exit f ≡ true → length f.payload ≡ 4)
    → send (encode f) q ≡ some q'
    → Feeds q' (toks ++ tokens f)
sent-Feeds q q' toks f v small exit_size e =
    let (after, holds, reads) = send-Holds q q' v.frames f v.holds v.bounded small e in
    record {
      frames = after;
      holds = holds;
      bounded = send-IsBounded q q' v.frames f v.holds v.bounded small exit_size e;
      still_open = (send_keeps q q' f e).0 ∙ v.still_open;
      reads = reads ∙ ap (λ ts. ts ++ tokens f) v.reads;
    }

-- What frames of Output cost in a queue, at most.
cost : List (List ℕ) → ℕ
cost [] = 0
cost (c ∷ cs) = length c + 6 + cost cs

cost_lem : (cs : List (List ℕ)) → cost cs ≡ length (flatten cs) + 6 * length cs
unfolding cost
cost_lem [] = omega arith
cost_lem (c ∷ cs) = omega (arith, cost_lem cs, length-append c (flatten cs))

-- Output that fits is taken.
pub try_send-Feeds :
    (q : Pending) (toks : List Token) (bytes : List ℕ)
    → Feeds q toks
    → length bytes ≤ max_payload_size
    → q.bytes + (length bytes + 6) ≤ client_queue_bytes
    → Feeds (try_send (encode (output bytes)) q) (toks ++ map byte bytes)
      × ((try_send (encode (output bytes)) q).bytes ≤ q.bytes + (length bytes + 6))
try_send-Feeds q toks bytes v small fits =
    let (q', e, le) =
      send_fits q v.frames (output bytes) v.holds v.bounded small v.still_open refl fits in
    let same : try_send (encode (output bytes)) q ≡ q' =
      ap (λ (o : Option Pending). elim o [ none ↦ q | some x ↦ x ]) e in
    (
      subst (λ x. Feeds x (toks ++ map byte bytes)) (sym same)
          (sent-Feeds q q' toks (output bytes) v small (λ x. cc x) e),
      omega (arith, ap (λ (x : Pending). x.bytes) same, le),
    )

send_each-Feeds :
    (cs : List (List ℕ)) (q : Pending) (toks : List Token)
    → Feeds q toks
    → All IsSmall (map output cs)
    → q.bytes + cost cs ≤ client_queue_bytes
    → Feeds (send_each (map (λ chunk. encode (output chunk)) cs) q) (toks ++ map byte (flatten cs))
      × ((send_each (map (λ chunk. encode (output chunk)) cs) q).bytes ≤ q.bytes + cost cs)
unfolding send_each cost
send_each-Feeds [] q toks v small fits = (subst (Feeds q) (sym (append-nil toks)) v, omega arith)
send_each-Feeds (c ∷ cs) q toks v small fits =
    let (v', le) = try_send-Feeds q toks c v small.0 (omega arith) in
    let (w, le') = send_each-Feeds cs _ _ v' small.1 (omega (arith, le)) in
    (
      subst (Feeds _)
          (append_assoc toks (map byte c) (map byte (flatten cs))
            ∙ ap (◌++◌ toks) (sym (map-append byte c (flatten cs))))
          w,
      omega (arith, le, le'),
    )

-- A replay of at most fifteen megabytes is queued whole.
pub replay_Feeds :
    (bytes : List ℕ)
    → length bytes ≤ 15 * 1024 * 1024
    → Feeds (send_each (replay_frames bytes) new) (map byte bytes)
      × ((send_each (replay_frames bytes) new).bytes
          ≤ length bytes + 6 * ((length bytes + max_payload_size - 1) / max_payload_size))
unfolding replay_frames
replay_Feeds bytes h =
    let cs = chunks max_payload_size bytes in
    let size : cost cs
        ≡ length bytes + 6 * ((length bytes + max_payload_size - 1) / max_payload_size) =
      cost_lem cs ∙ rw (flatten-chunks bytes, length-chunks bytes) in
    let (v, le) =
      send_each-Feeds cs new [] new-Feeds (chunks-IsSmall bytes) (omega (arith, size)) in
    (
      subst (λ bs. Feeds (send_each (map (λ chunk. encode (output chunk)) cs) new) (map byte bs))
          (flatten-chunks bytes) v,
      omega (arith, size, le),
    )
