-- ===== src/Broker/Queue/Send.antt =====
-- `ClientQueue::send` of keepty/src/broker.rs: what it appends, what it counts, what it refuses.
use keepty.Base.{
  ℕ, ◌+◌, ◌-◌, ◌^◌, ◌≤◌, ◌<◌, ◌≡◌, refl, ap, sym, ◌∙◌, inl, inr, Bool, true, false, not, ◌&&◌, ◌||◌,
  List, [], ◌∷◌, ◌++◌, map, Option, none, some, arith, length, drop, if◌then◌else◌, min, leb, sub64,
  Bool-cases, leb→le, leb→lt, subst, All-append_right,
}
use mathlib.Core.List.{map-append}
use keepty.Wire.{Frame, MsgKind, encode, max_payload_size}
use keepty.Wire.Codec.{IsSmall, length-encode}
use keepty.Broker.Queue.{
  Pending, has_kind, back, total, over, fully_merged, delta, limit, refuses, push_rest, merged,
  coalesce, counted_in, accept, send, client_queue_bytes, control_slack,
}
use keepty.Broker.Queue.View.{
  tokens, stream, is, has_kind-encode, back-append, back_cases, Holds, IsBounded,
}
use keepty.Broker.Queue.Coalesce.{Appends, push_frame, room-encode, take_whole, take_part}

-- The flags of a queue.
abbrev Flags : Type 0
Flags = Bool × Bool × Bool × Option ℕ

abbrev flags : Pending → Flags
flags p = (p.closed, p.finished, p.exit_queued, p.shutdown_deadline)

flags-push_rest : (e r : List ℕ) (q : Pending) → flags (push_rest e r q) ≡ flags q
unfolding push_rest
flags-push_rest e r q = ground arith

flags-merged : (e r : List ℕ) (q : Pending) → flags (merged e r q) ≡ flags q
unfolding merged
flags-merged e [] q = refl
flags-merged e (b ∷ r) q = flags-push_rest e (b ∷ r) q

flags-coalesce :
    (e : List ℕ) (o : Option (List (List ℕ) × List ℕ)) (q : Pending)
    → flags (coalesce e o q) ≡ flags q
unfolding coalesce
flags-coalesce e none q = flags-push_rest e (drop 6 e) q
flags-coalesce e (some (init, tail)) q = elim (Bool-cases (has_kind MsgKind.output tail)) [
  | inl out ↦ rw (out, coalesce) (flags-merged e _ _)
  | inr other ↦ rw (other, coalesce) (flags-push_rest e (drop 6 e) q)
]

-- `send` sets no flag but `exit_queued`, and that for an Exit frame.
flags-accept :
    (e : List ℕ) (p : Pending)
    → flags (accept e p)
      ≡ (p.closed, p.finished, p.exit_queued || has_kind MsgKind.exit e, p.shutdown_deadline)
unfolding accept
flags-accept e p = elim (Bool-cases (has_kind MsgKind.output e)) [
  | inl out ↦ rw (out, accept) (flags-coalesce e (back p.frames) (counted_in e p))
  | inr other ↦ rw (other, accept) (flags-push_rest e (drop 6 e) (counted_in e p))
]

-- What `send` makes of a frame: the stream grows by it, and `bytes` by `delta`.
abbrev Grows : Pending → List Frame → Frame → ℕ → Pending → Type 0
Grows p fs f d p' = (cut : ℕ) × Appends p fs f cut p' × (d + cut ≡ length f.payload + 6)

payload-encode : (f : Frame) → drop 6 (encode f) ≡ f.payload
unfolding encode
payload-encode f = refl

module _ (p : Pending) (f : Frame) (small : IsSmall f)
    (fits : p.bytes + length f.payload + 6 < 2 ^ 64) where
  counts : (counted_in (encode f) p).bytes ≡ p.bytes + length f.payload + 6
  counts = omega (arith, length-encode f)

  back_delta : Option (List (List ℕ) × List ℕ) → ℕ
  back_delta o = sub64 (length (encode f)) (if fully_merged (encode f) o then 6 else 0)

  coalesce_first :
      Holds p []
      → Grows p [] f (back_delta none) (coalesce (encode f) none (counted_in (encode f) p))
  unfolding coalesce back_delta fully_merged
  coalesce_first v = (
    0,
    push_frame p (counted_in (encode f) p) [] f small v refl counts,
    omega (arith, length-encode f),
  )

  coalesce_fence :
      (gs : List Frame) (g : Frame)
      → Holds p (gs ++ g ∷ [])
      → is MsgKind.output g ≡ false
      → Grows p
          (gs ++ g ∷ [])
          f
          (back_delta (some (map encode gs, encode g)))
          (coalesce (encode f) (some (map encode gs, encode g)) (counted_in (encode f) p))
  unfolding coalesce back_delta fully_merged
  coalesce_fence gs g v other =
      rw (has_kind-encode MsgKind.output g, other)
        (
          0,
          push_frame p (counted_in (encode f) p) (gs ++ g ∷ []) f small v refl counts,
          omega (arith, length-encode f),
        )

  coalesce-output :
      (gs : List Frame) (g : Frame)
      → Holds p (gs ++ g ∷ [])
      → is MsgKind.output g ≡ true
      → is MsgKind.output f ≡ true
      → Grows p
          (gs ++ g ∷ [])
          f
          (back_delta (some (map encode gs, encode g)))
          (coalesce (encode f) (some (map encode gs, encode g)) (counted_in (encode f) p))
  unfolding coalesce back_delta fully_merged
  coalesce-output gs g v out_g out =
      let small_g : IsSmall g = (All-append_right IsSmall gs (g ∷ []) v.small).0 in
      let space : ℕ = max_payload_size - length g.payload in
      let c : ℕ = min (length f.payload) space in
      let q = counted_in (encode f) p in
      rw (has_kind-encode MsgKind.output g, out_g, payload-encode f, room-encode g small_g)
        (elim (Bool-cases (leb (sub64 (length (encode f)) 6) space)) [
          | inl all ↦
              let le : length f.payload ≤ space =
                omega (arith, length-encode f, leb→le (sub64 (length (encode f)) 6) space all) in
              rw all (
                6,
                take_whole gs g f out_g out small p q v counts (omega (arith, counts)) le c
                    (omega arith),
                omega (arith, length-encode f),
              )
          | inr part ↦
              let lt : space < length f.payload =
                omega (arith, length-encode f, leb→lt (sub64 (length (encode f)) 6) space part) in
              rw part (
                0,
                take_part gs g f out_g out small p q v counts (omega (arith, counts)) c
                    (omega arith) (omega arith),
                omega (arith, length-encode f),
              )
        ])

  coalesce-Grows :
      (fs : List Frame) (o : Option (List (List ℕ) × List ℕ))
      → Holds p fs
      → is MsgKind.output f ≡ true
      → back p.frames ≡ o
      → Grows p fs f (back_delta o) (coalesce (encode f) o (counted_in (encode f) p))
  coalesce-Grows fs o v out e = elim (back_cases fs) [
    | inl none_queued ↦
        let first : o ≡ none = sym e ∙ ap back (v.queued ∙ ap (map encode) none_queued) in
        rw (first, none_queued) (coalesce_first (rw none_queued at v))
    | inr (gs, g, ends) ↦
        let tail : o ≡ some (map encode gs, encode g) =
          sym e
          ∙ ap back (v.queued ∙ ap (map encode) ends ∙ map-append encode gs (g ∷ []))
          ∙ back-append (map encode gs) (encode g) in
        rw (tail, ends)
          (elim (Bool-cases (is MsgKind.output g)) [
            | inl out_g ↦ coalesce-output gs g (rw ends at v) out_g out
            | inr other ↦ coalesce_fence gs g (rw ends at v) other
          ])
  ]

  pub accept-Grows :
      (fs : List Frame) → Holds p fs → Grows p fs f (delta (encode f) p) (accept (encode f) p)
  unfolding accept delta back_delta
  accept-Grows fs v = elim (Bool-cases (is MsgKind.output f)) [
    | inl out ↦
        rw (has_kind-encode MsgKind.output f, out, accept, delta)
          (coalesce-Grows fs (back p.frames) v out refl)
    | inr other ↦
        rw (has_kind-encode MsgKind.output f, other, accept, delta)
          (
            0,
            push_frame p (counted_in (encode f) p) fs f small v refl counts,
            omega (arith, length-encode f),
          )
  ]

-- The bound that a frame's kind is held to: replies to the client may use the slack.
abbrev pub limit_of : Frame → ℕ
limit_of f =
    client_queue_bytes + (if is MsgKind.pong f || is MsgKind.resize_ack f then control_slack else 0)

limit-encode : (f : Frame) → limit (encode f) ≡ limit_of f
unfolding limit
limit-encode f = rw (has_kind-encode MsgKind.pong f, has_kind-encode MsgKind.resize_ack f)

refuses-encode :
    (p : Pending) (f : Frame)
    → refuses (encode f) p ≡ (
        p.closed
        || (is MsgKind.exit f && p.exit_queued)
        || (not (is MsgKind.exit f) && over p.bytes (delta (encode f) p) (limit_of f)))
unfolding refuses
refuses-encode p f = rw (has_kind-encode MsgKind.exit f, limit-encode f)

-- A frame fits a queue within its bound.
bytes_fit :
    (p : Pending) (f : Frame) → IsBounded p → IsSmall f → p.bytes + length f.payload + 6 < 2 ^ 64
bytes_fit p f b small = elim (Bool-cases p.exit_queued) [
  | inl e ↦ let b' = (rw e at b) in omega arith
  | inr e ↦ let b' = (rw e at b) in omega arith
]

send_lem :
    (p : Pending) (f : Frame)
    → send (encode f) p ≡ (if refuses (encode f) p then none else some (accept (encode f) p))
unfolding send
send_lem p f = refl

-- The bytes queued once the frame is placed.
total-accept :
    (p : Pending) (fs : List Frame) (f : Frame)
    → Holds p fs
    → IsBounded p
    → IsSmall f
    → (accept (encode f) p).bytes ≡ total (accept (encode f) p).frames
      × ((accept (encode f) p).bytes ≡ p.bytes + delta (encode f) p)
total-accept p fs f v b small =
    let (cut, grows, size) = accept-Grows p f small (bytes_fit p f b small) fs v in
    (grows.holds.counted, omega (arith, grows.grown))

-- If `send` accepts a frame within the payload limit, the queue still holds encoded frames within
-- the limit and counts their bytes, and what the client will read is extended by exactly that
-- frame: by its payload bytes if it is Output, by the frame itself if not.
pub send-Holds :
    (p p' : Pending) (fs : List Frame) (f : Frame)
    → Holds p fs
    → IsBounded p
    → IsSmall f
    → send (encode f) p ≡ some p'
    → (after : List Frame) × Holds p' after × (stream after ≡ stream fs ++ tokens f)
send-Holds p p' fs f v b small e =
    let (cut, grows, size) = accept-Grows p f small (bytes_fit p f b small) fs v in
    let same : accept (encode f) p ≡ p' = ground (arith, send_lem p f, e) in
    (grows.after, subst (λ q. Holds q grows.after) same grows.holds, grows.extended)

-- `send` refuses any frame on a closed queue. On an open one it accepts a first Exit whatever is
-- queued and no second, and any other frame exactly if the bytes then queued, after the frame has
-- joined the one before it where it can, stay within the bound of its kind.
pub send_accepts :
    (p : Pending) (fs : List Frame) (f : Frame)
    → Holds p fs
    → IsBounded p
    → IsSmall f
    → send (encode f) p ≡ (
        if p.closed
        then none
        else if is MsgKind.exit f
        then (if p.exit_queued then none else some (accept (encode f) p))
        else if leb (total (accept (encode f) p).frames) (limit_of f)
        then some (accept (encode f) p)
        else none)
send_accepts p fs f v b small =
    send_lem p f
    ∙ rw (refuses-encode p f) (elim (Bool-cases p.closed) [
      | inl c ↦ rw c
      | inr c ↦ elim (Bool-cases (is MsgKind.exit f)) [
        | inl x ↦ rw (c, x) (elim (Bool-cases p.exit_queued) [ inl q ↦ rw q | inr q ↦ rw q ])
        | inr x ↦ ground (arith, c, x, total-accept p fs f v b small, bytes_fit p f b small)
      ]
    ])

-- Sending keeps the memory bound, if an Exit frame carries its four bytes.
pub send-IsBounded :
    (p p' : Pending) (fs : List Frame) (f : Frame)
    → Holds p fs
    → IsBounded p
    → IsSmall f
    → (is MsgKind.exit f ≡ true → length f.payload ≡ 4)
    → send (encode f) p ≡ some p'
    → IsBounded p'
send-IsBounded p p' fs f v b small exit_size e =
    let (cut, grows, size) = accept-Grows p f small (bytes_fit p f b small) fs v in
    let same : accept (encode f) p ≡ p' = ground (arith, send_lem p f, e) in
    let flag : (accept (encode f) p).exit_queued ≡ (p.exit_queued || is MsgKind.exit f) =
      ap (λ (q : Flags). q.2) (flags-accept (encode f) p)
      ∙ ap (λ x. p.exit_queued || x) (has_kind-encode MsgKind.exit f) in
    subst IsBounded same (
      ground (
        arith,
        flag,
        exit_size,
        size,
        e,
        send_accepts p fs f v b small,
        total-accept p fs f v b small,
      ))

-- `send` leaves the close and the deadline of the queue alone.
pub send_keeps :
    (p p' : Pending) (f : Frame)
    → send (encode f) p ≡ some p'
    → (p'.closed ≡ p.closed) × (p'.shutdown_deadline ≡ p.shutdown_deadline)
send_keeps p p' f e =
    let same : accept (encode f) p ≡ p' = ground (arith, send_lem p f, e) in
    subst (λ q. (q.closed ≡ p.closed) × (q.shutdown_deadline ≡ p.shutdown_deadline)) same
      (
        ap (λ (q : Flags). q.0) (flags-accept (encode f) p),
        ap (λ (q : Flags). q.3) (flags-accept (encode f) p),
      )

-- A frame other than Exit that fits within the limit is accepted, and adds no more than its size.
pub send_fits :
    (p : Pending) (fs : List Frame) (f : Frame)
    → Holds p fs
    → IsBounded p
    → IsSmall f
    → p.closed ≡ false
    → is MsgKind.exit f ≡ false
    → p.bytes + (length f.payload + 6) ≤ client_queue_bytes
    → (p' : Pending) × (send (encode f) p ≡ some p') × (p'.bytes ≤ p.bytes + (length f.payload + 6))
send_fits p fs f v b small c x fits =
    let (cut, grows, size) = accept-Grows p f small (bytes_fit p f b small) fs v in
    (
      accept (encode f) p,
      ground (arith, c, x, size, send_accepts p fs f v b small, total-accept p fs f v b small),
      ground (arith, size, total-accept p fs f v b small),
    )
