-- ===== src/Broker/Queue/Recv.antt =====
-- `ClientQueue::recv` of keepty/src/broker.rs: what the drain thread gets, before and after the
-- shutdown deadline.
use keepty.Base.{
  ℕ, ◌^◌, ◌≤◌, ◌<◌, ◌≡◌, refl, ap, sym, ◌∙◌, inl, inr, Bool, true, false, List, [], ◌∷◌, map,
  Option, arith, length, All, if◌then◌else◌, Bool-cases, sub64, subst,
}
use keepty.Wire.{Frame, MsgKind, encode}
use keepty.Wire.Codec.{IsSmall}
use keepty.Broker.Queue.{
  Pending, Received, frame, ended, waits, total, exits, expired, expire, pop, recv,
}
use keepty.Broker.Queue.View.{is, has_kind-encode, Holds}

-- The frames that `recv` leaves in the queue at time `now`, before it takes one.
abbrev pub exit_frames : List Frame → List Frame
exit_frames [] = []
exit_frames (f ∷ fs) = if is MsgKind.exit f then f ∷ exit_frames fs else exit_frames fs

abbrev pub kept : ℕ → Option ℕ → List Frame → List Frame
kept now deadline fs = if expired now deadline then exit_frames fs else fs

exits-map : (fs : List Frame) → exits (map encode fs) ≡ map encode (exit_frames fs)
unfolding exits
exits-map [] = refl
exits-map (f ∷ fs) = elim (Bool-cases (is MsgKind.exit f)) [
  | inl x ↦ rw (has_kind-encode MsgKind.exit f, x) (ap (◌∷◌ (encode f)) (exits-map fs))
  | inr x ↦ rw (has_kind-encode MsgKind.exit f, x) (exits-map fs)
]

exit_frames-IsSmall : (fs : List Frame) → All IsSmall fs → All IsSmall (exit_frames fs)
exit_frames-IsSmall [] h = tt
exit_frames-IsSmall (f ∷ fs) h = ground (arith, exit_frames-IsSmall fs h.1)

pub total-exits : (xs : List (List ℕ)) → total (exits xs) ≤ total xs
unfolding exits
total-exits [] = omega arith
total-exits (x ∷ xs) = ground (arith, total-exits xs)

expire-Holds :
    (now : ℕ) (p : Pending) (fs : List Frame)
    → Holds p fs
    → Holds (expire now p) (kept now p.shutdown_deadline fs)
      × ((expire now p).closed ≡ p.closed)
      × ((expire now p).bytes ≤ p.bytes)
unfolding expire
expire-Holds now p fs v = elim (Bool-cases (expired now p.shutdown_deadline)) [
  | inl late ↦
      rw (late, expire)
        (
          record {
            queued = ap exits v.queued ∙ exits-map fs;
            small = exit_frames-IsSmall fs v.small;
            counted = refl;
          },
          refl,
          omega (arith, total-exits p.frames, v.counted),
        )
  | inr early ↦
      rw (early, expire)
        (record { queued = v.queued; small = v.small; counted = v.counted }, refl, omega arith)
]

exit_queued-expire : (now : ℕ) (p : Pending) → (expire now p).exit_queued ≡ p.exit_queued
unfolding expire
exit_queued-expire now p = ground arith

shutdown_deadline-expire :
    (now : ℕ) (p : Pending) → (expire now p).shutdown_deadline ≡ p.shutdown_deadline
unfolding expire
shutdown_deadline-expire now p = ground arith

-- What `recv` may return on a queue that keeps the frames `gs`.
pub data Takes (closed : Bool) (gs : List Frame) (r : Received) : Type 0 where
  takes :
      (f : Frame) (rest : List Frame) (p' : Pending)
      → gs ≡ f ∷ rest
      → r ≡ frame (encode f) p'
      → Holds p' rest
      → Takes closed gs r
  ends : (p' : Pending) → gs ≡ [] → closed ≡ true → r ≡ ended p' → Holds p' [] → Takes closed gs r
  blocks :
      (p' : Pending) → gs ≡ [] → closed ≡ false → r ≡ waits p' → Holds p' [] → Takes closed gs r

pop-Takes :
    (p : Pending) (ys : List (List ℕ)) (gs : List Frame)
    → p.frames ≡ ys
    → Holds p gs
    → p.bytes < 2 ^ 64
    → Takes p.closed gs (pop ys p)
unfolding pop
pop-Takes p ys [] e v fits = rw (sym e ∙ v.queued) (elim (Bool-cases p.closed) [
  | inl c ↦ ends p refl c (rw c) v
  | inr c ↦ blocks p refl c (rw c) v
])
pop-Takes p ys (f ∷ rest) e v fits = rw (sym e ∙ v.queued) (
    takes f rest (record p { frames = map encode rest; bytes = sub64 p.bytes (length (encode f)) })
      refl refl
      (record {
        queued = refl;
        small = v.small.1;
        counted = omega (arith, v.counted, ap total v.queued);
      }))

-- At any time `recv` returns the oldest frame that it keeps and leaves the queue holding the rest;
-- with no such frame it ends on a closed queue and waits on an open one. Before the deadline it
-- keeps every frame, from the deadline on the Exit frames alone.
pub recv-Takes :
    (now : ℕ) (p : Pending) (fs : List Frame)
    → Holds p fs
    → p.bytes < 2 ^ 64
    → Takes p.closed (kept now p.shutdown_deadline fs) (recv now p)
unfolding recv
recv-Takes now p fs v fits =
    let (v', closed, le) = expire-Holds now p fs v in
    subst (λ c. Takes c (kept now p.shutdown_deadline fs) (recv now p)) closed
      (pop-Takes (expire now p) (expire now p).frames (kept now p.shutdown_deadline fs) refl v'
        (omega arith))

-- The queue behind a result.
abbrev pub queue_of : Received → Pending
queue_of (frame f p) = p
queue_of (ended p) = p
queue_of (waits p) = p

pop-keeps :
    (ys : List (List ℕ)) (p : Pending)
    → p.bytes ≡ total ys
    → p.bytes < 2 ^ 64
    → ((queue_of (pop ys p)).bytes ≤ p.bytes)
      × ((queue_of (pop ys p)).exit_queued ≡ p.exit_queued)
      × ((queue_of (pop ys p)).shutdown_deadline ≡ p.shutdown_deadline)
unfolding pop
pop-keeps [] p e fits = ground arith
pop-keeps (y ∷ ys) p e fits = (omega arith, refl, refl)

-- `recv` frees memory only, and leaves `exit_queued` and the deadline.
pub recv_keeps :
    (now : ℕ) (p : Pending) (fs : List Frame)
    → Holds p fs
    → p.bytes < 2 ^ 64
    → ((queue_of (recv now p)).bytes ≤ p.bytes)
      × ((queue_of (recv now p)).exit_queued ≡ p.exit_queued)
      × ((queue_of (recv now p)).shutdown_deadline ≡ p.shutdown_deadline)
unfolding recv
recv_keeps now p fs v fits =
    let (v', closed, le) = expire-Holds now p fs v in
    let (less, x, d) = pop-keeps (expire now p).frames (expire now p) v'.counted (omega arith) in
    (omega arith, x ∙ exit_queued-expire now p, d ∙ shutdown_deadline-expire now p)
