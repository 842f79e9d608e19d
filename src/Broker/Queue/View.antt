-- ===== src/Broker/Queue/View.antt =====
-- A client queue of keepty/src/broker.rs seen as frames, and as what its client will read: Output
-- bytes one by one, and every other frame as a fence between them.
use keepty.Base.{
  ℕ, ◌+◌, ◌≤◌, ◌≡◌, refl, ap, sym, ◌∙◌, ◌⊎◌, inl, inr, Bool, List, [], ◌∷◌, ◌++◌, map, append_assoc,
  append-nil, some, arith, All, ◌==◌, if◌then◌else◌,
}
use keepty.Wire.{Frame, MsgKind, kind_byte, encode}
use keepty.Wire.Codec.{IsSmall}
use keepty.Broker.Queue.{Pending, has_kind, back, total, client_queue_bytes, control_slack}

pub data Token : Type 0 where
  byte : ℕ → Token
  control : Frame → Token

abbrev pub is : MsgKind → Frame → Bool
is kind f = kind_byte f.kind == kind_byte kind

abbrev pub tokens : Frame → List Token
tokens f = if is MsgKind.output f then map byte f.payload else control f ∷ []

abbrev pub stream : List Frame → List Token
stream [] = []
stream (f ∷ fs) = tokens f ++ stream fs

pub has_kind-encode : (kind : MsgKind) (f : Frame) → has_kind kind (encode f) ≡ is kind f
unfolding encode
has_kind-encode kind f = refl

pub stream-append : (fs gs : List Frame) → stream (fs ++ gs) ≡ stream fs ++ stream gs
stream-append [] gs = refl
stream-append (f ∷ fs) gs =
    ap (◌++◌ (tokens f)) (stream-append fs gs)
    ∙ sym (append_assoc (tokens f) (stream fs) (stream gs))

pub stream-one : (fs : List Frame) (f : Frame) → stream (fs ++ f ∷ []) ≡ stream fs ++ tokens f
stream-one fs f = stream-append fs (f ∷ []) ∙ ap (◌++◌ (stream fs)) (append-nil (tokens f))

pub total-append : (xs ys : List (List ℕ)) → total (xs ++ ys) ≡ total xs + total ys
total-append [] ys = omega arith
total-append (x ∷ xs) ys = omega (arith, total-append xs ys)

pub back-append {ℓ} : {A : Type ℓ} (xs : List A) (y : A) → back (xs ++ y ∷ []) ≡ some (xs, y)
back-append [] y = refl
back-append (x ∷ xs) y = rw (back-append xs y)

-- A list is empty or ends in an element.
pub back_cases {ℓ} :
    {A : Type ℓ} (xs : List A) → (xs ≡ []) ⊎ ((ys : List A) × (y : A) × (xs ≡ ys ++ y ∷ []))
back_cases [] = inl refl
back_cases (x ∷ xs) = elim (back_cases xs) [
  | inl e ↦ inr ([], x, ap (◌∷◌ x) e)
  | inr (ys, y, e) ↦ inr (x ∷ ys, y, ap (◌∷◌ x) e)
]

-- The queue holds the encodings of `fs`, each within the payload limit, and counts their bytes.
pub record Holds (p : Pending) (fs : List Frame) : Type 0 where
  pub queued : p.frames ≡ map encode fs
  pub small : All IsSmall fs
  pub counted : p.bytes ≡ total p.frames

-- The memory bound of one queue: the limit with its slack, and one Exit frame.
abbrev pub IsBounded : Pending → Type 0
IsBounded p = p.bytes ≤ client_queue_bytes + control_slack + (if p.exit_queued then 10 else 0)
