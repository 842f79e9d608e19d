-- ===== src/Broker/Replay.antt =====
-- `replay_frames` of keepty/src/broker.rs: history or a snapshot split into Output frames.
use keepty.Base.{
  ℕ, zero, suc, ◌+◌, ◌-◌, ◌/◌, ◌≤◌, ◌<◌, ◌≡◌, refl, ap, sym, ◌∙◌, List, [], ◌∷◌, ◌++◌, map, arith,
  length, take, drop, flatten, All, length-take, length-drop, take-append-drop,
}
use mathlib.Core.List.{map-append}
use keepty.Wire.{Frame, MsgKind, encode, max_payload_size}
use keepty.Wire.Codec.{IsSmall}
use keepty.Broker.Queue.View.{byte, stream}

-- `slice::chunks`: `n` elements at a time. One round of fuel for each element is enough.
chunks_fuel : ℕ → ℕ → List ℕ → List (List ℕ)
chunks_fuel zero n xs = []
chunks_fuel (suc fuel) n [] = []
chunks_fuel (suc fuel) n (x ∷ xs) = take n (x ∷ xs) ∷ chunks_fuel fuel n (drop n (x ∷ xs))

unfoldable pub chunks : ℕ → List ℕ → List (List ℕ)
unfolding chunks_fuel
chunks n xs = chunks_fuel (length xs) n xs

abbrev pub output : List ℕ → Frame
output payload = record { kind = MsgKind.output; payload = payload }

-- `replay_frames`
unfoldable pub replay_frames : List ℕ → List (List ℕ)
unfolding chunks
replay_frames bytes = map (λ chunk. encode (output chunk)) (chunks max_payload_size bytes)

flatten-chunks_fuel :
    (fuel n : ℕ) (xs : List ℕ) → 0 < n → length xs ≤ fuel → flatten (chunks_fuel fuel n xs) ≡ xs
unfolding chunks_fuel
flatten-chunks_fuel zero n [] pos h = refl
flatten-chunks_fuel zero n (x ∷ xs) pos h = absurd (omega arith)
flatten-chunks_fuel (suc fuel) n [] pos h = refl
flatten-chunks_fuel (suc fuel) n (x ∷ xs) pos h =
    ap (◌++◌ (take n (x ∷ xs)))
      (flatten-chunks_fuel fuel n (drop n (x ∷ xs)) pos (omega (arith, length-drop n (x ∷ xs))))
    ∙ take-append-drop n (x ∷ xs)

-- The frames of a replay.
abbrev pub replayed : List ℕ → List Frame
replayed bytes = map output (chunks max_payload_size bytes)

map-encode :
    (cs : List (List ℕ)) → map (λ chunk. encode (output chunk)) cs ≡ map encode (map output cs)
map-encode [] = refl
map-encode (c ∷ cs) = ap (◌∷◌ (encode (output c))) (map-encode cs)

chunks_fuel-IsSmall :
    (fuel : ℕ) (xs : List ℕ) → All IsSmall (map output (chunks_fuel fuel max_payload_size xs))
unfolding chunks_fuel
chunks_fuel-IsSmall zero xs = tt
chunks_fuel-IsSmall (suc fuel) [] = tt
chunks_fuel-IsSmall (suc fuel) (x ∷ xs) = (
  omega (arith, length-take max_payload_size (x ∷ xs)),
  chunks_fuel-IsSmall fuel (drop max_payload_size (x ∷ xs)),
)

pub stream-outputs : (cs : List (List ℕ)) → stream (map output cs) ≡ map byte (flatten cs)
stream-outputs [] = refl
stream-outputs (c ∷ cs) =
    ap (◌++◌ (map byte c)) (stream-outputs cs) ∙ sym (map-append byte c (flatten cs))

length-chunks_fuel :
    (fuel : ℕ) (xs : List ℕ)
    → length xs ≤ fuel
    → length (chunks_fuel fuel max_payload_size xs)
      ≡ (length xs + max_payload_size - 1) / max_payload_size
unfolding chunks_fuel
length-chunks_fuel zero [] h = refl
length-chunks_fuel zero (x ∷ xs) h = absurd (omega arith)
length-chunks_fuel (suc fuel) [] h = refl
length-chunks_fuel (suc fuel) (x ∷ xs) h =
    let rest = drop max_payload_size (x ∷ xs) in
    omega (
      arith,
      length-chunks_fuel fuel rest (omega (arith, length-drop max_payload_size (x ∷ xs))),
      length-drop max_payload_size (x ∷ xs),
    )

length-map : (cs : List (List ℕ)) → length (map (λ chunk. encode (output chunk)) cs) ≡ length cs
length-map [] = refl
length-map (c ∷ cs) = ap suc (length-map cs)

pub flatten-chunks : (xs : List ℕ) → flatten (chunks max_payload_size xs) ≡ xs
unfolding chunks
flatten-chunks xs = flatten-chunks_fuel (length xs) max_payload_size xs (omega arith) (omega arith)

pub length-chunks :
    (xs : List ℕ)
    → length (chunks max_payload_size xs) ≡ (length xs + max_payload_size - 1) / max_payload_size
unfolding chunks
length-chunks xs = length-chunks_fuel (length xs) xs (omega arith)

pub chunks-IsSmall : (xs : List ℕ) → All IsSmall (map output (chunks max_payload_size xs))
unfolding chunks
chunks-IsSmall xs = chunks_fuel-IsSmall (length xs) xs

-- A replay is a row of encoded Output frames, each within the payload limit, that carry exactly
-- the given bytes in order, and there are no more frames than those bytes need.
pub replay_frames_lem :
    (bytes : List ℕ)
    → (replay_frames bytes ≡ map encode (replayed bytes))
      × All IsSmall (replayed bytes)
      × (stream (replayed bytes) ≡ map byte bytes)
      × (length (replay_frames bytes) ≡ (length bytes + max_payload_size - 1) / max_payload_size)
unfolding replay_frames
replay_frames_lem bytes =
    let cs = chunks max_payload_size bytes in
    (
      map-encode cs,
      chunks-IsSmall bytes,
      stream-outputs cs ∙ ap (map byte) (flatten-chunks bytes),
      length-map cs ∙ length-chunks bytes,
    )
