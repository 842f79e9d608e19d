-- ===== src/Wire/Inputs.antt =====
-- The keys among the frames of keepty-protocol/src/lib.rs that a client sends.
use keepty.Base.{◌≡◌, ap, sym, ◌∙◌, ℕ, List, [], ◌∷◌, ◌++◌, append_assoc, append-nil}
use keepty.Wire.{Frame, MsgKind}

-- The payloads of the Input frames, in order.
abbrev pub input_of : Frame → List (List ℕ)
input_of f = elim f.kind [ MsgKind.input ↦ f.payload ∷ [] | _ ↦ [] ]

abbrev pub inputs : List Frame → List (List ℕ)
inputs [] = []
inputs (f ∷ fs) = input_of f ++ inputs fs

pub inputs-append : (fs : List Frame) (g : Frame) → inputs (fs ++ g ∷ []) ≡ inputs fs ++ input_of g
inputs-append [] g = append-nil (input_of g)
inputs-append (f ∷ fs) g =
    ap (λ ys. input_of f ++ ys) (inputs-append fs g)
    ∙ sym (append_assoc (input_of f) (inputs fs) (input_of g))
