-- ===== src/Cli/Keys.antt =====
-- `named_key` of keepty/src/main.rs: the bytes that a named key sends. Names are their bytes.
use Prim.Native.String.{String}
use keepty.Base.{
  ℕ, ◌+◌, ◌-◌, ◌≡◌, refl, ap, Bool, true, false, ◌||◌, List, [], ◌∷◌, map, Option, none, some,
  arith, if◌then◌else◌,
}
use keepty.Base.Text.{codes, same_bytes, strip_prefix}
use keepty.Cli.RawText.{within}

-- `to_ascii_lowercase` of a byte
unfoldable pub lower : ℕ → ℕ
lower b = if within b'A' b'Z' b then b + 32 else b

-- A `match` on a text whose arms are distinct texts.
abbrev pub lookup {ℓ} : {A : Type ℓ} → List ℕ → List (String × A) → Option A
lookup name [] = none
lookup name ((s, a) ∷ arms) = if same_bytes name (codes s) then some a else lookup name arms

abbrev esc : List ℕ → List ℕ
esc bytes = 0x1b ∷ bytes

abbrev aliases : List (String × List ℕ)
aliases =
    ("return", codes "enter")
    ∷ ("escape", codes "esc")
    ∷ ("page-up", codes "pageup")
    ∷ ("page-down", codes "pagedown")
    ∷ []

abbrev fixed_keys : List (String × List ℕ)
fixed_keys =
    ("enter", b'\r' ∷ [])
    ∷ ("tab", b'\t' ∷ [])
    ∷ ("esc", 0x1b ∷ [])
    ∷ ("backspace", 0x7f ∷ [])
    ∷ ("space", b' ' ∷ [])
    ∷ ("delete", esc (codes "[3~"))
    ∷ ("pageup", esc (codes "[5~"))
    ∷ ("pagedown", esc (codes "[6~"))
    ∷ ("f1", esc (codes "OP"))
    ∷ ("f2", esc (codes "OQ"))
    ∷ ("f3", esc (codes "OR"))
    ∷ ("f4", esc (codes "OS"))
    ∷ ("f5", esc (codes "[15~"))
    ∷ ("f6", esc (codes "[17~"))
    ∷ ("f7", esc (codes "[18~"))
    ∷ ("f8", esc (codes "[19~"))
    ∷ ("f9", esc (codes "[20~"))
    ∷ ("f10", esc (codes "[21~"))
    ∷ ("f11", esc (codes "[23~"))
    ∷ ("f12", esc (codes "[24~"))
    ∷ []

-- The keys that the application mode changes, by their last byte.
abbrev cursor_keys : List (String × ℕ)
cursor_keys =
    ("up", b'A')
    ∷ ("down", b'B')
    ∷ ("right", b'C')
    ∷ ("left", b'D')
    ∷ ("home", b'H')
    ∷ ("end", b'F')
    ∷ []

-- What is behind `ctrl-`: one letter.
unfoldable pub control_letter : Option (List ℕ) → Option (List ℕ)
unfolding lower
control_letter (some (b ∷ [])) =
    if within b'a' b'z' b || within b'A' b'Z' b then some ((lower b - b'a' + 1) ∷ []) else none
control_letter _ = none

-- The first `match`: one name for each key.
unfoldable pub key_name : List ℕ → List ℕ
key_name normalized = elim (lookup normalized aliases) [ none ↦ normalized | some alias ↦ alias ]

-- `named_key`
unfoldable pub named_key : List ℕ → Bool → Option (List ℕ)
unfolding key_name lower control_letter
named_key name application =
    let key = key_name (map lower name) in
    elim (lookup key fixed_keys) [
      | some bytes ↦ some bytes
      | none ↦ elim (lookup key cursor_keys) [
        | some c ↦ some (0x1b ∷ (if application then b'O' else b'[') ∷ c ∷ [])
        | none ↦ control_letter (strip_prefix (codes "ctrl-") key)
      ]
    ]

lower_idem : (b : ℕ) → lower (lower b) ≡ lower b
unfolding lower
lower_idem b = ground arith

map-lower_idem : (bs : List ℕ) → map lower (map lower bs) ≡ map lower bs
map-lower_idem [] = refl
map-lower_idem (b ∷ bs) = cc (lower_idem b, map-lower_idem bs)

-- The application mode does not matter, or it is the second of a cursor key's three bytes.
pub data Modes : Option (List ℕ) → Option (List ℕ) → Type 0 where
  alike : {r : Option (List ℕ)} → Modes r r
  cursor : (c : ℕ) → Modes (some (0x1b ∷ b'O' ∷ c ∷ [])) (some (0x1b ∷ b'[' ∷ c ∷ []))

key-Modes :
    (fixed : Option (List ℕ)) (found : Option ℕ) (rest : Option (List ℕ))
    → Modes
        (elim fixed as (λ x. Option (List ℕ)) [
          | some bytes ↦ some bytes
          | none ↦ elim found as (λ x. Option (List ℕ)) [
            | some c ↦ some (0x1b ∷ b'O' ∷ c ∷ [])
            | none ↦ rest
          ]
        ])
        (elim fixed as (λ x. Option (List ℕ)) [
          | some bytes ↦ some bytes
          | none ↦ elim found as (λ x. Option (List ℕ)) [
            | some c ↦ some (0x1b ∷ b'[' ∷ c ∷ [])
            | none ↦ rest
          ]
        ])
key-Modes (some bytes) found rest = alike
key-Modes none (some c) rest = cursor c
key-Modes none none rest = alike

-- A name means a key in both cursor modes or in neither. The bytes are the same in both, or ESC,
-- `O` in the application mode and `[` in the other, and one more byte. Upper and lower case are the
-- same name.
pub named_key-Modes :
    (name : List ℕ)
    → Modes (named_key name true) (named_key name false)
      × ((application : Bool) → named_key (map lower name) application ≡ named_key name application)
unfolding named_key
named_key-Modes name =
    let key = key_name (map lower name) in
    (
      key-Modes (lookup key fixed_keys) (lookup key cursor_keys)
          (control_letter (strip_prefix (codes "ctrl-") key)),
      λ application.
          ap
            (λ lowered.
              let k = key_name lowered in
              elim (lookup k fixed_keys) as (λ x. Option (List ℕ)) [
                | some bytes ↦ some bytes
                | none ↦ elim (lookup k cursor_keys) as (λ x. Option (List ℕ)) [
                  | some c ↦ some (0x1b ∷ (if application then b'O' else b'[') ∷ c ∷ [])
                  | none ↦ control_letter (strip_prefix (codes "ctrl-") k)
                ]
              ])
            (map-lower_idem name),
    )
