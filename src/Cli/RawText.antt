-- ===== src/Cli/RawText.antt =====
-- `RawText` of keepty/src/main.rs: finding text in raw output, across frames and escape sequences.
pub mod Frames
use keepty.Base.{
  ℕ, ◌+◌, ◌-◌, ◌≤◌, ◌≡◌, refl, ◌⊎◌, inl, inr, Bool, true, false, not, ◌&&◌, ◌||◌, List, [], ◌∷◌,
  ◌++◌, Option, none, some, arith, leb, ◌==◌, if◌then◌else◌, length, drop, length-append,
  length-drop, if-satisfies, if-cases, leb→le, leb→lt,
}
use keepty.Base.Text.{ends_with}

pub record RawText : Type 0 where
  pub state : ℕ
  pub tail : List ℕ

-- `RawText::default()`
abbrev pub fresh : RawText
fresh = record { state = 0; tail = [] }

abbrev pub within : ℕ → ℕ → ℕ → Bool
within lo hi b = leb lo b && leb b hi

abbrev pub one_of : List ℕ → ℕ → Bool
one_of [] b = false
one_of (x ∷ xs) b = b == x || one_of xs b

-- A state and a byte added to the tail, or none.
abbrev pub goes : ℕ → RawText → RawText
goes state r = record r { state = state }

abbrev pub adds : ℕ → RawText → RawText
adds b r = record r { tail = r.tail ++ b ∷ [] }

unfoldable pub ground_byte : ℕ → RawText → RawText
ground_byte b r =
    if b == 0x1b
    then goes 1 r
    else if one_of (b'\r' ∷ b'\n' ∷ 0x08 ∷ 0x09 ∷ []) b
    then adds b'\n' r
    else if within 0 0x1f b || b == 0x7f
    then r
    else adds b r

unfoldable pub escape_byte : ℕ → RawText → RawText
escape_byte b r =
    if b == b'['
    then goes 2 r
    else if b == b']'
    then goes 3 r
    else if one_of (b'P' ∷ b'X' ∷ b'^' ∷ b'_' ∷ []) b
    then goes 4 r
    else if within 0x20 0x2f b
    then goes 6 r
    else if one_of (b'7' ∷ b'8' ∷ b'D' ∷ b'E' ∷ b'M' ∷ b'c' ∷ []) b
    then goes 0 (adds b'\n' r)
    else goes 0 r

unfoldable pub csi_byte : ℕ → RawText → RawText
csi_byte b r =
    if within 0x40 0x7e b
    then goes 0 (if not (one_of (b'm' ∷ b'h' ∷ b'l' ∷ []) b) then adds b'\n' r else r)
    else r

unfoldable pub string_byte : ℕ → RawText → RawText
string_byte b r =
    if b == 0x1b then goes (r.state + 4) r else if b == 7 && r.state == 3 then goes 0 r else r

unfoldable pub charset_byte : ℕ → RawText → RawText
charset_byte b r = if within 0x30 0x7e b then goes 0 r else r

unfoldable pub string_escape_byte : ℕ → RawText → RawText
string_escape_byte b r =
    if b == b'\\' then goes 0 r else if not (b == 0x1b) then goes (r.state - 4) r else r

-- The `match` on the state; `none` is `unreachable!()`.
unfoldable pub advance : ℕ → RawText → Option RawText
unfolding ground_byte escape_byte csi_byte string_byte charset_byte string_escape_byte
advance b r =
    if r.state == 0
    then some (ground_byte b r)
    else if r.state == 1
    then some (escape_byte b r)
    else if r.state == 2
    then some (csi_byte b r)
    else if r.state == 3 || r.state == 4
    then some (string_byte b r)
    else if r.state == 6
    then some (charset_byte b r)
    else if r.state == 7 || r.state == 8
    then some (string_escape_byte b r)
    else none

-- The tail cut to `needle.len().saturating_add(256)`; a needle is far below the limit of `usize`.
unfoldable pub trim : ℕ → RawText → RawText
trim n r =
    let limit : ℕ = n + 256 in
    if leb (length r.tail) limit then r else record r { tail = drop (length r.tail - limit) r.tail }

-- `RawText::feed`, with whether it has matched so far.
unfoldable pub feed : List ℕ → List ℕ → RawText → Bool → Option (RawText × Bool)
unfolding advance trim
feed needle [] r matched = some (r, matched)
feed needle (b ∷ bs) r matched = elim (advance b r) [
  | none ↦ none
  | some r' ↦ feed needle bs (trim (length needle) r') (matched || ends_with needle r'.tail)
]

-- The states that occur: every one below 9 but 5.
abbrev pub IsState : ℕ → Type 0
IsState s = (s ≤ 4) ⊎ ((6 ≤ s) × (s ≤ 8))

pub record Sane (n : ℕ) (r : RawText) : Type 0 where
  pub state : IsState r.state
  pub bounded : length r.tail ≤ n + 256

-- One byte more than the bound, before it is trimmed.
record Good (n : ℕ) (r : RawText) : Type 0 where
  ok : IsState r.state
  near : length r.tail ≤ n + 257

-- A byte is taken without a panic.
data Advanced (n : ℕ) : Option RawText → Type 0 where
  takes : {r : RawText} → Good n r → Advanced n (some r)

module _ (n : ℕ) (b : ℕ) (r : RawText) (v : Sane n r) where
  near : length r.tail ≤ n + 257
  near = omega (arith, v.bounded)

  stays : Good n r
  stays = record { ok = v.state; near = near }

  plus : (x : ℕ) → Good n (adds x r)
  plus x = record { ok = v.state; near = omega (arith, v.bounded, length-append r.tail (x ∷ [])) }

  to : (s : ℕ) → IsState s → Good n (goes s r)
  to s h = record { ok = h; near = near }

  to_plus : Good n (goes 0 (adds b'\n' r))
  to_plus = record { ok = inl (omega arith); near = (plus b'\n').near }

  ground-Good : Good n (ground_byte b r)
  unfolding ground_byte
  ground-Good =
      if-satisfies (Good n) _ _ _ (to 1 (inl (omega arith)))
        (if-satisfies (Good n) _ _ _ (plus b'\n') (if-satisfies (Good n) _ _ _ stays (plus b)))

  escape-Good : Good n (escape_byte b r)
  unfolding escape_byte
  escape-Good = if-satisfies (Good n) _ _ _ (to 2 (inl (omega arith))) (
      if-satisfies (Good n) _ _ _ (to 3 (inl (omega arith))) (
        if-satisfies (Good n) _ _ _ (to 4 (inl (omega arith))) (
          if-satisfies (Good n) _ _ _ (to 6 (inr (omega arith, omega arith)))
            (if-satisfies (Good n) _ _ _ to_plus (to 0 (inl (omega arith)))))))

  csi-Good : Good n (csi_byte b r)
  unfolding csi_byte
  csi-Good =
      if-satisfies (Good n) _ _ _
        (if-satisfies (λ (q : RawText). Good n (goes 0 q))
          (not (one_of (b'm' ∷ b'h' ∷ b'l' ∷ []) b)) (adds b'\n' r) r to_plus
          (to 0 (inl (omega arith))))
        stays

  charset-Good : Good n (charset_byte b r)
  unfolding charset_byte
  charset-Good = if-satisfies (Good n) _ _ _ (to 0 (inl (omega arith))) stays

  string-Good : (r.state == 3 || r.state == 4) ≡ true → Good n (string_byte b r)
  unfolding string_byte
  string-Good h =
      if-satisfies (Good n) _ _ _ (to (r.state + 4) (inr (ground (arith, h))))
        (if-satisfies (Good n) _ _ _ (to 0 (inl (omega arith))) stays)

  string_escape-Good : (r.state == 7 || r.state == 8) ≡ true → Good n (string_escape_byte b r)
  unfolding string_escape_byte
  string_escape-Good h =
      if-satisfies (Good n) _ _ _ (to 0 (inl (omega arith)))
        (if-satisfies (Good n) _ _ _ (to (r.state - 4) (inl (ground (arith, h)))) stays)

no_other :
    (s : ℕ)
    → IsState s
    → (s == 0) ≡ false
    → (s == 1) ≡ false
    → (s == 2) ≡ false
    → (s == 3 || s == 4) ≡ false
    → (s == 6) ≡ false
    → (s == 7 || s == 8) ≡ false
    → ⊥
no_other s h e0 e1 e2 e3 e4 e5 = ground arith

advance-Advanced : (n b : ℕ) (r : RawText) → Sane n r → Advanced n (advance b r)
unfolding advance
advance-Advanced n b r v =
    if-cases (Advanced n) _ _ _ (λ e. takes (ground-Good n b r v))
      λ e0.
        if-cases (Advanced n) _ _ _ (λ e. takes (escape-Good n b r v))
          λ e1.
            if-cases (Advanced n) _ _ _ (λ e. takes (csi-Good n b r v))
              λ e2.
                if-cases (Advanced n) _ _ _ (λ e. takes (string-Good n b r v e))
                  λ e3.
                    if-cases (Advanced n) _ _ _ (λ e. takes (charset-Good n b r v))
                      λ e4.
                        if-cases (Advanced n) _ _ _ (λ e. takes (string_escape-Good n b r v e))
                          λ e5. absurd (no_other r.state v.state e0 e1 e2 e3 e4 e5)

trim-Sane : (n : ℕ) (r : RawText) → IsState r.state → Sane n (trim n r)
unfolding trim
trim-Sane n r h =
    if-cases (Sane n) (leb (length r.tail) (n + 256)) r _
      (λ e. record { state = h; bounded = leb→le _ _ e })
      (λ e. record {
        state = h;
        bounded = omega (
          arith,
          leb→lt (length r.tail) (n + 256) e,
          length-drop (length r.tail - (n + 256)) r.tail,
        );
      })

-- One byte, then the others.
feed-next :
    (needle bs : List ℕ) (o : Option RawText) (matched : Bool)
    → Advanced (length needle) o
    → ((r : RawText) (m : Bool)
        → Sane (length needle) r
        → (r' : RawText) × (found : Bool) × (feed needle bs r m ≡ some (r', found))
          × Sane (length needle) r')
    → (r' : RawText) × (found : Bool) × ((elim o as (λ x. Option (RawText × Bool)) [
      | none ↦ none
      | some q ↦ feed needle bs (trim (length needle) q) (matched || ends_with needle q.tail)
    ])
        ≡ some (r', found))
      × Sane (length needle) r'
feed-next needle bs none matched g h = elim g [ ]
feed-next needle bs (some q) matched (takes g) h =
    h (trim (length needle) q) (matched || ends_with needle q.tail)
      (trim-Sane (length needle) q g.ok)

-- From the default state on, and from every state that feeding leaves, whatever bytes are fed, no
-- byte meets the `unreachable!()`, and what is kept of the text is at most 256 bytes longer than the
-- needle.
pub feed-Sane :
    (needle bytes : List ℕ) (r : RawText) (matched : Bool)
    → Sane (length needle) r
    → (r' : RawText) × (found : Bool) × (feed needle bytes r matched ≡ some (r', found))
      × Sane (length needle) r'
unfolding feed
feed-Sane needle [] r matched v = (r, matched, refl, v)
feed-Sane needle (b ∷ bs) r matched v =
    feed-next needle bs (advance b r) matched (advance-Advanced (length needle) b r v)
      (λ r' m v'. feed-Sane needle bs r' m v')
