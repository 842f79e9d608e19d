-- ===== src/Wire/Messages.antt =====
-- The payloads of keepty-protocol/src/lib.rs: Hello, HelloAck, Resize, ResizeAck and Exit.
-- A `u16` or `u32` is a number below 2 ^ 16 or 2 ^ 32; an `i32` is an integer of `Base.Int`.
use keepty.Base.{
  ℕ, ◌^◌, ◌+◌, ◌<◌, ◌≡◌, refl, ap, Option, none, some, List, [], ◌∷◌, ◌++◌, length, get_or, take,
  ltb, if◌then◌else◌, be16, be32, from_be16, from_be32, IsByte, All, arith, from_be16-be16,
  from_be32-be32, be32-from_be32, ◌≢◌, ◌⊎◌, inl, inr, le→ltb, sym,
}
use keepty.Base.Int.{ℤ, IsI32, to_u32, of_u32, of_u32-to_u32, to_u32-lt, to_u32-of_u32}
use keepty.Base.Results.{Result, ok, err}
use keepty.Wire.{Role, role_byte, role_of_byte}
use keepty.Wire.Kinds.{role_of_byte-role_byte, role_of_byte_ok}

-- `payload[i]`; each use stands behind a test of the length.
abbrev byte_at : List ℕ → ℕ → ℕ
byte_at payload i = get_or payload i 0

abbrev u16_at : List ℕ → ℕ → ℕ
u16_at payload i = from_be16 (byte_at payload i) (byte_at payload (i + 1))

abbrev u32_at : List ℕ → ℕ → ℕ
u32_at payload i =
    from_be32 (byte_at payload i) (byte_at payload (i + 1)) (byte_at payload (i + 2))
      (byte_at payload (i + 3))

unfoldable pub encode_hello : Role → ℕ → ℕ → List ℕ
encode_hello role cols rows = role_byte role ∷ be16 cols ++ be16 rows

sized : ℕ → ℕ → Result ℕ Role → Option (Role × ℕ × ℕ)
sized cols rows (ok role) = some (role, cols, rows)
sized cols rows (err v) = none

unfoldable pub decode_hello : List ℕ → Option (Role × ℕ × ℕ)
unfolding sized
decode_hello payload =
    if ltb (length payload) 5
    then none
    else sized (u16_at payload 1) (u16_at payload 3) (role_of_byte (byte_at payload 0))

unfoldable pub encode_hello_ack : ℕ → ℕ → ℕ → List ℕ
encode_hello_ack pty_pid cols rows = be32 pty_pid ++ be16 cols ++ be16 rows

unfoldable pub decode_hello_ack : List ℕ → Option (ℕ × ℕ × ℕ)
decode_hello_ack payload =
    if ltb (length payload) 8
    then none
    else some (u32_at payload 0, u16_at payload 4, u16_at payload 6)

unfoldable pub encode_resize : ℕ → ℕ → List ℕ
encode_resize cols rows = be16 cols ++ be16 rows

unfoldable pub decode_resize : List ℕ → Option (ℕ × ℕ)
decode_resize payload =
    if ltb (length payload) 4 then none else some (u16_at payload 0, u16_at payload 2)

unfoldable pub encode_resize_ack : ℕ → ℕ → ℕ → List ℕ
encode_resize_ack gen cols rows = be32 gen ++ be16 cols ++ be16 rows

unfoldable pub decode_resize_ack : List ℕ → Option (ℕ × ℕ × ℕ)
decode_resize_ack payload =
    if ltb (length payload) 8
    then none
    else some (u32_at payload 0, u16_at payload 4, u16_at payload 6)

unfoldable pub encode_exit : ℤ → List ℕ
encode_exit code = be32 (to_u32 code)

unfoldable pub decode_exit : List ℕ → Option ℤ
decode_exit payload = if ltb (length payload) 4 then none else some (of_u32 (u32_at payload 0))

module _ (rest : List ℕ) where
  -- A decoded Hello is the encoded one, also where more bytes follow.
  pub decode_hello-encode_hello :
      (role : Role) (cols rows : ℕ)
      → cols < 2 ^ 16
      → rows < 2 ^ 16
      → decode_hello (encode_hello role cols rows ++ rest) ≡ some (role, cols, rows)
  unfolding decode_hello encode_hello
  decode_hello-encode_hello role cols rows hc hr =
      ground (arith, role_of_byte-role_byte role, from_be16-be16 cols hc, from_be16-be16 rows hr)

  pub decode_hello_ack-encode_hello_ack :
      (pid cols rows : ℕ)
      → pid < 2 ^ 32
      → cols < 2 ^ 16
      → rows < 2 ^ 16
      → decode_hello_ack (encode_hello_ack pid cols rows ++ rest) ≡ some (pid, cols, rows)
  unfolding decode_hello_ack encode_hello_ack
  decode_hello_ack-encode_hello_ack pid cols rows hp hc hr = ground arith

  pub decode_resize-encode_resize :
      (cols rows : ℕ)
      → cols < 2 ^ 16
      → rows < 2 ^ 16
      → decode_resize (encode_resize cols rows ++ rest) ≡ some (cols, rows)
  unfolding decode_resize encode_resize
  decode_resize-encode_resize cols rows hc hr = ground arith

  pub decode_resize_ack-encode_resize_ack :
      (gen cols rows : ℕ)
      → gen < 2 ^ 32
      → cols < 2 ^ 16
      → rows < 2 ^ 16
      → decode_resize_ack (encode_resize_ack gen cols rows ++ rest) ≡ some (gen, cols, rows)
  unfolding decode_resize_ack encode_resize_ack
  decode_resize_ack-encode_resize_ack gen cols rows hg hc hr = ground arith

  pub decode_exit-encode_exit :
      (code : ℤ) → IsI32 code → decode_exit (encode_exit code ++ rest) ≡ some code
  unfolding decode_exit encode_exit
  decode_exit-encode_exit code h =
      ground (arith, from_be32-be32 (to_u32 code) (to_u32-lt code h), of_u32-to_u32 code h)

-- Every payload decodes to the values that it was encoded from, whatever bytes follow it.
pub decode-encode :
    (role : Role) (n cols rows : ℕ) (code : ℤ) (rest : List ℕ)
    → n < 2 ^ 32
    → cols < 2 ^ 16
    → rows < 2 ^ 16
    → IsI32 code
    → (decode_hello (encode_hello role cols rows ++ rest) ≡ some (role, cols, rows))
      × (decode_hello_ack (encode_hello_ack n cols rows ++ rest) ≡ some (n, cols, rows))
      × (decode_resize (encode_resize cols rows ++ rest) ≡ some (cols, rows))
      × (decode_resize_ack (encode_resize_ack n cols rows ++ rest) ≡ some (n, cols, rows))
      × (decode_exit (encode_exit code ++ rest) ≡ some code)
decode-encode role n cols rows code rest hn hc hr he = (
  decode_hello-encode_hello rest role cols rows hc hr,
  decode_hello_ack-encode_hello_ack rest n cols rows hn hc hr,
  decode_resize-encode_resize rest cols rows hc hr,
  decode_resize_ack-encode_resize_ack rest n cols rows hn hc hr,
  decode_exit-encode_exit rest code he,
)

-- The payload begins with the encoding of what it decodes to, or decodes to nothing for a reason.
abbrev pub Decodes : {A : Type 0} → (A → List ℕ) → ℕ → List ℕ → Option A → Type 0 → Type 0
Decodes {A} enc size payload r bad =
    ((a : A) × (r ≡ some a) × (take size payload ≡ enc a))
    ⊎ ((r ≡ none) × ((length payload < size) ⊎ bad))

sized_Decodes :
    (a b c d e : ℕ) (p : List ℕ) (r : Result ℕ Role)
    → All IsByte (a ∷ b ∷ c ∷ d ∷ e ∷ p)
    → role_of_byte a ≡ r
    → Decodes
        (λ (h : Role × ℕ × ℕ). encode_hello h.0 h.1 h.2)
        5
        (a ∷ b ∷ c ∷ d ∷ e ∷ p)
        (sized (from_be16 b c) (from_be16 d e) r)
        ((role : Role) → a ≢ role_byte role)
unfolding sized encode_hello
sized_Decodes a b c d e p (ok role) h eq =
    inl ((role, from_be16 b c, from_be16 d e), refl, ground (arith, role_of_byte_ok a role eq))
sized_Decodes a b c d e p (err v) h eq =
    inr (refl, inr (λ role same. cc (eq, ap role_of_byte same, role_of_byte-role_byte role)))

decode_hello_Decodes :
    (p : List ℕ)
    → All IsByte p
    → Decodes
        (λ (h : Role × ℕ × ℕ). encode_hello h.0 h.1 h.2)
        5
        p
        (decode_hello p)
        ((role : Role) → get_or p 0 0 ≢ role_byte role)
unfolding decode_hello
decode_hello_Decodes (a ∷ b ∷ c ∷ d ∷ e ∷ p) h =
    rw (le→ltb (length (a ∷ b ∷ c ∷ d ∷ e ∷ p)) 5 (omega arith))
      (sized_Decodes a b c d e p (role_of_byte a) h refl)
decode_hello_Decodes [] h = inr (refl, inl (omega arith))
decode_hello_Decodes (a ∷ []) h = inr (refl, inl (omega arith))
decode_hello_Decodes (a ∷ b ∷ []) h = inr (refl, inl (omega arith))
decode_hello_Decodes (a ∷ b ∷ c ∷ []) h = inr (refl, inl (omega arith))
decode_hello_Decodes (a ∷ b ∷ c ∷ d ∷ []) h = inr (refl, inl (omega arith))

-- HelloAck and ResizeAck share one layout.
ack_Decodes :
    (p : List ℕ)
    → All IsByte p
    → Decodes
        (λ (h : ℕ × ℕ × ℕ). be32 h.0 ++ be16 h.1 ++ be16 h.2)
        8
        p
        (if ltb (length p) 8 then none else some (u32_at p 0, u16_at p 4, u16_at p 6))
        ⊥
ack_Decodes (a ∷ b ∷ c ∷ d ∷ e ∷ f ∷ g ∷ i ∷ p) h =
    rw (le→ltb (length (a ∷ b ∷ c ∷ d ∷ e ∷ f ∷ g ∷ i ∷ p)) 8 (omega arith))
      (inl ((from_be32 a b c d, from_be16 e f, from_be16 g i), refl, ground arith))
ack_Decodes [] h = inr (refl, inl (omega arith))
ack_Decodes (a ∷ []) h = inr (refl, inl (omega arith))
ack_Decodes (a ∷ b ∷ []) h = inr (refl, inl (omega arith))
ack_Decodes (a ∷ b ∷ c ∷ []) h = inr (refl, inl (omega arith))
ack_Decodes (a ∷ b ∷ c ∷ d ∷ []) h = inr (refl, inl (omega arith))
ack_Decodes (a ∷ b ∷ c ∷ d ∷ e ∷ []) h = inr (refl, inl (omega arith))
ack_Decodes (a ∷ b ∷ c ∷ d ∷ e ∷ f ∷ []) h = inr (refl, inl (omega arith))
ack_Decodes (a ∷ b ∷ c ∷ d ∷ e ∷ f ∷ g ∷ []) h = inr (refl, inl (omega arith))

decode_resize_Decodes :
    (p : List ℕ)
    → All IsByte p
    → Decodes (λ (h : ℕ × ℕ). encode_resize h.0 h.1) 4 p (decode_resize p) ⊥
unfolding decode_resize encode_resize
decode_resize_Decodes (a ∷ b ∷ c ∷ d ∷ p) h =
    rw (le→ltb (length (a ∷ b ∷ c ∷ d ∷ p)) 4 (omega arith))
      (inl ((from_be16 a b, from_be16 c d), refl, ground arith))
decode_resize_Decodes [] h = inr (refl, inl (omega arith))
decode_resize_Decodes (a ∷ []) h = inr (refl, inl (omega arith))
decode_resize_Decodes (a ∷ b ∷ []) h = inr (refl, inl (omega arith))
decode_resize_Decodes (a ∷ b ∷ c ∷ []) h = inr (refl, inl (omega arith))

decode_exit_Decodes : (p : List ℕ) → All IsByte p → Decodes encode_exit 4 p (decode_exit p) ⊥
unfolding decode_exit encode_exit
decode_exit_Decodes (a ∷ b ∷ c ∷ d ∷ p) h =
    rw (le→ltb (length (a ∷ b ∷ c ∷ d ∷ p)) 4 (omega arith)) (
      inl (
        of_u32 (from_be32 a b c d),
        refl,
        rw (to_u32-of_u32 (from_be32 a b c d) (omega arith))
            (sym (be32-from_be32 a b c d h.0 h.1.0 h.1.1.0 h.1.1.1.0)),
      ))
decode_exit_Decodes [] h = inr (refl, inl (omega arith))
decode_exit_Decodes (a ∷ []) h = inr (refl, inl (omega arith))
decode_exit_Decodes (a ∷ b ∷ []) h = inr (refl, inl (omega arith))
decode_exit_Decodes (a ∷ b ∷ c ∷ []) h = inr (refl, inl (omega arith))

-- For every payload of bytes, each decoder returns values whose encoding stands at its front, or
-- nothing; nothing only for a payload that is too short or, for a Hello, that names no role.
pub decode_Decodes :
    (p : List ℕ)
    → All IsByte p
    → Decodes
        (λ (h : Role × ℕ × ℕ). encode_hello h.0 h.1 h.2)
        5
        p
        (decode_hello p)
        ((role : Role) → get_or p 0 0 ≢ role_byte role)
      × Decodes (λ (h : ℕ × ℕ × ℕ). encode_hello_ack h.0 h.1 h.2) 8 p (decode_hello_ack p) ⊥
      × Decodes (λ (h : ℕ × ℕ). encode_resize h.0 h.1) 4 p (decode_resize p) ⊥
      × Decodes (λ (h : ℕ × ℕ × ℕ). encode_resize_ack h.0 h.1 h.2) 8 p (decode_resize_ack p) ⊥
      × Decodes encode_exit 4 p (decode_exit p) ⊥
unfolding decode_hello_ack encode_hello_ack decode_resize_ack encode_resize_ack
decode_Decodes p h = (
  decode_hello_Decodes p h,
  ack_Decodes p h,
  decode_resize_Decodes p h,
  ack_Decodes p h,
  decode_exit_Decodes p h,
)
