-- ===== src/Base/Int.antt =====
-- Signed integers over the native numbers, and the two's complement of an `i32`.
use keepty.Base.{ℕ, ◌-◌, ◌^◌, ◌<◌, ◌≡◌, arith, ltb, if◌then◌else◌}

-- `negsuc n` is -(n + 1).
pub data ℤ : Type 0 where
  pos : ℕ → ℤ
  negsuc : ℕ → ℤ

-- The range of an `i32`.
abbrev pub IsI32 : ℤ → Type 0
IsI32 (pos n) = n < 2 ^ 31
IsI32 (negsuc n) = n < 2 ^ 31

-- An `i32` as the `u32` of the same bits, and back.
abbrev pub to_u32 : ℤ → ℕ
to_u32 (pos n) = n
to_u32 (negsuc n) = 2 ^ 32 - 1 - n

abbrev pub of_u32 : ℕ → ℤ
of_u32 w = if ltb w (2 ^ 31) then pos w else negsuc (2 ^ 32 - 1 - w)

pub to_u32-lt : (c : ℤ) → IsI32 c → to_u32 c < 2 ^ 32
to_u32-lt (pos n) h = omega arith
to_u32-lt (negsuc n) h = omega arith

pub of_u32-to_u32 : (c : ℤ) → IsI32 c → of_u32 (to_u32 c) ≡ c
of_u32-to_u32 (pos n) h = ground arith
of_u32-to_u32 (negsuc n) h = ground arith

pub of_u32-IsI32 : (w : ℕ) → w < 2 ^ 32 → IsI32 (of_u32 w)
of_u32-IsI32 w h = ground arith

pub to_u32-of_u32 : (w : ℕ) → w < 2 ^ 32 → to_u32 (of_u32 w) ≡ w
to_u32-of_u32 w h = ground arith
