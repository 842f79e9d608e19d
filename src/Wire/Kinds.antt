-- ===== src/Wire/Kinds.antt =====
-- The byte codes of keepty-protocol/src/lib.rs: `as u8` and `try_from`.
use keepty.Base.{ℕ, ◌≡◌, refl, ap, arith, IsByte}
use keepty.Base.Results.{ok, err}
use keepty.Wire.{Role, MsgKind, role_byte, kind_byte, role_of_byte, kind_of_byte}

pub kind_of_byte-kind_byte : (k : MsgKind) → kind_of_byte (kind_byte k) ≡ ok k
unfolding kind_of_byte
kind_of_byte-kind_byte MsgKind.hello = refl
kind_of_byte-kind_byte MsgKind.hello_ack = refl
kind_of_byte-kind_byte _ = refl

pub kind_byte_injective : (a b : MsgKind) → kind_byte a ≡ kind_byte b → a ≡ b
kind_byte_injective a b e =
    cc (ap kind_of_byte e, kind_of_byte-kind_byte a, kind_of_byte-kind_byte b)

pub kind_of_byte_ok : (v : ℕ) (k : MsgKind) → kind_of_byte v ≡ ok k → v ≡ kind_byte k
unfolding kind_of_byte
kind_of_byte_ok v k h = ground arith

pub kind_of_byte_err : (v w : ℕ) → kind_of_byte v ≡ err w → w ≡ v
unfolding kind_of_byte
kind_of_byte_err v w h = ground arith

pub kind_byte-lt : (k : MsgKind) → IsByte (kind_byte k)
kind_byte-lt MsgKind.hello = omega arith
kind_byte-lt _ = omega arith

pub role_of_byte-role_byte : (r : Role) → role_of_byte (role_byte r) ≡ ok r
unfolding role_of_byte
role_of_byte-role_byte Role.writer = refl
role_of_byte-role_byte _ = refl

pub role_of_byte_ok : (v : ℕ) (r : Role) → role_of_byte v ≡ ok r → v ≡ role_byte r
unfolding role_of_byte
role_of_byte_ok v r h = ground arith
