-- ===== src/Wire/Codec.antt =====
-- `Frame::encode` and `Frame::read_from` of keepty-protocol/src/lib.rs, against each other and
-- against a description of every outcome of a read.
use keepty.Base.{
  ℕ, ◌+◌, ◌%◌, ◌^◌, ◌≤◌, ◌<◌, ◌≡◌, refl, ap, ap₂, subst, inl, inr, List, [], ◌∷◌, ◌++◌, Option,
  none, some, arith, length, take, drop, All, All-append, be32, from_be32, IsByte, length-append,
  be32-from_be32, take-append, drop-append, take-append-drop, length-take, Bool-cases, leb, lt→leb,
  le→leb, ltb→lt, ltb→le, le→ltb, ltb, leb→le, leb→lt, ==→eq, ==→ne, ◌==◌, if◌then◌else◌, suc, ◌≢◌,
}
use keepty.Base.Results.{Result, ok, err, ◌>>=◌}
use keepty.Wire.{
  Frame, MsgKind, Source, IoError, encode, read_from, read_body, parse_body, with_kind, read_exact,
  max_payload_size, max_frame_body_size, kind_byte, kind_of_byte, protocol_version, header_len,
  Reason, invalid, is_eof, ending_error,
}
use keepty.Wire.Kinds.{kind_of_byte-kind_byte, kind_of_byte_ok, kind_of_byte_err, kind_byte-lt}

abbrev pub IsSmall : Frame → Type 0
IsSmall f = length f.payload ≤ max_payload_size

pub length-encode : (f : Frame) → length (encode f) ≡ length f.payload + 6
unfolding encode
length-encode f = omega arith

pub encode-IsByte : (f : Frame) → All IsByte f.payload → All IsByte (encode f)
unfolding encode
encode-IsByte f h =
    All-append IsByte (be32 ((2 + length f.payload) % 2 ^ 32))
      (protocol_version ∷ kind_byte f.kind ∷ f.payload) (omega arith)
      (omega arith, (kind_byte-lt f.kind, h))

abbrev source : List ℕ → Option IoError → Source
source bytes ending = record { bytes = bytes; ending = ending }

read_exact-append :
    (xs rest : List ℕ) (n : ℕ) (e : Option IoError)
    → n ≡ length xs
    → read_exact n (source (xs ++ rest) e) ≡ ok (xs, source rest e)
read_exact-append xs rest n e h = rw (
  h,
  le→leb (length xs) (length (xs ++ rest)) (omega (arith, length-append xs rest)),
  take-append xs rest,
  drop-append xs rest,
)

read_body-encode :
    (f : Frame) (rest : List ℕ) (e : Option IoError) (n : ℕ)
    → IsSmall f
    → n ≡ length f.payload + 2
    → read_body n (source (protocol_version ∷ kind_byte f.kind ∷ f.payload ++ rest) e)
      ≡ ok (some (f, source rest e))
unfolding read_body
read_body-encode f rest e n h hn = rw (
  le→ltb n 2 (omega arith),
  le→ltb max_frame_body_size n (omega arith),
  read_exact-append (protocol_version ∷ kind_byte f.kind ∷ f.payload) rest n e (omega arith),
  kind_of_byte-kind_byte f.kind,
)

-- Reading what `encode` wrote gives the frame back and leaves the reader at what follows, for
-- every payload up to the limit.
pub read_from-encode :
    (f : Frame) (rest : List ℕ) (ending : Option IoError)
    → IsSmall f
    → read_from (record { bytes = encode f ++ rest; ending = ending })
      ≡ ok (some (f, record { bytes = rest; ending = ending }))
unfolding read_from encode
read_from-encode f rest ending h =
    rw (le→leb 4 (length (encode f ++ rest)) (omega arith), read_from)
      (read_body-encode f rest ending (header_len (take 4 (encode f ++ rest))) h (omega arith))

-- Every way in which a read of `src` can end, told by the layout of its bytes.
pub data Outcome (src : Source) (r : Result IoError (Option (Frame × Source))) : Type 0 where
  frame :
      (f : Frame) (rest : List ℕ)
      → IsSmall f
      → src.bytes ≡ encode f ++ rest
      → r ≡ ok (some (f, record src { bytes = rest }))
      → Outcome src r
  end_of_file : length src.bytes < 4 → src.ending ≡ none → r ≡ ok none → Outcome src r
  broken_header :
      (e : IoError)
      → length src.bytes < 4
      → src.ending ≡ some e
      → r ≡ (if is_eof e.kind then ok none else err e)
      → Outcome src r
  too_short :
      (n : ℕ) (rest : List ℕ)
      → n < 2
      → src.bytes ≡ be32 n ++ rest
      → r ≡ err (invalid Reason.frame_too_short)
      → Outcome src r
  too_large :
      (n : ℕ) (rest : List ℕ)
      → max_payload_size + 2 < n
      → src.bytes ≡ be32 n ++ rest
      → r ≡ err (invalid (Reason.frame_too_large n))
      → Outcome src r
  broken_body :
      (n : ℕ) (rest : List ℕ)
      → length rest < n
      → n ≤ max_payload_size + 2
      → src.bytes ≡ be32 n ++ rest
      → r ≡ err (ending_error src.ending)
      → Outcome src r
  wrong_version :
      (n v : ℕ) (body rest : List ℕ)
      → n ≡ suc (length body)
      → v ≢ protocol_version
      → src.bytes ≡ be32 n ++ v ∷ body ++ rest
      → r ≡ err (invalid (Reason.unsupported_version v))
      → Outcome src r
  bad_kind :
      (n k : ℕ) (payload rest : List ℕ)
      → n ≡ length payload + 2
      → ((kind : MsgKind) → k ≢ kind_byte kind)
      → src.bytes ≡ be32 n ++ protocol_version ∷ k ∷ payload ++ rest
      → r ≡ err (invalid (Reason.unknown_kind k))
      → Outcome src r

kinded_Outcome :
    (n k : ℕ) (payload rest : List ℕ) (e : Option IoError) (r : Result ℕ MsgKind)
    → n ≡ length payload + 2
    → n ≤ max_payload_size + 2
    → kind_of_byte k ≡ r
    → Outcome
        (source (be32 n ++ protocol_version ∷ k ∷ payload ++ rest) e)
        (with_kind r payload >>= λ f. ok (some (f, source rest e)))
unfolding encode with_kind
kinded_Outcome n k payload rest e (ok kind) hn hi hk =
    let en : n ≡ (2 + length payload) % 2 ^ 32 = omega arith in
    frame (record { kind = kind; payload = payload }) rest (omega arith)
      (ap₂ (λ m c. be32 m ++ protocol_version ∷ c ∷ payload ++ rest) en (kind_of_byte_ok k kind hk))
      refl
kinded_Outcome n k payload rest e (err v) hn hi hk =
    bad_kind n k payload rest hn
      (λ kind same. cc (hk, ap kind_of_byte same, kind_of_byte-kind_byte kind)) refl
      (rw (kind_of_byte_err k v hk))

-- The body of length `n` behind a header.
body_Outcome :
    (n : ℕ) (body rest : List ℕ) (e : Option IoError)
    → n ≡ length body
    → 2 ≤ n
    → n ≤ max_payload_size + 2
    → Outcome
        (source (be32 n ++ body ++ rest) e)
        (parse_body body >>= λ f. ok (some (f, source rest e)))
unfolding parse_body
body_Outcome n [] rest e hn lo hi = absurd (omega arith)
body_Outcome n (v ∷ []) rest e hn lo hi = absurd (omega arith)
body_Outcome n (v ∷ k ∷ payload) rest e hn lo hi = elim (Bool-cases (v == protocol_version)) [
  | inr ne ↦ wrong_version n v (k ∷ payload) rest hn (==→ne v protocol_version ne) refl (rw ne)
  | inl eq ↦
      rw (==→eq v protocol_version eq)
        (kinded_Outcome n k payload rest e (kind_of_byte k) (omega arith) hi refl)
]

read_body-Outcome :
    (n : ℕ) (rest : List ℕ) (e : Option IoError)
    → Outcome (source (be32 n ++ rest) e) (read_body n (source rest e))
unfolding read_body
read_body-Outcome n rest e = elim (Bool-cases (ltb n 2)) [
  | inl t ↦ too_short n rest (ltb→lt n 2 t) refl (rw t)
  | inr lo ↦ elim (Bool-cases (ltb max_frame_body_size n)) [
    | inl t ↦ too_large n rest (ltb→lt max_frame_body_size n t) refl (rw (lo, t))
    | inr hi ↦ elim (Bool-cases (leb n (length rest))) [
      | inr t ↦
          broken_body n rest (leb→lt n (length rest) t) (ltb→le max_frame_body_size n hi) refl
            (rw (lo, hi, t))
      | inl t ↦
          rw (lo, hi, t)
            (rw (take-append-drop n rest) at (
              body_Outcome n (take n rest) (drop n rest) e
                (omega (arith, length-take n rest, leb→le n (length rest) t)) (ltb→le n 2 lo)
                (ltb→le max_frame_body_size n hi)))
    ]
  ]
]

cut_Outcome :
    (bytes : List ℕ) (e : Option IoError)
    → length bytes < 4
    → Outcome (source bytes e) (read_from (source bytes e))
unfolding read_from
cut_Outcome bytes none h = end_of_file h refl (rw (lt→leb 4 (length bytes) h, read_from))
cut_Outcome bytes (some e) h = broken_header e h refl (rw (lt→leb 4 (length bytes) h, read_from))

layout_Outcome :
    (bytes : List ℕ) (e : Option IoError)
    → All IsByte bytes
    → Outcome (source bytes e) (read_from (source bytes e))
unfolding read_from
layout_Outcome [] e h = cut_Outcome [] e (omega arith)
layout_Outcome (a ∷ []) e h = cut_Outcome (a ∷ []) e (omega arith)
layout_Outcome (a ∷ b ∷ []) e h = cut_Outcome (a ∷ b ∷ []) e (omega arith)
layout_Outcome (a ∷ b ∷ c ∷ []) e h = cut_Outcome (a ∷ b ∷ c ∷ []) e (omega arith)
layout_Outcome (a ∷ b ∷ c ∷ d ∷ rest) e (ha, (hb, (hc, (hd, hr)))) =
    rw (le→leb 4 (length (a ∷ b ∷ c ∷ d ∷ rest)) (omega arith), read_from)
      (subst
        (λ head. Outcome (source (head ++ rest) e) (read_body (from_be32 a b c d) (source rest e)))
        (be32-from_be32 a b c d ha hb hc hd) (read_body-Outcome (from_be32 a b c d) rest e))

-- A read of any reader of bytes ends in one of these ways: a frame whose encoding stood in front;
-- `none` at the end of the file within a header; or the error that the layout calls for.
pub read_from-Outcome : (src : Source) → All IsByte src.bytes → Outcome src (read_from src)
read_from-Outcome src h = layout_Outcome src.bytes src.ending h
