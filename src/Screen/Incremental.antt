-- ===== src/Screen/Incremental.antt =====
-- `read_frame` of keepty-screen/src/lib.rs: however the bytes of a frame are cut into reads, the frame
-- is returned whole, and no byte behind it is lost.
use keepty.Base.{
  ℕ, ◌+◌, ◌≤◌, ◌<◌, ◌≡◌, refl, ap, ap₂, sym, ◌∙◌, subst, inl, inr, List, [], ◌∷◌, ◌++◌, Option,
  none, some, length, take, drop, arith, leb, All, append_assoc, append-nil, length-append,
  take-append, drop-append, leb→le, Bool-cases,
}
use native.Mathlib.Decide.{dec_lt}
use keepty.Base.Results.{Result, ok, err}
use keepty.Wire.{IoError, ErrorKind, Frame, encode, read_from, header_len}
use keepty.Wire.Codec.{IsSmall, length-encode, read_from-encode}
use keepty.Screen.{
  ReadEvent, gives, interrupts, blocks, ends, expires, fails, error_of, wants, answers, drained,
  take_frame, check_buffer, Round, settle, read_frame, delivered,
}

-- Reads that only give bytes or are interrupted.
abbrev pub Live : ReadEvent → Type 0
Live (gives bytes) = Unit {0}
Live interrupts = Unit {0}
Live blocks = ⊥
Live ends = ⊥
Live expires = ⊥
Live (fails e) = ⊥

header_len-encode :
    (f : Frame) (rest : List ℕ)
    → IsSmall f
    → header_len (take 4 (encode f ++ rest)) ≡ length f.payload + 2
unfolding encode
header_len-encode f rest small = omega arith

-- The header is settled by the first four bytes.
header_len-take :
    (xs ys : List ℕ) → 4 ≤ length xs → header_len (take 4 (xs ++ ys)) ≡ header_len (take 4 xs)
header_len-take (a ∷ b ∷ c ∷ d ∷ xs) ys h = refl
header_len-take [] ys h = absurd (omega arith)
header_len-take (a ∷ []) ys h = absurd (omega arith)
header_len-take (a ∷ b ∷ []) ys h = absurd (omega arith)
header_len-take (a ∷ b ∷ c ∷ []) ys h = absurd (omega arith)

-- A buffer that is as long as the frame begins with it.
split_at :
    (xs ys buffer tail : List ℕ)
    → buffer ++ tail ≡ xs ++ ys
    → length xs ≤ length buffer
    → (more : List ℕ) × (buffer ≡ xs ++ more) × (more ++ tail ≡ ys)
split_at [] ys buffer tail e h = (buffer, refl, e)
split_at (x ∷ xs) ys [] tail e h = absurd (omega arith)
split_at (x ∷ xs) ys (b ∷ buffer) tail e h =
    let (more, whole, after) = split_at xs ys buffer tail (tail_of e) (omega arith) in
    (more, ap₂ (λ h t. h ∷ t) (head_of e) whole, after)
  where
    head_of : b ∷ (buffer ++ tail) ≡ x ∷ (xs ++ ys) → b ≡ x
    head_of e = cc

    tail_of : b ∷ (buffer ++ tail) ≡ x ∷ (xs ++ ys) → buffer ++ tail ≡ xs ++ ys
    tail_of e = cc

-- Too few bytes for the frame.
check_buffer-short :
    (f : Frame) (rest buffer tail : List ℕ)
    → IsSmall f
    → buffer ++ tail ≡ encode f ++ rest
    → length buffer < length (encode f)
    → check_buffer buffer ≡ wants
unfolding check_buffer
check_buffer-short f rest buffer tail small e h = elim (Bool-cases (leb 4 (length buffer))) [
  | inl four ↦
      let len : header_len (take 4 buffer) ≡ length f.payload + 2 =
        sym (header_len-take buffer tail (leb→le 4 (length buffer) four))
        ∙ ap (λ xs. header_len (take 4 xs)) e
        ∙ header_len-encode f rest small in
      ground (arith, four, len, small, h, length-encode f)
  | inr few ↦ rw few refl
]

take_frame-whole :
    (f : Frame) (more : List ℕ)
    → IsSmall f
    → take_frame (length f.payload + 2 + 4) (encode f ++ more) ≡ answers (ok (some f)) more
unfolding take_frame
take_frame-whole f more small =
    let size : length f.payload + 2 + 4 ≡ length (encode f) = omega (arith, length-encode f) in
    let whole : take (length f.payload + 2 + 4) (encode f ++ more) ≡ encode f ++ [] =
      ap (λ n. take n (encode f ++ more)) size
      ∙ take-append (encode f) more
      ∙ sym (append-nil (encode f)) in
    let rest : drop (length f.payload + 2 + 4) (encode f ++ more) ≡ more =
      ap (λ n. drop n (encode f ++ more)) size ∙ drop-append (encode f) more in
    ap
      (λ xs.
        drained (read_from (record { bytes = xs; ending = none })) (encode f ++ more)
          (drop (length f.payload + 2 + 4) (encode f ++ more)))
      whole
    ∙ ap (λ r. drained r (encode f ++ more) (drop (length f.payload + 2 + 4) (encode f ++ more)))
        (read_from-encode f [] none small)
    ∙ ap (λ xs. answers (ok (some f)) xs) rest

check_buffer-whole :
    (f : Frame) (more : List ℕ)
    → IsSmall f
    → check_buffer (encode f ++ more) ≡ answers (ok (some f)) more
unfolding check_buffer take_frame
check_buffer-whole f more small =
    let len = header_len-encode f more small in
    let size : length (encode f ++ more) ≡ length f.payload + 6 + length more =
      length-append (encode f) more ∙ omega (arith, length-encode f) in
    ground (arith, len, size, small, take_frame-whole f more small)

-- What a round leaves when it has returned a frame, `rest` was behind it, and the reads `after`
-- were to come then.
pub record Returned (f : Frame) (rest : List ℕ) (after : List ReadEvent) (r : Round) : Type 0 where
  pub left : List ReadEvent
  pub live : All Live left
  pub result : r.result ≡ ok (some f)
  pub events : r.events ≡ left ++ after
  pub behind : r.buffer ++ delivered left ≡ rest

-- A buffer that has an answer is not read on.
pub read_frame-answers :
    (events : List ReadEvent) (buffer more : List ℕ) (r : Result IoError (Option Frame))
    → check_buffer buffer ≡ answers r more
    → read_frame events buffer ≡ record { result = r; buffer = more; events = events }
unfolding read_frame
read_frame-answers [] buffer more r e =
    ap (λ c. settle c [] (record { result = ok none; buffer = buffer; events = [] })) e
read_frame-answers (gives bytes ∷ es) buffer more r e =
    ap (λ c. settle c (gives bytes ∷ es) (read_frame es (buffer ++ bytes))) e
read_frame-answers (interrupts ∷ es) buffer more r e =
    ap (λ c. settle c (interrupts ∷ es) (read_frame es buffer)) e
read_frame-answers (blocks ∷ es) buffer more r e =
    ap (λ c. settle c (blocks ∷ es) (record { result = ok none; buffer = buffer; events = es })) e
read_frame-answers (ends ∷ es) buffer more r e =
    ap
      (λ c. settle c (ends ∷ es) (record {
        result = err (error_of ErrorKind.connection_aborted);
        buffer = buffer;
        events = es;
      }))
      e
read_frame-answers (expires ∷ es) buffer more r e =
    ap
      (λ c.
        settle c (expires ∷ es)
          (record { result = ok none; buffer = buffer; events = expires ∷ es }))
      e
read_frame-answers (fails x ∷ es) buffer more r e =
    ap (λ c. settle c (fails x ∷ es) (record { result = err x; buffer = buffer; events = es })) e

whole-Returned :
    (events after : List ReadEvent) (buffer : List ℕ) (f : Frame) (rest : List ℕ)
    → All Live events
    → IsSmall f
    → buffer ++ delivered events ≡ encode f ++ rest
    → length (encode f) ≤ length buffer
    → Returned f rest after (read_frame (events ++ after) buffer)
whole-Returned events after buffer f rest live small e long =
    let (more, whole, behind) = split_at (encode f) rest buffer (delivered events) e long in
    let now : check_buffer buffer ≡ answers (ok (some f)) more =
      ap check_buffer whole ∙ check_buffer-whole f more small in
    subst (Returned f rest after)
      (sym (read_frame-answers (events ++ after) buffer more (ok (some f)) now))
      (record { left = events; live = live; result = refl; events = refl; behind = behind })

-- However the bytes of a frame and of what follows it are cut into a buffered part and reads, some of
-- them interrupted, and whatever the reads after those answer, `read_frame` returns that frame, and
-- what is then buffered or still to be read of those bytes is exactly what follows it. The frame's
-- payload is within the limit.
pub read_frame-Returned :
    (events after : List ReadEvent) (buffer : List ℕ) (f : Frame) (rest : List ℕ)
    → All Live events
    → IsSmall f
    → buffer ++ delivered events ≡ encode f ++ rest
    → Returned f rest after (read_frame (events ++ after) buffer)
unfolding read_frame
read_frame-Returned [] after buffer f rest live small e =
    whole-Returned [] after buffer f rest live small e (
      omega (
        arith,
        ap (λ (xs : List ℕ). length xs) e,
        length-append buffer [],
        length-append (encode f) rest,
      ))
read_frame-Returned (gives bytes ∷ es) after buffer f rest live small e =
    elim (dec_lt (length buffer) (length (encode f))) [
      | yes short ↦
          subst
            (λ c.
              Returned f rest after
                (settle c (gives bytes ∷ es ++ after) (read_frame (es ++ after) (buffer ++ bytes))))
            (sym (check_buffer-short f rest buffer (delivered (gives bytes ∷ es)) small e short))
            (read_frame-Returned es after (buffer ++ bytes) f rest live.1 small
              (append_assoc buffer bytes (delivered es) ∙ e))
      | no long ↦ whole-Returned (gives bytes ∷ es) after buffer f rest live small e (omega arith)
    ]
read_frame-Returned (interrupts ∷ es) after buffer f rest live small e =
    elim (dec_lt (length buffer) (length (encode f))) [
      | yes short ↦
          subst
            (λ c.
              Returned f rest after
                (settle c (interrupts ∷ es ++ after) (read_frame (es ++ after) buffer)))
            (sym (check_buffer-short f rest buffer (delivered (interrupts ∷ es)) small e short))
            (read_frame-Returned es after buffer f rest live.1 small e)
      | no long ↦ whole-Returned (interrupts ∷ es) after buffer f rest live small e (omega arith)
    ]
read_frame-Returned (blocks ∷ es) after buffer f rest live small e = elim live.0 [ ]
read_frame-Returned (ends ∷ es) after buffer f rest live small e = elim live.0 [ ]
read_frame-Returned (expires ∷ es) after buffer f rest live small e = elim live.0 [ ]
read_frame-Returned (fails x ∷ es) after buffer f rest live small e = elim live.0 [ ]

short_wants :
    (buffer bytes : List ℕ) (f : Frame) (rest : List ℕ)
    → IsSmall f
    → (buffer ++ bytes) ++ rest ≡ encode f
    → 1 ≤ length rest
    → check_buffer buffer ≡ wants
short_wants buffer bytes f rest small e some_missing =
    check_buffer-short f [] buffer (bytes ++ rest) small
      (sym (append_assoc buffer bytes rest) ∙ e ∙ sym (append-nil (encode f)))
      (omega (
        arith,
        ap (λ (xs : List ℕ). length xs) e,
        length-append buffer bytes,
        length-append (buffer ++ bytes) rest,
      ))

-- While a frame is incomplete nothing is returned and every byte is kept: a poll that times out
-- loses nothing.
pub read_frame-part :
    (events : List ReadEvent) (buffer : List ℕ) (f : Frame) (rest : List ℕ)
    → All Live events
    → IsSmall f
    → (buffer ++ delivered events) ++ rest ≡ encode f
    → 1 ≤ length rest
    → read_frame (events ++ blocks ∷ []) buffer
      ≡ record { result = ok none; buffer = buffer ++ delivered events; events = [] }
unfolding read_frame
read_frame-part [] buffer f rest live small e some_missing =
    rw (short_wants buffer [] f rest small e some_missing, append-nil buffer) refl
read_frame-part (gives bytes ∷ es) buffer f rest live small e some_missing =
    rw (short_wants buffer (bytes ++ delivered es) f rest small e some_missing) (
      read_frame-part es (buffer ++ bytes) f rest live.1 small
        (ap (λ xs. xs ++ rest) (append_assoc buffer bytes (delivered es)) ∙ e) some_missing
      ∙ ap (λ xs. record { result = ok none; buffer = xs; events = [] })
          (append_assoc buffer bytes (delivered es)))
read_frame-part (interrupts ∷ es) buffer f rest live small e some_missing =
    rw (short_wants buffer (delivered es) f rest small e some_missing)
      (read_frame-part es buffer f rest live.1 small e some_missing)
read_frame-part (blocks ∷ es) buffer f rest live small e some_missing = elim live.0 [ ]
read_frame-part (ends ∷ es) buffer f rest live small e some_missing = elim live.0 [ ]
read_frame-part (expires ∷ es) buffer f rest live small e some_missing = elim live.0 [ ]
read_frame-part (fails x ∷ es) buffer f rest live small e some_missing = elim live.0 [ ]
