-- ===== src/Screen/Progress.antt =====
-- `read_frame` of keepty-screen/src/lib.rs: a frame that it returns has been taken off what was buffered
-- and read.
use keepty.Base.{
  ℕ, ◌+◌, ◌≤◌, ◌<◌, subst, inl, inr, ◌||◌, List, [], ◌∷◌, ◌++◌, Option, none, some, length, take,
  drop, arith, ltb, leb, append_assoc, length-append, length-drop, leb→le, Bool-cases,
}
use keepty.Base.Results.{Result, ok, err}
use keepty.Wire.{IoError, Frame, Source, read_from, header_len, max_frame_body_size}
use keepty.Screen.{
  ReadEvent, gives, interrupts, blocks, ends, expires, fails, Buffered, wants, answers, drained,
  take_frame, check_buffer, Round, settle, read_frame, delivered,
}

-- A frame that was taken out of the buffer leaves less than there was.
abbrev pub Shrinks : ℕ → Result IoError (Option Frame) → ℕ → Type 0
Shrinks n (ok (some f)) m = m < n
Shrinks n (ok none) m = Unit {0}
Shrinks n (err e) m = Unit {0}

abbrev BufferedShrinks : ℕ → Buffered → Type 0
BufferedShrinks n wants = Unit {0}
BufferedShrinks n (answers r behind) = Shrinks n r (length behind)

drained-Shrinks :
    (r : Result IoError (Option (Frame × Source))) (buffer : List ℕ) (size : ℕ)
    → 1 ≤ size
    → size ≤ length buffer
    → BufferedShrinks (length buffer) (drained r buffer (drop size buffer))
drained-Shrinks (err e) buffer size pos h = tt
drained-Shrinks (ok none) buffer size pos h = tt
drained-Shrinks (ok (some (f, src))) buffer size pos h = omega (arith, length-drop size buffer)

check_buffer-Shrinks : (buffer : List ℕ) → BufferedShrinks (length buffer) (check_buffer buffer)
unfolding check_buffer take_frame
check_buffer-Shrinks buffer =
    let len = header_len (take 4 buffer) in
    elim (Bool-cases (leb 4 (length buffer))) [
      | inr few ↦ rw few tt
      | inl four ↦ elim (Bool-cases (ltb len 2 || ltb max_frame_body_size len)) [
        | inl bad ↦ rw (four, bad) tt
        | inr fine ↦ elim (Bool-cases (leb (len + 4) (length buffer))) [
          | inr short ↦ rw (four, fine, short) tt
          | inl whole ↦
              rw (four, fine, whole)
                (drained-Shrinks
                  (read_from (record { bytes = take (len + 4) buffer; ending = none })) buffer
                  (len + 4) (omega arith) (leb→le (len + 4) (length buffer) whole))
        ]
      ]
    ]

settle-Shrinks :
    (c : Buffered) (buffer : List ℕ) (events : List ReadEvent) (next : Round)
    → BufferedShrinks (length buffer) c
    → Shrinks
        (length (buffer ++ delivered events))
        next.result
        (length (next.buffer ++ delivered next.events))
    → let r = settle c events next in
      Shrinks
        (length (buffer ++ delivered events))
        r.result
        (length (r.buffer ++ delivered r.events))
settle-Shrinks wants buffer events next now later = later
settle-Shrinks (answers (err e) behind) buffer events next now later = tt
settle-Shrinks (answers (ok none) behind) buffer events next now later = tt
settle-Shrinks (answers (ok (some f)) behind) buffer events next now later =
    omega
      (arith, now, length-append buffer (delivered events), length-append behind (delivered events))

pub read_frame-Shrinks :
    (events : List ReadEvent) (buffer : List ℕ)
    → let r = read_frame events buffer in
      Shrinks
        (length (buffer ++ delivered events))
        r.result
        (length (r.buffer ++ delivered r.events))
unfolding read_frame
read_frame-Shrinks [] buffer =
    settle-Shrinks (check_buffer buffer) buffer [] _ (check_buffer-Shrinks buffer) tt
read_frame-Shrinks (gives bytes ∷ es) buffer =
    settle-Shrinks (check_buffer buffer) buffer (gives bytes ∷ es) (read_frame es (buffer ++ bytes))
      (check_buffer-Shrinks buffer)
      (subst
        (λ xs. Shrinks (length xs) (read_frame es (buffer ++ bytes)).result (
          length (
            (read_frame es (buffer ++ bytes)).buffer
            ++ delivered (read_frame es (buffer ++ bytes)).events)))
        (append_assoc buffer bytes (delivered es)) (read_frame-Shrinks es (buffer ++ bytes)))
read_frame-Shrinks (interrupts ∷ es) buffer =
    settle-Shrinks (check_buffer buffer) buffer (interrupts ∷ es) (read_frame es buffer)
      (check_buffer-Shrinks buffer) (read_frame-Shrinks es buffer)
read_frame-Shrinks (blocks ∷ es) buffer =
    settle-Shrinks (check_buffer buffer) buffer (blocks ∷ es) _ (check_buffer-Shrinks buffer) tt
read_frame-Shrinks (ends ∷ es) buffer =
    settle-Shrinks (check_buffer buffer) buffer (ends ∷ es) _ (check_buffer-Shrinks buffer) tt
read_frame-Shrinks (expires ∷ es) buffer =
    settle-Shrinks (check_buffer buffer) buffer (expires ∷ es) _ (check_buffer-Shrinks buffer) tt
read_frame-Shrinks (fails x ∷ es) buffer =
    settle-Shrinks (check_buffer buffer) buffer (fails x ∷ es) _ (check_buffer-Shrinks buffer) tt
