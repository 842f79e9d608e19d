-- ===== src/Attach/Newlines.antt =====
-- Newlines in keepty/src/attach.rs: the two paths of `raw_write_stdout` agree, chunks do not matter.
use keepty.Base.{
  ℕ, ◌+◌, ◌≤◌, ◌<◌, ◌≡◌, refl, ap, sym, ◌∙◌, inl, inr, Bool, true, false, not, ◌&&◌, ◌||◌, List, [],
  ◌∷◌, ◌++◌, Option, none, some, arith, ◌==◌, if◌then◌else◌, subst, ap₂, if-cases, ltb, lt→ltb,
  if-satisfies, All, Bool-cases, length, flatten, append_assoc, take, drop, take-append-drop,
  length-drop,
}
use mathlib.Core.Bool.{true≢false}
use keepty.Attach.{
  updated, contains, last, is_cr, convert, raw_write_stdout, WriteOutcome, wrote, interrupted,
  failed, raw_write_bytes,
}

-- Whether a carriage return stands before what follows.
abbrev pub cr_after : Bool → List ℕ → Bool
cr_after cr [] = cr
cr_after cr (b ∷ bs) = cr_after (b == 13) bs

last_of_last :
    (o : Option ℕ) (b : ℕ) (cr : Bool)
    → updated (b == 13) o ≡ updated cr (elim o [ none ↦ some b | some y ↦ some y ])
last_of_last none b cr = refl
last_of_last (some y) b cr = refl

last-cr : (cr : Bool) (bs : List ℕ) → cr_after cr bs ≡ updated cr (last bs)
last-cr cr [] = refl
last-cr cr (b ∷ bs) = last-cr (b == 13) bs ∙ last_of_last (last bs) b cr

convert-plain : (cr : Bool) (bs : List ℕ) → contains 10 bs ≡ false → convert cr bs ≡ bs
unfolding convert
convert-plain cr [] h = refl
convert-plain cr (b ∷ bs) h = elim (Bool-cases (b == 10)) [
  | inl nl ↦ absurd (true≢false (sym (ap (λ x. x || contains 10 bs) nl) ∙ h))
  | inr other ↦
      let rest : contains 10 bs ≡ false = sym (ap (λ x. x || contains 10 bs) other) ∙ h in
      ap (λ x. if x && not cr then 13 ∷ b ∷ convert (b == 13) bs else b ∷ convert (b == 13) bs)
        other
      ∙ ap (◌∷◌ b) (convert-plain (b == 13) bs rest)
]

one_byte :
    (c : Bool) (x : ℕ) (ws xs ys : List ℕ)
    → ws ≡ xs ++ ys
    → (if c then 13 ∷ x ∷ ws else x ∷ ws) ≡ (if c then 13 ∷ x ∷ xs else x ∷ xs) ++ ys
one_byte true x ws xs ys e = ap (λ zs. 13 ∷ x ∷ zs) e
one_byte false x ws xs ys e = ap (◌∷◌ x) e

convert-append :
    (cr : Bool) (xs ys : List ℕ)
    → convert cr (xs ++ ys) ≡ convert cr xs ++ convert (cr_after cr xs) ys
unfolding convert
convert-append cr [] ys = refl
convert-append cr (x ∷ xs) ys =
    one_byte (x == 10 && not cr) x _ _ _ (convert-append (x == 13) xs ys)

some_of_last :
    (cr : Bool) (b : ℕ) (o : Option ℕ)
    → is_cr (elim o [ none ↦ some b | some y ↦ some y ])
      ≡ updated cr (elim o [ none ↦ some b | some y ↦ some y ])
some_of_last cr b none = refl
some_of_last cr b (some y) = refl

some_last :
    (cr : Bool) (bs : List ℕ) → contains 10 bs ≡ true → is_cr (last bs) ≡ updated cr (last bs)
some_last cr [] h = absurd (true≢false (sym h))
some_last cr (b ∷ bs) h = some_of_last cr b (last bs)

raw_write_stdout_lem :
    (bytes : List ℕ) (cr : Bool) → raw_write_stdout bytes cr ≡ (convert cr bytes, cr_after cr bytes)
unfolding raw_write_stdout
raw_write_stdout_lem bytes cr = elim (Bool-cases (contains 10 bytes)) [
  | inl nl ↦
      ap
        (λ x.
          if not x
          then (bytes, updated cr (last bytes))
          else (convert cr bytes, is_cr (last bytes)))
        nl
      ∙ ap (λ x. (convert cr bytes, x)) (some_last cr bytes nl ∙ sym (last-cr cr bytes))
  | inr plain ↦
      ap
        (λ x.
          if not x
          then (bytes, updated cr (last bytes))
          else (convert cr bytes, is_cr (last bytes)))
        plain
      ∙ ap₂ (λ xs x. (xs, x)) (sym (convert-plain cr bytes plain)) (sym (last-cr cr bytes))
]

-- Frames written one after another.
abbrev pub write_all : List (List ℕ) → Bool → List ℕ × Bool
write_all [] cr = ([], cr)
write_all (c ∷ cs) cr =
    let (out, cr') = raw_write_stdout c cr in
    let (rest, cr'') = write_all cs cr' in (out ++ rest, cr'')

-- Every newline stands behind a carriage return.
abbrev pub Repaired : Bool → List ℕ → Type 0
Repaired cr [] = Unit {0}
Repaired cr (b ∷ bs) = ((b ≡ 10) → (cr ≡ true)) × Repaired (b == 13) bs

convert-Repaired : (cr : Bool) (bs : List ℕ) → Repaired cr (convert cr bs)
unfolding convert
convert-Repaired cr [] = tt
convert-Repaired cr (b ∷ bs) =
    if-cases (Repaired cr) (b == 10 && not cr) (13 ∷ b ∷ convert (b == 13) bs)
      (b ∷ convert (b == 13) bs)
      (λ c. ((λ e. absurd (omega arith)), ((λ e. refl), convert-Repaired (b == 13) bs)))
      (λ c. ((λ e. ground (arith, c, e)), convert-Repaired (b == 13) bs))

convert-same : (cr : Bool) (bs : List ℕ) → Repaired cr bs → convert cr bs ≡ bs
unfolding convert
convert-same cr [] h = refl
convert-same cr (b ∷ bs) h = elim (Bool-cases (b == 10 && not cr)) [
  | inl c ↦ absurd (ground (arith, c, h.0))
  | inr c ↦
      ap (λ x. if x then 13 ∷ b ∷ convert (b == 13) bs else b ∷ convert (b == 13) bs) c
      ∙ ap (◌∷◌ b) (convert-same (b == 13) bs h.1)
]

cr_after-append :
    (cr : Bool) (xs ys : List ℕ) → cr_after cr (xs ++ ys) ≡ cr_after (cr_after cr xs) ys
cr_after-append cr [] ys = refl
cr_after-append cr (x ∷ xs) ys = cr_after-append (x == 13) xs ys

write_all-convert :
    (cs : List (List ℕ)) (cr : Bool)
    → write_all cs cr ≡ (convert cr (flatten cs), cr_after cr (flatten cs))
unfolding convert
write_all-convert [] cr = refl
write_all-convert (c ∷ cs) cr =
    ap (λ (r : List ℕ × Bool). let (rest, cr'') = write_all cs r.1 in (r.0 ++ rest, cr''))
      (raw_write_stdout_lem c cr)
    ∙ ap (λ (r : List ℕ × Bool). (convert cr c ++ r.0, r.1)) (write_all-convert cs (cr_after cr c))
    ∙ ap₂ (λ xs x. (xs, x)) (sym (convert-append cr c (flatten cs)))
        (sym (cr_after-append cr c (flatten cs)))

-- How the output is cut into frames does not matter: written one after another they give the same
-- bytes and the same state as all of it written at once.
pub write_all-flatten :
    (cs : List (List ℕ)) (cr : Bool) → write_all cs cr ≡ raw_write_stdout (flatten cs) cr
write_all-flatten cs cr = write_all-convert cs cr ∙ sym (raw_write_stdout_lem (flatten cs) cr)

-- Carriage returns aside, nothing is added or lost.
abbrev pub without_cr : List ℕ → List ℕ
without_cr [] = []
without_cr (b ∷ bs) = if b == 13 then without_cr bs else b ∷ without_cr bs

convert-without_cr : (cr : Bool) (bs : List ℕ) → without_cr (convert cr bs) ≡ without_cr bs
unfolding convert
convert-without_cr cr [] = refl
convert-without_cr cr (b ∷ bs) =
    if-satisfies (λ xs. without_cr xs ≡ without_cr (b ∷ bs)) (b == 10 && not cr)
      (13 ∷ b ∷ convert (b == 13) bs) (b ∷ convert (b == 13) bs)
      (ap (λ xs. if b == 13 then xs else b ∷ xs) (convert-without_cr (b == 13) bs))
      (ap (λ xs. if b == 13 then xs else b ∷ xs) (convert-without_cr (b == 13) bs))

-- In what `raw_write_stdout` writes, every newline stands behind a carriage return, which may be the
-- one that the frame before ended in; apart from carriage returns it is the data; and data that has
-- no bare newline is written as it is.
pub raw_write_stdout-Repaired :
    (bytes : List ℕ) (last_was_cr : Bool)
    → Repaired last_was_cr (raw_write_stdout bytes last_was_cr).0
      × (without_cr (raw_write_stdout bytes last_was_cr).0 ≡ without_cr bytes)
      × (Repaired last_was_cr bytes → (raw_write_stdout bytes last_was_cr).0 ≡ bytes)
raw_write_stdout-Repaired bytes cr =
    let e : (raw_write_stdout bytes cr).0 ≡ convert cr bytes =
      ap (λ (r : List ℕ × Bool). r.0) (raw_write_stdout_lem bytes cr) in
    (
      subst (Repaired cr) (sym e) (convert-Repaired cr bytes),
      ap without_cr e ∙ convert-without_cr cr bytes,
      λ h. e ∙ convert-same cr bytes h,
    )

-- Only answers that make progress, and enough of them.
abbrev pub writes_of : List WriteOutcome → ℕ
writes_of [] = 0
writes_of (wrote n ∷ os) = writes_of os + 1
writes_of (interrupted ∷ os) = writes_of os
writes_of (failed ∷ os) = writes_of os

abbrev pub Progresses : WriteOutcome → Type 0
Progresses (wrote n) = 0 < n
Progresses interrupted = Unit {0}
Progresses failed = ⊥

-- Whatever the writes answer, what is written is a first part of the data, in order and with
-- nothing twice. If no write fails or answers 0 and there are as many answers with a count as bytes,
-- interrupted ones aside, everything is written.
pub raw_write_bytes_lem :
    (os : List WriteOutcome) (bytes : List ℕ)
    → ((raw_write_bytes os bytes).0 ++ (raw_write_bytes os bytes).1 ≡ bytes)
      × (All Progresses os → length bytes ≤ writes_of os → (raw_write_bytes os bytes).0 ≡ bytes)
unfolding raw_write_bytes
raw_write_bytes_lem [] [] = (refl, λ p le. refl)
raw_write_bytes_lem [] (b ∷ bs) = (refl, λ p le. absurd (omega arith))
raw_write_bytes_lem (o ∷ os) [] = (refl, λ p le. refl)
raw_write_bytes_lem (wrote n ∷ os) (b ∷ bs) =
    let (whole, all) = raw_write_bytes_lem os (drop n (b ∷ bs)) in
    let out : List ℕ × List ℕ = (
      take n (b ∷ bs) ++ (raw_write_bytes os (drop n (b ∷ bs))).0,
      (raw_write_bytes os (drop n (b ∷ bs))).1,
    ) in
    let stop : List ℕ × List ℕ = ([], b ∷ bs) in
    (
      if-satisfies (λ (r : List ℕ × List ℕ). r.0 ++ r.1 ≡ b ∷ bs) (ltb 0 n) out stop
          (append_assoc (take n (b ∷ bs)) _ _
            ∙ ap (◌++◌ (take n (b ∷ bs))) whole
            ∙ take-append-drop n (b ∷ bs))
          refl,
      λ p le.
          ap (λ x. (if x then out else stop).0) (lt→ltb 0 n p.0)
          ∙ ap (◌++◌ (take n (b ∷ bs))) (all p.1 (omega (arith, le, p.0, length-drop n (b ∷ bs))))
          ∙ take-append-drop n (b ∷ bs),
    )
raw_write_bytes_lem (interrupted ∷ os) (b ∷ bs) =
    let (whole, all) = raw_write_bytes_lem os (b ∷ bs) in (whole, λ p le. all p.1 le)
raw_write_bytes_lem (failed ∷ os) (b ∷ bs) = (refl, λ p le. absurd p.0)
