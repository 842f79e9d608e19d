-- ===== src/Attach/Detach.antt =====
-- The keys that detach in keepty/src/attach.rs: three commas and a `d`.
use keepty.Base.{
  ℕ, ◌+◌, ◌-◌, ◌^◌, ◌≤◌, ◌<◌, ◌≡◌, ◌↔◌, refl, ap, sym, ◌∙◌, ◌⊎◌, inl, inr, List, [], ◌∷◌, ◌++◌,
  Option, none, some, arith, zero, suc, Option-cases, length, length-append, replicate,
  append_assoc, flatten,
}
use mathlib.Core.Option.{some-ne-none, some-injective, none-ne-some}
use keepty.Attach.{detach_step, scan}

abbrev pub then_scan : Option ℕ → List ℕ → Option ℕ
then_scan none bs = none
then_scan (some c) bs = scan c bs

-- The reads one after another, until one detaches.
abbrev pub scan_all : ℕ → List (List ℕ) → Option ℕ
scan_all c [] = some c
scan_all c (bs ∷ rest) = elim (scan c bs) [ none ↦ none | some c' ↦ scan_all c' rest ]

-- One byte more.
after_step :
    (o : Option ℕ) (bs : List ℕ)
    → (elim o as (λ x. Option ℕ) [ none ↦ none | some c ↦ scan c bs ]) ≡ then_scan o bs
after_step none bs = refl
after_step (some c) bs = refl

scan-cons : (c b : ℕ) (bs : List ℕ) → scan c (b ∷ bs) ≡ then_scan (detach_step c b) bs
unfolding scan
scan-cons c b bs = after_step (detach_step c b) bs

scan-append : (c : ℕ) (xs ys : List ℕ) → scan c (xs ++ ys) ≡ then_scan (scan c xs) ys
unfolding scan
scan-append c [] ys = refl
scan-append c (x ∷ xs) ys =
    scan-cons c x (xs ++ ys)
    ∙ assoc_step (λ c'. scan-append c' xs ys) (detach_step c x)
    ∙ ap (λ o. then_scan o ys) (sym (scan-cons c x xs))
  where
    assoc_step :
        ((c' : ℕ) → scan c' (xs ++ ys) ≡ then_scan (scan c' xs) ys)
        → (o : Option ℕ) → then_scan o (xs ++ ys) ≡ then_scan (then_scan o xs) ys
    assoc_step h none = refl
    assoc_step h (some c') = h c'

-- The bytes hold ",,,d".
pub HoldsKeys : List ℕ → Type 0
HoldsKeys bytes =
    (before : List ℕ) × (after : List ℕ) × (bytes ≡ before ++ b',' ∷ b',' ∷ b',' ∷ b'd' ∷ after)

step_cases :
    (c b : ℕ)
    → c + 1 < 2 ^ 32
    → ((b ≡ b',') × (detach_step c b ≡ some (c + 1)))
      ⊎ (((b ≡ b'd') × (3 ≤ c) × (detach_step c b ≡ none)) ⊎ (detach_step c b ≡ some 0))
unfolding detach_step
step_cases c b h = ground arith

commas : (n : ℕ) (bs : List ℕ) → replicate n b',' ++ b',' ∷ bs ≡ b',' ∷ (replicate n b',' ++ bs)
commas zero bs = refl
commas (suc n) bs = ap (◌∷◌ b',') (commas n bs)

commas_three :
    (n : ℕ) (bs : List ℕ)
    → replicate (n + 3) b',' ++ bs ≡ replicate n b',' ++ b',' ∷ b',' ∷ b',' ∷ bs
commas_three zero bs = refl
commas_three (suc n) bs =
    ap (λ m. replicate m b',' ++ bs) {x = suc n + 3} {y = suc (n + 3)} (omega arith)
    ∙ ap (◌∷◌ b',') (commas_three n bs)

-- With `c` commas behind, detaching means that the keys are there.
scan-HoldsKeys :
    (c : ℕ) (bs : List ℕ)
    → c + length bs < 2 ^ 32
    → scan c bs ≡ none
    → HoldsKeys (replicate c b',' ++ bs)
unfolding scan HoldsKeys
scan-HoldsKeys c [] h e = absurd (some-ne-none c e)
scan-HoldsKeys c (b ∷ bs) h e =
    let e' : then_scan (detach_step c b) bs ≡ none = sym (scan-cons c b bs) ∙ e in
    elim (step_cases c b (omega arith)) [
      | inl (comma, step) ↦
          let (before, after, same) =
            scan-HoldsKeys (c + 1) bs (omega arith) (sym (ap (λ o. then_scan o bs) step) ∙ e') in
          (
            before,
            after,
            ap (λ x. replicate c b',' ++ x ∷ bs) comma
                ∙ commas c bs
                ∙ ap (λ m. replicate m b',' ++ bs) {x = suc c} {y = c + 1} (omega arith)
                ∙ same,
          )
      | inr (inl (d, three, step)) ↦ (
        replicate (c - 3) b',',
        bs,
        ap (λ x. replicate c b',' ++ x ∷ bs) d
            ∙ ap (λ m. replicate m b',' ++ b'd' ∷ bs) {x = c} {y = c - 3 + 3} (omega arith)
            ∙ commas_three (c - 3) (b'd' ∷ bs),
      )
      | inr (inr step) ↦
          let (before, after, same) =
            scan-HoldsKeys 0 bs (omega arith) (sym (ap (λ o. then_scan o bs) step) ∙ e') in
          (
            replicate c b',' ++ b ∷ before,
            after,
            ap (λ x. replicate c b',' ++ b ∷ x) same
                ∙ sym (append_assoc (replicate c b',') (b ∷ before) _),
          )
    ]

-- The count is at most what was read.
scan_counts :
    (c : ℕ) (bs : List ℕ) (c' : ℕ)
    → c + length bs < 2 ^ 32
    → scan c bs ≡ some c'
    → c' ≤ c + length bs
unfolding scan
scan_counts c [] c' h e = omega (arith, some-injective c c' e)
scan_counts c (b ∷ bs) c' h e =
    let e' : then_scan (detach_step c b) bs ≡ some c' = sym (scan-cons c b bs) ∙ e in
    elim (step_cases c b (omega arith)) [
      | inl (comma, step) ↦ omega (
        arith,
        scan_counts (c + 1) bs c' (omega arith) (sym (ap (λ o. then_scan o bs) step) ∙ e'),
      )
      | inr (inl (d, three, step)) ↦
          absurd (none-ne-some c' (sym (ap (λ o. then_scan o bs) step) ∙ e'))
      | inr (inr step) ↦
          omega
            (arith, scan_counts 0 bs c' (omega arith) (sym (ap (λ o. then_scan o bs) step) ∙ e'))
    ]

comma_step : (c : ℕ) → c + 1 < 2 ^ 32 → detach_step c b',' ≡ some (c + 1)
unfolding detach_step
comma_step c h = ground arith

d_step : (c : ℕ) → 3 ≤ c → detach_step c b'd' ≡ none
unfolding detach_step
d_step c h = ground arith

keys_detach :
    (c : ℕ) (bs : List ℕ) → c + 3 < 2 ^ 32 → scan c (b',' ∷ b',' ∷ b',' ∷ b'd' ∷ bs) ≡ none
keys_detach c bs h =
    scan-cons c b',' _
    ∙ ap (λ o. then_scan o (b',' ∷ b',' ∷ b'd' ∷ bs)) (comma_step c (omega arith))
    ∙ scan-cons (c + 1) b',' _
    ∙ ap (λ o. then_scan o (b',' ∷ b'd' ∷ bs)) (comma_step (c + 1) (omega arith))
    ∙ scan-cons (c + 1 + 1) b',' _
    ∙ ap (λ o. then_scan o (b'd' ∷ bs)) (comma_step (c + 1 + 1) (omega arith))
    ∙ scan-cons (c + 1 + 1 + 1) b'd' _
    ∙ ap (λ o. then_scan o bs) (d_step (c + 1 + 1 + 1) (omega arith))

scan_all-flatten : (c : ℕ) (reads : List (List ℕ)) → scan_all c reads ≡ scan c (flatten reads)
unfolding scan
scan_all-flatten c [] = refl
scan_all-flatten c (bs ∷ rest) =
    joined (λ c'. scan_all-flatten c' rest) (scan c bs) ∙ sym (scan-append c bs (flatten rest))
  where
    joined :
        ((c' : ℕ) → scan_all c' rest ≡ scan c' (flatten rest))
        → (o : Option ℕ)
        → (elim o as (λ x. Option ℕ) [ none ↦ none | some c' ↦ scan_all c' rest ])
          ≡ then_scan o (flatten rest)
    joined h none = refl
    joined h (some c') = h c'

-- However the terminal's input is cut into reads, a Writer that has typed fewer than 2 ^ 32 bytes
-- detaches exactly if ",,,d" stands in it.
pub scan_all-HoldsKeys :
    (reads : List (List ℕ))
    → length (flatten reads) < 2 ^ 32
    → (scan_all 0 reads ≡ none) ↔ HoldsKeys (flatten reads)
unfolding HoldsKeys
scan_all-HoldsKeys reads h = (
  λ e. scan-HoldsKeys 0 (flatten reads) (omega (arith, h)) (sym (scan_all-flatten 0 reads) ∙ e),
  λ (before, after, same).
      scan_all-flatten 0 reads
      ∙ ap (scan 0) same
      ∙ scan-append 0 before _
      ∙ found before after (Option-cases (scan 0 before)) (
          omega (
            arith,
            h,
            ap (λ (bs : List ℕ). length bs) same,
            length-append before (b',' ∷ b',' ∷ b',' ∷ b'd' ∷ after),
          )),
)
  where
    found :
        (before after : List ℕ)
        → (scan 0 before ≡ none) ⊎ ((c : ℕ) × (scan 0 before ≡ some c))
        → length before + 4 < 2 ^ 32
        → then_scan (scan 0 before) (b',' ∷ b',' ∷ b',' ∷ b'd' ∷ after) ≡ none
    found before after (inl e) le = ap (λ o. then_scan o (b',' ∷ b',' ∷ b',' ∷ b'd' ∷ after)) e
    found before after (inr (c, e)) le =
        ap (λ o. then_scan o (b',' ∷ b',' ∷ b',' ∷ b'd' ∷ after)) e
        ∙ keys_detach c after (omega (arith, scan_counts 0 before c (omega arith) e))
