-- ===== src/Cli/Painted/Runs.antt =====
-- The run of `PaintedCells::feed` of keepty/src/main.rs, cell by cell, against what the live cells show.
use keepty.Base.{
  ℕ, zero, suc, ◌+◌, ◌≡◌, refl, ap, ap₂, sym, ◌∙◌, inl, inr, Bool, true, false, not, ◌&&◌, [], ◌∷◌,
  ◌++◌, if◌then◌else◌, arith, append_assoc, append-nil, Bool-cases, if-cases, ==→eq,
}
use keepty.Base.Text.{codes, starts_with, same_bytes→eq}
use keepty.Broker.Args.{Text, is_empty}
use keepty.Cli.Painted.{Cell, sentinel, contains, repeat, is_blank, shown, differ, scan_cell}

abbrev pub Occurs : Text → Text → Type 0
Occurs needle text = (a : Text) × (b : Text) × (text ≡ a ++ (needle ++ b))

starts_with-Occurs :
    (needle text : Text) → starts_with needle text ≡ true → (b : Text) × (text ≡ needle ++ b)
starts_with-Occurs [] text h = (text, refl)
starts_with-Occurs (c ∷ needle) [] h = absurd (ground (arith, h))
starts_with-Occurs (c ∷ needle) (d ∷ text) h =
    let (b, same) = starts_with-Occurs needle text (ground (arith, h)) in
    (b, ap₂ (λ x xs. x ∷ xs) (==→eq d c (ground (arith, h))) same)

pub contains-Occurs : (needle text : Text) → contains needle text ≡ true → Occurs needle text
unfolding contains
contains-Occurs needle [] h = let (b, same) = starts_with-Occurs needle [] h in ([], b, same)
contains-Occurs needle (c ∷ text) h = elim (Bool-cases (starts_with needle (c ∷ text))) [
  | inl here ↦ let (b, same) = starts_with-Occurs needle (c ∷ text) here in ([], b, same)
  | inr there ↦
      let (a, b, same) = contains-Occurs needle text (ground (arith, h, there)) in
      (c ∷ a, b, ap (λ xs. c ∷ xs) same)
]

pub Occurs-before :
    (needle before text : Text) → Occurs needle text → Occurs needle (before ++ text)
Occurs-before needle before text (a, b, same) =
    (before ++ a, b, ap (λ xs. before ++ xs) same ∙ sym (append_assoc before a (needle ++ b)))

pub Occurs-behind :
    (needle text behind : Text) → Occurs needle text → Occurs needle (text ++ behind)
Occurs-behind needle text behind (a, b, same) = (
  a,
  b ++ behind,
  ap (λ xs. xs ++ behind) same
      ∙ append_assoc a (needle ++ b) behind
      ∙ ap (λ xs. a ++ xs) (append_assoc needle b behind),
)

repeat-snoc : (n : ℕ) (text : Text) → repeat (n + 1) text ≡ repeat n text ++ text
repeat-snoc zero text = append-nil text
repeat-snoc (suc n) text =
    ap (λ k. repeat k text) (succ n)
    ∙ ap (λ xs. text ++ xs) (repeat-snoc n text)
    ∙ sym (append_assoc text (repeat n text) text)
  where
    succ : (n : ℕ) → suc n + 1 ≡ suc (n + 1)
    succ n = omega arith

abbrev pub space : Text
space = codes " "

-- The run with its gap, and a cell behind it, end with the run and the gap that come next; a run that
-- has grown has no gap.
pub record EndsWith (live : Cell) (run : Text) (gap : ℕ) (next : Text × ℕ × Bool) : Type 0 where
  pub before : Text
  pub same : (run ++ repeat gap space) ++ shown live ≡ before ++ (next.0 ++ repeat next.1 space)
  pub no_gap : next.2 ≡ true → next.1 ≡ 0

blank_shown : (c : Cell) → is_blank c ≡ true → shown c ≡ space
blank_shown c h = elim (Bool-cases (is_empty c.contents)) [
  | inl e ↦ ground (arith, h, e)
  | inr e ↦ ground (arith, h, e, same_bytes→eq c.contents space)
]

same_shown : (a b : Cell) → differ a b ≡ false → shown a ≡ shown b
same_shown a b h =
    let contents : a.contents ≡ b.contents =
      same_bytes→eq a.contents b.contents (ground (arith, h)) in
    let wide : a.is_wide_continuation ≡ b.is_wide_continuation = ground (arith, h) in
    ap₂ (λ t w. if is_empty t && not w then codes " " else t) contents wide

reset-EndsWith : (live : Cell) (run : Text) (gap : ℕ) → EndsWith live run gap ([], 0, false)
reset-EndsWith live run gap = record {
  before = (run ++ repeat gap space) ++ shown live;
  same = sym (append-nil ((run ++ repeat gap space) ++ shown live));
  no_gap = λ e. absurd (ground (arith, e));
}

pub scan_cell-EndsWith :
    (cell live : Cell) (run : Text) (gap : ℕ) → EndsWith live run gap (scan_cell cell live run gap)
unfolding scan_cell
scan_cell-EndsWith cell live run gap =
    if-cases (EndsWith live run gap) (contains sentinel cell.contents) _ _
      (λ _.
        if-cases (EndsWith live run gap) (not (is_empty run) && is_blank live) (run, gap + 1, false)
          ([], 0, false)
          (λ e. record {
            before = [];
            same =
                append_assoc run (repeat gap space) (shown live)
                ∙ ap (λ xs. run ++ (repeat gap space ++ xs)) (blank_shown live (ground (arith, e)))
                ∙ ap (λ xs. run ++ xs) (sym (repeat-snoc gap space));
            no_gap = λ e'. absurd (ground (arith, e'));
          })
          (λ _. reset-EndsWith live run gap))
      (λ _.
        if-cases (EndsWith live run gap) (differ cell live) ([], 0, false)
          (run ++ repeat gap (codes " ") ++ shown cell, 0, true) (λ _. reset-EndsWith live run gap)
          (λ e. record {
            before = [];
            same =
                ap (λ xs. (run ++ repeat gap space) ++ xs) (sym (same_shown cell live e))
                ∙ sym (append-nil ((run ++ repeat gap space) ++ shown cell));
            no_gap = λ _. refl;
          }))
