-- ===== src/Attach/Session/Delivers.antt =====
-- What `run` of keepty/src/attach.rs has forwarded of a Writer's keys, while it stays attached and when it leaves.
use keepty.Base.{
  ℕ, ◌^◌, ◌<◌, ◌≡◌, ◌↔◌, refl, ap, sym, ◌∙◌, Bool, true, false, ◌&&◌, ◌⊎◌, inl, inr, List, [], ◌∷◌,
  ◌++◌, Option, none, some, flatten, length, append-nil, append_assoc,
}
use mathlib.Core.Option.{some-ne-none}
use keepty.Wire.{Frame}
use keepty.Wire.Inputs.{inputs}
use keepty.Attach.{scan}
use keepty.Attach.Detach.{scan_all, HoldsKeys, scan_all-HoldsKeys}
use keepty.Attach.Session.{Round, Loop, Flow, goes_on, leaves, loop_round, main_loop, entered}
use keepty.Attach.Session.Inputs.{
  read_of, reads_of, calm, is_none, all_calm, forwarded, BeginsWith, OneRead, loop_round-OneRead,
}

abbrev pub then_all : Option ℕ → List (List ℕ) → Option ℕ
then_all none reads = none
then_all (some c) reads = scan_all c reads

-- What the main loop has done behind these reads.
abbrev Forwards : List (List ℕ) → Bool → ℕ → List Frame → Flow → Type 0
Forwards reads calm c sent (goes_on l) =
    (forwarded l ≡ flatten (inputs sent) ++ flatten reads) × (scan_all c reads ≡ some l.comma_count)
Forwards reads calm c sent (leaves l) =
    BeginsWith (flatten (inputs sent) ++ flatten reads) (forwarded l)
    × ((scan_all c reads ≡ none) ⊎ (calm ≡ false))

-- One more read in front.
read_first :
    (c : ℕ) (bytes : List ℕ) (reads : List (List ℕ)) (o : Option ℕ)
    → scan c bytes ≡ o
    → scan_all c (bytes ∷ reads) ≡ then_all o reads
read_first c bytes reads o e =
    ap (λ (x : Option ℕ). elim x as (λ y. Option ℕ) [ none ↦ none | some c' ↦ scan_all c' reads ]) e
    ∙ read_behind o
  where
    read_behind :
        (o : Option ℕ)
        → (elim o as (λ y. Option ℕ) [ none ↦ none | some c' ↦ scan_all c' reads ])
          ≡ then_all o reads
    read_behind none = refl
    read_behind (some c') = refl

and_false : (b : Bool) → (b && false) ≡ false
and_false true = refl
and_false false = refl

Forwards-cons :
    (bytes : List ℕ) (reads : List (List ℕ)) (b b' : Bool) (c : ℕ) (sent : List Frame) (l : Loop)
    (flow : Flow)
    → OneRead bytes b c sent (goes_on l)
    → Forwards reads b' l.comma_count l.sent flow
    → Forwards (bytes ∷ reads) (b && b') c sent flow
Forwards-cons bytes reads b b' c sent l (goes_on l') (same, scanned) (same', scanned') = (
  same'
      ∙ ap (λ xs. xs ++ flatten reads) same
      ∙ append_assoc (flatten (inputs sent)) bytes (flatten reads),
  read_first c bytes reads (some l.comma_count) scanned ∙ scanned',
)
Forwards-cons bytes reads b b' c sent l (leaves l') (same, scanned) ((rest, same'), cause) = (
  (
    rest,
    sym (append_assoc (flatten (inputs sent)) bytes (flatten reads))
        ∙ ap (λ xs. xs ++ flatten reads) (sym same)
        ∙ same',
  ),
  elim cause [
    | inl e ↦ inl (read_first c bytes reads (some l.comma_count) scanned ∙ e)
    | inr e ↦ inr (ap (λ x. b && x) e ∙ and_false b)
  ],
)

main_loop-Forwards :
    (rs : List Round) (l : Loop)
    → Forwards (reads_of rs) (all_calm rs) l.comma_count l.sent (main_loop false rs l)
unfolding main_loop
main_loop-Forwards [] l = (sym (append-nil (forwarded l)), refl)
main_loop-Forwards (r ∷ rs) l =
    by_flow (loop_round false r l) (calm r.shutdown (is_none r.writes_left) r.stdin)
      (loop_round-OneRead r l) (main_loop-Forwards rs)
  where
    by_flow :
        (flow : Flow) (b : Bool)
        → OneRead (read_of r) b l.comma_count l.sent flow
        → ((l' : Loop)
            → Forwards (reads_of rs) (all_calm rs) l'.comma_count l'.sent (main_loop false rs l'))
        → Forwards
            (reads_of (r ∷ rs))
            (b && all_calm rs)
            l.comma_count
            l.sent
            (elim flow as (λ x. Flow) [
              | leaves l' ↦ leaves l'
              | goes_on l' ↦ main_loop false rs l'
            ])
    by_flow (goes_on l') b h ih =
        Forwards-cons (read_of r) (reads_of rs) b (all_calm rs) l.comma_count l.sent l'
          (main_loop false rs l') h (ih l')
    by_flow (leaves l') b (same, cause) ih = (
      (flatten (reads_of (r ∷ rs)), ap (λ xs. xs ++ flatten (reads_of (r ∷ rs))) (sym same)),
      elim cause [
        | inl e ↦ inl (read_first l.comma_count (read_of r) (reads_of rs) none e)
        | inr e ↦ inr (ap (λ x. x && all_calm rs) e)
      ],
    )

-- The keys forwarded against those typed, by whether the loop goes on.
abbrev pub Delivers : List Round → Flow → Type 0
Delivers rs (goes_on l) =
    (forwarded l ≡ flatten (reads_of rs)) × ¬ HoldsKeys (flatten (reads_of rs))
Delivers rs (leaves l) =
    BeginsWith (flatten (reads_of rs)) (forwarded l)
    × (HoldsKeys (flatten (reads_of rs)) ⊎ (all_calm rs ≡ false))

-- While a Writer stays attached, the keys that the main loop has forwarded are exactly those typed, in
-- order, however they are cut into reads, and ",,,d" does not stand in them. When the loop is left,
-- what it has forwarded is a beginning of what is typed, and either ",,,d" stands in that, or in some round the
-- reader thread had ended, the terminal's input ended or failed, or not every write succeeded. Fewer than 2 ^ 32
-- bytes are typed.
pub main_loop-Delivers :
    (cols rows : ℕ) (rs : List Round)
    → length (flatten (reads_of rs)) < 2 ^ 32
    → Delivers rs (main_loop false rs (entered false cols rows))
main_loop-Delivers cols rows rs h =
    by_flow (main_loop false rs (entered false cols rows))
      (main_loop-Forwards rs (entered false cols rows))
  where
    keys : (scan_all 0 (reads_of rs) ≡ none) ↔ HoldsKeys (flatten (reads_of rs))
    keys = scan_all-HoldsKeys (reads_of rs) h

    by_flow :
        (flow : Flow)
        → Forwards (reads_of rs) (all_calm rs) 0 (entered false cols rows).sent flow
        → Delivers rs flow
    by_flow (goes_on l) (same, scanned) =
        (same, λ held. some-ne-none l.comma_count (sym scanned ∙ keys.1 held))
    by_flow (leaves l) (prefix, cause) =
        (prefix, elim cause [ inl e ↦ inl (keys.0 e) | inr e ↦ inr e ])
