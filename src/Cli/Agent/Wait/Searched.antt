-- ===== src/Cli/Agent/Wait/Searched.antt =====
-- What `keepty wait` of keepty/src/main.rs has searched: the screens, or with `--new` the output and the painted text.
use keepty.Base.{
  ℕ, ◌<◌, ◌≡◌, refl, ap, sym, ◌∙◌, Bool, true, false, not, ◌&&◌, ◌||◌, List, [], ◌∷◌, ◌++◌, Option,
  none, some, All, All-append, if-satisfies, append_assoc, append-nil,
}
use keepty.Base.Text.{same_bytes}
use keepty.Broker.Args.{Text}
use keepty.Cli.Agent.{Agent}
use keepty.Cli.RawText.{RawText, fresh, feed}
use keepty.Cli.Painted.{Vt, contains}
use keepty.Cli.Painted.Runs.{Occurs}
use keepty.Cli.Painted.Found.{row_text}
use keepty.Cli.Agent.Wait.{normalize, Look, Waiting, shown, text_matches, look, seen}

-- The output that was observed.
abbrev pub outputs : {P : Type 0} → List (Look P) → List ℕ
outputs [] = []
outputs (l ∷ ls) = (elim l.payload [ none ↦ [] | some output ↦ output ]) ++ outputs ls

module _ {P S : Type 0} (v : Vt P S) (contents : S → Text) (a : Agent) where
  -- The text is in the screen of a look; or with `--new` in a row of it, or in the output observed by then.
  pub data Holds (needle : Text) (before : List (Look P)) (l : Look P) : Type 0 where
    in_screen :
        a.new_text ≡ false
        → contains needle (shown v contents a l.parser) ≡ true
        → Holds needle before l
    in_row :
        (row : ℕ)
        → a.new_text ≡ true
        → row < (v.size (v.screen l.parser)).0
        → Occurs needle (row_text v (v.screen l.parser) row (v.size (v.screen l.parser)).1 0)
        → Holds needle before l
    in_output :
        (raw : RawText)
        → a.new_text ≡ true
        → feed needle (outputs (before ++ l ∷ [])) fresh false ≡ some (raw, true)
        → Holds needle before l

  -- One of the looks holds it.
  pub data Found (looks : List (Look P)) : Type 0 where
    found :
        (needle : Text) (before : List (Look P)) (l : Look P) (after : List (Look P))
        → a.text ≡ some needle
        → looks ≡ before ++ l ∷ after
        → Holds needle before l
        → Found looks

  -- The observer did not see the text in the screen.
  abbrev pub Unseen : Look P → Type 0
  Unseen l = elim l.payload [
    | none ↦ Unit
    | some output ↦ text_matches v contents a l.parser ≡ false
  ]

  -- How far the search in the raw output is.
  abbrev pub RawSearch : Waiting P → Type 0
  RawSearch w =
      (needle : Text)
      → a.new_text ≡ true
      → a.text ≡ some needle
      → (b : Bool) × (feed needle (outputs w.looks) fresh false ≡ some (w.raw, b))
        × (b ≡ true → w.matched ≡ true)

  pub record Searched (w : Waiting P) : Type 0 where
    pub hit : w.matched ≡ true → Found w.looks
    pub unseen : w.matched ≡ false → All Unseen w.looks
    pub raw : RawSearch w

  pub more_Found : (looks : List (Look P)) (l : Look P) → Found looks → Found (looks ++ l ∷ [])
  more_Found looks l (found needle before k after text split holds) =
      found needle before k (after ++ l ∷ []) text
        (ap (λ ls. ls ++ l ∷ []) split ∙ append_assoc before (k ∷ after) (l ∷ [])) holds

  pub outputs-one :
      (looks : List (Look P)) (l : Look P)
      → outputs (looks ++ l ∷ [])
        ≡ outputs looks ++ (elim l.payload [ none ↦ [] | some output ↦ output ])
  outputs-one [] l = append-nil _
  outputs-one (k ∷ looks) l =
      ap (λ xs. (elim k.payload [ none ↦ [] | some output ↦ output ]) ++ xs) (outputs-one looks l)
      ∙ sym (append_assoc _ (outputs looks) _)

  -- What `look` leaves of the search.
  look-Searched :
      (now : ℕ) (parser : P) (payload : Option (List ℕ)) (w : Waiting P)
      → Searched (record w {
        looks = w.looks ++ (record { at = now; parser = parser; payload = payload }) ∷ [];
      })
      → Searched (look v contents a now parser payload w)
  look-Searched now parser payload w h =
      if-satisfies Searched (same_bytes (normalize (shown v contents a parser)) w.previous) _ _ h
        (record { hit = h.hit; unseen = h.unseen; raw = h.raw })

  -- A look that searches nothing.
  pub checked-Searched :
      (now : ℕ) (parser : P) (w : Waiting P)
      → Searched w
      → Searched (look v contents a now parser none w)
  checked-Searched now parser w h =
      let l : Look P = record { at = now; parser = parser; payload = none } in
      look-Searched now parser none w (record {
        hit = λ e. more_Found w.looks l (h.hit e);
        unseen = λ e. All-append Unseen w.looks (l ∷ []) (h.unseen e) (tt, tt);
        raw = λ needle new text.
            let (b, fed, matched) = h.raw needle new text in
            (
              b,
              ap (λ xs. feed needle xs fresh false)
                    (outputs-one w.looks l ∙ append-nil (outputs w.looks))
                  ∙ fed,
              matched,
            );
      })

  -- The search is done for a look that is not yet among those of `w`.
  pub record Looking (l : Look P) (w : Waiting P) : Type 0 where
    pub hit : w.matched ≡ true → Found (w.looks ++ l ∷ [])
    pub unseen : w.matched ≡ false → All Unseen w.looks
    pub raw :
        (needle : Text)
        → a.new_text ≡ true
        → a.text ≡ some needle
        → (b : Bool) × (feed needle (outputs (w.looks ++ l ∷ [])) fresh false ≡ some (w.raw, b))
          × (b ≡ true → w.matched ≡ true)

  pub matches_hit :
      (parser : P)
      → text_matches v contents a parser ≡ true
      → (needle : Text) × (a.text ≡ some needle)
        × (a.new_text ≡ false)
        × (contains needle (shown v contents a parser) ≡ true)
  matches_hit parser e = by_text a.new_text a.text refl refl e
    where
      by_text :
          (n : Bool) (o : Option Text)
          → a.new_text ≡ n
          → a.text ≡ o
          → (not n && (elim o as (λ x. Bool) [
            | none ↦ false
            | some needle ↦ contains needle (shown v contents a parser)
          ]))
            ≡ true
          → (needle : Text) × (a.text ≡ some needle)
            × (a.new_text ≡ false)
            × (contains needle (shown v contents a parser) ≡ true)
      by_text true o n t e = absurd cc
      by_text false none n t e = absurd cc
      by_text false (some needle) n t e = (needle, t, n, e)

  pub seen-Searched :
      (now : ℕ) (parser : P) (output : List ℕ) (w : Waiting P)
      → Looking (record { at = now; parser = parser; payload = some output }) w
      → Searched (seen v contents a now parser output w)
  seen-Searched now parser output w h =
      let l : Look P = record { at = now; parser = parser; payload = some output } in
      look-Searched now parser (some output)
        (record w { matched = w.matched || text_matches v contents a parser })
        (record {
          hit = λ e. hit_by w.matched (text_matches v contents a parser) refl refl e;
          unseen = λ e.
              All-append Unseen w.looks (l ∷ [])
                (h.unseen (left_false w.matched (text_matches v contents a parser) e))
                (right_false w.matched (text_matches v contents a parser) e, tt);
          raw = λ needle new text.
              let (b, fed, matched) = h.raw needle new text in
              (b, fed, λ e. ap (λ m. m || text_matches v contents a parser) (matched e));
        })
    where
      left_false : (m n : Bool) → (m || n) ≡ false → m ≡ false
      left_false true n e = e
      left_false false n e = refl

      right_false : (m n : Bool) → (m || n) ≡ false → n ≡ false
      right_false true n e = absurd cc
      right_false false n e = e

      hit_by :
          (m n : Bool)
          → w.matched ≡ m
          → text_matches v contents a parser ≡ n
          → (m || n) ≡ true
          → Found (w.looks ++ (record { at = now; parser = parser; payload = some output }) ∷ [])
      hit_by true n em en e = h.hit em
      hit_by false false em en e = absurd cc
      hit_by false true em en e =
          let (needle, text, new, here) = matches_hit parser en in
          found needle w.looks _ [] text refl (in_screen new here)

  -- Without `--new` the observer looks at the screen.
  pub text-Looking : (l : Look P) (w : Waiting P) → a.new_text ≡ false → Searched w → Looking l w
  text-Looking l w off h = record {
    hit = λ e. more_Found w.looks l (h.hit e);
    unseen = h.unseen;
    raw = λ needle new text. absurd cc;
  }
