-- ===== src/Cli/Agent/Wait/Since.antt =====
-- Since when the screen has been the same, in `keepty wait` of keepty/src/main.rs.
use keepty.Base.{
  ℕ, ◌≡◌, refl, ap, ◌∙◌, List, [], ◌∷◌, ◌++◌, Option, All, All-append, append_assoc, if-cases,
}
use keepty.Base.Text.{same_bytes, same_bytes→eq}
use keepty.Broker.Args.{Text}
use keepty.Cli.Agent.{Agent}
use keepty.Cli.Painted.{Vt}
use keepty.Cli.Agent.Wait.{normalize, Look, Waiting, shown, look}

module _ {P S : Type 0} (v : Vt P S) (contents : S → Text) (a : Agent) where
  -- A look at this text, spinners aside.
  abbrev pub Shows : Text → Look P → Type 0
  Shows text l = normalize (shown v contents a l.parser) ≡ text

  -- The looks show `text` since the time `changed`: all of them, and the screen before them, at the time
  -- `start`; or from the look on that was taken then.
  pub data Since (first : Text) (start : ℕ) (text : Text) (changed : ℕ) (looks : List (Look P))
      : Type 0 where
    always :
        first ≡ text
        → start ≡ changed
        → All (Shows text) looks
        → Since first start text changed looks
    from_look :
        (before : List (Look P)) (l : Look P) (after : List (Look P))
        → looks ≡ before ++ l ∷ after
        → l.at ≡ changed
        → Shows text l
        → All (Shows text) after
        → Since first start text changed looks

  same-Since :
      (first text : Text) (start changed : ℕ) (looks : List (Look P)) (l : Look P)
      → Shows text l
      → Since first start text changed looks
      → Since first start text changed (looks ++ l ∷ [])
  same-Since first text start changed looks l same (always e e' all) =
      always e e' (All-append (Shows text) looks (l ∷ []) all (same, tt))
  same-Since first text start changed looks l same (from_look before k after split at here all) =
      from_look before k (after ++ l ∷ [])
        (ap (λ ls. ls ++ l ∷ []) split ∙ append_assoc before (k ∷ after) (l ∷ [])) at here
        (All-append (Shows text) after (l ∷ []) all (same, tt))

  abbrev pub Steady : Text → ℕ → Waiting P → Type 0
  Steady first start w = Since first start w.previous w.changed w.looks

  pub look-Steady :
      (first : Text) (start now : ℕ) (parser : P) (payload : Option (List ℕ)) (w : Waiting P)
      → Steady first start w
      → Steady first start (look v contents a now parser payload w)
  look-Steady first start now parser payload w h =
      let l : Look P = record { at = now; parser = parser; payload = payload } in
      let current = normalize (shown v contents a parser) in
      let w' = record w { looks = w.looks ++ l ∷ [] } in
      if-cases (Steady first start) (same_bytes current w.previous) w'
        (record w' { previous = current; changed = now })
        (λ same.
          same-Since first w.previous start w.changed w.looks l
            (same_bytes→eq current w.previous same) h)
        (λ other. from_look w.looks l [] refl refl refl tt)
