-- ===== src/Cli/Agent/Wait/Fed.antt =====
-- The two searches of `keepty wait --new` in keepty/src/main.rs, on one more frame.
use keepty.Base.{
  ℕ, ◌≡◌, refl, ap, sym, ◌∙◌, subst, Bool, true, false, ◌||◌, List, [], ◌∷◌, ◌++◌, Option, none,
  some,
}
use mathlib.Core.Option.{some-injective}
use keepty.Broker.Args.{Text}
use keepty.Cli.Agent.{Agent}
use keepty.Cli.RawText.{RawText, fresh, feed}
use keepty.Cli.RawText.Frames.{feed-next_frame}
use keepty.Cli.Painted.{Vt, PaintedCells, feed_painted}
use keepty.Cli.Painted.Found.{feed_painted-Occurs}
use keepty.Cli.Agent.Wait.{Look, Waiting, feed_painted_new, feed_new}
use keepty.Cli.Agent.Wait.Since.{Steady}
use keepty.Cli.Agent.Wait.Searched.{
  outputs, Found, found, in_row, in_output, Searched, Looking, more_Found, outputs-one,
}

module _ {P S : Type 0} (v : Vt P S) (contents : S → Text) (a : Agent) where
  -- A panic is one of `--new`; else the property holds.
  abbrev pub OrPanics : {A : Type 0} → (A → Type 0) → Option A → Type 0
  OrPanics Q none = a.new_text ≡ true
  OrPanics Q (some x) = Q x

  -- The searches change neither the looks nor the text since the last change.
  pub record Fed (l : Look P) (w w' : Waiting P) : Type 0 where
    pub looking : Looking v contents a l w'
    pub steady :
        (first : Text) (start : ℕ)
        → Steady v contents a first start w
        → Steady v contents a first start w'

  both_searches :
      (needle : Text) (now : ℕ) (parser : P) (output : List ℕ) (w : Waiting P) (raw : RawText)
      (cells : PaintedCells P) (in_raw painted : Bool)
      → a.new_text ≡ true
      → a.text ≡ some needle
      → feed needle output w.raw false ≡ some (raw, in_raw)
      → (painted ≡ true
          → Found v contents a
              (w.looks ++ (record { at = now; parser = parser; payload = some output }) ∷ []))
      → Searched v contents a w
      → Fed
          (record { at = now; parser = parser; payload = some output })
          w
          (record w { raw = raw; painted = some cells; matched = (w.matched || in_raw) || painted })
  both_searches needle now parser output w raw cells in_raw painted new text fed paints h =
      let l : Look P = record { at = now; parser = parser; payload = some output } in
      let (b, before, matched) = h.raw needle new text in
      let fed_now : feed needle (outputs (w.looks ++ l ∷ [])) fresh false
          ≡ some (raw, b || in_raw) =
        ap (λ xs. feed needle xs fresh false) (outputs-one v contents a w.looks l)
        ∙ feed-next_frame needle (outputs w.looks) output w.raw raw b in_raw before fed in
      record {
        looking = record {
          hit = λ e. hit_by w.matched b in_raw painted refl fed_now paints e;
          unseen = λ e. h.unseen (first_false w.matched in_raw painted e);
          raw = λ needle' new' text'.
              let same = some-injective needle needle' (sym text ∙ text') in
              (
                b || in_raw,
                subst
                    (λ n.
                      feed n (outputs (w.looks ++ l ∷ [])) fresh false ≡ some (raw, b || in_raw))
                    same fed_now,
                λ e. still b w.matched in_raw painted matched e,
              );
        };
        steady = λ first start s. s;
      }
    where
      first_false : (m n k : Bool) → ((m || n) || k) ≡ false → m ≡ false
      first_false true n k e = e
      first_false false n k e = refl

      still : (b m n k : Bool) → (b ≡ true → m ≡ true) → (b || n) ≡ true → ((m || n) || k) ≡ true
      still true m n k f e = ap (λ x. (x || n) || k) (f refl)
      still false true true k f e = refl
      still false false true k f e = refl
      still false m false k f e = absurd cc

      hit_by :
          (m b n k : Bool)
          → w.matched ≡ m
          → feed needle
              (outputs
                (w.looks ++ (record { at = now; parser = parser; payload = some output }) ∷ []))
              fresh
              false
            ≡ some (raw, b || n)
          → (k ≡ true
              → Found v contents a
                  (w.looks ++ (record { at = now; parser = parser; payload = some output }) ∷ []))
          → ((m || n) || k) ≡ true
          → Found v contents a
              (w.looks ++ (record { at = now; parser = parser; payload = some output }) ∷ [])
      hit_by true b n k em f p e = more_Found v contents a w.looks _ (h.hit em)
      hit_by false b true k em f p e =
          found needle w.looks _ [] text refl
            (in_output raw new (f ∙ ap (λ x. some (raw, x)) (or_true b)))
        where
          or_true : (b : Bool) → (b || true) ≡ true
          or_true true = refl
          or_true false = refl
      hit_by false b false true em f p e = p refl
      hit_by false b false false em f p e = absurd cc

  feed_painted_new-Fed :
      (needle : Text) (now : ℕ) (parser : P) (output : List ℕ) (w : Waiting P) (raw : RawText)
      (in_raw : Bool)
      → a.new_text ≡ true
      → a.text ≡ some needle
      → feed needle output w.raw false ≡ some (raw, in_raw)
      → Searched v contents a w
      → OrPanics (Fed (record { at = now; parser = parser; payload = some output }) w) (
          feed_painted_new v contents a output parser needle
            (record w { raw = raw; matched = w.matched || in_raw }))
  unfolding feed_painted_new
  feed_painted_new-Fed needle now parser output w raw in_raw new text fed h = by_cells w.painted
    where
      l : Look P
      l = record { at = now; parser = parser; payload = some output }

      by_found :
          (cells cells' : PaintedCells P) (o : Option Bool)
          → (feed_painted v cells output (v.screen parser) needle).0 ≡ o
          → OrPanics (Fed l w) (elim o as (λ x. Option (Waiting P)) [
            | none ↦ none
            | some b ↦ some (record w {
              raw = raw;
              painted = some cells';
              matched = (w.matched || in_raw) || b;
            })
          ])
      by_found cells cells' none e = new
      by_found cells cells' (some b) e =
          both_searches needle now parser output w raw cells' in_raw b new text fed
            (λ yes.
              let (row, below, here) =
                feed_painted-Occurs v cells output (v.screen parser) needle (e ∙ ap some yes) in
              found needle w.looks l [] text refl (in_row row new below here))
            h

      by_cells :
          (o : Option (PaintedCells P))
          → OrPanics (Fed l w) (elim o as (λ x. Option (Waiting P)) [
            | none ↦ none
            | some cells ↦
                let (hit, cells') = feed_painted v cells output (v.screen parser) needle in
                elim hit as (λ x. Option (Waiting P)) [
                  | none ↦ none
                  | some b ↦ some (record w {
                    raw = raw;
                    painted = some cells';
                    matched = (w.matched || in_raw) || b;
                  })
                ]
          ])
      by_cells none = new
      by_cells (some cells) =
          by_found cells (feed_painted v cells output (v.screen parser) needle).1 _ refl

  pub feed_new-Fed :
      (now : ℕ) (parser : P) (output : List ℕ) (w : Waiting P)
      → a.new_text ≡ true
      → Searched v contents a w
      → OrPanics
          (Fed (record { at = now; parser = parser; payload = some output }) w)
          (feed_new v contents a output parser w)
  unfolding feed_new
  feed_new-Fed now parser output w new h = by_text a.text refl
    where
      l : Look P
      l = record { at = now; parser = parser; payload = some output }

      by_raw :
          (needle : Text) (o : Option (RawText × Bool))
          → a.text ≡ some needle
          → feed needle output w.raw false ≡ o
          → OrPanics (Fed l w) (elim o as (λ x. Option (Waiting P)) [
            | none ↦ none
            | some (raw, hit) ↦
                feed_painted_new v contents a output parser needle
                  (record w { raw = raw; matched = w.matched || hit })
          ])
      by_raw needle none text e = new
      by_raw needle (some (raw, hit)) text e =
          feed_painted_new-Fed needle now parser output w raw hit new text e h

      by_text :
          (o : Option Text)
          → a.text ≡ o
          → OrPanics (Fed l w) (elim o as (λ x. Option (Waiting P)) [
            | none ↦ none
            | some needle ↦ elim (feed needle output w.raw false) as (λ x. Option (Waiting P)) [
              | none ↦ none
              | some (raw, hit) ↦
                  feed_painted_new v contents a output parser needle
                    (record w { raw = raw; matched = w.matched || hit })
            ]
          ])
      by_text none text = new
      by_text (some needle) text = by_raw needle (feed needle output w.raw false) text refl
