-- ===== src/Cli/Agent/Wait/Observed.antt =====
-- The observer of `keepty wait` in keepty/src/main.rs: what each of its calls leaves of the search.
use keepty.Base.{ℕ, ◌+◌, List, [], ◌∷◌, Option, none, some, if-cases}
use keepty.Broker.Args.{Text}
use keepty.Cli.Agent.{Agent}
use keepty.Cli.Painted.{Vt}
use keepty.Cli.Agent.Wait.{Waiting, feed_new, seen, observer, observe_all}
use keepty.Cli.Agent.Wait.Since.{Steady, look-Steady}
use keepty.Cli.Agent.Wait.Searched.{Searched, Looking, seen-Searched, text-Looking}
use keepty.Cli.Agent.Wait.Fed.{OrPanics, Fed, feed_new-Fed}

module _ {P S : Type 0} (v : Vt P S) (contents : S → Text) (a : Agent) where
  -- What holds throughout the loop, behind a start at `start` with `first` on the screen.
  pub record Watched (first : Text) (start : ℕ) (w : Waiting P) : Type 0 where
    pub searched : Searched v contents a w
    pub steady : Steady v contents a first start w

  seen-Watched :
      (first : Text) (start now : ℕ) (parser : P) (output : List ℕ) (w : Waiting P)
      → Looking v contents a (record { at = now; parser = parser; payload = some output }) w
      → Steady v contents a first start w
      → Watched first start (seen v contents a now parser output w)
  seen-Watched first start now parser output w h s = record {
    searched = seen-Searched v contents a now parser output w h;
    steady =
        look-Steady v contents a first start now parser (some output) (record w { matched = _ }) s;
  }

  observer-Watched :
      (first : Text) (start now : ℕ) (parser : P) (output : List ℕ) (w : Waiting P)
      → Watched first start w
      → OrPanics v contents a (Watched first start) (observer v contents a now parser output w)
  unfolding observer
  observer-Watched first start now parser output w h =
      if-cases (OrPanics v contents a (Watched first start)) a.new_text _ _
        (λ new.
          fed_next (feed_new v contents a output parser w)
            (feed_new-Fed v contents a now parser output w new h.searched))
        (λ off.
          seen-Watched first start now parser output w
            (text-Looking v contents a _ w off h.searched) h.steady)
    where
      fed_next :
          (o : Option (Waiting P))
          → OrPanics v contents a
              (Fed v contents a (record { at = now; parser = parser; payload = some output }) w)
              o
          → OrPanics v contents a (Watched first start) (elim o as (λ x. Option (Waiting P)) [
            | none ↦ none
            | some w' ↦ some (seen v contents a now parser output w')
          ])
      fed_next none new = new
      fed_next (some w') fed =
          seen-Watched first start now parser output w' fed.looking
            (fed.steady first start h.steady)

  pub observe_all-Watched :
      (first : Text) (start : ℕ) (observed_at : ℕ → ℕ) (n : ℕ) (observed : List (P × List ℕ))
      (w : Waiting P)
      → Watched first start w
      → OrPanics v contents a
          (Watched first start)
          (observe_all v contents a observed_at n observed w)
  unfolding observe_all
  observe_all-Watched first start observed_at n [] w h = h
  observe_all-Watched first start observed_at n ((parser, output) ∷ rest) w h =
      then_rest (observer v contents a (observed_at n) parser output w)
        (observer-Watched first start (observed_at n) parser output w h)
        (observe_all-Watched first start observed_at (n + 1) rest)
    where
      then_rest :
          (o : Option (Waiting P))
          → OrPanics v contents a (Watched first start) o
          → ((w' : Waiting P)
              → Watched first start w'
              → OrPanics v contents a
                  (Watched first start)
                  (observe_all v contents a observed_at (n + 1) rest w'))
          → OrPanics v contents a (Watched first start) (elim o as (λ x. Option (Waiting P)) [
            | none ↦ none
            | some w' ↦ observe_all v contents a observed_at (n + 1) rest w'
          ])
      then_rest none new more = new
      then_rest (some w') h more = more w' h
