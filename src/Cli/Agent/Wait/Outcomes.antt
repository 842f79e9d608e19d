-- ===== src/Cli/Agent/Wait/Outcomes.antt =====
-- What the exit codes of `keepty wait` in keepty/src/main.rs say.
use keepty.Base.{
  ℕ, ◌-◌, ◌≤◌, ◌<◌, ◌≡◌, refl, ap, sym, ◌∙◌, subst, Bool, true, false, ◌||◌, List, [], ◌∷◌, Option,
  none, some, arith, ltb, ◌==◌, if-cases, All, leb→le,
}
use keepty.Base.Results.{Result, ok, err}
use keepty.Wire.{IoError}
use keepty.Broker.Args.{Text}
use keepty.Cli.Agent.{Agent}
use keepty.Cli.RawText.{fresh, feed}
use keepty.Cli.Painted.{Vt, contains}
use keepty.Screen.{Parser, ScreenReader, Polled, is_aborted}
use keepty.Screen.Poll.{poll-Ends}
use keepty.Cli.Agent.Wait.{
  Waiting, Round, Flow, waits, returns, gives_up, secs, millis, is_quiet, interval, shown,
  text_matches, look, observe_all, after_poll, polled, wait_round, wait_loop,
}
use keepty.Cli.Agent.Wait.Since.{look-Steady}
use keepty.Cli.Agent.Wait.Searched.{outputs, Found, Unseen, checked-Searched, matches_hit}
use keepty.Cli.Agent.Wait.Fed.{OrPanics}
use keepty.Cli.Agent.Wait.Observed.{Watched, observe_all-Watched}

module _ {P S : Type 0} (v : Vt P S) (contents : S → Text) (a : Agent) (started : ℕ) where
  -- No look has found the text, nor does the screen hold it.
  pub record Missed (w : Waiting P) : Type 0 where
    pub unseen : All (Unseen v contents a) w.looks
    pub absent : text_matches v contents a w.reader.parser ≡ false
    pub unheard :
        (needle : Text)
        → a.new_text ≡ true
        → a.text ≡ some needle
        → feed needle (outputs w.looks) fresh false ≡ some (w.raw, false)

  -- Why the loop is left with an exit code.
  pub data Reason (w : Waiting P) : ℕ → Type 0 where
    by_look : Found v contents a w.looks → Reason w 0
    on_screen :
        (needle : Text)
        → a.text ≡ some needle
        → a.new_text ≡ false
        → contains needle (shown v contents a w.reader.parser) ≡ true
        → Reason w 0
    by_quiet : (ms now : ℕ) → a.quiet ≡ some ms → millis ms ≤ now - w.changed → Reason w 0
    by_time : (now : ℕ) → secs a.timeout ≤ now - started → Missed w → Reason w 1
    by_exit : Missed w → Reason w 3

  Missed-by :
      (first : Text) (start : ℕ) (w : Waiting P)
      → Watched v contents a first start w
      → (w.matched || text_matches v contents a w.reader.parser) ≡ false
      → Missed w
  Missed-by first start w h e =
      let (unmatched, absent) = both w.matched (text_matches v contents a w.reader.parser) e in
      record {
        unseen = h.searched.unseen unmatched;
        absent = absent;
        unheard = λ needle new text.
            let (b, fed, matched) = h.searched.raw needle new text in
            fed ∙ ap (λ x. some (w.raw, x)) (off b (λ yes. sym (matched yes) ∙ unmatched));
      }
    where
      both : (m n : Bool) → (m || n) ≡ false → (m ≡ false) × (n ≡ false)
      both true n e = absurd cc
      both false n e = (refl, e)

      off : (b : Bool) → (b ≡ true → true ≡ false) → b ≡ false
      off true f = f refl
      off false f = refl

  hit_Reason :
      (first : Text) (start : ℕ) (w : Waiting P)
      → Watched v contents a first start w
      → (w.matched || text_matches v contents a w.reader.parser) ≡ true
      → Reason w 0
  hit_Reason first start w h e = by_flag w.matched refl e
    where
      by_flag :
          (m : Bool)
          → w.matched ≡ m
          → (m || text_matches v contents a w.reader.parser) ≡ true
          → Reason w 0
      by_flag true em e = by_look (h.searched.hit em)
      by_flag false em e =
          let (needle, text, new, here) = matches_hit v contents a w.reader.parser e in
          on_screen needle text new here

  -- Time was left in a round.
  abbrev pub Early : Round → Type 0
  Early r = r.limit_at - started < secs a.timeout

  -- What a flow of the loop says, behind the rounds `rs`.
  abbrev pub Outcome : Text → ℕ → List Round → Flow P → Type 0
  Outcome first start rs (waits w) = Watched v contents a first start w × All Early rs
  Outcome first start rs (returns (ok code) w) = Watched v contents a first start w × Reason w code
  Outcome first start rs (returns (err e) w) = is_aborted e.kind ≡ false
  Outcome first start rs (gives_up result r) = ⊥

  -- The reader is not part of it.
  with_reader :
      (first : Text) (start : ℕ) (w : Waiting P) (r : ScreenReader P)
      → Watched v contents a first start w
      → Watched v contents a first start (record w { reader = r })
  with_reader first start w r h = record {
    searched = record { hit = h.searched.hit; unseen = h.searched.unseen; raw = h.searched.raw };
    steady = h.steady;
  }

  checked-Watched :
      (first : Text) (start now : ℕ) (w : Waiting P)
      → Watched v contents a first start w
      → Watched v contents a first start (look v contents a now w.reader.parser none w)
  checked-Watched first start now w h = record {
    searched = checked-Searched v contents a now w.reader.parser w h.searched;
    steady = look-Steady v contents a first start now w.reader.parser none w h.steady;
  }

  after_poll-Outcome :
      (first : Text) (start : ℕ) (r : Round) (w : Waiting P) (result : Result IoError ℕ)
      → Early r
      → Watched v contents a first start w
      → Outcome first start (r ∷ []) (after_poll v contents a r.checked_at result w)
  after_poll-Outcome first start r w (ok n) early h =
      (checked-Watched first start r.checked_at w h, (early, tt))
  after_poll-Outcome first start r w (err e) early h =
      if-cases (Outcome first start (r ∷ [])) (is_aborted e.kind) _ _
        (λ gone. (
          h,
          if-cases (Reason w) (w.matched || text_matches v contents a w.reader.parser) 0 3
              (hit_Reason first start w h) (λ miss. by_exit (Missed-by first start w h miss)),
        ))
        (λ other. other)

  polled-Outcome :
      (first : Text) (start : ℕ) (r : Round) (w : Waiting P) (q : Polled P)
      → Early r
      → Watched v contents a first start w
      → OrPanics v contents a (Outcome first start (r ∷ [])) (polled v contents a r (some q) w)
  polled-Outcome first start r w q early h =
      by_observer (observe_all v contents a r.observed_at 0 q.observed w)
        (observe_all-Watched v contents a first start r.observed_at 0 q.observed w h)
    where
      by_observer :
          (o : Option (Waiting P))
          → OrPanics v contents a (Watched v contents a first start) o
          → OrPanics v contents a (Outcome first start (r ∷ [])) (elim o as (λ x. Option (Flow P)) [
            | none ↦ none
            | some w' ↦
                some
                  (after_poll v contents a r.checked_at q.result (record w' { reader = q.reader }))
          ])
      by_observer none new = new
      by_observer (some w') h' =
          after_poll-Outcome first start r (record w' { reader = q.reader }) q.result early
            (with_reader first start w' q.reader h')

  wait_round-Outcome :
      (first : Text) (start : ℕ) (p : Parser P) (r : Round) (w : Waiting P)
      → Watched v contents a first start w
      → OrPanics v contents a (Outcome first start (r ∷ [])) (wait_round v contents a p started r w)
  unfolding wait_round
  wait_round-Outcome first start p r w h =
      if-cases Goal (w.matched || text_matches v contents a w.reader.parser) _ _
        (λ hit. (h, hit_Reason first start w h hit))
        (λ miss.
          if-cases Goal (is_quiet a.quiet (r.quiet_at - w.changed)) _ _
            (λ quiet. (h, quiet_Reason a.quiet refl quiet))
            (λ loud.
              if-cases Goal (secs a.timeout - (r.limit_at - started) == 0) _ _
                (λ over.
                  (h, by_time r.limit_at (ground (arith, over)) (Missed-by first start w h miss)))
                (λ left.
                  let remaining = secs a.timeout - (r.limit_at - started) in
                  let has_time = ltb 0 (interval a.quiet remaining (r.interval_at - w.changed)) in
                  let (q, ended) = poll-Ends p has_time r.events w.reader in
                  subst (λ o. Goal (polled v contents a r o w)) (sym ended)
                    (polled-Outcome first start r w q (ground (arith, left)) h))))
    where
      Goal : Option (Flow P) → Type 0
      Goal = OrPanics v contents a (Outcome first start (r ∷ []))

      quiet_Reason :
          (o : Option ℕ) → a.quiet ≡ o → is_quiet o (r.quiet_at - w.changed) ≡ true → Reason w 0
      quiet_Reason none e quiet = absurd cc
      quiet_Reason (some ms) e quiet = by_quiet ms r.quiet_at e (leb→le _ _ quiet)

  pub wait_loop-Outcome :
      (first : Text) (start : ℕ) (p : Parser P) (rs : List Round) (w : Waiting P)
      → Watched v contents a first start w
      → OrPanics v contents a (Outcome first start rs) (wait_loop v contents a p started rs w)
  unfolding wait_loop
  wait_loop-Outcome first start p [] w h = (h, tt)
  wait_loop-Outcome first start p (r ∷ rs) w h =
      by_round (wait_round v contents a p started r w) (wait_round-Outcome first start p r w h)
        (wait_loop-Outcome first start p rs)
    where
      Goal : Option (Flow P) → Type 0
      Goal = OrPanics v contents a (Outcome first start (r ∷ rs))

      add :
          (o : Option (Flow P))
          → Early r
          → OrPanics v contents a (Outcome first start rs) o
          → Goal o
      add none early h = h
      add (some (waits w')) early (h, all) = (h, (early, all))
      add (some (returns (ok code) w')) early h = h
      add (some (returns (err e) w')) early h = h
      add (some (gives_up result r')) early h = h

      by_round :
          (o : Option (Flow P))
          → OrPanics v contents a (Outcome first start (r ∷ [])) o
          → ((w : Waiting P)
              → Watched v contents a first start w
              → OrPanics v contents a
                  (Outcome first start rs)
                  (wait_loop v contents a p started rs w))
          → Goal (elim o as (λ x. Option (Flow P)) [
            | none ↦ none
            | some (waits w') ↦ wait_loop v contents a p started rs w'
            | some (returns result w') ↦ some (returns result w')
            | some (gives_up result r') ↦ some (gives_up result r')
          ])
      by_round none h more = h
      by_round (some (waits w')) (h, (early, all)) more = add _ early (more w' h)
      by_round (some (returns (ok code) w')) h more = h
      by_round (some (returns (err e) w')) h more = h
      by_round (some (gives_up result r')) h more = h
