-- ===== src/Cli/Agent/Wait.antt =====
-- `keepty wait` of keepty/src/main.rs behind its connection: the last part of `run_agent` for this command.
-- Times are nanoseconds.
pub mod Since
pub mod Searched
pub mod Fed
pub mod Observed
pub mod Outcomes
pub mod Command
mod Tests
use keepty.Base.{
  ℕ, ◌+◌, ◌-◌, ◌*◌, ◌^◌, Bool, true, false, not, ◌&&◌, ◌||◌, List, [], ◌∷◌, ◌++◌, Option, none,
  some, min, leb, ltb, ◌==◌, if◌then◌else◌,
}
use keepty.Base.Results.{Result, ok, err}
use keepty.Base.Text.{same_bytes}
use keepty.Wire.{IoError, ErrorKind}
use keepty.Broker.Args.{Text}
use keepty.Cli.Agent.{Agent}
use keepty.Cli.RawText.{RawText, fresh, feed, within}
use keepty.Cli.Painted.{Vt, PaintedCells, contains, arm, feed_painted}
use keepty.Screen.{Parser, ReadEvent, ScreenReader, Returns, Polled, is_aborted, poll}
use keepty.Screen.Sync.{sync}

-- `normalize`, on UTF-8: the characters U+2800 to U+28FF, a spinner's, are spaces.
unfoldable pub normalize : Text → Text
normalize [] = []
normalize (a ∷ []) = a ∷ []
normalize (a ∷ b ∷ []) = a ∷ b ∷ []
normalize (a ∷ b ∷ c ∷ text) =
    let rest = normalize text in
    let next = normalize (b ∷ c ∷ text) in
    if a == 0xe2 && within 0xa0 0xa3 b then b' ' ∷ rest else a ∷ next

-- A look at the screen: when, with which parser, and the payload behind which it is if the observer of
-- `poll_with_raw` looks.
pub record Look (P : Type 0) : Type 0 where
  pub at : ℕ
  pub parser : P
  pub payload : Option (List ℕ)

-- The variables of the loop, with the looks that were taken.
pub record Waiting (P : Type 0) : Type 0 where
  pub reader : ScreenReader P
  pub raw : RawText
  pub painted : Option (PaintedCells P)
  pub previous : Text
  pub changed : ℕ
  pub matched : Bool
  pub looks : List (Look P)

-- A round of the loop: the readings of the clock, what the poll reads, and the clock at its observations.
pub record Round : Type 0 where
  pub quiet_at : ℕ
  pub limit_at : ℕ
  pub interval_at : ℕ
  pub events : List ReadEvent
  pub observed_at : ℕ → ℕ
  pub checked_at : ℕ

-- The loop goes on, or `run_agent` returns: from the loop, or before it.
pub data Flow (P : Type 0) : Type 0 where
  waits : Waiting P → Flow P
  returns : Result IoError ℕ → Waiting P → Flow P
  gives_up : Result IoError ℕ → ScreenReader P → Flow P

-- `Duration::from_secs`, `Duration::from_millis`
abbrev pub secs : ℕ → ℕ
secs n = n * 10 ^ 9

abbrev pub millis : ℕ → ℕ
millis n = n * 10 ^ 6

-- Whether the screen has been quiet for long enough.
abbrev pub is_quiet : Option ℕ → ℕ → Bool
is_quiet none elapsed = false
is_quiet (some ms) elapsed = leb (millis ms) elapsed

-- The poll's timeout.
abbrev pub interval : Option ℕ → ℕ → ℕ → ℕ
interval none remaining elapsed = min remaining (millis 20)
interval (some ms) remaining elapsed = min (min remaining (millis 20)) (millis ms - elapsed)

abbrev pub is_timed_out : ErrorKind → Bool
is_timed_out ErrorKind.timed_out = true
is_timed_out _ = false

module _ {P S : Type 0} (v : Vt P S) (contents : S → Text) (a : Agent) where
  abbrev pub shown : P → Text
  shown parser = contents (v.screen parser)

  -- `text_matches`
  abbrev pub text_matches : P → Bool
  text_matches parser =
      not a.new_text
      && (elim a.text [ none ↦ false | some needle ↦ contains needle (shown parser) ])

  -- The comparison with the screen before.
  abbrev pub look : ℕ → P → Option (List ℕ) → Waiting P → Waiting P
  look now parser payload w =
      let current = normalize (shown parser) in
      let w' = record w {
        looks = w.looks ++ (record { at = now; parser = parser; payload = payload }) ∷ [];
      } in
      if same_bytes current w.previous then w' else record w' { previous = current; changed = now }

  -- The two searches of `--new`; `none` is a panic.
  unfoldable pub feed_painted_new : List ℕ → P → Text → Waiting P → Option (Waiting P)
  feed_painted_new output parser needle w = elim w.painted [
    | none ↦ none
    | some cells ↦
        let (found, cells') = feed_painted v cells output (v.screen parser) needle in
        elim found [
          | none ↦ none
          | some b ↦ some (record w { painted = some cells'; matched = w.matched || b })
        ]
  ]

  unfoldable pub feed_new : List ℕ → P → Waiting P → Option (Waiting P)
  unfolding feed_painted_new
  feed_new output parser w = elim a.text [
    | none ↦ none
    | some needle ↦ elim (feed needle output w.raw false) [
      | none ↦ none
      | some (raw, found) ↦
          feed_painted_new output parser needle
            (record w { raw = raw; matched = w.matched || found })
    ]
  ]

  -- The observer.
  abbrev pub seen : ℕ → P → List ℕ → Waiting P → Waiting P
  seen now parser output w =
      look now parser (some output) (record w { matched = w.matched || text_matches parser })

  unfoldable pub observer : ℕ → P → List ℕ → Waiting P → Option (Waiting P)
  unfolding feed_new
  observer now parser output w =
      if a.new_text
      then (elim (feed_new output parser w) [
        | none ↦ none
        | some w' ↦ some (seen now parser output w')
      ])
      else some (seen now parser output w)

  -- Its calls in a poll, the first at the time `observed_at n`.
  unfoldable pub observe_all : (ℕ → ℕ) → ℕ → List (P × List ℕ) → Waiting P → Option (Waiting P)
  unfolding observer
  observe_all observed_at n [] w = some w
  observe_all observed_at n ((parser, output) ∷ rest) w =
      elim (observer (observed_at n) parser output w) [
        | none ↦ none
        | some w' ↦ observe_all observed_at (n + 1) rest w'
      ]

  -- Behind a poll.
  abbrev pub after_poll : ℕ → Result IoError ℕ → Waiting P → Flow P
  after_poll now (ok n) w = waits (look now w.reader.parser none w)
  after_poll now (err e) w =
      if is_aborted e.kind
      then returns (ok (if w.matched || text_matches w.reader.parser then 0 else 3)) w
      else returns (err e) w

  abbrev pub polled : Round → Option (Polled P) → Waiting P → Option (Flow P)
  polled r none w = none
  polled r (some q) w = elim (observe_all r.observed_at 0 q.observed w) [
    | none ↦ none
    | some w' ↦ some (after_poll r.checked_at q.result (record w' { reader = q.reader }))
  ]

  -- The body of the loop; `none` is a panic.
  unfoldable pub wait_round : Parser P → ℕ → Round → Waiting P → Option (Flow P)
  unfolding observe_all
  wait_round p started r w =
      if w.matched || text_matches w.reader.parser
      then some (returns (ok 0) w)
      else if is_quiet a.quiet (r.quiet_at - w.changed)
      then some (returns (ok 0) w)
      else let remaining = secs a.timeout - (r.limit_at - started) in
        if remaining == 0
        then some (returns (ok 1) w)
        else polled r
            (poll p (ltb 0 (interval a.quiet remaining (r.interval_at - w.changed))) r.events
              w.reader)
            w

  unfoldable pub wait_loop : Parser P → ℕ → List Round → Waiting P → Option (Flow P)
  unfolding wait_round
  wait_loop p started [] w = some (waits w)
  wait_loop p started (r ∷ rs) w = elim (wait_round p started r w) [
    | none ↦ none
    | some (waits w') ↦ wait_loop p started rs w'
    | some (returns result w') ↦ some (returns result w')
    | some (gives_up result r') ↦ some (gives_up result r')
  ]

  -- The variables before the loop.
  abbrev pub wait_start : ℕ → ScreenReader P → Waiting P
  wait_start now r = record {
    reader = r;
    raw = fresh;
    painted = if a.new_text then some (arm v (v.screen r.parser)) else none;
    previous = normalize (shown r.parser);
    changed = now;
    matched = false;
    looks = [];
  }

  -- Behind the `sync` of `--new`.
  abbrev pub armed : Parser P → ℕ → ℕ → List Round → Option (Returns P Unit) → Option (Flow P)
  armed p started now rounds none = none
  armed p started now rounds (some (ok u, r)) = wait_loop p started rounds (wait_start now r)
  armed p started now rounds (some (err e, r)) =
      some (
        gives_up (if is_timed_out e.kind then ok 1 else if is_aborted e.kind then ok 3 else err e)
          r)

  -- `keepty wait`, connected: `armed_at` and `now` are when it looks for time to arm, and when the loop begins.
  unfoldable pub wait_command :
      Parser P → ℕ → ℕ → List (List ReadEvent) → ℕ → List Round → ScreenReader P → Option (Flow P)
  unfolding wait_loop
  wait_command p started armed_at first now rounds r =
      if a.new_text
      then (if secs a.timeout - (armed_at - started) == 0
          then some (gives_up (ok 1) r)
          else armed p started now rounds (sync p first r))
      else wait_loop p started rounds (wait_start now r)
