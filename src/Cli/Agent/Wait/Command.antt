-- ===== src/Cli/Agent/Wait/Command.antt =====
-- `keepty wait` of keepty/src/main.rs as a whole, behind its connection.
use keepty.Base.{ℕ, ◌≡◌, ◌≢◌, true, false, List, some}
use keepty.Base.Results.{Result, ok, err}
use keepty.Wire.{IoError}
use keepty.Broker.Args.{Text}
use keepty.Cli.Agent.{Agent}
use keepty.Cli.Painted.{Vt}
use keepty.Screen.{Parser, ReadEvent, ScreenReader}
use keepty.Screen.Sync.{sync}
use keepty.Cli.Agent.Wait.{normalize, Round, Flow, waits, returns, gives_up, shown}
use keepty.Cli.Agent.Wait.Outcomes.{Outcome}

abbrev pub NotZero : Result IoError ℕ → Type 0
NotZero (ok code) = code ≢ 0
NotZero (err e) = Unit

module _ {P S : Type 0} (v : Vt P S) (contents : S → Text) (a : Agent) (started : ℕ) where
  -- The reader with which the loop begins: as connected, or with `--new` behind the broker's Pong.
  pub data Armed (p : Parser P) (first : List (List ReadEvent)) (r r0 : ScreenReader P)
      : Type 0 where
    at_once : a.new_text ≡ false → r0 ≡ r → Armed p first r r0
    synced : a.new_text ≡ true → sync p first r ≡ some (ok tt, r0) → Armed p first r r0

  -- The loop from the screen that it begins with.
  pub record Looped (p : Parser P) (first : List (List ReadEvent)) (now : ℕ) (rs : List Round)
      (r : ScreenReader P) (f : Flow P) : Type 0 where
    pub reader : ScreenReader P
    pub begins : Armed p first r reader
    pub outcome :
        Outcome v contents a started (normalize (shown v contents a reader.parser)) now rs f

  abbrev pub Tells :
      Parser P → List (List ReadEvent) → ℕ → List Round → ScreenReader P → Flow P → Type 0
  Tells p first now rs r (gives_up result r') = (a.new_text ≡ true) × NotZero result
  Tells p first now rs r (waits w) = Looped p first now rs r (waits w)
  Tells p first now rs r (returns result w) = Looped p first now rs r (returns result w)
