-- ===== src/Cli/Start/Launch.antt =====
-- From the command line of `keepty start` to the settings of the broker: `cmd_start` of
-- keepty/src/main.rs with `parse_args` of keepty/src/broker.rs.
use keepty.Base.{ℕ, ◌≤◌, ◌≡◌, false, List, ◌∷◌, Option, none, some, if◌then◌else◌}
use keepty.Base.Results.{Result, ok, err}
use keepty.Base.Text.{codes, starts_with}
use keepty.Broker.Args.{Text, max_u16, usage, is_empty, parse_args}
use keepty.Cli.Start.{Options, Stops, Environment, broker_args}

-- What the loop keeps: sizes of 16 bits, and a session id that does not look like an option.
record Settled (o : Options) : Type 0 where
  cols : o.cols ≤ max_u16
  rows : o.rows ≤ max_u16
  plain : (id : Text) → o.session_id ≡ some id → starts_with (codes "-") id ≡ false

-- A step that gives options gives settled ones.
data Takes : Option Options → Type 0 where
  takes_none : Takes none
  takes : (o : Options) → Settled o → Takes (some o)

data Yields : Result Stops Options → Type 0 where
  stops : (e : Stops) → Yields (err e)
  yields : (o : Options) → Settled o → Yields (ok o)

-- What `cmd_start` gives the broker.
pub record Launches (env : Environment) (args : List Text) : Type 0 where
  pub id : Text
  pub cols : ℕ
  pub rows : ℕ
  pub dir : Text
  pub command : Text
  pub arguments : List Text
  pub given : args ≡ broker_args id cols rows dir (command ∷ arguments)
  pub plain : starts_with (codes "-") id ≡ false
  pub absent : env.is_running id ≡ false
  pub understood :
      (program : Text)
      → parse_args (program ∷ args) ≡ (
          if is_empty id
          then err usage
          else ok (record {
            session_id = id;
            argv = command ∷ arguments;
            working_dir = some dir;
            cols = cols;
            rows = rows;
          }))

abbrev Starts : Environment → Result Stops (List Text) → Type 0
Starts env r = (args : List Text) → r ≡ ok args → Launches env args
