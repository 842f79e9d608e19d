-- ===== src/Cli/Tests.antt =====
-- Runs of the command line's parts, after the tests in keepty/src/main.rs.
use keepty.Base.{ℕ, ◌≡◌, refl, List, [], ◌∷◌, some, true, false, Bool, arith, inl, length, map}
use keepty.Base.Text.{codes, same_bytes}
use keepty.Cli.Start.{Environment}
use keepty.Cli.Keys.{lower, named_key, Modes, named_key-Modes}
use keepty.Cli.RawText.{RawText, fresh, feed, feed-Sane, Sane}

abbrev answer : List ℕ
answer = b'a' ∷ b'n' ∷ b's' ∷ []

-- "an", a change of colour, "s".
abbrev coloured : List ℕ
coloured = b'a' ∷ b'n' ∷ 0x1b ∷ b'[' ∷ b'1' ∷ b'm' ∷ b's' ∷ []

finds : feed answer coloured fresh false ≡ some (record { state = 0; tail = answer }, true)
unfolding feed
finds = refl

-- A string escape that is not closed: the state is 7, and the next byte goes back to 3.
feed-Sane_example :
    (r' : RawText) × (found : Bool) × (feed answer
        (0x1b ∷ b'x' ∷ [])
        (record { state = 3; tail = [] })
        false
      ≡ some (r', found))
    × Sane (length answer) r'
feed-Sane_example =
    feed-Sane answer (0x1b ∷ b'x' ∷ []) (record { state = 3; tail = [] }) false
      (record { state = inl (omega arith); bounded = omega arith })

page_down : named_key (codes "Page-Down") true ≡ some (0x1b ∷ b'[' ∷ b'6' ∷ b'~' ∷ [])
unfolding named_key
page_down = refl

control_c : named_key (codes "Ctrl-C") false ≡ some (3 ∷ [])
unfolding named_key
control_c = refl

named_key-Modes_example :
    Modes (named_key (codes "Home") true) (named_key (codes "Home") false)
    × ((application : Bool)
        → named_key (map lower (codes "Home")) application ≡ named_key (codes "Home") application)
named_key-Modes_example = named_key-Modes (codes "Home")

-- A system with a terminal of 120 by 40, in which the session "old" answers.
abbrev system : Environment
system = record {
  shell = codes "/bin/sh";
  is_running = same_bytes (codes "old");
  term_cols = 120;
  term_rows = 40;
  has_exe = true;
  current_dir = codes "/w";
}

abbrev start_line : List (List ℕ)
start_line = codes "work" ∷ codes "--rows" ∷ codes "50" ∷ codes "--" ∷ codes "vim" ∷ codes "--" ∷ []
