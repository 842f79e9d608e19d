-- ===== src/Cli/Painted/Tests.antt =====
-- Runs of the search in painted cells, and the theorem about it at a concrete input.
use keepty.Base.{
  ℕ, ◌≡◌, ◌<◌, refl, List, [], ◌∷◌, Option, some, none, true, false, ◌==◌, ◌-◌, if◌then◌else◌,
}
use keepty.Base.Text.{codes}
use keepty.Cli.Painted.{
  Cell, Vt, PaintedCells, sentinel, contains, escapes, scan_cell, scan_row, scan_rows, feed_painted,
}
use keepty.Cli.Painted.Runs.{Occurs}
use keepty.Cli.Painted.Found.{row_text, feed_painted-Occurs}

abbrev narrow : List ℕ → Cell
narrow text = record { contents = text; is_wide_continuation = false }

abbrev nth : List Cell → ℕ → Option Cell
nth [] n = none
nth (c ∷ cs) n = let rest = nth cs (n - 1) in if n == 0 then some c else rest

-- A terminal with one row of four cells, whose screen is those cells; processing replaces the first
-- cells by the bytes, one in each.
abbrev paint : List ℕ → List Cell → List Cell
paint [] cells = cells
paint (b ∷ bytes) [] = []
paint (b ∷ bytes) (c ∷ cells) = narrow (b ∷ []) ∷ paint bytes cells

abbrev one_row : Vt (List Cell) (List Cell)
one_row = record {
  new_parser = λ rows cols. [];
  screen = λ p. p;
  set_screen = λ s p. s;
  process = paint;
  size = λ s. (1, 4);
  cell = λ s row col. nth s col;
  alternate_screen = λ s. false;
}

-- Nothing painted yet.
abbrev armed : PaintedCells (List Cell)
armed = record {
  shadow = narrow sentinel ∷ narrow sentinel ∷ narrow sentinel ∷ narrow sentinel ∷ [];
  escape = false;
}

-- "ok" was painted before "go": only the text that has come since is found.
abbrev old : List Cell
old = narrow (codes "g") ∷ narrow (codes "o") ∷ narrow (codes "o") ∷ narrow (codes "k") ∷ []

finds : (feed_painted one_row armed (codes "go") old (codes "go")).0 ≡ some true
unfolding feed_painted scan_rows scan_row scan_cell contains escapes
finds = refl

misses : (feed_painted one_row armed (codes "go") old (codes "ok")).0 ≡ some false
unfolding feed_painted scan_rows scan_row scan_cell contains escapes
misses = refl

feed_painted-Occurs_example :
    (row : ℕ) × (row < 1) × Occurs (codes "go") (row_text one_row old row 4 0)
unfolding feed_painted scan_rows scan_row scan_cell contains escapes
feed_painted-Occurs_example = feed_painted-Occurs one_row armed (codes "go") old (codes "go") refl
