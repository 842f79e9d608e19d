-- ===== src/Cli/Painted.antt =====
-- `PaintedCells` of keepty/src/main.rs, which finds text that was painted on the screen since it was armed.
-- Texts are their bytes in UTF-8.
pub mod Runs
pub mod Found
mod Tests
use keepty.Base.{
  ℕ, zero, suc, ◌+◌, Bool, true, false, not, ◌&&◌, ◌||◌, List, [], ◌∷◌, ◌++◌, Option, none, some,
  ◌==◌, if◌then◌else◌,
}
use keepty.Base.Text.{codes, same_bytes, starts_with, to_string}
use keepty.Broker.Args.{Text, is_empty}

-- A cell of a screen: its contents, and whether it is the second half of a wide character.
pub record Cell : Type 0 where
  pub contents : Text
  pub is_wide_continuation : Bool

-- What is used of the vt100 crate: `P` is its parser and `S` its screen. Sizes are rows and columns.
pub record Vt (P S : Type 0) : Type 0 where
  pub new_parser : ℕ → ℕ → P
  pub screen : P → S
  pub set_screen : S → P → P
  pub process : List ℕ → P → P
  pub size : S → ℕ × ℕ
  pub cell : S → ℕ → ℕ → Option Cell
  pub alternate_screen : S → Bool

pub record PaintedCells (P : Type 0) : Type 0 where
  pub shadow : P
  pub escape : Bool

-- U+E000
abbrev pub sentinel : Text
sentinel = 0xee ∷ 0x80 ∷ 0x80 ∷ []

-- `str::contains`
unfoldable pub contains : Text → Text → Bool
contains needle [] = starts_with needle []
contains needle (b ∷ text) = starts_with needle (b ∷ text) || contains needle text

-- `text` as often as told.
abbrev pub repeat : ℕ → Text → Text
repeat zero text = []
repeat (suc n) text = text ++ repeat n text

-- Whether the byte before was ESC, and whether ESC 8 has been seen.
unfoldable pub escapes : List ℕ → Bool → Bool → Bool × Bool
escapes [] escape restored = (escape, restored)
escapes (b ∷ bytes) escape restored =
    escapes bytes (b == 0x1b) (restored || (escape && (b == b'8')))

abbrev pub is_blank : Cell → Bool
is_blank c =
    not c.is_wide_continuation && (is_empty c.contents || same_bytes c.contents (codes " "))

-- What a cell adds to the run.
abbrev pub shown : Cell → Text
shown c = if is_empty c.contents && not c.is_wide_continuation then codes " " else c.contents

-- Whether the shadow's cell and the live one differ.
abbrev pub differ : Cell → Cell → Bool
differ a b =
    not (same_bytes a.contents b.contents)
    || (if a.is_wide_continuation then not b.is_wide_continuation else b.is_wide_continuation)

-- The run and the gap behind a cell, and whether the run has grown.
unfoldable pub scan_cell : Cell → Cell → Text → ℕ → Text × ℕ × Bool
scan_cell cell live run gap =
    if contains sentinel cell.contents
    then (if not (is_empty run) && is_blank live then (run, gap + 1, false) else ([], 0, false))
    else if differ cell live
    then ([], 0, false)
    else (run ++ repeat gap (codes " ") ++ shown cell, 0, true)

module _ {P S : Type 0} (v : Vt P S) where
  -- The loop of `new` over the rows: `n` of them, from `row`.
  unfoldable pub fill : ℕ → ℕ → ℕ → P → P
  fill zero row cols p = p
  fill (suc n) row cols p = fill n (row + 1) cols (
      v.process ((0x1b ∷ codes "[") ++ to_string (row + 1) ++ codes ";1H" ++ repeat cols sentinel)
        p)

  -- `new`
  unfoldable pub arm : S → PaintedCells P
  unfolding fill
  arm screen =
      let (rows, cols) = v.size screen in
      let parser = v.set_screen screen (v.new_parser rows cols) in
      let saved = v.process (0x1b ∷ b'7' ∷ 0x1b ∷ codes "[?6l") parser in
      record { shadow = v.process (0x1b ∷ b'8' ∷ []) (fill rows 0 cols saved); escape = false }

  -- The loop over the columns: `n` of them, from `col`; `none` is the panic of `unwrap` on a cell that
  -- is not there.
  unfoldable pub scan_row : S → S → Text → ℕ → ℕ → ℕ → Text → ℕ → Option Bool
  unfolding scan_cell
  scan_row shadow live needle row zero col run gap = some false
  scan_row shadow live needle row (suc n) col run gap = elim (v.cell shadow row col) [
    | none ↦ none
    | some cell ↦ elim (v.cell live row col) [
      | none ↦ none
      | some live_cell ↦
          let (run', gap', grown) = scan_cell cell live_cell run gap in
          let rest = scan_row shadow live needle row n (col + 1) run' gap' in
          if grown && contains needle run' then some true else rest
    ]
  ]

  -- The loop over the rows.
  unfoldable pub scan_rows : S → S → Text → ℕ → ℕ → ℕ → Option Bool
  unfolding scan_row
  scan_rows shadow live needle cols zero row = some false
  scan_rows shadow live needle cols (suc n) row =
      elim (scan_row shadow live needle row cols 0 [] 0) [
        | none ↦ none
        | some true ↦ some true
        | some false ↦ scan_rows shadow live needle cols n (row + 1)
      ]

  abbrev pub same_size : S → S → Bool
  same_size a b =
      let (rows, cols) = v.size a in let (rows', cols') = v.size b in rows == rows' && cols == cols'

  abbrev pub same_alternate : S → S → Bool
  same_alternate a b =
      if v.alternate_screen a then v.alternate_screen b else not (v.alternate_screen b)

  -- `feed`: whether the needle was found, and the cells behind it.
  unfoldable pub feed_painted : PaintedCells P → List ℕ → S → Text → Option Bool × PaintedCells P
  unfolding arm escapes scan_rows
  feed_painted self bytes live needle =
      let (escape, restored) = escapes bytes self.escape false in
      let shadow = v.process bytes self.shadow in
      let (rows, cols) = v.size live in
      if not (same_size (v.screen self.shadow) live)
      then (some false, arm live)
      else if restored || not (same_alternate (v.screen self.shadow) live)
      then (some false, arm live)
      else (
        scan_rows (v.screen shadow) live needle cols rows 0,
        record { shadow = shadow; escape = escape },
      )
