-- ===== src/Cli/Painted/Found.antt =====
-- `PaintedCells::feed` of keepty/src/main.rs reports only text that is on the live screen.
use keepty.Base.{
  ℕ, zero, suc, ◌+◌, ◌<◌, ◌≡◌, refl, ap, sym, ◌∙◌, subst, Bool, true, false, not, ◌&&◌, List, [],
  ◌++◌, Option, none, some, if◌then◌else◌, arith, append_assoc, if-cases,
}
use keepty.Broker.Args.{Text}
use keepty.Cli.Painted.{
  Cell, Vt, PaintedCells, contains, repeat, shown, scan_cell, arm, scan_row, scan_rows, same_size,
  feed_painted,
}
use keepty.Cli.Painted.Runs.{
  Occurs, contains-Occurs, Occurs-before, Occurs-behind, space, EndsWith, scan_cell-EndsWith,
}

module _ {P S : Type 0} (v : Vt P S) where
  abbrev pub shown_at : S → ℕ → ℕ → Text
  shown_at live row col = elim (v.cell live row col) [ none ↦ [] | some c ↦ shown c ]

  -- The text of `n` cells of a row, from `col`: what they show, an empty cell as a space.
  abbrev pub row_text : S → ℕ → ℕ → ℕ → Text
  row_text live row zero col = []
  row_text live row (suc n) col = shown_at live row col ++ row_text live row n (col + 1)

  cell_Occurs :
      (needle : Text) (live : Cell) (run rest : Text) (gap : ℕ) (next : Text × ℕ × Bool)
      → EndsWith live run gap next
      → Occurs needle ((next.0 ++ repeat next.1 space) ++ rest)
      → Occurs needle ((run ++ repeat gap space) ++ (shown live ++ rest))
  cell_Occurs needle live run rest gap next e found =
      subst (Occurs needle)
        (sym (append_assoc e.before (next.0 ++ repeat next.1 space) rest)
          ∙ ap (λ xs. xs ++ rest) (sym e.same)
          ∙ append_assoc (run ++ repeat gap space) (shown live) rest)
        (Occurs-before needle e.before ((next.0 ++ repeat next.1 space) ++ rest) found)

  grown_Occurs :
      (needle rest : Text) (next : Text × ℕ × Bool)
      → contains needle next.0 ≡ true
      → Occurs needle ((next.0 ++ repeat next.1 space) ++ rest)
  grown_Occurs needle rest next found =
      Occurs-behind needle (next.0 ++ repeat next.1 space) rest
        (Occurs-behind needle next.0 (repeat next.1 space) (contains-Occurs needle next.0 found))

  scan_row-Occurs :
      (shadow live : S) (needle : Text) (row n col : ℕ) (run : Text) (gap : ℕ)
      → scan_row v shadow live needle row n col run gap ≡ some true
      → Occurs needle ((run ++ repeat gap space) ++ row_text live row n col)
  unfolding scan_row
  scan_row-Occurs shadow live needle row zero col run gap e = absurd cc
  scan_row-Occurs shadow live needle row (suc n) col run gap e =
      with_cells (v.cell shadow row col) (v.cell live row col)
        (scan_row-Occurs shadow live needle row n (col + 1)) e
    where
      with_cells :
          (cell live_cell : Option Cell)
          → ((run : Text) (gap : ℕ)
              → scan_row v shadow live needle row n (col + 1) run gap ≡ some true
              → Occurs needle ((run ++ repeat gap space) ++ row_text live row n (col + 1)))
          → (elim cell as (λ x. Option Bool) [
            | none ↦ none
            | some c ↦ elim live_cell as (λ x. Option Bool) [
              | none ↦ none
              | some l ↦
                  let (run', gap', grown) = scan_cell c l run gap in
                  let rest = scan_row v shadow live needle row n (col + 1) run' gap' in
                  if grown && contains needle run' then some true else rest
            ]
          ])
            ≡ some true
          → Occurs needle (
              (run ++ repeat gap space)
              ++ ((elim live_cell as (λ x. Text) [ none ↦ [] | some c ↦ shown c ])
                  ++ row_text live row n (col + 1)))
      with_cells none live_cell more e = absurd cc
      with_cells (some c) none more e = absurd cc
      with_cells (some c) (some l) more e =
          let next = scan_cell c l run gap in
          let tail = row_text live row n (col + 1) in
          cell_Occurs needle l run tail gap next (scan_cell-EndsWith c l run gap) (
            if-cases (λ o. o ≡ some true → Occurs needle ((next.0 ++ repeat next.1 space) ++ tail))
              (next.2 && contains needle next.0) (some true)
              (scan_row v shadow live needle row n (col + 1) next.0 next.1)
              (λ found _. grown_Occurs needle tail next (ground (arith, found)))
              (λ _ e'. more next.0 next.1 e') e)

  scan_rows-Occurs :
      (shadow live : S) (needle : Text) (cols n row : ℕ)
      → scan_rows v shadow live needle cols n row ≡ some true
      → (k : ℕ) × (k < row + n) × Occurs needle (row_text live k cols 0)
  unfolding scan_rows
  scan_rows-Occurs shadow live needle cols zero row e = absurd cc
  scan_rows-Occurs shadow live needle cols (suc n) row e =
      by_row (scan_row v shadow live needle row cols 0 [] 0) refl
        (scan_rows-Occurs shadow live needle cols n (row + 1)) e
    where
      by_row :
          (o : Option Bool)
          → scan_row v shadow live needle row cols 0 [] 0 ≡ o
          → (scan_rows v shadow live needle cols n (row + 1) ≡ some true
              → (k : ℕ) × (k < row + 1 + n) × Occurs needle (row_text live k cols 0))
          → (elim o as (λ x. Option Bool) [
            | none ↦ none
            | some true ↦ some true
            | some false ↦ scan_rows v shadow live needle cols n (row + 1)
          ])
            ≡ some true
          → (k : ℕ) × (k < row + suc n) × Occurs needle (row_text live k cols 0)
      by_row none here more e = absurd cc
      by_row (some true) here more e =
          (row, omega arith, scan_row-Occurs shadow live needle row cols 0 [] 0 here)
      by_row (some false) here more e = let (k, below, found) = more e in (k, omega arith, found)

  -- Whenever text is reported as painted, it occurs in the text of one of the live screen's rows, whatever
  -- the shadow screen holds. A cell reads as its contents, or as a space if those are empty and it is
  -- not the second half of a wide character.
  pub feed_painted-Occurs :
      (self : PaintedCells P) (bytes : List ℕ) (live : S) (needle : Text)
      → (feed_painted v self bytes live needle).0 ≡ some true
      → let (rows, cols) = v.size live in
        (row : ℕ) × (row < rows) × Occurs needle (row_text live row cols 0)
  unfolding feed_painted
  feed_painted-Occurs self bytes live needle e =
      let (rows, cols) = v.size live in
      let shadow = v.process bytes self.shadow in
      let Sound = λ (r : Option Bool × PaintedCells P).
        r.0 ≡ some true → (row : ℕ) × (row < rows) × Occurs needle (row_text live row cols 0) in
      if-cases Sound (not (same_size v (v.screen self.shadow) live)) (some false, arm v live) _
        (λ _ no. absurd cc)
        (λ _.
          if-cases Sound _ (some false, arm v live) _ (λ _ no. absurd cc)
            (λ _ found.
              let (row, below, here) =
                scan_rows-Occurs (v.screen shadow) live needle cols rows 0 found in
              (row, omega arith, here)))
        e
