-- ===== src/Attach/Session/Settles.antt =====
-- The size of the attached terminal in keepty/src/attach.rs, followed to the broker by the main loop.
use keepty.Base.{
  ℕ, ◌+◌, ◌≤◌, ◌≡◌, refl, sym, ◌∙◌, subst, Bool, true, false, ◌||◌, List, [], ◌∷◌, Option, none,
  some, All, if◌then◌else◌, le→leb,
}
use keepty.Attach.{on_winch, on_tick, due, resize_debounce_ms}
use keepty.Attach.Session.{
  Round, Loop, Flow, goes_on, leaves, not_ready, winched, on_due, loop_round, main_loop, entered,
  write_frames,
}
use keepty.Attach.Session.Sizes.{
  told, size_behind, last_size, Fits, HasSize, Known, Current, OnFlow, told-resize, winched-Current,
  on_due-Current,
}

loop_round-Current :
    (first size : ℕ × ℕ) (r : Round) (l : Loop)
    → HasSize r
    → Current first size l
    → OnFlow (Current first (size_behind size r)) (loop_round false r l)
unfolding loop_round
loop_round-Current first size r l fits v = by_flags r.shutdown r.select_fails r.winch fits
  where
    by_flags :
        (a b : Bool) (w : Option (ℕ × ℕ × ℕ))
        → Fits (
            if a || b
            then (0, 0)
            else elim w as (λ x. ℕ × ℕ) [ none ↦ (0, 0) | some (now, cols, rows) ↦ (cols, rows) ])
        → OnFlow
            (Current first (
              if a || b
              then size
              else elim w as (λ x. ℕ × ℕ) [ none ↦ size | some (now, cols, rows) ↦ (cols, rows) ]))
            (if a
              then leaves l
              else if b
              then goes_on l
              else on_due false r
                  (on_tick r.checked_at (winched false w l.debounce))
                  (record l { debounce = winched false w l.debounce }))
    by_flags true b w h = tt
    by_flags false true w h = v
    by_flags false false none h = on_due-Current first size r l v
    by_flags false false (some (now, cols, rows)) h =
        on_due-Current first (cols, rows) r
          (record l { debounce = on_winch false now cols rows l.debounce })
          (winched-Current first size l now cols rows h v)

main_loop-Current :
    (first size : ℕ × ℕ) (rs : List Round) (l : Loop)
    → All HasSize rs
    → Current first size l
    → OnFlow (Current first (last_size size rs)) (main_loop false rs l)
unfolding main_loop
main_loop-Current first size [] l fits v = v
main_loop-Current first size (r ∷ rs) l fits v =
    by_flow (loop_round false r l) (loop_round-Current first size r l fits.0 v)
      (λ l'. main_loop-Current first (size_behind size r) rs l' fits.1)
  where
    by_flow :
        (flow : Flow)
        → OnFlow (Current first (size_behind size r)) flow
        → ((l' : Loop)
            → Current first (size_behind size r) l'
            → OnFlow (Current first (last_size (size_behind size r) rs)) (main_loop false rs l'))
        → OnFlow (Current first (last_size (size_behind size r) rs)) (elim flow as (λ x. Flow) [
          | leaves l' ↦ leaves l'
          | goes_on l' ↦ main_loop false rs l'
        ])
    by_flow (leaves l') h more = tt
    by_flow (goes_on l') h more = more l' h

-- A round in which the terminal has nothing new and no write fails.
abbrev pub quiet_round : ℕ → Round
quiet_round now = record {
  shutdown = false;
  select_fails = false;
  winch = none;
  checked_at = now;
  stdin = not_ready;
  size = (0, 0);
  writes_left = none;
}

abbrev pub IsDue : ℕ → Option (ℕ × ℕ × ℕ) → Type 0
IsDue now none = Unit
IsDue now (some (started, cols, rows)) = started + resize_debounce_ms ≤ now

-- The broker is told the size by the first quiet round behind the debounce.
abbrev pub Settles : ℕ × ℕ → ℕ × ℕ → Loop → Type 0
Settles first size l =
    (now : ℕ)
    → IsDue now l.debounce.waiting
    → (l' : Loop) × (loop_round false (quiet_round now) l ≡ goes_on l')
      × (told first l'.sent ≡ size)

Current-Settles : (first size : ℕ × ℕ) (l : Loop) → Current first size l → Settles first size l
unfolding loop_round on_tick due write_frames
Current-Settles first size l v now late = by_waiting l.debounce.waiting late v.known
  where
    by_waiting :
        (w : Option (ℕ × ℕ × ℕ))
        → IsDue now w
        → Known first size w l.sent
        → (l' : Loop) × (on_due false (quiet_round now) (due now w l.debounce) l ≡ goes_on l')
          × (told first l'.sent ≡ size)
    by_waiting none late known = (l, refl, known)
    by_waiting (some (started, cols, rows)) late same =
        rw (le→leb (started + resize_debounce_ms) now late)
          (_, refl, told-resize first l.sent cols rows (subst Fits (sym same) v.fits) ∙ same)

-- While a Writer stays attached, at every point of its main loop: the size of the terminal that was
-- read last has been told to the broker, by the Hello or the last Resize, or a Resize that tells it
-- waits for the debounce; and the first round that finds nothing new once 50 ms have passed, and
-- whose write succeeds, leaves the broker told of it. The terminal's sizes are 16-bit numbers.
pub main_loop-Settles :
    (cols rows : ℕ) (rs : List Round) (l : Loop)
    → Fits (cols, rows)
    → All HasSize rs
    → main_loop false rs (entered false cols rows) ≡ goes_on l
    → Known (cols, rows) (last_size (cols, rows) rs) l.debounce.waiting l.sent
      × Settles (cols, rows) (last_size (cols, rows) rs) l
main_loop-Settles cols rows rs l fits sizes e =
    let v : Current (cols, rows) (last_size (cols, rows) rs) l =
      subst (OnFlow (Current (cols, rows) (last_size (cols, rows) rs))) e (
        main_loop-Current (cols, rows) (cols, rows) rs (entered false cols rows) sizes
          (record { fits = fits; dims = refl; known = refl })) in
    (v.known, Current-Settles (cols, rows) (last_size (cols, rows) rs) l v)
