-- ===== src/Attach/Session/Inputs.antt =====
-- The keys that `run` of keepty/src/attach.rs forwards for a Writer, against what is typed.
use keepty.Base.{
  ℕ, zero, suc, ◌+◌, ◌≡◌, refl, ap, sym, ◌∙◌, subst, Bool, true, false, not, ◌&&◌, ◌⊎◌, inl, inr,
  List, [], ◌∷◌, ◌++◌, map, Option, none, some, flatten, leb, if◌then◌else◌, if-cases, append-nil,
  append_assoc,
}
use mathlib.Core.Option.{some-ne-none}
use keepty.Wire.{Frame}
use keepty.Wire.Inputs.{inputs, inputs-append}
use keepty.Attach.{
  Debounce, on_tick, due, detaches, sends, on_stdin, scan, resize, input, resize_debounce_ms,
}
use keepty.Attach.Session.{
  Round, Loop, Flow, goes_on, leaves, Stdin, not_ready, would_block, ends, read_fails, types,
  winched, typed, on_read, on_due, loop_round, write_frames,
}

-- What is read in a round.
abbrev pub read_of : Round → List ℕ
read_of r = if r.select_fails then [] else elim r.stdin [ types bytes ↦ bytes | _ ↦ [] ]

abbrev pub reads_of : List Round → List (List ℕ)
reads_of rs = map read_of rs

-- Nothing but what is typed ends the loop in these rounds.
abbrev pub calm : Bool → Bool → Stdin → Bool
calm shutdown writes s =
    not shutdown && (writes && (elim s [ ends ↦ false | read_fails ↦ false | _ ↦ true ]))

abbrev pub is_none : Option ℕ → Bool
is_none none = true
is_none (some n) = false

abbrev pub all_calm : List Round → Bool
all_calm [] = true
all_calm (r ∷ rs) = calm r.shutdown (is_none r.writes_left) r.stdin && all_calm rs

-- The keys that have been forwarded.
abbrev pub forwarded : Loop → List ℕ
forwarded l = flatten (inputs l.sent)

abbrev pub BeginsWith : List ℕ → List ℕ → Type 0
BeginsWith xs ys = (rest : List ℕ) × (xs ≡ ys ++ rest)

-- One read, by the count of commas before it.
abbrev pub OneRead : List ℕ → Bool → ℕ → List Frame → Flow → Type 0
OneRead bytes calm c sent (goes_on l) =
    (forwarded l ≡ flatten (inputs sent) ++ bytes) × (scan c bytes ≡ some l.comma_count)
OneRead bytes calm c sent (leaves l) =
    (forwarded l ≡ flatten (inputs sent)) × ((scan c bytes ≡ none) ⊎ (calm ≡ false))

flatten-one : (xss : List (List ℕ)) (xs : List ℕ) → flatten (xss ++ xs ∷ []) ≡ flatten xss ++ xs
flatten-one [] xs = append-nil xs
flatten-one (ys ∷ xss) xs =
    ap (λ zs. ys ++ zs) (flatten-one xss xs) ∙ sym (append_assoc ys (flatten xss) xs)

forwards_input :
    (sent : List Frame) (bytes : List ℕ)
    → flatten (inputs (sent ++ input bytes ∷ [])) ≡ flatten (inputs sent) ++ bytes
forwards_input sent bytes =
    ap flatten (inputs-append sent (input bytes)) ∙ flatten-one (inputs sent) bytes

forwards_resize :
    (sent : List Frame) (cols rows : ℕ)
    → flatten (inputs (sent ++ resize cols rows ∷ [])) ≡ flatten (inputs sent)
forwards_resize sent cols rows =
    ap flatten (inputs-append sent (resize cols rows) ∙ append-nil (inputs sent))

-- The write that may fail.
abbrev Writes : Option ℕ → Bool → Type 0
Writes left writes = (left ≡ none) ⊎ (writes ≡ false)

typed-OneRead :
    (l : Loop) (bytes : List ℕ) (writes : Bool) (o left : Option ℕ)
    → Writes left writes
    → scan l.comma_count bytes ≡ o
    → OneRead bytes writes l.comma_count l.sent
        (typed (elim o [ none ↦ detaches | some k ↦ sends (input bytes ∷ []) k ]) left l)
unfolding write_frames
typed-OneRead l bytes writes none left w e = (refl, inl e)
typed-OneRead l bytes writes (some k) none w e = (forwards_input l.sent bytes, e)
typed-OneRead l bytes writes (some k) (some (suc n)) w e = (forwards_input l.sent bytes, e)
typed-OneRead l bytes writes (some k) (some zero) (inl x) e = absurd (some-ne-none zero x)
typed-OneRead l bytes writes (some k) (some zero) (inr x) e =
    (ap (λ fs. flatten (inputs fs)) (append-nil l.sent), inr x)

on_read-OneRead :
    (r : Round) (writes : Bool) (left : Option ℕ) (l : Loop)
    → Writes left writes
    → OneRead
        (elim r.stdin [ types bytes ↦ bytes | _ ↦ [] ])
        (calm false writes r.stdin)
        l.comma_count
        l.sent
        (on_read false r left l)
unfolding on_stdin scan
on_read-OneRead r writes left l w = by_stdin r.stdin
  where
    same : OneRead [] true l.comma_count l.sent (goes_on l)
    same = (sym (append-nil (forwarded l)), refl)

    off : (b : Bool) → (b && false) ≡ false
    off true = refl
    off false = refl

    by_stdin :
        (s : Stdin)
        → OneRead
            (elim s as (λ x. List ℕ) [ types bytes ↦ bytes | _ ↦ [] ])
            (calm false writes s)
            l.comma_count
            l.sent
            (elim s [
              | not_ready ↦ goes_on l
              | would_block ↦ goes_on l
              | ends ↦ leaves l
              | read_fails ↦ leaves l
              | types bytes ↦ typed (on_stdin false r.size l.comma_count bytes) left l
            ])
    by_stdin not_ready = same
    by_stdin would_block = same
    by_stdin ends = (refl, inr (off writes))
    by_stdin read_fails = (refl, inr (off writes))
    by_stdin (types bytes) =
        subst
          (λ b.
            OneRead bytes b l.comma_count l.sent
              (typed (on_stdin false r.size l.comma_count bytes) left l))
          (on writes) (typed-OneRead l bytes writes (scan l.comma_count bytes) left w refl)
      where
        on : (b : Bool) → b ≡ (b && true)
        on true = refl
        on false = refl

-- A Resize that is sent changes nothing of it.
due_moves :
    (bytes : List ℕ) (b : Bool) (c : ℕ) (sent : List Frame) (cols rows : ℕ) (flow : Flow)
    → OneRead bytes b c (sent ++ resize cols rows ∷ []) flow
    → OneRead bytes b c sent flow
due_moves bytes b c sent cols rows (goes_on l) (same, scanned) =
    (same ∙ ap (λ xs. xs ++ bytes) (forwards_resize sent cols rows), scanned)
due_moves bytes b c sent cols rows (leaves l) (same, cause) =
    (same ∙ forwards_resize sent cols rows, cause)

on_due-OneRead :
    (r : Round) (l : Loop) (d : Debounce)
    → OneRead
        (elim r.stdin [ types bytes ↦ bytes | _ ↦ [] ])
        (calm false (is_none r.writes_left) r.stdin)
        l.comma_count
        l.sent
        (on_due false r (due r.checked_at d.waiting d) l)
unfolding due write_frames
on_due-OneRead r l d = by_waiting d.waiting
  where
    by_writes :
        (cols rows : ℕ) (left : Option ℕ)
        → OneRead
            (elim r.stdin [ types bytes ↦ bytes | _ ↦ [] ])
            (calm false (is_none left) r.stdin)
            l.comma_count
            l.sent
            (let (sent, all, left') = write_frames left (resize cols rows ∷ []) in
              if all
              then on_read false r left'
                  (record l { debounce = record d { waiting = none }; sent = l.sent ++ sent })
              else leaves l)
    by_writes cols rows none =
        due_moves _ _ _ l.sent cols rows _ (on_read-OneRead r true none _ (inl refl))
    by_writes cols rows (some zero) = (refl, inr refl)
    by_writes cols rows (some (suc n)) =
        due_moves _ _ _ l.sent cols rows _ (on_read-OneRead r false (some n) _ (inr refl))

    unsent :
        (left : Option ℕ)
        → OneRead
            (elim r.stdin [ types bytes ↦ bytes | _ ↦ [] ])
            (calm false (is_none left) r.stdin)
            l.comma_count
            l.sent
            (on_read false r left l)
    unsent none = on_read-OneRead r true none l (inl refl)
    unsent (some n) = on_read-OneRead r false (some n) l (inr refl)

    by_waiting :
        (w : Option (ℕ × ℕ × ℕ))
        → OneRead
            (elim r.stdin [ types bytes ↦ bytes | _ ↦ [] ])
            (calm false (is_none r.writes_left) r.stdin)
            l.comma_count
            l.sent
            (on_due false r (due r.checked_at w d) l)
    by_waiting none = unsent r.writes_left
    by_waiting (some (started, cols, rows)) =
        if-cases
          (λ p.
            OneRead (elim r.stdin [ types bytes ↦ bytes | _ ↦ [] ])
              (calm false (is_none r.writes_left) r.stdin) l.comma_count l.sent
              (on_due false r p l))
          (leb (started + resize_debounce_ms) r.checked_at)
          (some (resize cols rows), record d { waiting = none }) (none, d)
          (λ _. by_writes cols rows r.writes_left) (λ _. unsent r.writes_left)

pub loop_round-OneRead :
    (r : Round) (l : Loop)
    → OneRead
        (read_of r)
        (calm r.shutdown (is_none r.writes_left) r.stdin)
        l.comma_count
        l.sent
        (loop_round false r l)
unfolding loop_round on_tick scan
loop_round-OneRead r l = by_flags r.shutdown r.select_fails
  where
    by_flags :
        (a b : Bool)
        → OneRead
            (if b then [] else elim r.stdin as (λ x. List ℕ) [ types bytes ↦ bytes | _ ↦ [] ])
            (calm a (is_none r.writes_left) r.stdin)
            l.comma_count
            l.sent
            (let d = winched false r.winch l.debounce in
              if a
              then leaves l
              else if b
              then goes_on l
              else on_due false r (on_tick r.checked_at d) (record l { debounce = d }))
    by_flags true b = (refl, inr refl)
    by_flags false true = (sym (append-nil (forwarded l)), refl)
    by_flags false false =
        on_due-OneRead r (record l { debounce = winched false r.winch l.debounce })
          (winched false r.winch l.debounce)
