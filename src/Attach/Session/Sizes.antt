-- ===== src/Attach/Session/Sizes.antt =====
-- The sizes that `run` of keepty/src/attach.rs sends for a Writer, against those of the terminal.
use keepty.Base.{
  ℕ, zero, suc, ◌+◌, ◌^◌, ◌<◌, ◌≡◌, refl, ap, ap₂, sym, ◌∙◌, subst, false, not, ◌||◌, List, [], ◌∷◌,
  ◌++◌, Option, none, some, arith, leb, ◌==◌, if◌then◌else◌, if-cases, append-nil, ==→eq,
}
use keepty.Wire.{Frame, MsgKind}
use keepty.Wire.Messages.{encode_resize, decode_resize, decode_resize-encode_resize}
use keepty.Attach.{
  on_winch, on_tick, due, detaches, sends, on_stdin, scan, pack_resize, resize, input,
  resize_debounce_ms,
}
use keepty.Attach.Session.{
  Round, Loop, Flow, goes_on, leaves, Stdin, not_ready, would_block, ends, read_fails, types, typed,
  on_read, on_due, write_frames,
}

-- The size that a frame tells, or the one before it.
abbrev pub told_by : ℕ × ℕ → Frame → ℕ × ℕ
told_by size f = elim f.kind [
  | MsgKind.resize ↦ elim (decode_resize f.payload) [ none ↦ size | some told ↦ told ]
  | _ ↦ size
]

-- The size that frames have told, behind the Hello's.
abbrev pub told : ℕ × ℕ → List Frame → ℕ × ℕ
told size [] = size
told size (f ∷ fs) = told (told_by size f) fs

-- The size of the terminal that was read last.
abbrev pub size_behind : ℕ × ℕ → Round → ℕ × ℕ
size_behind size r =
    if r.shutdown || r.select_fails
    then size
    else elim r.winch [ none ↦ size | some (now, cols, rows) ↦ (cols, rows) ]

abbrev pub last_size : ℕ × ℕ → List Round → ℕ × ℕ
last_size size [] = size
last_size size (r ∷ rs) = last_size (size_behind size r) rs

abbrev pub Fits : ℕ × ℕ → Type 0
Fits (cols, rows) = (cols < 2 ^ 16) × (rows < 2 ^ 16)

-- A terminal's sizes are 16-bit numbers.
abbrev pub HasSize : Round → Type 0
HasSize r = Fits (size_behind (0, 0) r)

-- The broker has been told `size`, or a Resize that tells it waits for the debounce.
abbrev pub Known : ℕ × ℕ → ℕ × ℕ → Option (ℕ × ℕ × ℕ) → List Frame → Type 0
Known first size none sent = told first sent ≡ size
Known first size (some (started, cols, rows)) sent = (cols, rows) ≡ size

pub record Current (first size : ℕ × ℕ) (l : Loop) : Type 0 where
  pub fits : Fits size
  pub dims : l.debounce.last_sent_dims ≡ pack_resize size.0 size.1
  pub known : Known first size l.debounce.waiting l.sent

abbrev pub OnFlow : (Loop → Type 0) → Flow → Type 0
OnFlow P (goes_on l) = P l
OnFlow P (leaves l) = Unit

told-append :
    (first : ℕ × ℕ) (fs : List Frame) (f : Frame)
    → told first (fs ++ f ∷ []) ≡ told_by (told first fs) f
told-append first [] f = refl
told-append first (g ∷ fs) f = told-append (told_by first g) fs f

pub told-resize :
    (first : ℕ × ℕ) (sent : List Frame) (cols rows : ℕ)
    → Fits (cols, rows)
    → told first (sent ++ resize cols rows ∷ []) ≡ (cols, rows)
told-resize first sent cols rows (hc, hr) =
    told-append first sent (resize cols rows)
    ∙ ap (λ (o : Option (ℕ × ℕ)). elim o as (λ x. ℕ × ℕ) [ none ↦ told first sent | some s ↦ s ])
        (ap decode_resize (sym (append-nil (encode_resize cols rows)))
          ∙ decode_resize-encode_resize [] cols rows hc hr)

pack_resize_injective :
    (c r c' r' : ℕ)
    → Fits (c, r)
    → Fits (c', r')
    → pack_resize c r ≡ pack_resize c' r'
    → ◌≡◌ {A = ℕ × ℕ} (c, r) (c', r')
unfolding pack_resize
pack_resize_injective c r c' r' (hc, hr) (hc', hr') e =
    ap₂ (λ x y. (x, y)) (omega arith) (omega arith)

pub winched-Current :
    (first size : ℕ × ℕ) (l : Loop) (now cols rows : ℕ)
    → Fits (cols, rows)
    → Current first size l
    → Current first (cols, rows) (record l { debounce = on_winch false now cols rows l.debounce })
unfolding on_winch
winched-Current first size l now cols rows fits v =
    if-cases (λ d. Current first (cols, rows) (record l { debounce = d }))
      (not (pack_resize cols rows == l.debounce.last_sent_dims) || false) _ l.debounce
      (λ _. record { fits = fits; dims = refl; known = refl })
      (λ e.
        let same =
          pack_resize_injective cols rows size.0 size.1 fits v.fits (
            ==→eq (pack_resize cols rows) l.debounce.last_sent_dims (ground (arith, e)) ∙ v.dims) in
        subst (λ s. Current first s l) (sym same) v)

-- Input tells no size.
input_tells :
    (first size : ℕ × ℕ) (w : Option (ℕ × ℕ × ℕ)) (sent : List Frame) (bytes : List ℕ)
    → Known first size w sent
    → Known first size w (sent ++ input bytes ∷ [])
input_tells first size none sent bytes e = told-append first sent (input bytes) ∙ e
input_tells first size (some w) sent bytes e = e

typed-Current :
    (first size : ℕ × ℕ) (l : Loop) (bytes : List ℕ) (c left : Option ℕ)
    → Current first size l
    → OnFlow
        (Current first size)
        (typed (elim c [ none ↦ detaches | some k ↦ sends (input bytes ∷ []) k ]) left l)
unfolding write_frames
typed-Current first size l bytes none left v = tt
typed-Current first size l bytes (some k) (some zero) v = tt
typed-Current first size l bytes (some k) none v = record {
  fits = v.fits;
  dims = v.dims;
  known = input_tells first size l.debounce.waiting l.sent bytes v.known;
}
typed-Current first size l bytes (some k) (some (suc n)) v = record {
  fits = v.fits;
  dims = v.dims;
  known = input_tells first size l.debounce.waiting l.sent bytes v.known;
}

on_read-Current :
    (first size : ℕ × ℕ) (r : Round) (left : Option ℕ) (l : Loop)
    → Current first size l
    → OnFlow (Current first size) (on_read false r left l)
unfolding on_stdin
on_read-Current first size r left l v = by_stdin r.stdin
  where
    by_stdin :
        (s : Stdin)
        → OnFlow (Current first size) (elim s [
          | not_ready ↦ goes_on l
          | would_block ↦ goes_on l
          | ends ↦ leaves l
          | read_fails ↦ leaves l
          | types bytes ↦ typed (on_stdin false r.size l.comma_count bytes) left l
        ])
    by_stdin not_ready = v
    by_stdin would_block = v
    by_stdin ends = tt
    by_stdin read_fails = tt
    by_stdin (types bytes) = typed-Current first size l bytes (scan l.comma_count bytes) left v

-- A Resize that is sent tells the size that waited.
resized-Current :
    (first size : ℕ × ℕ) (r : Round) (l : Loop) (started cols rows : ℕ)
    → l.debounce.waiting ≡ some (started, cols, rows)
    → Current first size l
    → OnFlow
        (Current first size)
        (on_due false r (some (resize cols rows), record l.debounce { waiting = none }) l)
unfolding write_frames
resized-Current first size r l started cols rows w v = by_writes r.writes_left
  where
    same : (cols, rows) ≡ size
    same = subst (λ x. Known first size x l.sent) w v.known

    sent_Current : Current first size (record l {
      debounce = record l.debounce { waiting = none };
      sent = l.sent ++ resize cols rows ∷ [];
    })
    sent_Current = record {
      fits = v.fits;
      dims = v.dims;
      known = told-resize first l.sent cols rows (subst Fits (sym same) v.fits) ∙ same;
    }

    by_writes :
        (left : Option ℕ)
        → OnFlow (Current first size) (
            let (sent, all, left') = write_frames left (resize cols rows ∷ []) in
            if all
            then on_read false r left' (record l {
              debounce = record l.debounce { waiting = none };
              sent = l.sent ++ sent;
            })
            else leaves l)
    by_writes none = on_read-Current first size r none _ sent_Current
    by_writes (some zero) = tt
    by_writes (some (suc n)) = on_read-Current first size r (some n) _ sent_Current

pub on_due-Current :
    (first size : ℕ × ℕ) (r : Round) (l : Loop)
    → Current first size l
    → OnFlow (Current first size) (on_due false r (on_tick r.checked_at l.debounce) l)
unfolding on_tick due
on_due-Current first size r l v = by_waiting l.debounce.waiting refl
  where
    by_waiting :
        (w : Option (ℕ × ℕ × ℕ))
        → l.debounce.waiting ≡ w
        → OnFlow (Current first size) (on_due false r (due r.checked_at w l.debounce) l)
    by_waiting none e = on_read-Current first size r r.writes_left l v
    by_waiting (some (started, cols, rows)) e =
        if-cases (λ p. OnFlow (Current first size) (on_due false r p l))
          (leb (started + resize_debounce_ms) r.checked_at)
          (some (resize cols rows), record l.debounce { waiting = none }) (none, l.debounce)
          (λ _. resized-Current first size r l started cols rows e v)
          (λ _. on_read-Current first size r r.writes_left l v)
