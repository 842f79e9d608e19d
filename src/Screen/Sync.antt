-- ===== src/Screen/Sync.antt =====
-- `sync` of keepty-screen/src/lib.rs: the wait for the broker's Pong.
use keepty.Base.{
  ℕ, ◌≡◌, ◌≢◌, refl, sym, subst, inl, inr, true, List, [], ◌∷◌, Option, none, some, if◌then◌else◌,
  ◌==◌, Option-cases, if-cases, ==→eq, ==→ne,
}
use keepty.Base.Results.{Result, ok, err}
use keepty.Wire.{IoError, ErrorKind, Frame, MsgKind}
use keepty.Screen.{Parser, ReadEvent, error_of, ScreenReader, Returns, write, empty_frame, poll}
use keepty.Screen.Poll.{poll-Ends, Returning}

module _ {S : Type 0} where
  -- The loop of `sync`: what the reads of each of its polls answer; no more of them is the deadline.
  unfoldable pub sync_loop :
      Parser S → ℕ → List (List ReadEvent) → ScreenReader S → Option (Returns S Unit)
  sync_loop p before [] r = some (err (error_of ErrorKind.timed_out), r)
  sync_loop p before (events ∷ rounds) r = elim (poll p true events r) [
    | none ↦ none
    | some q ↦
        if q.reader.pongs == before
        then (elim q.result [
          | err e ↦ some (err e, q.reader)
          | ok n ↦ sync_loop p before rounds q.reader
        ])
        else some (ok tt, q.reader)
  ]

  -- `sync` behind its Ping
  abbrev pub after_ping :
      Parser S → ℕ → List (List ReadEvent) → Returns S Unit → Option (Returns S Unit)
  after_ping p before rounds (err e, r) = some (err e, r)
  after_ping p before rounds (ok u, r) = sync_loop p before rounds r

  -- `sync`
  unfoldable pub sync : Parser S → List (List ReadEvent) → ScreenReader S → Option (Returns S Unit)
  sync p rounds r = after_ping p r.pongs rounds (write (empty_frame MsgKind.ping) r)

-- What `sync` says of the Pongs counted: it is ok when they changed, and an error when not.
abbrev pub Told : {S : Type 0} → ℕ → Returns S Unit → Type 0
Told before (ok u, r) = r.pongs ≢ before
Told before (err e, r) = r.pongs ≡ before

module _ {S : Type 0} (p : Parser S) where
  unacknowledged_Told :
      (before : ℕ) (rounds : List (List ReadEvent)) (r : ScreenReader S) (res : Result IoError ℕ)
      → r.pongs ≡ before
      → Returning (Told before) (sync_loop p before rounds r)
      → Returning
          (Told before)
          (elim res [ err e ↦ some (err e, r) | ok n ↦ sync_loop p before rounds r ])
  unacknowledged_Told before rounds r (err e) same rest = (_, refl, same)
  unacknowledged_Told before rounds r (ok n) same rest = rest

  sync_loop-Told :
      (before : ℕ) (rounds : List (List ReadEvent)) (r : ScreenReader S)
      → r.pongs ≡ before
      → Returning (Told before) (sync_loop p before rounds r)
  unfolding sync_loop
  sync_loop-Told before [] r same = (_, refl, same)
  sync_loop-Told before (events ∷ rounds) r same =
      let (q, ended) = poll-Ends p true events r in
      subst
        (λ o. Returning (Told before) (elim o [
          | none ↦ none
          | some q ↦
              if q.reader.pongs == before
              then (elim q.result [
                | err e ↦ some (err e, q.reader)
                | ok n ↦ sync_loop p before rounds q.reader
              ])
              else some (ok tt, q.reader)
        ]))
        (sym ended)
        (if-cases (Returning (Told before)) (q.reader.pongs == before) _ _
          (λ unchanged.
            let still = ==→eq q.reader.pongs before unchanged in
            unacknowledged_Told before rounds q.reader q.result still
              (sync_loop-Told before rounds q.reader still))
          (λ changed. (_, refl, ==→ne q.reader.pongs before changed)))

  write_pongs : (f : Frame) (r : ScreenReader S) → (write f r).1.pongs ≡ r.pongs
  unfolding write
  write_pongs f r = elim (Option-cases r.broken) [
    | inl whole ↦ rw whole refl
    | inr (e, broken) ↦ rw broken refl
  ]

  after_ping-Told :
      (before : ℕ) (rounds : List (List ReadEvent)) (w : Returns S Unit)
      → w.1.pongs ≡ before
      → Returning (Told before) (after_ping p before rounds w)
  after_ping-Told before rounds (err e, r) same = (_, refl, same)
  after_ping-Told before rounds (ok u, r) same = sync_loop-Told before rounds r same

  pub sync-Told :
      (rounds : List (List ReadEvent)) (r : ScreenReader S)
      → Returning (Told r.pongs) (sync p rounds r)
  unfolding sync
  sync-Told rounds r =
      after_ping-Told r.pongs rounds (write (empty_frame MsgKind.ping) r)
        (write_pongs (empty_frame MsgKind.ping) r)
