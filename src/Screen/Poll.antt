-- ===== src/Screen/Poll.antt =====
-- `poll_with_raw` of keepty-screen/src/lib.rs always returns.
use keepty.Base.{
  ℕ, zero, suc, ◌≤◌, ◌<◌, ◌≡◌, refl, ap, inl, inr, Bool, true, false, List, [], ◌++◌, Option, none,
  some, length, arith, if-cases, if-satisfies, Option-cases,
}
use keepty.Base.Results.{Result, ok, err}
use keepty.Wire.{IoError, Frame, MsgKind}
use keepty.Wire.Messages.{decode_resize_ack}
use keepty.Screen.{
  is_aborted, Parser, ReadEvent, read_frame, delivered, ScreenReader, Handled, goes_on, gives_up,
  handle, reply, write, apply_resize_ack, Polled, poll_loop, poll, stopped, read_error, observe,
  counted, is_over,
}
use keepty.Screen.Progress.{Shrinks, read_frame-Shrinks}

-- Whether the handler goes on with the buffer it was given.
abbrev Keeps : {S : Type 0} → List ℕ → Handled S → Type 0
Keeps buffer (goes_on r payload) = r.read_buffer ≡ buffer
Keeps buffer (gives_up r e) = r.read_buffer ≡ buffer

-- An outcome that is there, and of which `P` holds.
abbrev pub Returning : {A : Type 0} → (A → Type 0) → Option A → Type 0
Returning P o = (a : _) × (o ≡ some a) × P a

-- A property of the reader behind a frame.
abbrev pub Handles : {S : Type 0} → (ScreenReader S → Type 0) → Handled S → Type 0
Handles P (goes_on r payload) = P r
Handles P (gives_up r e) = P r

-- A property of the reader that every part of the loop keeps.
pub record Closed {S : Type 0} (p : Parser S) (P : ScreenReader S → Type 0) : Type 0 where
  pub buffered :
      (r : ScreenReader S) (buffer : List ℕ) → P r → P (record r { read_buffer = buffer })
  pub left : (r : ScreenReader S) → P r → P (record r { exited = true })
  pub handled : (f : Frame) (r : ScreenReader S) → P r → Handles P (handle p f r)

module _ {S : Type 0} (p : Parser S) where
  reply-Keeps : (r : ScreenReader S) (f : Frame) → Keeps r.read_buffer (reply (write f r))
  unfolding reply write
  reply-Keeps r f = elim (Option-cases r.broken) [
    | inl same ↦ rw same refl
    | inr (e, same) ↦ rw same refl
  ]

  resized-Keeps :
      (r : ScreenReader S) (payload : List ℕ) → Keeps r.read_buffer (apply_resize_ack p payload r)
  unfolding apply_resize_ack
  resized-Keeps r payload = elim (Option-cases (decode_resize_ack payload)) [
    | inl same ↦ rw (same, Keeps) refl
    | inr (size, same) ↦ rw (same, Keeps) refl
  ]

  kind_Keeps :
      (kind : MsgKind) (payload : List ℕ) (r : ScreenReader S)
      → Keeps r.read_buffer (handle p (record { kind = kind; payload = payload }) r)
  unfolding handle
  kind_Keeps MsgKind.resize_ack payload r = resized-Keeps r payload
  kind_Keeps MsgKind.ping payload r = reply-Keeps r _
  kind_Keeps _ payload r = refl

module _ {S : Type 0} (p : Parser S) (P : ScreenReader S → Type 0) (c : Closed p P) where
  abbrev Ends : Option (Polled S) → Type 0
  Ends = Returning (λ (q : Polled S). P q.reader)

  handled-Ends :
      (fuel : ℕ) (events : List ReadEvent) (buffer : List ℕ) (count : ℕ) (seen : List (S × List ℕ))
      (h : Handled S)
      → Keeps buffer h
      → Handles P h
      → ((r : ScreenReader S) (n : ℕ) (seen : List (S × List ℕ))
          → r.read_buffer ≡ buffer
          → P r
          → Ends (poll_loop fuel p events r n seen))
      → Ends (elim h [
        | gives_up r'' e ↦ stopped (err e) r'' events seen
        | goes_on r'' payload ↦
            poll_loop fuel p events r'' (counted payload count) (observe r''.parser payload seen)
      ])
  handled-Ends fuel events buffer count seen (gives_up r e) keeps holds rest = (_, refl, holds)
  handled-Ends fuel events buffer count seen (goes_on r payload) keeps holds rest =
      rest r _ _ keeps holds

  round-Ends :
      (fuel : ℕ) (events : List ReadEvent) (r : ScreenReader S) (count n m : ℕ)
      (seen : List (S × List ℕ)) (res : Result IoError (Option Frame))
      → P r
      → Shrinks n res m
      → n ≤ fuel
      → m ≡ length (r.read_buffer ++ delivered events)
      → ((r : ScreenReader S) (n : ℕ) (seen : List (S × List ℕ))
          → length (r.read_buffer ++ delivered events) < fuel
          → P r
          → Ends (poll_loop fuel p events r n seen))
      → Ends (elim res [
        | err e ↦ stopped (err e) (read_error e r) events seen
        | ok none ↦ stopped (ok count) r events seen
        | ok (some f) ↦ elim (handle p f r) [
          | gives_up r'' e ↦ stopped (err e) r'' events seen
          | goes_on r'' payload ↦
              poll_loop fuel p events r'' (counted payload count) (observe r''.parser payload seen)
        ]
      ])
  round-Ends fuel events r count n m seen (err e) holds small enough same rest = (
    _,
    refl,
    if-satisfies P (is_aborted e.kind) (record r { exited = true }) r (c.left r holds) holds,
  )
  round-Ends fuel events r count n m seen (ok none) holds small enough same rest = (_, refl, holds)
  round-Ends fuel events r count n m seen (ok (some f)) holds small enough same rest =
      handled-Ends fuel events r.read_buffer count seen (handle p f r)
        (kind_Keeps p f.kind f.payload r) (c.handled f r holds)
        (λ r' k seen' keeps.
          rest r' k seen' (omega (arith, same, ap (λ xs. length (xs ++ delivered events)) keeps)))

  poll_loop-Ends :
      (fuel : ℕ) (events : List ReadEvent) (r : ScreenReader S) (count : ℕ)
      (seen : List (S × List ℕ))
      → length (r.read_buffer ++ delivered events) < fuel
      → P r
      → Ends (poll_loop fuel p events r count seen)
  unfolding poll_loop
  poll_loop-Ends zero events r count seen enough holds = absurd (omega arith)
  poll_loop-Ends (suc fuel) events r count seen enough holds =
      if-cases Ends r.exited _ _ (λ gone. (_, refl, holds))
        (λ here.
          if-cases Ends (is_over events) _ _ (λ over. (_, refl, holds))
            (λ early.
              let round = read_frame events r.read_buffer in
              round-Ends fuel round.events (record r { read_buffer = round.buffer }) count
                (length (r.read_buffer ++ delivered events)) _ seen round.result
                (c.buffered r round.buffer holds) (read_frame-Shrinks events r.read_buffer)
                (omega arith) refl
                (λ r' n seen' fewer. poll_loop-Ends fuel round.events r' n seen' fewer)))

  -- A poll returns, and the reader behind it has what every part of the loop keeps.
  pub poll-Returning :
      (has_time : Bool) (events : List ReadEvent) (r : ScreenReader S)
      → P r
      → Returning (λ (q : Polled S). P q.reader) (poll p has_time events r)
  unfolding poll
  poll-Returning true events r holds =
      poll_loop-Ends (suc (length (r.read_buffer ++ delivered events))) events r 0 [] (omega arith)
        holds
  poll-Returning false events r holds = (_, refl, holds)

Handles-Unit : {S : Type 0} (h : Handled S) → Handles (λ (r : ScreenReader S). Unit) h
Handles-Unit (goes_on r payload) = tt
Handles-Unit (gives_up r e) = tt

-- A poll returns, whatever the reads answer: with a round for each byte that is buffered or still
-- to be given, and one more, the loop has ended.
pub poll-Ends :
    {S : Type 0} (p : Parser S) (has_time : Bool) (events : List ReadEvent) (r : ScreenReader S)
    → (q : Polled S) × (poll p has_time events r ≡ some q)
poll-Ends p has_time events r =
    let (q, ended, _) = poll-Returning p (λ r. Unit) always has_time events r tt in (q, ended)
  where
    always : Closed p (λ r. Unit)
    always = record {
      buffered = λ r buffer h. tt;
      left = λ r h. tt;
      handled = λ f r h. Handles-Unit (handle p f r);
    }
