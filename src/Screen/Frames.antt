-- ===== src/Screen/Frames.antt =====
-- `poll_with_raw` of keepty-screen/src/lib.rs against a description of it on whole frames.
pub mod Agree
use keepty.Base.{
  ℕ, zero, suc, ◌+◌, ◌≤◌, ◌<◌, ◌≡◌, refl, ap, ap₂, sym, ◌∙◌, subst, inl, inr, Bool, true, false,
  List, [], ◌∷◌, ◌++◌, Option, none, some, length, arith, if◌then◌else◌, if-no, All, append_assoc,
  append-nil, length-append, Bool-cases, Option-cases, if-cases,
}
use keepty.Base.Results.{Result, ok, err}
use keepty.Wire.{IoError, ErrorKind, Frame, MsgKind, encode}
use keepty.Wire.Codec.{IsSmall, length-encode}
use keepty.Wire.Messages.{decode_resize_ack}
use keepty.Screen.{
  Parser, ReadEvent, gives, interrupts, blocks, ends, expires, fails, error_of, Round, read_frame,
  delivered, ScreenReader, Handled, goes_on, gives_up, handle, reply, write, apply_resize_ack,
  Polled, poll_loop, poll, stopped, read_error, observe, counted, is_over,
}
use keepty.Screen.Incremental.{Live, Returned, read_frame-Returned, read_frame-part}

-- What a poll of whole frames comes to: its result, the reader, the frames that were not handled,
-- and the payloads that were observed, each with the parser behind it.
pub record Shown (S : Type 0) : Type 0 where
  pub result : Result IoError ℕ
  pub reader : ScreenReader S
  pub left : List Frame
  pub observed : List (S × List ℕ)

module _ {S : Type 0} (p : Parser S) where
  -- The frames one after another, until the session exits or a frame ends the poll with an error.
  unfoldable pub poll_frames : List Frame → ScreenReader S → ℕ → List (S × List ℕ) → Shown S
  poll_frames [] r n seen =
      if r.exited
      then record {
        result = err (error_of ErrorKind.connection_aborted);
        reader = r;
        left = [];
        observed = seen;
      }
      else record { result = ok n; reader = r; left = []; observed = seen }
  poll_frames (f ∷ fs) r n seen =
      if r.exited
      then record {
        result = err (error_of ErrorKind.connection_aborted);
        reader = r;
        left = f ∷ fs;
        observed = seen;
      }
      else elim (handle p f r) [
        | gives_up r' e ↦ record { result = err e; reader = r'; left = fs; observed = seen }
        | goes_on r' payload ↦
            poll_frames fs r' (counted payload n) (observe r'.parser payload seen)
      ]

-- The bytes of frames.
abbrev pub stream : List Frame → List ℕ
stream [] = []
stream (f ∷ fs) = encode f ++ stream fs

-- The beginning of a frame, without its last byte at least.
pub record IsPart (part : List ℕ) : Type 0 where
  pub frame : Frame
  pub missing : List ℕ
  pub small : IsSmall frame
  pub whole : part ++ missing ≡ encode frame
  pub unfinished : 1 ≤ length missing

abbrev pub with_buffer : {S : Type 0} → List ℕ → ScreenReader S → ScreenReader S
with_buffer buffer r = record r { read_buffer = buffer }

-- A poll came to what is described, and what it left, buffered or to be read, is the bytes of the
-- frames that were not handled and the part of the next one.
pub record Agrees {S : Type 0} (part : List ℕ) (o : Option (Polled S)) (s : Shown S) : Type 0 where
  pub polled : Polled S
  pub ended : o ≡ some polled
  pub result : polled.result ≡ s.result
  pub observed : polled.observed ≡ s.observed
  pub reader : polled.reader ≡ record s.reader { read_buffer = polled.reader.read_buffer }
  pub left : polled.reader.read_buffer ++ delivered polled.events ≡ stream s.left ++ part

pub delivered-append :
    (xs ys : List ReadEvent) → delivered (xs ++ ys) ≡ delivered xs ++ delivered ys
delivered-append [] ys = refl
delivered-append (gives bytes ∷ xs) ys =
    ap (λ t. bytes ++ t) (delivered-append xs ys)
    ∙ sym (append_assoc bytes (delivered xs) (delivered ys))
delivered-append (interrupts ∷ xs) ys = delivered-append xs ys
delivered-append (blocks ∷ xs) ys = delivered-append xs ys
delivered-append (ends ∷ xs) ys = delivered-append xs ys
delivered-append (expires ∷ xs) ys = delivered-append xs ys
delivered-append (fails e ∷ xs) ys = delivered-append xs ys

pub is_over-Live :
    (events : List ReadEvent) → All Live events → is_over (events ++ blocks ∷ []) ≡ false
is_over-Live [] live = refl
is_over-Live (gives bytes ∷ es) live = refl
is_over-Live (interrupts ∷ es) live = refl
is_over-Live (blocks ∷ es) live = elim live.0 [ ]
is_over-Live (ends ∷ es) live = elim live.0 [ ]
is_over-Live (expires ∷ es) live = elim live.0 [ ]
is_over-Live (fails x ∷ es) live = elim live.0 [ ]

abbrev pub rebuffer : {S : Type 0} → List ℕ → Handled S → Handled S
rebuffer buffer (goes_on r payload) = goes_on (with_buffer buffer r) payload
rebuffer buffer (gives_up r e) = gives_up (with_buffer buffer r) e

-- A handler neither reads nor changes what is buffered.
module _ {S : Type 0} (p : Parser S) where
  reply-rebuffer :
      (buffer : List ℕ) (f : Frame) (r : ScreenReader S)
      → reply (write f (with_buffer buffer r)) ≡ rebuffer buffer (reply (write f r))
  unfolding reply write
  reply-rebuffer buffer f r = elim (Option-cases r.broken) [
    | inl same ↦ rw same refl
    | inr (e, same) ↦ rw same refl
  ]

  resized-rebuffer :
      (buffer payload : List ℕ) (r : ScreenReader S)
      → apply_resize_ack p payload (with_buffer buffer r)
        ≡ rebuffer buffer (apply_resize_ack p payload r)
  unfolding apply_resize_ack
  resized-rebuffer buffer payload r = elim (Option-cases (decode_resize_ack payload)) [
    | inl same ↦ rw (apply_resize_ack, same) refl
    | inr (size, same) ↦ rw (apply_resize_ack, same) refl
  ]

  pub kind-rebuffer :
      (kind : MsgKind) (payload buffer : List ℕ) (r : ScreenReader S)
      → handle p (record { kind = kind; payload = payload }) (with_buffer buffer r)
        ≡ rebuffer buffer (handle p (record { kind = kind; payload = payload }) r)
  unfolding handle
  kind-rebuffer MsgKind.resize_ack payload buffer r = resized-rebuffer buffer payload r
  kind-rebuffer MsgKind.ping payload buffer r = reply-rebuffer buffer _ r
  kind-rebuffer _ payload buffer r = refl

  pub poll_loop-exited :
      (fuel n : ℕ) (seen : List (S × List ℕ)) (events : List ReadEvent) (r : ScreenReader S)
      → r.exited ≡ true
      → poll_loop (suc fuel) p events r n seen
        ≡ stopped (err (error_of ErrorKind.connection_aborted)) r events seen
  unfolding poll_loop
  poll_loop-exited fuel n seen events r gone = rw gone refl

  -- The end of a round of the loop, as the result of a handler and of a read tell it.
  abbrev pub after_handling :
      ℕ → ℕ → List (S × List ℕ) → List ReadEvent → Handled S → Option (Polled S)
  after_handling fuel n seen events (gives_up r e) = stopped (err e) r events seen
  after_handling fuel n seen events (goes_on r payload) =
      poll_loop fuel p events r (counted payload n) (observe r.parser payload seen)

  abbrev pub after_reading : ℕ → ℕ → List (S × List ℕ) → ScreenReader S → Round → Option (Polled S)
  after_reading fuel n seen r round =
      let r' = with_buffer round.buffer r in
      elim round.result [
        | err e ↦ stopped (err e) (read_error e r') round.events seen
        | ok none ↦ stopped (ok n) r' round.events seen
        | ok (some f) ↦ after_handling fuel n seen round.events (handle p f r')
      ]

  pub poll_loop-reads :
      (fuel n : ℕ) (seen : List (S × List ℕ)) (events : List ReadEvent) (r : ScreenReader S)
      → r.exited ≡ false
      → is_over events ≡ false
      → poll_loop (suc fuel) p events r n seen
        ≡ after_reading fuel n seen r (read_frame events r.read_buffer)
  unfolding poll_loop
  poll_loop-reads fuel n seen events r here early = if-no _ here ∙ if-no _ early

  pub poll_frames-exited :
      (n : ℕ) (seen : List (S × List ℕ)) (fs : List Frame) (r : ScreenReader S)
      → r.exited ≡ true
      → poll_frames p fs r n seen ≡ record {
        result = err (error_of ErrorKind.connection_aborted);
        reader = r;
        left = fs;
        observed = seen;
      }
  unfolding poll_frames
  poll_frames-exited n seen [] r gone = rw gone refl
  poll_frames-exited n seen (f ∷ fs) r gone = rw gone refl

  pub poll_frames-[] :
      (n : ℕ) (seen : List (S × List ℕ)) (r : ScreenReader S)
      → r.exited ≡ false
      → poll_frames p [] r n seen ≡ record { result = ok n; reader = r; left = []; observed = seen }
  unfolding poll_frames
  poll_frames-[] n seen r here = if-no _ here

  abbrev pub after_frame : ℕ → List (S × List ℕ) → List Frame → Handled S → Shown S
  after_frame n seen fs (gives_up r e) = record {
    result = err e;
    reader = r;
    left = fs;
    observed = seen;
  }
  after_frame n seen fs (goes_on r payload) =
      poll_frames p fs r (counted payload n) (observe r.parser payload seen)

  pub poll_frames-∷ :
      (n : ℕ) (seen : List (S × List ℕ)) (f : Frame) (fs : List Frame) (r : ScreenReader S)
      → r.exited ≡ false
      → poll_frames p (f ∷ fs) r n seen ≡ after_frame n seen fs (handle p f r)
  unfolding poll_frames
  poll_frames-∷ n seen f fs r here = if-no _ here
