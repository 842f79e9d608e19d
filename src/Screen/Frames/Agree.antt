-- ===== src/Screen/Frames/Agree.antt =====
-- `poll_with_raw` of keepty-screen/src/lib.rs does what the frames it is given come to, round by round
-- of its loop.
use keepty.Base.{
  ℕ, zero, suc, ◌≤◌, ◌<◌, ◌≡◌, refl, ap, ap₂, sym, ◌∙◌, subst, inl, inr, true, false, List, [], ◌∷◌,
  ◌++◌, some, length, arith, All, append_assoc, append-nil, length-append, Bool-cases,
}
use keepty.Base.Results.{ok}
use keepty.Wire.{Frame, encode}
use keepty.Wire.Codec.{IsSmall, length-encode}
use keepty.Screen.{
  Parser, ReadEvent, blocks, Round, read_frame, delivered, ScreenReader, Handled, goes_on, gives_up,
  handle, poll_loop, poll,
}
use keepty.Screen.Incremental.{Live, Returned, read_frame-Returned, read_frame-part}
use keepty.Screen.Frames.{
  poll_frames, stream, IsPart, Agrees, with_buffer, rebuffer, after_handling, after_reading,
  after_frame, delivered-append, is_over-Live, kind-rebuffer, poll_loop-exited, poll_loop-reads,
  poll_frames-exited, poll_frames-[], poll_frames-∷,
}

module _ {S : Type 0} (p : Parser S) where
  exited-Agrees :
      (fuel n : ℕ) (seen : List (S × List ℕ)) (events : List ReadEvent) (fs : List Frame)
      (buffer part : List ℕ) (s : ScreenReader S)
      → s.exited ≡ true
      → buffer ++ delivered events ≡ stream fs ++ part
      → Agrees part
          (poll_loop (suc fuel) p events (with_buffer buffer s) n seen)
          (poll_frames p fs s n seen)
  exited-Agrees fuel n seen events fs buffer part s gone same = record {
    polled = _;
    ended = poll_loop-exited p fuel n seen events (with_buffer buffer s) gone;
    result = ap (λ q. q.result) (sym (poll_frames-exited p n seen fs s gone));
    observed = ap (λ q. q.observed) (sym (poll_frames-exited p n seen fs s gone));
    reader = ap (λ q. with_buffer buffer q.reader) (sym (poll_frames-exited p n seen fs s gone));
    left = same ∙ ap (λ q. stream q.left ++ part) (sym (poll_frames-exited p n seen fs s gone));
  }

  handled-Agrees :
      (fuel n : ℕ) (seen : List (S × List ℕ)) (events : List ReadEvent) (fs : List Frame)
      (buffer part : List ℕ) (h : Handled S)
      → buffer ++ delivered events ≡ stream fs ++ part
      → ((s : ScreenReader S) (n : ℕ) (seen : List (S × List ℕ))
          → Agrees part
              (poll_loop fuel p events (with_buffer buffer s) n seen)
              (poll_frames p fs s n seen))
      → Agrees part
          (after_handling p fuel n seen events (rebuffer buffer h))
          (after_frame p n seen fs h)
  handled-Agrees fuel n seen events fs buffer part (gives_up r e) same rest = record {
    polled = _;
    ended = refl;
    result = refl;
    observed = refl;
    reader = refl;
    left = same;
  }
  handled-Agrees fuel n seen events fs buffer part (goes_on r payload) same rest = rest r _ _

  reading-Agrees :
      (fuel n : ℕ) (seen : List (S × List ℕ)) (f : Frame) (fs : List Frame) (part : List ℕ)
      (s : ScreenReader S) (round : Round)
      → (ret : Returned f (stream fs ++ part) (blocks ∷ []) round)
      → ((s : ScreenReader S) (n : ℕ) (seen : List (S × List ℕ))
          → Agrees part
              (poll_loop fuel p (ret.left ++ blocks ∷ []) (with_buffer round.buffer s) n seen)
              (poll_frames p fs s n seen))
      → Agrees part (after_reading p fuel n seen s round) (after_frame p n seen fs (handle p f s))
  reading-Agrees fuel n seen f fs part s round ret rest =
      let shape : record {
        result = ok (some f);
        buffer = round.buffer;
        events = ret.left ++ blocks ∷ [];
      }
          ≡ round =
        ap₂ (λ x y. record { result = x; buffer = round.buffer; events = y }) (sym ret.result)
          (sym ret.events) in
      subst
        (λ q.
          Agrees part (after_reading p fuel n seen s q) (after_frame p n seen fs (handle p f s)))
        shape
        (subst
          (λ h.
            Agrees part (after_handling p fuel n seen (ret.left ++ blocks ∷ []) h)
              (after_frame p n seen fs (handle p f s)))
          (sym (kind-rebuffer p f.kind f.payload round.buffer s))
          (handled-Agrees fuel n seen (ret.left ++ blocks ∷ []) fs round.buffer part (handle p f s)
            (ap (λ xs. round.buffer ++ xs)
                (delivered-append ret.left (blocks ∷ []) ∙ append-nil (delivered ret.left))
              ∙ ret.behind)
            rest))

  waiting-Agrees :
      (fuel n : ℕ) (seen : List (S × List ℕ)) (events : List ReadEvent) (buffer part : List ℕ)
      (s : ScreenReader S)
      → All Live events
      → IsPart part
      → buffer ++ delivered events ≡ part
      → s.exited ≡ false
      → Agrees part
          (poll_loop (suc fuel) p (events ++ blocks ∷ []) (with_buffer buffer s) n seen)
          (poll_frames p [] s n seen)
  waiting-Agrees fuel n seen events buffer part s live partial same here =
      let waits =
        read_frame-part events buffer partial.frame partial.missing live partial.small
          (ap (λ xs. xs ++ partial.missing) same ∙ partial.whole) partial.unfinished in
      let spec = sym (poll_frames-[] p n seen s here) in
      record {
        polled = _;
        ended =
            poll_loop-reads p fuel n seen (events ++ blocks ∷ []) (with_buffer buffer s) here
              (is_over-Live events live)
            ∙ ap (after_reading p fuel n seen (with_buffer buffer s)) waits;
        result = ap (λ q. q.result) spec;
        observed = ap (λ q. q.observed) spec;
        reader = ap (λ q. with_buffer (buffer ++ delivered events) q.reader) spec;
        left =
            append-nil (buffer ++ delivered events) ∙ same ∙ ap (λ q. stream q.left ++ part) spec;
      }

  -- What `poll_loop` does with the fuel given, on the part of a frame that follows.
  abbrev AgreeOn : ℕ → List ℕ → Type 0
  AgreeOn fuel part =
      (n : ℕ) (seen : List (S × List ℕ)) (events : List ReadEvent) (fs : List Frame)
      (buffer : List ℕ) (s : ScreenReader S)
      → All Live events
      → All IsSmall fs
      → buffer ++ delivered events ≡ stream fs ++ part
      → length fs < fuel
      → Agrees part (poll_loop fuel p (events ++ blocks ∷ []) (with_buffer buffer s) n seen)
          (poll_frames p fs s n seen)

  taking-Agrees :
      (fuel n : ℕ) (seen : List (S × List ℕ)) (events : List ReadEvent) (f : Frame)
      (fs : List Frame) (buffer part : List ℕ) (s : ScreenReader S)
      → AgreeOn fuel part
      → All Live events
      → All IsSmall (f ∷ fs)
      → buffer ++ delivered events ≡ stream (f ∷ fs) ++ part
      → length fs < fuel
      → s.exited ≡ false
      → Agrees part
          (poll_loop (suc fuel) p (events ++ blocks ∷ []) (with_buffer buffer s) n seen)
          (poll_frames p (f ∷ fs) s n seen)
  taking-Agrees fuel n seen events f fs buffer part s again live small same enough here =
      let round = read_frame (events ++ blocks ∷ []) buffer in
      let ret =
        read_frame-Returned events (blocks ∷ []) buffer f (stream fs ++ part) live small.0
          (same ∙ append_assoc (encode f) (stream fs) part) in
      subst (λ o. Agrees part o (poll_frames p (f ∷ fs) s n seen))
        (sym (
          poll_loop-reads p fuel n seen (events ++ blocks ∷ []) (with_buffer buffer s) here
            (is_over-Live events live)))
        (subst (λ q. Agrees part (after_reading p fuel n seen (with_buffer buffer s) round) q)
          (sym (poll_frames-∷ p n seen f fs s here))
          (reading-Agrees fuel n seen f fs part s round ret (λ s' n' seen'.
            again n' seen' ret.left fs round.buffer s' ret.live small.1 ret.behind enough)))

  poll_loop-Agrees : (fuel : ℕ) (part : List ℕ) → IsPart part → AgreeOn fuel part
  poll_loop-Agrees zero part partial n seen events fs buffer s live small same enough =
      absurd (omega arith)
  poll_loop-Agrees (suc fuel) part partial n seen events fs buffer s live small same enough =
      elim (Bool-cases s.exited) [
        | inl gone ↦ exited-Agrees fuel n seen (events ++ blocks ∷ []) fs buffer part s gone (
            ap (λ xs. buffer ++ xs)
              (delivered-append events (blocks ∷ []) ∙ append-nil (delivered events))
            ∙ same)
        | inr here ↦ reads fs small same enough here (poll_loop-Agrees fuel part partial)
      ]
    where
      reads :
          (fs : List Frame)
          → All IsSmall fs
          → buffer ++ delivered events ≡ stream fs ++ part
          → length fs < suc fuel
          → s.exited ≡ false
          → AgreeOn fuel part
          → Agrees part
              (poll_loop (suc fuel) p (events ++ blocks ∷ []) (with_buffer buffer s) n seen)
              (poll_frames p fs s n seen)
      reads [] small same enough here again =
          waiting-Agrees fuel n seen events buffer part s live partial same here
      reads (f ∷ fs) small same enough here again =
          taking-Agrees fuel n seen events f fs buffer part s again live small same (omega arith)
            here

  length-stream : (fs : List Frame) → length fs ≤ length (stream fs)
  length-stream [] = omega arith
  length-stream (f ∷ fs) =
      omega (arith, length-stream fs, length-append (encode f) (stream fs), length-encode f)

  -- A poll of a reader that, with what its buffer holds, is given the bytes of whole frames and of a
  -- part of the next one before no more come, returns. However these bytes are cut into the buffer and
  -- reads, and wherever a read is interrupted, its result, the payloads observed and the screens behind them, what was sent and
  -- the reader's state are those of the frames handled one after another until the session exits or
  -- a frame is an error; and the frames behind that one and the part are still there, byte for byte.
  -- Each frame's payload is within the limit.
  pub poll-Agrees :
      (events : List ReadEvent) (fs : List Frame) (part : List ℕ) (r : ScreenReader S)
      → All Live events
      → All IsSmall fs
      → IsPart part
      → r.read_buffer ++ delivered events ≡ stream fs ++ part
      → Agrees part (poll p true (events ++ blocks ∷ []) r) (poll_frames p fs r 0 [])
  unfolding poll
  poll-Agrees events fs part r live small partial same =
      poll_loop-Agrees (suc (length (r.read_buffer ++ delivered (events ++ blocks ∷ [])))) part
        partial 0 [] events fs r.read_buffer r live small same
        (omega (
          arith,
          length-stream fs,
          ap (λ (xs : List ℕ). length xs) same,
          length-append (stream fs) part,
          ap (λ xs. length (r.read_buffer ++ xs))
              (delivered-append events (blocks ∷ []) ∙ append-nil (delivered events)),
        ))
