-- ===== src/Attach/Reader.antt =====
-- The reader thread of keepty/src/attach.rs: what a session's frames show on the terminal.
use keepty.Base.{ℕ, ◌≡◌, refl, ap, ◌∙◌, Bool, List, [], ◌∷◌, ◌++◌, flatten}
use keepty.Wire.{Frame, MsgKind}
use keepty.Wire.Messages.{decode_exit}
use keepty.Attach.{Ending, exited, disconnected, exit_code, pong, read_loop, raw_write_stdout}
use keepty.Attach.Newlines.{write_all, write_all-flatten}

-- Of the frames up to the first Exit: the payloads of Output, an answer for each Ping, and the end.
abbrev pub Report : Type 0
Report = List (List ℕ) × List Frame × Ending

abbrev pub report : List Frame → Report
report [] = ([], [], disconnected)
report (f ∷ fs) =
    let (shown, back, ending) = report fs in
    elim f.kind [
      | MsgKind.output ↦ (f.payload ∷ shown, back, ending)
      | MsgKind.exit ↦ ([], [], exited (exit_code (decode_exit f.payload)))
      | MsgKind.ping ↦ (shown, pong ∷ back, ending)
      | _ ↦ (shown, back, ending)
    ]

abbrev as_written : Report → Bool → List ℕ × List Frame × Ending
as_written (shown, back, ending) cr = ((write_all shown cr).0, back, ending)

read_loop-report : (fs : List Frame) (cr : Bool) → read_loop fs cr ≡ as_written (report fs) cr
unfolding read_loop
read_loop-report [] cr = refl
read_loop-report (f ∷ fs) cr =
    elim f.kind
      as (λ k.
        read_loop (record f { kind = k } ∷ fs) cr
        ≡ as_written (report (record f { kind = k } ∷ fs)) cr) [
          | MsgKind.output ↦
              let (out, cr') = raw_write_stdout f.payload cr in
              ap (λ (r : List ℕ × List Frame × Ending). (out ++ r.0, r.1, r.2))
                (read_loop-report fs cr')
          | MsgKind.exit ↦ refl
          | MsgKind.ping ↦
              ap (λ (r : List ℕ × List Frame × Ending). (r.0, pong ∷ r.1, r.2))
                (read_loop-report fs cr)
          | _ ↦ read_loop-report fs cr
        ]

-- Whatever frames arrive, the terminal is shown the payloads of the Output frames before the first
-- Exit as if they were one, each Ping before it is answered with one Pong, and the reader ends with
-- that Exit's code, or without the broker where there is no Exit.
pub read_loop_lem :
    (fs : List Frame) (last_was_cr : Bool)
    → read_loop fs last_was_cr
      ≡ ((raw_write_stdout (flatten (report fs).0) last_was_cr).0, (report fs).1, (report fs).2)
read_loop_lem fs cr =
    read_loop-report fs cr
    ∙ ap (λ (r : List ℕ × Bool). (r.0, (report fs).1, (report fs).2))
        (write_all-flatten (report fs).0 cr)
