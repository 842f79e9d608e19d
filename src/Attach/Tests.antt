-- ===== src/Attach/Tests.antt =====
-- Runs of the attached terminal.
use keepty.Base.{
  ℕ, ◌≡◌, ◌≤◌, ◌↔◌, ◌++◌, refl, List, [], ◌∷◌, none, true, false, arith, flatten, All,
}
use keepty.Base.Int.{pos}
use keepty.Wire.{Frame, MsgKind}
use keepty.Wire.Messages.{decode_exit}
use keepty.Attach.Reader.{report, read_loop_lem}
use keepty.Attach.{
  read_loop, pong, exited, raw_write_stdout, WriteOutcome, wrote, interrupted, raw_write_bytes,
}
use keepty.Attach.Newlines.{
  write_all, write_all-flatten, Repaired, without_cr, raw_write_stdout-Repaired, writes_of,
  Progresses, raw_write_bytes_lem,
}
use keepty.Attach.Detach.{scan_all, HoldsKeys, scan_all-HoldsKeys}

-- A line end cut between its two bytes, then a bare newline.
abbrev frames : List (List ℕ)
frames = (b'a' ∷ 13 ∷ []) ∷ (10 ∷ b'b' ∷ 10 ∷ []) ∷ []

repairs : write_all frames false ≡ (b'a' ∷ 13 ∷ 10 ∷ b'b' ∷ 13 ∷ 10 ∷ [], false)
unfolding raw_write_stdout
repairs = refl

write_all-flatten_example : write_all frames false ≡ raw_write_stdout (flatten frames) false
write_all-flatten_example = write_all-flatten frames false

raw_write_stdout-Repaired_example :
    Repaired true (raw_write_stdout (10 ∷ b'b' ∷ 10 ∷ []) true).0
    × (without_cr (raw_write_stdout (10 ∷ b'b' ∷ 10 ∷ []) true).0
        ≡ without_cr (10 ∷ b'b' ∷ 10 ∷ []))
    × (Repaired true (10 ∷ b'b' ∷ 10 ∷ [])
        → (raw_write_stdout (10 ∷ b'b' ∷ 10 ∷ []) true).0 ≡ 10 ∷ b'b' ∷ 10 ∷ [])
raw_write_stdout-Repaired_example = raw_write_stdout-Repaired (10 ∷ b'b' ∷ 10 ∷ []) true

abbrev answers : List WriteOutcome
answers = wrote 2 ∷ interrupted ∷ wrote 1 ∷ wrote 1 ∷ []

raw_write_bytes_lem_example :
    ((raw_write_bytes answers (1 ∷ 2 ∷ 3 ∷ [])).0 ++ (raw_write_bytes answers (1 ∷ 2 ∷ 3 ∷ [])).1
      ≡ 1 ∷ 2 ∷ 3 ∷ [])
    × (All Progresses answers
        → 3 ≤ writes_of answers
        → (raw_write_bytes answers (1 ∷ 2 ∷ 3 ∷ [])).0 ≡ 1 ∷ 2 ∷ 3 ∷ [])
raw_write_bytes_lem_example = raw_write_bytes_lem answers (1 ∷ 2 ∷ 3 ∷ [])

-- The keys cut over two reads.
abbrev reads : List (List ℕ)
reads = (b'x' ∷ b',' ∷ b',' ∷ []) ∷ (b',' ∷ b'd' ∷ b'y' ∷ []) ∷ []

scan_all-HoldsKeys_example : (scan_all 0 reads ≡ none) ↔ HoldsKeys (flatten reads)
scan_all-HoldsKeys_example = scan_all-HoldsKeys reads (omega arith)

abbrev arriving : List Frame
arriving =
    record { kind = MsgKind.output; payload = b'a' ∷ 13 ∷ [] }
    ∷ record { kind = MsgKind.ping; payload = [] }
    ∷ record { kind = MsgKind.output; payload = 10 ∷ 10 ∷ [] }
    ∷ record { kind = MsgKind.exit; payload = 0 ∷ 0 ∷ 0 ∷ 3 ∷ [] }
    ∷ record { kind = MsgKind.output; payload = b'z' ∷ [] }
    ∷ []

shows : read_loop arriving false ≡ (b'a' ∷ 13 ∷ 10 ∷ 13 ∷ 10 ∷ [], pong ∷ [], exited (pos 3))
unfolding read_loop decode_exit
shows = refl

read_loop_lem_example : read_loop arriving false ≡ (
  (raw_write_stdout (flatten (report arriving).0) false).0,
  (report arriving).1,
  (report arriving).2,
)
read_loop_lem_example = read_loop_lem arriving false
