-- ===== src/Wire/Tests.antt =====
-- Runs of the wire protocol, and the theorems about it at concrete inputs.
use keepty.Base.{ℕ, ◌≡◌, refl, List, [], ◌∷◌, ◌++◌, ◌≢◌, none, some, arith}
use keepty.Base.Int.{negsuc}
use keepty.Base.Results.{ok, err}
use keepty.Wire.{Role, MsgKind, Frame, Source, Reason, invalid, encode, read_from, role_byte}
use keepty.Wire.Codec.{Outcome, read_from-encode, read_from-Outcome}
use keepty.Wire.Messages.{
  encode_hello, decode_hello, encode_hello_ack, decode_hello_ack, encode_resize, decode_resize,
  encode_resize_ack, decode_resize_ack, encode_exit, decode_exit, decode-encode, decode_Decodes,
  Decodes,
}

abbrev greeting : Frame
greeting = record { kind = MsgKind.hello; payload = 1 ∷ 0 ∷ 132 ∷ 0 ∷ 51 ∷ [] }

abbrev greeting_bytes : List ℕ
greeting_bytes = 0 ∷ 0 ∷ 0 ∷ 7 ∷ 1 ∷ 1 ∷ 1 ∷ 0 ∷ 132 ∷ 0 ∷ 51 ∷ []

encode_runs : encode greeting ≡ greeting_bytes
unfolding encode
encode_runs = refl

wrong_version :
    read_from (record { bytes = 0 ∷ 0 ∷ 0 ∷ 3 ∷ 99 ∷ 12 ∷ 0 ∷ []; ending = none })
    ≡ err (invalid (Reason.unsupported_version 99))
unfolding read_from
wrong_version = refl

hello_runs : encode_hello Role.writer 132 51 ≡ greeting.payload
unfolding encode_hello
hello_runs = refl

read_from-encode_example :
    read_from (record { bytes = encode greeting ++ 0 ∷ 0 ∷ []; ending = none })
    ≡ ok (some (greeting, record { bytes = 0 ∷ 0 ∷ []; ending = none }))
read_from-encode_example = read_from-encode greeting (0 ∷ 0 ∷ []) none (omega arith)

abbrev bad_stream : Source
bad_stream = record { bytes = 0 ∷ 0 ∷ 0 ∷ 2 ∷ 1 ∷ 7 ∷ []; ending = none }

read_from-Outcome_example : Outcome bad_stream (read_from bad_stream)
read_from-Outcome_example = read_from-Outcome bad_stream (omega arith)

decode-encode_example :
    (decode_hello (encode_hello Role.monitor 80 24 ++ 9 ∷ []) ≡ some (Role.monitor, 80, 24))
    × (decode_hello_ack (encode_hello_ack 70_000 80 24 ++ 9 ∷ []) ≡ some (70_000, 80, 24))
    × (decode_resize (encode_resize 80 24 ++ 9 ∷ []) ≡ some (80, 24))
    × (decode_resize_ack (encode_resize_ack 70_000 80 24 ++ 9 ∷ []) ≡ some (70_000, 80, 24))
    × (decode_exit (encode_exit (negsuc 0) ++ 9 ∷ []) ≡ some (negsuc 0))
decode-encode_example =
    decode-encode Role.monitor 70_000 80 24 (negsuc 0) (9 ∷ []) (omega arith) (omega arith)
      (omega arith) (omega arith)

decode_Decodes_example :
    Decodes
      (λ (h : Role × ℕ × ℕ). encode_hello h.0 h.1 h.2)
      5
      (4 ∷ 0 ∷ 80 ∷ 0 ∷ 24 ∷ [])
      (decode_hello (4 ∷ 0 ∷ 80 ∷ 0 ∷ 24 ∷ []))
      ((role : Role) → 4 ≢ role_byte role)
decode_Decodes_example = (decode_Decodes (4 ∷ 0 ∷ 80 ∷ 0 ∷ 24 ∷ []) (omega arith)).0
