-- ===== src/Attach/Session/Tests.antt =====
-- Runs of the attached terminal's main loop, and the theorems about it at concrete inputs.
use keepty.Base.{ℕ, ◌≡◌, refl, true, false, List, [], ◌∷◌, ◌++◌, Option, none, some, arith}
use keepty.Base.Text.{codes, to_string}
use keepty.Base.Results.{ok}
use keepty.Wire.{MsgKind, encode, read_from, kind_of_byte}
use keepty.Wire.Messages.{encode_hello_ack, decode_hello_ack}
use keepty.Attach.{pack_resize, on_winch, on_tick, on_stdin, resize, input}
use keepty.Attach.Session.{
  Round, Loop, goes_on, leaves, Stdin, not_ready, types, main_loop, loop_round, entered,
  write_frames, hello_frame, watcher_overlay, attach_handshake, attach_session, Setting,
}
use keepty.Attach.Session.Sizes.{last_size, Known}
use keepty.Attach.Session.Settles.{Settles, main_loop-Settles}
use keepty.Attach.Session.Delivers.{Delivers, main_loop-Delivers}

-- The terminal is resized, then two commas are typed, then another and a `d`.
abbrev reads : Stdin → Option (ℕ × ℕ × ℕ) → ℕ → Round
reads stdin winch now = record {
  shutdown = false;
  select_fails = false;
  winch = winch;
  checked_at = now;
  stdin = stdin;
  size = (100, 30);
  writes_left = none;
}

abbrev stays : List Round
stays = reads not_ready (some (10, 100, 30)) 10 ∷ reads (types (b',' ∷ b',' ∷ [])) none 30 ∷ []

abbrev detached : List Round
detached =
    reads (types (b'a' ∷ b',' ∷ b',' ∷ [])) (some (10, 100, 30)) 10
    ∷ reads (types (b',' ∷ b'd' ∷ [])) none 70
    ∷ []

abbrev staying : Loop
staying = record {
  debounce = record { waiting = some (10, 100, 30); last_sent_dims = pack_resize 100 30 };
  comma_count = 2;
  sent = hello_frame false 80 24 ∷ input (b',' ∷ b',' ∷ []) ∷ [];
}

stays_attached : main_loop false stays (entered false 80 24) ≡ goes_on staying
unfolding main_loop loop_round write_frames on_winch on_tick on_stdin pack_resize
stays_attached = refl

-- The Resize is sent before what is typed behind it.
detaches_last :
    main_loop false detached (entered false 80 24)
    ≡ leaves (record {
      debounce = record { waiting = none; last_sent_dims = pack_resize 100 30 };
      comma_count = 2;
      sent = hello_frame false 80 24 ∷ input (b'a' ∷ b',' ∷ b',' ∷ []) ∷ resize 100 30 ∷ [];
    })
unfolding main_loop loop_round write_frames on_winch on_tick on_stdin pack_resize
detaches_last = refl

main_loop-Settles_example :
    Known (80, 24) (last_size (80, 24) stays) staying.debounce.waiting staying.sent
    × Settles (80, 24) (last_size (80, 24) stays) staying
main_loop-Settles_example =
    main_loop-Settles 80 24 stays staying (omega arith, omega arith)
      ((omega arith, omega arith), ((omega arith, omega arith), tt)) stays_attached

main_loop-Delivers_example : Delivers detached (main_loop false detached (entered false 80 24))
main_loop-Delivers_example = main_loop-Delivers 80 24 detached (omega arith)

-- A watcher of a session whose terminal is larger.
abbrev setting : Setting
setting = record {
  is_terminal = true;
  is_running = true;
  size = (80, 24);
  unwritten = none;
  socket = record {
    bytes = encode (record { kind = MsgKind.hello_ack; payload = encode_hello_ack 7 100 30 });
    ending = none;
  };
}

handshakes : attach_handshake true setting ≡ ok (some (100, 30))
unfolding attach_handshake encode read_from encode_hello_ack decode_hello_ack kind_of_byte
handshakes = refl

attaches :
    attach_session true setting (reads (types (b'q' ∷ [])) none 10 ∷ [])
    ≡ ok (some (100, 30), leaves (entered true 80 24))
unfolding attach_session attach_handshake encode read_from encode_hello_ack decode_hello_ack
    kind_of_byte main_loop loop_round on_tick on_stdin
attaches = refl

overlays :
    watcher_overlay 80 24 (codes "a") none
    ≡ (0x1b ∷ codes "7")
      ++ (0x1b ∷ codes "[24;1H")
      ++ (0x1b ∷ codes "[2K")
      ++ (0x1b ∷ codes "[7m[a] q detach | r refresh")
      ++ (0x1b ∷ codes "[0m")
      ++ (0x1b ∷ codes "8")
unfolding watcher_overlay to_string
overlays = refl
