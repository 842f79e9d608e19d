-- ===== src/Cli/Stop/Tests.antt =====
-- Runs of `keepty stop`, and the theorem about it at a concrete input.
use keepty.Base.{◌≡◌, refl, true, false, List, [], ◌∷◌, none, some}
use keepty.Base.Text.{codes}
use keepty.Wire.{MsgKind, encode, read_from, kind_of_byte}
use keepty.Cli.Stop.{
  Round, Setting, stops, gone, endpoint, unreadable, ends, gives, waits, cmd_stop, stop_loop,
  monitor_hello, shutdown_frame,
}
use keepty.Cli.Stop.Pending.{Stops, cmd_stop-Stops}

abbrev setting : Setting
setting = record {
  identity = some (8, 100);
  connects = true;
  writes_hello = true;
  socket = record {
    bytes = encode (record { kind = MsgKind.hello_ack; payload = [] });
    ending = none;
  };
  writes_shutdown = true;
}

-- The broker hangs up before another one has the socket's name.
abbrev rounds : List Round
rounds =
    record { metadata = endpoint 8 100; time_left = true; read = gives }
    ∷ record { metadata = endpoint 8 100; time_left = true; read = ends }
    ∷ record { metadata = unreadable; time_left = true; read = waits }
    ∷ record { metadata = endpoint 8 101; time_left = false; read = waits }
    ∷ []

replaced :
    cmd_stop (codes "work" ∷ []) setting rounds ≡ stops (monitor_hello ∷ shutdown_frame ∷ []) gone
unfolding cmd_stop stop_loop encode read_from kind_of_byte
replaced = refl

cmd_stop-Stops_example :
    Stops (codes "work" ∷ []) setting rounds (cmd_stop (codes "work" ∷ []) setting rounds)
cmd_stop-Stops_example = cmd_stop-Stops (codes "work" ∷ []) setting rounds
