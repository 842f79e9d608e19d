-- ===== src/Lib.antt =====
-- keepty: persistent terminal sessions. A broker process owns a pseudo-terminal and the child that
-- runs in it. Clients attach to it over a Unix socket as Writer, Watcher or Monitor, and speak a
-- protocol of length-prefixed frames with it.
--
-- Which file models which part:
--   Base                 shared names; Boolean tests, lists, big-endian words, results, signed integers,
--                        texts as bytes with the decimal numbers that Rust prints and parses
--   Wire                 keepty-protocol/src/lib.rs: Role, MsgKind and their bytes, Frame with encode
--                        and read_from; Wire/Messages has the payloads of Hello, HelloAck, Resize,
--                        ResizeAck and Exit
--   Broker/Ring          keepty/src/broker.rs, RingBuffer: the history of the child's output
--   Broker/Queue         ClientQueue with Pending: the bounded queue of one client, which joins
--                        adjacent Output frames
--   Broker/Replay        replay_frames
--   Broker/Session       BrokerState, OutputState, the eviction of clients, broadcasts, the PTY reader
--                        and the Exit broadcast of run; Session/Connect is handle_client up to its
--                        read loop, Session/Frames the read loop and the clean-up, Session/System the
--                        threads together
--   Broker/Process       the main thread of run from its wait for the child to the exit of the process
--   Broker/Args          parse_args, the broker's command line
--   Attach               keepty/src/attach.rs: newline repair, the write loop, the reader thread, the
--                        keys that detach, the debounced resize; Attach/Session is run with its
--                        handshake and the main thread's loop, and the watcher's overlay
--   Cli                  keepty/src/main.rs: RawText, which finds text in raw output, named_key, and in
--                        Cli/Start cmd_start up to the broker that it starts; Cli/Agent is run_agent, its
--                        arguments for screen, send, keys and wait, and in Agent/Send the rest of send
--                        and keys, in Agent/Wait that of wait; Cli/Painted is PaintedCells, which finds
--                        newly painted text;
--                        Cli/Sessions has the names of the sockets and cmd_list, Cli/Stop cmd_stop,
--                        Cli/AttachCommand cmd_attach, and Agent/ShowCommand screen and cmd_agent
--   Screen               keepty-screen/src/lib.rs, ScreenReader: the buffered frame reader, poll, the
--                        requests of a Writer; Screen/Connect is the handshake, Screen/Sync is sync
-- The queue of a client and the replay use the encoding of Wire; Session uses Ring, Queue, Replay and
-- Wire; Attach and Screen use Wire; Cli/Start uses Broker/Args, and Cli/Agent uses Screen. Theorems
-- stand in the child modules: Wire/Kinds, Wire/Codec, Wire/Messages,
-- Broker/Ring/History, Broker/Queue/View, Coalesce, Send, Recv and Fifo, Broker/Session/Quiet, Roles,
-- Connections, Confined, Streams, Delivery, Attached and Exit, Broker/Process/Decides, Drains and
-- Ending, Attach/Newlines, Reader, Detach and Session/Settles and Delivers,
-- Cli/RawText, Keys, Start/Launch and Agent/Loop, Checked, Typed, Calls, KeysCommand and SendCommand,
-- Cli/Agent/Wait/Since, Searched, Fed, Observed, Outcomes and Command, Cli/RawText/Frames,
-- Cli/Painted/Runs and Found, Cli/Sessions/Names and Listed, Cli/Stop/Pending, Screen/Incremental,
-- Progress, Poll, Frames, Frames/Agree, Connect and Sync. Modules named Tests hold runs.
--
-- How it is modelled. Bytes are natural numbers; unsigned integers are natural numbers with their
-- wrap-around written out. A reader is the bytes it will give and how it ends. Each operation under
-- a lock, and each atomic operation, is one function on BrokerState, in the order of the code; what
-- the threads share beside BrokerState (spawned, the PTY, the child's id) is in it too. System adds
-- the connection slots that are held and what each handler thread keeps, and Reach has one step for each such part, in any interleaving.
-- The vt100 screen is a parameter: the record Terminal of the operations that the broker calls, and the
-- records Parser, ScreenModes and Vt of those of the clients. A client's socket is the list of what
-- its reads answer, bytes in any portions, an interruption, the deadline or an error, so time is told
-- by those answers. Of the PTY the model keeps the bytes written to it and the sizes set on it. Times are milliseconds,
-- in Cli/Agent/Wait nanoseconds; readings of the clock are arguments.
--
-- Bounds and fuel. Fuel bounds slice::chunks in Broker/Replay, one round for each byte, digits in
-- Base/Text, one round for each unit of the number, and the loop of poll in Screen, one round for each
-- byte buffered or to be read and one more; the theorems on them show that it is enough. Other loops
-- recurse on their input. The
-- loop of writes in Attach recurses on the answers of the system. Client ids are given out below
-- 2 ^ 32.
--
-- Not modelled: sockets, threads, timeouts and logging; opening the PTY and starting, signalling and
-- reaping the child (start of handle_client's spawn, terminate_child_group, descendants, the signal
-- handlers), of which the main loop is told by what it reads; the errors of accept; the raw mode of
-- the terminal and the signals in attach.rs; what screen prints in main.rs, and the
-- sorting and printing of list; the views of the screen in keepty-screen, which are calls of the vt100 crate; the clients in other languages.
pub mod Attach
pub mod Base
pub mod Broker
pub mod Cli
pub mod Screen
pub mod Wire
