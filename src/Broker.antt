-- ===== src/Broker.antt =====
-- keepty/src/broker.rs, the daemon: its output history, the queue of each client, and sessions.
pub mod Args
pub mod Ring
pub mod Queue
pub mod Replay
pub mod Session
pub mod Process
