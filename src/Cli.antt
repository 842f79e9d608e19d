-- ===== src/Cli.antt =====
-- keepty/src/main.rs: the command line. Its parts are the text that `wait` looks for in raw output, the
-- names of keys, `start`, `list`, `stop`, painted cells, and the agent's commands.
pub mod RawText
pub mod Keys
pub mod Start
pub mod Sessions
pub mod Painted
pub mod Agent
pub mod Stop
pub mod AttachCommand
mod Tests
