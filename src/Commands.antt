-- ===== src/Commands.antt =====
-- cmd: the command-line client and the server's command.
pub mod Cli
pub mod Serve
mod Tests
