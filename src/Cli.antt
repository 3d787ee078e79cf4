-- ===== src/Cli.antt =====
-- The command lines of the example servers.
pub mod Numbers
pub mod Exact
pub mod Programs
mod Tests
