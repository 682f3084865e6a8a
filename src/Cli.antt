-- ===== src/Cli.antt =====
-- cmd/wirefan/main.go: the flags, the choice of implementations, the admin token, and `run`.
pub mod Flags
pub mod Wiring
pub mod AdminToken
pub mod Run
