-- ===== src/Server.antt =====
-- internal/server: REST endpoints, upgrades and the addresses behind them, log values, and `Run`.
pub mod Rest
pub mod Upgrade
pub mod Address
pub mod LogValue
pub mod Life
