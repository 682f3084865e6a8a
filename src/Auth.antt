-- ===== src/Auth.antt =====
-- internal/auth: subscribe tokens, the replay cache and API-key secrets.
pub mod Decimal
pub mod Base64
pub mod Replay
pub mod Payload
pub mod Token
