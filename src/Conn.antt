-- ===== src/Conn.antt =====
-- internal/conn: one WebSocket connection, its frames and its state.
pub mod Names
pub mod Policy
pub mod State
pub mod Send
pub mod Handler
pub mod Life
