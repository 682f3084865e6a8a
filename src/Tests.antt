-- ===== src/Tests.antt =====
-- Runs of the models at concrete inputs.
mod Samples
mod Counters
mod Limits
mod Membership
mod Tokens
mod Handlers
mod Services
mod Endpoints
mod Storage
mod Loads
mod Lives
mod Command
mod Addresses
mod Shutdown
mod Buffers
