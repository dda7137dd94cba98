-- ===== src/Tests.antt =====
-- The theorems at concrete inputs, and runs of the definitions.
mod Data
mod Codec
mod Names
mod Limits
mod Sessions
mod Logs
mod Logins
mod Traces
mod Sites
mod Stores
mod Passwords
mod Handlers
