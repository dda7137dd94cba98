-- ===== src/Limiter.antt =====
-- The rate limits of internal/ldapserver/server.go: `rateCounter` and `windowLimiter`.
-- A time is the number of nanoseconds since Go's zero time, and a clock reading is an argument.
pub mod Counter
pub mod Window
