-- ===== src/Ber.antt =====
-- The BER codec of internal/ldapserver/ber.go: packets, the reader and the writers.
-- A reader is the list of the bytes that are left; a Go `int` is its bit pattern below 2 ^ 64.
pub mod Reader
pub mod Writer
pub mod Length
pub mod Fuel
pub mod RoundTrip
pub mod Integer
pub mod Shapes
