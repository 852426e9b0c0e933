-- ===== src/Stdlib.antt =====
-- What the program uses of Go's standard library: strings, decimal numbers and errors.
pub mod Text
pub mod Decimal
pub mod Errors
pub mod Maps
pub mod Search
pub mod Traceparent
pub mod Outcome
pub mod Base64
pub mod Clamped
