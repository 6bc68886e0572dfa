-- ===== src/Rust.antt =====
-- The parts of Rust's standard library that the program computes with: the widths of the
-- machine integers, `std::str::from_utf8`, and `str::parse` at an unsigned type.
pub mod Word
pub mod Utf8
pub mod Parse
pub mod Decimal
