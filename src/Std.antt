-- ===== src/Std.antt =====
-- The functions of Rust's std that the parts use, on strings and vectors, as std documents them.
pub mod Strings
pub mod Chars
pub mod Chunks
pub mod Numerals
pub mod Integers
mod Tests
