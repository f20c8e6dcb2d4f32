-- ===== src/Awk.antt =====
-- awk/src/interpreter: the associative arrays, and the formats of integers and strings.
pub mod KeyMap
pub mod Array
pub mod Format
