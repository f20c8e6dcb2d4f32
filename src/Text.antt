-- ===== src/Text.antt =====
-- text: the filters on text files.
pub mod Comm
pub mod Expand
pub mod Fold
pub mod Unexpand
pub mod Uniq
