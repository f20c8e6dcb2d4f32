-- ===== src/File.antt =====
-- file: the utilities on files.
pub mod Split
