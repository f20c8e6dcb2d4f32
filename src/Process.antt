-- ===== src/Process.antt =====
-- The utilities of process.
pub mod Xargs
