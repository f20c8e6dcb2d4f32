-- ===== src/Misc.antt =====
-- The utilities of misc.
pub mod Test
