-- ===== src/Plib.antt =====
-- plib/src: the library that the utilities share.
pub mod ModeStr
