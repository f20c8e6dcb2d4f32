-- ===== src/Datetime.antt =====
-- datetime: the utilities on dates.
pub mod Cal
