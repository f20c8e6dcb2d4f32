-- ===== src/Xform.antt =====
-- xform: the utilities that change the encoding of a file, and its checksum.
pub mod Base64
pub mod Uuencode
pub mod Uudecode
pub mod Crc32
