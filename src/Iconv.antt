-- ===== src/Iconv.antt =====
-- i18n/iconv_lib: the converters between encodings and UCS-4.
pub mod Stream
pub mod Words
pub mod ByteOrder
pub mod Utf8
pub mod Utf16
pub mod Utf32
pub mod Ascii
