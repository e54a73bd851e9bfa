-- ===== src/Charset.antt =====
-- The character sets of src/convert.c: the conversion, where iconv is a parameter, and the base 64 code.
pub mod Base64
pub mod Digits
pub mod RoundTrip
pub mod Conversion
pub mod Bounds
