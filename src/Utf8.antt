-- ===== src/Utf8.antt =====
-- The UTF-8 codec, implementation/common/codecs/text/unicode/utf8/utf8.cpp.
pub mod Table
pub mod Codec
pub mod Reading
pub mod Sequence
pub mod Advance
pub mod Counting
pub mod Encoding
pub mod Survival
pub mod Totality
pub mod Search
pub mod Documented
pub mod Visiting
pub mod Finding
pub mod Reverse
pub mod NewLines
mod Tests
