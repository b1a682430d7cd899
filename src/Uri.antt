-- ===== src/Uri.antt =====
-- What the client uses of the language to write URLs: encodeURIComponent and URLSearchParams, on
-- strings of UTF-16 code units; and how a URL is read.
pub mod Bytes
pub mod Escape
pub mod Query
pub mod Target
pub mod Reading
pub mod Decimal
