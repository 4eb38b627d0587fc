-- ===== src/Util.antt =====
-- np/util: text and path utilities.
pub mod Tok
pub mod FileName
pub mod RangeTree
