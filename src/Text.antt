-- ===== src/Text.antt =====
-- The text of string literals: src/core/util.cpp, namespace ConversionUtils, lines 1441-1594.
pub mod Escape
pub mod Utf8
mod Tests
pub mod Strings
