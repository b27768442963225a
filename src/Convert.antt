-- ===== src/Convert.antt =====
-- Conversions of formulas: src/frontend/conv_parser.cpp. `preserve` and `key` are those of Term.Make.
pub mod Nnf
pub mod Tseitin
mod Tests
