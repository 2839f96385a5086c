-- ===== src/Lexer.antt =====
-- src/llex.cpp, src/llex.h: the lexical analyser. The state and its monad are in State, the parts of
-- `llex` in the modules below that.
pub mod State
pub mod Basic
pub mod Numeral
pub mod LongString
pub mod ShortString
pub mod Scan
pub mod Terra
pub mod Patch
pub mod Safety
