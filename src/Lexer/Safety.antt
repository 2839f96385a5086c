-- ===== src/Lexer/Safety.antt =====
-- src/llex.cpp: the lexer neither reads behind the end of its input nor loops, and it keeps the text
-- that it has copied into the output buffer.
pub mod Follows
pub mod Basic
pub mod Strings
pub mod Escapes
pub mod Numeral
pub mod Scan
pub mod Tokens
