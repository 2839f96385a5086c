-- ===== src/Parser.antt =====
-- src/lparser.cpp, src/lparser.h: the parser, which checks the program, builds the trees of its Terra
-- parts and replaces them in the output buffer.
pub mod State
pub mod Stack
pub mod Scopes
pub mod Env
pub mod Checks
pub mod Operators
pub mod Output
pub mod Rules
pub mod Constructors
pub mod Functions
pub mod Primary
pub mod Expressions
pub mod Statements
pub mod Definitions
pub mod Main
pub mod Frames
