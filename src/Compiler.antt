-- ===== src/Compiler.antt =====
-- src/tcompiler.cpp: the part of the compiler that follows the conventions for calls.
pub mod Types
pub mod Convention
pub mod Aggregates
pub mod Classify
pub mod Signature
