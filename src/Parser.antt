-- ===== src/Parser.antt =====
-- The template parser of muggin.c.
pub mod Monad
pub mod Lexical
pub mod Text
pub mod Attribute
pub mod Tree
pub mod Safety
