-- ===== src/Parser/Safety.antt =====
-- The parser of muggin.c on every input: it ends, it stays within its memory, and the ids in its
-- nodes are those of its pools.
pub mod Rules
pub mod Lexical
pub mod Text
pub mod Attribute
pub mod Element
pub mod Line
pub mod Tree
