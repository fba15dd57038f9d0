-- ===== src/Mugshot.antt =====
-- The HTTP server of mugshot/mugshot.c: the parts of it that stand by themselves.
pub mod Base64
pub mod Arena
pub mod Route
pub mod Sha1
pub mod Http
pub mod Worker
pub mod Trie
pub mod Endpoint
pub mod Config
