-- ===== src/Routing.antt =====
-- The router (mycppwebfw/src/routing).
pub mod Trie
pub mod Matcher
pub mod Router
pub mod Inspector
pub mod Parameter
