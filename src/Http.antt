-- ===== src/Http.antt =====
-- The HTTP messages and the incremental request parser (mycppwebfw/src/http).
pub mod Request
pub mod Parser
pub mod Response
