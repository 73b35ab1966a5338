-- ===== src/Core.antt =====
-- The core (mycppwebfw/src/core): buffers, connections and threads.
pub mod BufferPool
pub mod Connection
pub mod ThreadPool
pub mod Server
