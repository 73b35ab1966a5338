-- ===== src/Middleware.antt =====
-- The middleware layer (mycppwebfw/src/middleware and the older src/middleware).
pub mod Script
pub mod Chain
pub mod Exchange
pub mod Handlers
pub mod Session
pub mod Context
pub mod Older
