-- ===== src/Utils.antt =====
-- The utility classes (mycppwebfw/src/utils).
pub mod Stores
pub mod RequestId
pub mod Renderer
pub mod Files
pub mod Convert
pub mod Config
pub mod Logging
pub mod TokenBucket
pub mod Compressor
mod Tests
