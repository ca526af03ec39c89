-- ===== src/Bundled.antt =====
-- The middleware of the package middleware, one child for each group of files.
pub mod RequestId
pub mod Recoverer
pub mod Selection
pub mod AccessLog
pub mod ContentType
pub mod Timeout
