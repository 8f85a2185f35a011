-- ===== src/Middleware.antt =====
-- core/internal/middleware: request_id, access_log and recover, each a function from handler to
-- handler.
pub mod Recorder
pub mod Query
pub mod RequestId
pub mod AccessLog
pub mod Recover
pub mod Chain
