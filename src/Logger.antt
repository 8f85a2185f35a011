-- ===== src/Logger.antt =====
-- core/internal/logger.
pub mod Redact
pub mod Context
pub mod Output
pub mod Fallback
pub mod Lines
