-- ===== src/Db.antt =====
-- core/internal/db: the connection string and the opening of the pool.
pub mod Dsn
pub mod Open
