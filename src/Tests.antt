-- ===== src/Tests.antt =====
-- Runs of the models on concrete inputs, and each property at one of them.
pub mod LoggerRuns
mod LogLinesRuns
pub mod MiddlewareRuns
pub mod ChainRuns
pub mod ConfigRuns
pub mod ApperrorRuns
mod ApperrorStoreRuns
pub mod OidcRuns
pub mod ServerRuns
pub mod Toys
pub mod KeystoreRuns
pub mod DbMigrateRuns
pub mod DbRuns
mod DbTestRuns
pub mod CoreRuns
mod AnnouncedRuns
pub mod DevKeyGenRuns
