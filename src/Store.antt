-- ===== src/Store.antt =====
-- services/analytics/internal/store: the tables of the analytics database, the statements that the
-- Go code sends, and the operations built from them. The proofs are in the child modules.
pub mod Schema
pub mod Session
pub mod Connect
pub mod Ingest
pub mod Batch
pub mod Reconcile
pub mod Retention
pub mod Reads
pub mod Marker
pub mod Migrate
pub mod History
