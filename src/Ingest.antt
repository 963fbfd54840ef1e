-- ===== src/Ingest.antt =====
-- services/analytics/internal/ingest: the gRPC ingestion client.
pub mod Backoff
pub mod Watermark
pub mod Event
pub mod Persist
pub mod Client
pub mod Reconnect
pub mod Settings
pub mod Trace
pub mod Keeps
