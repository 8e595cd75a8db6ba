-- ===== src/Http.antt =====
-- internal/httpapi: the HTTP layer, over a store behind an interface.
pub mod Validate
pub mod Writer
pub mod Json
pub mod Handler
pub mod Query
pub mod Anomaly
pub mod Ingest
pub mod Instance
