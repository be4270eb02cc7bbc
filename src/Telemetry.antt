-- ===== src/Telemetry.antt =====
-- backend/app/telemetry: the wire models, validation, ingestion and history.
pub mod Schemas
pub mod Repository
pub mod Ingest
pub mod History
pub mod Json
pub mod Validation
pub mod Delivery
pub mod Router
