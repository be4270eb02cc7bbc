-- ===== src/Db.antt =====
-- backend/app/db: the persisted registry, telemetry and alert tables.
pub mod Seed
pub mod Types
pub mod Models
