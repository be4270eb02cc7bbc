-- ===== src/Devices.antt =====
-- backend/app/devices: registration, presence, ownership and status of devices.
pub mod Credentials
pub mod Registry
pub mod Registration
pub mod Status
pub mod Router
pub mod Schemas
