-- ===== src/Tests.antt =====
-- The theorems at concrete inputs, and runs of the code.
mod Samples
mod Alerts
mod Ingest
mod History
mod Broker
mod Devices
mod Validation
mod Core
mod Simulator
mod Listing
mod System
mod Client
mod Settings
mod Exchange
