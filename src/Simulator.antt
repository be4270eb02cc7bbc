-- ===== src/Simulator.antt =====
-- simulator: reproducible events, and their delivery with counts of what was confirmed.
pub mod Events
pub mod Run
pub mod Client
pub mod Transport
pub mod Profile
pub mod Command
pub mod Sending
pub mod Main
