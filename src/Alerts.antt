-- ===== src/Alerts.antt =====
-- backend/app/alerts: temperature alert evaluation and the episode read model.
pub mod Service
pub mod Invariant
mod Episodes
pub mod References
pub mod Listing
pub mod Router
pub mod Evaluation
pub mod Debounce
pub mod Recovery
