-- ===== src/Core.antt =====
-- backend/app/core, and the form of an HTTP answer.
pub mod GatewayAuth
pub mod Health
pub mod Settings
pub mod Startup
use industrial_equipment_mon.Prelude.{ℕ, String}

-- An answer of a route: its status with a body, or with the reason of an `HTTPException`.
pub data Reply (A : Type 0) : Type 0 where
  success : ℕ → A → Reply A
  failure : ℕ → String → Reply A

-- The server's answer to an exception that no handler catches.
abbrev pub unhandled : {A : Type 0} → Reply A
unhandled = failure 500 "Internal Server Error"

abbrev pub status : {A : Type 0} → Reply A → ℕ
status (success code body) = code
status (failure code reason) = code
