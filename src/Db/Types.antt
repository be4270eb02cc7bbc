-- ===== src/Db/Types.antt =====
-- db/types.py, `UTCDateTime`: a time without a timezone is refused, any other is stored as its instant.
use industrial_equipment_mon.Prelude.{ℕ, Option, none, some}
use industrial_equipment_mon.Telemetry.History.{QueryTime, naive, aware}

pub data BindParam : Type 0 where
  bound : Option ℕ → BindParam
  value_error : BindParam

abbrev pub process_bind_param : Option QueryTime → BindParam
process_bind_param none = bound none
process_bind_param (some (naive at)) = value_error
process_bind_param (some (aware at)) = bound (some at)

abbrev pub process_result_value : Option ℕ → Option QueryTime
process_result_value none = none
process_result_value (some at) = some (aware at)
