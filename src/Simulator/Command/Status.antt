-- ===== src/Simulator/Command/Status.antt =====
-- What an exit status of zero says of a run.
use industrial_equipment_mon.Prelude.{◌≡◌, false, arith}
use industrial_equipment_mon.Simulator.Run.{Summary}
use industrial_equipment_mon.Simulator.Command.{simulate_status}

pub zero_status :
    (s : Summary)
    → simulate_status s ≡ 0
    → (s.cancelled ≡ false) × (s.failures ≡ 0) × (s.unconfirmed ≡ 0) × (s.counts.rejected ≡ 0)
unfolding simulate_status
zero_status s h = ground (arith, h)
