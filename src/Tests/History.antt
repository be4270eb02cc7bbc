-- ===== src/Tests/History.antt =====
-- The theorems on histories at a device with two readings.
use industrial_equipment_mon.Prelude.{
  reverse, List, ◌⊎◌, ◌+◌, ◌*◌, ◌≤◌, ◌≡◌, refl, none, [], ◌∷◌, eq_string, All, length, ltb,
}
use Prim.Native.Nat.{min}
use industrial_equipment_mon.Prelude.Table.{lookup}
use industrial_equipment_mon.Telemetry.Schemas.{seconds}
use industrial_equipment_mon.Db.Models.{Database}
use industrial_equipment_mon.Telemetry.Repository.{new_row}
use industrial_equipment_mon.Telemetry.History.{
  HistoryRow, history_row, DeviceHistory, history, aware, matching, read_device_history,
  history_points, max_connected_gap,
}
use industrial_equipment_mon.Telemetry.History.Newest.{Ordered, IsFrom, IsUnwanted, IsPlaced}
use industrial_equipment_mon.Telemetry.History.Points.{history_window, segment_misses_nothing}
use industrial_equipment_mon.Tests.Samples.{reading, plant, press, server}

abbrev first : HistoryRow
first = history_row (new_row server 1 1 (reading 1 20))

abbrev second : HistoryRow
second = history_row (new_row server 2 1 (reading 2 21))

abbrev recorded : Database
recorded = record plant {
  telemetry = new_row server 1 1 (reading 1 20) ∷ new_row server 2 1 (reading 2 21) ∷ [];
}

history_window_example :
    (h : DeviceHistory) × (rows : List HistoryRow) × (read_device_history recorded "press"
        (aware (seconds 1000))
        (aware (seconds 2000))
      ≡ history h)
    × (h.points ≡ history_points none (reverse rows))
    × Ordered rows
    × All (IsFrom "press" (seconds 1000) (seconds 2000) recorded.telemetry) rows
    × All
        (λ row.
          IsUnwanted "press" (seconds 1000) (seconds 2000) row
          ⊎ IsPlaced 2000 rows (history_row row))
        recorded.telemetry
    × (length h.points
        ≡ min 2000 (length (matching "press" (seconds 1000) (seconds 2000) recorded.telemetry)))
    × (h.truncated
        ≡ ltb 2000 (length (matching "press" (seconds 1000) (seconds 2000) recorded.telemetry)))
unfolding lookup
history_window_example =
    history_window recorded "press" (seconds 1000) (seconds 2000) press refl refl

two_points : length (matching "press" (seconds 1000) (seconds 2000) recorded.telemetry) ≡ 2
unfolding matching
two_points = refl

segment_misses_nothing_example :
    (second.boot_id ≡ first.boot_id)
    × (second.sequence_number ≡ first.sequence_number + length (second ∷ []))
    × (second.event_at ≤ first.event_at + length (second ∷ []) * max_connected_gap)
unfolding history_points
segment_misses_nothing_example = segment_misses_nothing first (second ∷ []) (refl, tt)
