-- ===== src/Telemetry/History/Points.antt =====
-- What a history shows: a bounded, ordered window, and unbroken segments that miss no reading.
use industrial_equipment_mon.Prelude.{
  sym, ◌⊎◌, ℕ, suc, ◌+◌, ◌*◌, ◌≤◌, ◌<◌, ◌≡◌, ◌↔◌, refl, ap, ◌∙◌, inl, inr, String, true, false,
  Option, none, some, List, [], ◌∷◌, reverse, arith, All, length, take, Bool-cases, length-take,
  str_eq_iff, ltb, eq_string, length-append,
}
use Prim.Native.Nat.{min}
use mathlib.Core.Path.{subst}
use industrial_equipment_mon.Telemetry.History.Newest.{
  Ordered, IsFrom, IsUnwanted, IsPlaced, newest_rows, take-take,
}
use mathlib.Core.List.{reverse-append}
use industrial_equipment_mon.Prelude.Table.{lookup}
use industrial_equipment_mon.Telemetry.Schemas.{celsius}
use industrial_equipment_mon.Db.Models.{Device, Database}
use industrial_equipment_mon.Telemetry.History.{
  history_row, HistoryRow, HistoryPoint, DeviceHistory, history, invalid_range, naive, aware,
  matching, newest_first, insert_ordered, read_history_rows, read_aware, read_device_history,
  history_points, is_valid_range, max_points, max_connected_gap, QueryTime,
}

-- The rows that a history shows, the newest first.
abbrev newest : Database → String → ℕ → ℕ → List HistoryRow
newest db device_id start end =
    take max_points (read_history_rows db device_id start end (max_points + 1))

length-insert_ordered :
    (x : HistoryRow) (ys : List HistoryRow) → length (insert_ordered x ys) ≡ suc (length ys)
unfolding insert_ordered
length-insert_ordered x [] = refl
length-insert_ordered x (y ∷ ys) = ground (arith, length-insert_ordered x ys)

length-newest_first : (xs : List HistoryRow) → length (newest_first xs) ≡ length xs
unfolding newest_first
length-newest_first [] = refl
length-newest_first (x ∷ xs) =
    omega (arith, length-insert_ordered x (newest_first xs), length-newest_first xs)

length-reverse : (xs : List HistoryRow) → length (reverse xs) ≡ length xs
length-reverse [] = refl
length-reverse (x ∷ xs) =
    rw (reverse-append (x ∷ []) xs)
      (omega (arith, length-append (reverse xs) (x ∷ []), length-reverse xs))

length-history_points :
    (previous : Option HistoryRow) (rows : List HistoryRow)
    → length (history_points previous rows) ≡ length rows
unfolding history_points
length-history_points previous [] = refl
length-history_points previous (x ∷ xs) = ap suc (length-history_points (some x) xs)

-- What the read rows are, against the rows of the table.
newest_lem :
    (db : Database) (device_id : String) (start end : ℕ)
    → Ordered (newest db device_id start end)
      × All (IsFrom device_id start end db.telemetry) (newest db device_id start end)
      × All
          (λ row.
            IsUnwanted device_id start end row
            ⊎ IsPlaced 2000 (newest db device_id start end) (history_row row))
          db.telemetry
unfolding read_history_rows
newest_lem db device_id start end =
    subst
      (λ rows.
        Ordered rows
        × All (IsFrom device_id start end db.telemetry) rows
        × All (λ row. IsUnwanted device_id start end row ⊎ IsPlaced 2000 rows (history_row row))
            db.telemetry)
      (sym (take-take 2000 (newest_first (matching device_id start end db.telemetry))))
      (newest_rows 2000 device_id start end db.telemetry)

length-read :
    (db : Database) (device_id : String) (start end limit : ℕ)
    → length (read_history_rows db device_id start end limit)
      ≡ min limit (length (matching device_id start end db.telemetry))
unfolding read_history_rows
length-read db device_id start end limit =
    length-take limit (newest_first (matching device_id start end db.telemetry))
    ∙ ap (min limit) (length-newest_first (matching device_id start end db.telemetry))

length-newest :
    (db : Database) (device_id : String) (start end : ℕ)
    → length (newest db device_id start end)
      ≡ min max_points (length (matching device_id start end db.telemetry))
length-newest db device_id start end =
    let rows = read_history_rows db device_id start end (max_points + 1) in
    let b = length-take max_points rows in
    let c = length-read db device_id start end (max_points + 1) in omega (arith, b, c)

truncated_exact :
    (db : Database) (device_id : String) (start end : ℕ)
    → ltb max_points (length (read_history_rows db device_id start end (max_points + 1)))
      ≡ ltb max_points (length (matching device_id start end db.telemetry))
truncated_exact db device_id start end =
    ground (arith, length-read db device_id start end (max_points + 1))

-- For a registered device and a range with timezones, in order and of at most seven days: the points of
-- the history are those of some rows, from the oldest to the newest by time and then by number, at most
-- 2000 and as many as match. Each of them is a row of the table that is of this device and in the range;
-- and each row of the table that is of the device and in the range is among them, or there are 2000 of
-- them and it is newer than none. The history says that it is truncated exactly when more rows match.
pub history_window :
    (db : Database) (device_id : String) (start end : ℕ) (d : Device)
    → is_valid_range start end ≡ true
    → lookup device_id db.devices ≡ some d
    → (h : DeviceHistory) × (rows : List HistoryRow) × (read_device_history db device_id
          (aware start)
          (aware end)
        ≡ history h)
      × (h.points ≡ history_points none (reverse rows))
      × Ordered rows
      × All (IsFrom device_id start end db.telemetry) rows
      × All
          (λ row. IsUnwanted device_id start end row ⊎ IsPlaced 2000 rows (history_row row))
          db.telemetry
      × (length h.points ≡ min 2000 (length (matching device_id start end db.telemetry)))
      × (h.truncated ≡ ltb 2000 (length (matching device_id start end db.telemetry)))
unfolding read_device_history read_aware
history_window db device_id start end d valid known =
    let rows = newest db device_id start end in
    let (ordered, from, placed) = newest_lem db device_id start end in
    (
      record {
        device_id = device_id;
        unit = celsius;
        range_start = start;
        range_end = end;
        truncated =
            ltb max_points (length (read_history_rows db device_id start end (max_points + 1)));
        points = history_points none (reverse rows);
      },
      rows,
      rw (valid, known),
      refl,
      ordered,
      from,
      placed,
      length-history_points none (reverse rows)
          ∙ length-reverse rows
          ∙ length-newest db device_id start end,
      truncated_exact db device_id start end,
    )

abbrev pub last_row : HistoryRow → List HistoryRow → HistoryRow
last_row x [] = x
last_row x (y ∷ ys) = last_row y ys

abbrev pub IsConnected : HistoryPoint → Type 0
IsConnected p = p.gap_before ≡ false

-- Where no point after `first` has a gap before it, the last row is of the same boot, its number is
-- the first one's and one more for each row between, so that none is missing, and its time is at
-- most two minutes later for each of them.
pub segment_misses_nothing :
    (first : HistoryRow) (rows : List HistoryRow)
    → All IsConnected (history_points (some first) rows)
    → ((last_row first rows).boot_id ≡ first.boot_id)
      × ((last_row first rows).sequence_number ≡ first.sequence_number + length rows)
      × ((last_row first rows).event_at ≤ first.event_at + length rows * max_connected_gap)
unfolding history_points
segment_misses_nothing first [] h = (refl, omega arith, omega arith)
segment_misses_nothing first (x ∷ xs) h =
    let rest = segment_misses_nothing x xs h.1 in
    let same : x.boot_id ≡ first.boot_id = ground (arith, str_eq_iff x.boot_id first.boot_id) in
    let next : x.sequence_number ≡ first.sequence_number + 1 = ground arith in
    let near : x.event_at ≤ first.event_at + max_connected_gap = ground arith in
    (rest.0 ∙ same, omega arith, omega arith)

pub data IsRefused : QueryTime → QueryTime → Type 0 where
  naive_start : (a : ℕ) (end : QueryTime) → IsRefused (naive a) end
  naive_end : (a b : ℕ) → IsRefused (aware a) (naive b)
  out_of_order : (a b : ℕ) → b ≤ a → IsRefused (aware a) (aware b)
  too_long : (a b : ℕ) → a + 604800000000 < b → IsRefused (aware a) (aware b)

IsRefused-refuses :
    (db : Database) (device_id : String) (start end : QueryTime)
    → IsRefused start end
    → read_device_history db device_id start end ≡ invalid_range
unfolding read_device_history read_aware
IsRefused-refuses db device_id start end (naive_start a _) = refl
IsRefused-refuses db device_id start end (naive_end a b) = refl
IsRefused-refuses db device_id start end (out_of_order a b h) = ground arith
IsRefused-refuses db device_id start end (too_long a b h) = ground arith

invalid_range-IsRefused :
    (db : Database) (device_id : String) (start end : QueryTime)
    → read_device_history db device_id start end ≡ invalid_range
    → IsRefused start end
unfolding read_device_history read_aware
invalid_range-IsRefused db device_id (naive a) end h = naive_start a end
invalid_range-IsRefused db device_id (aware a) (naive b) h = naive_end a b
invalid_range-IsRefused db device_id (aware a) (aware b) h =
    elim (Bool-cases (is_valid_range a b)) [
      | inl valid ↦ absurd (ground arith)
      | inr invalid ↦ elim (Bool-cases (ltb a b)) [
        | inl ordered ↦ too_long a b (ground arith)
        | inr reversed ↦ out_of_order a b (ground arith)
      ]
    ]

-- A range is refused exactly when a bound has no timezone, the end is not after the start, or it is
-- longer than seven days, whatever the tables hold.
history_refusals :
    (db : Database) (device_id : String) (start end : QueryTime)
    → (read_device_history db device_id start end ≡ invalid_range) ↔ IsRefused start end
history_refusals db device_id start end =
    (invalid_range-IsRefused db device_id start end, IsRefused-refuses db device_id start end)
