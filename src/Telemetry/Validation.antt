-- ===== src/Telemetry/Validation.antt =====
-- telemetry/validation.py over the models of telemetry/schemas.py, first part: what each field of an
-- event admits. Pydantic's reading of a text that has the timestamp's form is a parameter.
pub mod Item
pub mod Batch
use Prim.Native.Char.{code}
use industrial_equipment_mon.Prelude.{
  ℕ, zero, suc, String, Bool, true, false, ◌&&◌, ◌||◌, not, Option, none, some, leb, nat_eq, str_eq,
  if◌then◌else◌,
}
use industrial_equipment_mon.Decimal.{ℤ, pos, negsuc, Decimal}
use industrial_equipment_mon.Telemetry.Json.{
  Value, null, boolean, integer, decimal, text, array, object, Members, get, has_other_keys,
}
use industrial_equipment_mon.Telemetry.Schemas.{
  max_identifier_length, max_counter, ClockQuality, synchronised, unsynchronised, estimated,
  unknown, Reading, valid, Metric, temperature, TemperatureUnit, celsius, TelemetryQuality,
}

-- The digits that the pattern language knows, and the instant in UTC of a text with a timestamp's
-- form, where there is one.
pub record Instants : Type 0 where
  pub is_digit : ℕ → Bool
  pub to_utc : String → Option ℕ

abbrev pub count : String → ℕ
count String.[] = 0
count (String.◌∷◌ c s) = suc (count s)

abbrev pub has_nul : String → Bool
has_nul String.[] = false
has_nul (String.◌∷◌ c s) = nat_eq (code c) 0 || has_nul s

-- What a field's validator says: its value, the error of a `Literal`, or another error.
pub data Field (A : Type 0) : Type 0 where
  good : A → Field A
  literal_error : Field A
  other_error : Field A

abbrev pub good_or_none : {A : Type 0} → Field A → Option A
good_or_none (good a) = some a
good_or_none literal_error = none
good_or_none other_error = none

-- A required field.
abbrev pub field : {A : Type 0} → (Value → Field A) → Option Value → Field A
field read none = other_error
field read (some v) = read v

abbrev pub is_identifier : String → Bool
is_identifier s = leb 1 (count s) && leb (count s) max_identifier_length && not (has_nul s)

unfoldable pub identifier_of : Value → Field String
identifier_of (text s) = if is_identifier s then good s else other_error
identifier_of _ = other_error

unfoldable pub counter_of : Value → Field ℕ
counter_of (integer (pos n)) = if leb n max_counter then good n else other_error
counter_of _ = other_error

-- `TIMESTAMP_PATTERN`, as a reader of the text's characters.
module _ (i : Instants) where
  abbrev pub character : ℕ → String → Option String
  character k String.[] = none
  character k (String.◌∷◌ c s) = if nat_eq (code c) k then some s else none

  abbrev pub digits : ℕ → String → Option String
  digits zero s = some s
  digits (suc n) String.[] = none
  digits (suc n) (String.◌∷◌ c s) = if i.is_digit (code c) then digits n s else none

  abbrev pub more_digits : String → String
  more_digits String.[] = String.[]
  more_digits (String.◌∷◌ c s) = if i.is_digit (code c) then more_digits s else String.◌∷◌ c s

  infixl 2 ◌>>=◌
  abbrev pub ◌>>=◌ : Option String → (String → Option String) → Option String
  none >>= f = none
  some s >>= f = f s

  abbrev pub pair_after : ℕ → String → Option String
  pair_after separator s = do rest ← character separator s; digits 2 rest

  abbrev pub fraction : String → Option String
  fraction String.[] = some String.[]
  fraction (String.◌∷◌ c s) =
      if nat_eq (code c) 46
      then (do rest ← digits 1 s; some (more_digits rest))
      else some (String.◌∷◌ c s)

  abbrev pub is_end : Option String → Bool
  is_end none = false
  is_end (some String.[]) = true
  is_end (some (String.◌∷◌ c s)) = false

  abbrev pub zone : String → Option String
  zone String.[] = none
  zone (String.◌∷◌ c s) =
      if nat_eq (code c) 90
      then some s
      else if nat_eq (code c) 43 || nat_eq (code c) 45
      then (do minutes ← digits 2 s; pair_after 58 minutes)
      else none

  unfoldable pub matches_timestamp : String → Bool
  matches_timestamp s = is_end (do
    month ← digits 4 s
    day ← pair_after 45 month
    time ← pair_after 45 day
    minutes ← pair_after 84 time
    second ← pair_after 58 minutes
    rest ← pair_after 58 second
    offset ← fraction rest
    zone offset)

  abbrev instant : Option ℕ → Field ℕ
  instant none = other_error
  instant (some at) = good at

  unfoldable pub timestamp_of : Value → Field ℕ
  unfolding matches_timestamp
  timestamp_of (text s) = if matches_timestamp s then instant (i.to_utc s) else other_error
  timestamp_of _ = other_error

  abbrev present : Field ℕ → Field (Option ℕ)
  present (good at) = good (some at)
  present literal_error = other_error
  present other_error = other_error

  unfoldable pub optional_timestamp_of : Value → Field (Option ℕ)
  unfolding timestamp_of
  optional_timestamp_of null = good none
  optional_timestamp_of v = present (timestamp_of v)

unfoldable pub metric_of : Value → Field Metric
metric_of (text s) = if str_eq s "temperature" then good temperature else literal_error
metric_of _ = literal_error

unfoldable pub unit_of : Value → Field TemperatureUnit
unit_of (text s) = if str_eq s "celsius" then good celsius else literal_error
unit_of _ = literal_error

-- `require_number`: every number of a JSON text is finite here.
unfoldable pub temperature_of : Value → Field Decimal
temperature_of (integer n) = good (record { mantissa = n; scale = 0 })
temperature_of (decimal d) = good d
temperature_of _ = other_error

abbrev pub reading_of : Value → Field Reading
reading_of (text s) = if str_eq s "valid" then good valid else literal_error
reading_of _ = literal_error

abbrev pub clock_of : Value → Field ClockQuality
clock_of (text s) =
    if str_eq s "synchronised"
    then good synchronised
    else if str_eq s "unsynchronised"
    then good unsynchronised
    else if str_eq s "estimated"
    then good estimated
    else if str_eq s "unknown"
    then good unknown
    else literal_error
clock_of _ = literal_error

abbrev both : Bool → Field Reading → Field ClockQuality → Field TelemetryQuality
both false (good reading) (good clock) = good (record { reading = reading; clock = clock })
both _ _ _ = other_error

abbrev is_quality_key : String → Bool
is_quality_key k = str_eq k "reading" || str_eq k "clock"

-- The nested model. Its errors all stand under "quality", so that their kinds are not told apart.
unfoldable pub quality_of : Value → Field TelemetryQuality
quality_of (object m) =
    both (has_other_keys is_quality_key m) (field reading_of (get "reading" m))
      (field clock_of (get "clock" m))
quality_of _ = other_error
