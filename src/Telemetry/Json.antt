-- ===== src/Telemetry/Json.antt =====
-- The values that `json.loads` makes in telemetry/validation.py, where every number with a fraction or
-- an exponent is a `Decimal`, and the hook that refuses an object with a repeated member.
use industrial_equipment_mon.Prelude.{
  String, Bool, true, false, ◌&&◌, ◌||◌, not, Option, none, some, List, [], ◌∷◌, str_eq,
  if◌then◌else◌,
}
use industrial_equipment_mon.Decimal.{ℤ, Decimal}

mutual
  pub data Value : Type 0 where
    null : Value
    boolean : Bool → Value
    integer : ℤ → Value
    decimal : Decimal → Value
    text : String → Value
    array : Items → Value
    object : Members → Value

  pub data Items : Type 0 where
    nil : Items
    cons : Value → Items → Items

  pub data Members : Type 0 where
    end : Members
    member : String → Value → Members → Members

-- `raw.get(key)`
unfoldable pub get : String → Members → Option Value
get key end = none
get key (member k v rest) = if str_eq k key then some v else get key rest

unfoldable pub has_key : String → Members → Bool
has_key key end = false
has_key key (member k v rest) = if str_eq k key then true else has_key key rest

unfoldable pub values : Items → List Value
values nil = []
values (cons v rest) = v ∷ values rest

-- Whether a member is there that the model does not declare.
unfoldable pub has_other_keys : (String → Bool) → Members → Bool
has_other_keys known end = false
has_other_keys known (member k v rest) = not (known k) || has_other_keys known rest

-- `_unique_object`, applied to every object of the text.
unfoldable mutual
  pub is_unique : Value → Bool
  is_unique (array items) = are_unique items
  is_unique (object members) = unique_members members
  is_unique null = true
  is_unique (boolean b) = true
  is_unique (integer n) = true
  is_unique (decimal d) = true
  is_unique (text s) = true

  pub are_unique : Items → Bool
  are_unique nil = true
  are_unique (cons v rest) = is_unique v && are_unique rest

  pub unique_members : Members → Bool
  unique_members end = true
  unique_members (member k v rest) = not (has_key k rest) && is_unique v && unique_members rest
