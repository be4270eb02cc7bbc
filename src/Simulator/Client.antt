-- ===== src/Simulator/Client.antt =====
-- simulator/send_batch.py: what a client of the batch route accepts as a confirmation. Members of an
-- object have different names, as those of a Python dict; a number with a fraction stands as its exact
-- value.
pub mod Response
pub mod Identity
pub mod Confirmed
pub mod Safety
use industrial_equipment_mon.Prelude.{
  ℕ, String, Bool, true, false, ◌&&◌, ◌||◌, not, Option, none, some, List, [], ◌∷◌, str_eq, nat_eq,
  length, if◌then◌else◌,
}
use industrial_equipment_mon.Prelude.Texts.{concat}
use industrial_equipment_mon.Decimal.{ℤ, pos, negsuc, Decimal, eq_decimal}
use industrial_equipment_mon.Telemetry.Json.{
  Value, null, boolean, integer, decimal, text, array, object, Items, nil, cons, Members, end,
  member, get, has_key, values,
}

abbrev pub number : Value → Option Decimal
number (boolean true) = some (record { mantissa = pos 1; scale = 0 })
number (boolean false) = some (record { mantissa = pos 0; scale = 0 })
number (integer n) = some (record { mantissa = n; scale = 0 })
number (decimal d) = some d
number _ = none

abbrev pub numbers_equal : Option Decimal → Option Decimal → Bool
numbers_equal (some a) (some b) = eq_decimal a b
numbers_equal _ _ = false

abbrev pub size : Members → ℕ
size end = 0
size (member k v rest) = ℕ.suc (size rest)

-- `source.get(field)`
abbrev pub or_null : Option Value → Value
or_null none = null
or_null (some v) = v

-- Python's `==` on the values of a JSON text: 1, 1.0 and True are equal, and so are two objects with
-- equal members in any order.
unfoldable mutual
  pub py_eq : Value → Value → Bool
  py_eq null null = true
  py_eq null _ = false
  py_eq (text s) (text t) = str_eq s t
  py_eq (text s) _ = false
  py_eq (array xs) (array ys) = items_eq xs ys
  py_eq (array xs) _ = false
  py_eq (object m) (object n) = nat_eq (size m) (size n) && members_eq m n
  py_eq (object m) _ = false
  py_eq (boolean b) w = numbers_equal (number (boolean b)) (number w)
  py_eq (integer n) w = numbers_equal (number (integer n)) (number w)
  py_eq (decimal d) w = numbers_equal (number (decimal d)) (number w)

  pub items_eq : Items → Items → Bool
  items_eq nil nil = true
  items_eq nil (cons w ys) = false
  items_eq (cons v xs) nil = false
  items_eq (cons v xs) (cons w ys) = py_eq v w && items_eq xs ys

  pub members_eq : Members → Members → Bool
  members_eq end n = true
  members_eq (member k v rest) n = has_key k n && py_eq v (or_null (get k n)) && members_eq rest n

-- `type(v) is type(w)`
abbrev pub same_type : Value → Value → Bool
same_type null null = true
same_type (boolean a) (boolean b) = true
same_type (integer a) (integer b) = true
same_type (decimal a) (decimal b) = true
same_type (text a) (text b) = true
same_type (array a) (array b) = true
same_type (object a) (object b) = true
same_type _ _ = false

abbrev pub echoes : Option Value → Value → Bool
echoes none source = false
echoes (some v) source = py_eq v source && same_type v source

unfoldable pub echoes_identity : Members → Members → Bool
echoes_identity source result =
    echoes (get "device_id" result) (or_null (get "device_id" source))
    && echoes (get "boot_id" result) (or_null (get "boot_id" source))
    && echoes (get "sequence_number" result) (or_null (get "sequence_number" source))

abbrev pub is_blank : String → Bool
is_blank String.[] = true
is_blank (String.◌∷◌ c s) = false

abbrev pub rejection : Value → Option String
rejection (text reason) =
    if is_blank reason then none else some (concat "rejected" (concat ":" reason))
rejection _ = none

abbrev pub confirmation : String → Value → Option String
confirmation outcome null = some outcome
confirmation outcome _ = none

abbrev pub outcome_of : Value → Value → Option String
outcome_of (text outcome) reason =
    if str_eq outcome "rejected"
    then rejection reason
    else if str_eq outcome "accepted" || str_eq outcome "duplicate"
    then confirmation outcome reason
    else none
outcome_of _ reason = none

-- One turn of the loop; `none` is the ValueError.
unfoldable pub classify_item : Members → Value → Option String
unfolding echoes_identity
classify_item source (object result) =
    if echoes_identity source result
    then outcome_of (or_null (get "outcome" result)) (or_null (get "reason" result))
    else none
classify_item source _ = none

abbrev pub add_outcome : Option String → Option (List String) → Option (List String)
add_outcome (some outcome) (some outcomes) = some (outcome ∷ outcomes)
add_outcome (some outcome) none = none
add_outcome none outcomes = none

unfoldable pub classify_items : List Members → List Value → Option (List String)
classify_items (source ∷ events) (result ∷ results) =
    add_outcome (classify_item source result) (classify_items events results)
classify_items [] [] = some []
classify_items _ _ = none

abbrev pub is_batch_id : Value → Bool
is_batch_id (text s) = not (is_blank s)
is_batch_id _ = false

abbrev pub classify_results : List Members → Value → Option (List String)
classify_results events (array items) =
    if nat_eq (length (values items)) (length events)
    then classify_items events (values items)
    else none
classify_results events _ = none

unfoldable pub classify_response : List Members → Value → Option (List String)
unfolding classify_items
classify_response events (object response) =
    if is_batch_id (or_null (get "batch_id" response))
    then classify_results events (or_null (get "results" response))
    else none
classify_response events _ = none
