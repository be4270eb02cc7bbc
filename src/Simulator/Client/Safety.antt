-- ===== src/Simulator/Client/Safety.antt =====
-- What the client has seen where it reports outcomes.
use industrial_equipment_mon.Prelude.{
  ap, sym, Bool, ◌&&◌, ◌≡◌, refl, ◌∙◌, ◌⊎◌, inl, inr, String, true, false, some, List, [], ◌∷◌,
  length, arith, nat_eq, str_eq, str_eq_iff, Bool-cases, Option-cases,
}
use mathlib.Core.Path.{subst}
use industrial_equipment_mon.Prelude.Texts.{concat}
use industrial_equipment_mon.Telemetry.Json.{
  Value, null, boolean, integer, decimal, text, array, object, Items, Members, get, values,
}
use industrial_equipment_mon.Decimal.{ℤ, pos, negsuc, eq_decimal}
use industrial_equipment_mon.Simulator.Client.{
  py_eq, same_type, echoes, or_null, is_blank, echoes_identity, rejection, confirmation, outcome_of,
  classify_item, classify_items, classify_results, classify_response, is_batch_id,
}

-- The same value of the same type.
abbrev pub IsSame : Value → Value → Type 0
IsSame null null = Unit
IsSame (boolean a) (boolean b) = a ≡ b
IsSame (integer m) (integer n) = m ≡ n
IsSame (decimal d) (decimal e) = eq_decimal d e ≡ true
IsSame (text s) (text t) = s ≡ t
IsSame (array xs) (array ys) = py_eq (array xs) (array ys) ≡ true
IsSame (object m) (object n) = py_eq (object m) (object n) ≡ true
IsSame _ _ = ⊥

-- The result has the member, with the event's value, or `null` where the event has none.
abbrev pub Repeats : String → Members → Members → Type 0
Repeats key source result =
    (v : Value) × (get key result ≡ some v) × IsSame v (or_null (get key source))

-- What is reported of an outcome and a reason: a confirmation has no reason, a rejection has one.
abbrev pub IsOutcome : Value → Value → String → Type 0
IsOutcome outcome reason o =
    ((outcome ≡ text "accepted") × (reason ≡ null) × (o ≡ "accepted"))
    ⊎ ((outcome ≡ text "duplicate") × (reason ≡ null) × (o ≡ "duplicate"))
    ⊎ ((why : String) × (outcome ≡ text "rejected")
        × (reason ≡ text why)
        × (is_blank why ≡ false)
        × (o ≡ concat "rejected" (concat ":" why)))

-- The result is an object that repeats the identity of the event, and what is reported is its outcome.
abbrev pub Backs : Members → Value → String → Type 0
Backs source v o =
    (result : Members) × (v ≡ object result)
    × Repeats "device_id" source result
    × Repeats "boot_id" source result
    × Repeats "sequence_number" source result
    × IsOutcome (or_null (get "outcome" result)) (or_null (get "reason" result)) o

abbrev pub BackAll : List Members → List Value → List String → Type 0
BackAll (m ∷ ms) (v ∷ vs) (o ∷ os) = Backs m v o × BackAll ms vs os
BackAll [] [] [] = Unit
BackAll _ _ _ = ⊥

same_number : (m n : ℤ) → py_eq (integer m) (integer n) ≡ true → m ≡ n
unfolding py_eq eq_decimal
same_number (pos a) (pos b) h = let same : a ≡ b = ground (arith, h) in ap pos same
same_number (negsuc a) (negsuc b) h = let same : a ≡ b = ground (arith, h) in ap negsuc same
same_number (pos a) (negsuc b) h = absurd (cc)
same_number (negsuc a) (pos b) h = absurd (cc)

same_truth : (a b : Bool) → py_eq (boolean a) (boolean b) ≡ true → a ≡ b
unfolding py_eq eq_decimal
same_truth true true h = refl
same_truth false false h = refl
same_truth true false h = absurd (cc)
same_truth false true h = absurd (cc)

value-IsSame : (v w : Value) → py_eq v w ≡ true → same_type v w ≡ true → IsSame v w
unfolding py_eq
value-IsSame null null h k = tt
value-IsSame (boolean a) (boolean b) h k = same_truth a b h
value-IsSame (integer m) (integer n) h k = same_number m n h
value-IsSame (decimal d) (decimal e) h k = h
value-IsSame (text s) (text t) h k = (str_eq_iff s t).0 h
value-IsSame (array xs) (array ys) h k = h
value-IsSame (object m) (object n) h k = h
value-IsSame _ _ h k = absurd (cc)

echo-Repeats :
    (key : String) (source result : Members)
    → echoes (get key result) (or_null (get key source)) ≡ true
    → Repeats key source result
echo-Repeats key source result h = elim (Option-cases (get key result)) [
  | inl missing ↦ absurd (cc (rw missing at h))
  | inr (v, there) ↦
      let h' = rw there at h in
      (
        v,
        there,
        value-IsSame v (or_null (get key source)) (ground (arith, h')) (ground (arith, h')),
      )
]

rejection-IsOutcome :
    (v : Value) (o : String) → rejection v ≡ some o → IsOutcome (text "rejected") v o
rejection-IsOutcome (text reason) o h = elim (Bool-cases (is_blank reason)) [
  | inl blank ↦ absurd (cc (rw blank at h))
  | inr there ↦ inr (inr (reason, refl, refl, there, cc (rw there at h)))
]
rejection-IsOutcome _ o h = absurd (cc)

confirmation-same : (t o : String) (v : Value) → confirmation t v ≡ some o → (v ≡ null) × (o ≡ t)
confirmation-same t o null h = (refl, cc)
confirmation-same t o _ h = absurd (cc)

outcome_of-IsOutcome :
    (v reason : Value) (o : String) → outcome_of v reason ≡ some o → IsOutcome v reason o
outcome_of-IsOutcome (text t) reason o h = elim (Bool-cases (str_eq t "rejected")) [
  | inl refused ↦
      subst (λ x. IsOutcome (text x) reason o) (sym ((str_eq_iff t "rejected").0 refused))
        (rejection-IsOutcome reason o (rw refused at h))
  | inr other ↦ elim (Bool-cases (str_eq t "accepted")) [
    | inl first ↦
        let (bare, same) = confirmation-same t o reason (rw (other, first) at h) in
        let named = (str_eq_iff t "accepted").0 first in inl (ap text named, bare, same ∙ named)
    | inr not_first ↦ elim (Bool-cases (str_eq t "duplicate")) [
      | inl again ↦
          let (bare, same) = confirmation-same t o reason (rw (other, not_first, again) at h) in
          let named = (str_eq_iff t "duplicate").0 again in
          inr (inl (ap text named, bare, same ∙ named))
      | inr unknown ↦ absurd (cc (rw (other, not_first, unknown) at h))
    ]
  ]
]
outcome_of-IsOutcome _ reason o h = absurd (cc)

both : (a b : Bool) → (a && b) ≡ true → (a ≡ true) × (b ≡ true)
both true b h = (refl, h)
both false b h = absurd (cc)

-- The identities of a result that repeats them all.
identity-Repeats :
    (source result : Members)
    → echoes_identity source result ≡ true
    → Repeats "device_id" source result
      × Repeats "boot_id" source result
      × Repeats "sequence_number" source result
unfolding echoes_identity
identity-Repeats source result h =
    let device = echoes (get "device_id" result) (or_null (get "device_id" source)) in
    let boot = echoes (get "boot_id" result) (or_null (get "boot_id" source)) in
    let number = echoes (get "sequence_number" result) (or_null (get "sequence_number" source)) in
    let (others, three) = both (device && boot) number h in
    let (one, two) = both device boot others in
    (
      echo-Repeats "device_id" source result one,
      echo-Repeats "boot_id" source result two,
      echo-Repeats "sequence_number" source result three,
    )

item-Backs :
    (source : Members) (v : Value) (o : String) → classify_item source v ≡ some o → Backs source v o
unfolding classify_item
item-Backs source (object result) o h = elim (Bool-cases (echoes_identity source result)) [
  | inr other ↦ absurd (cc (rw other at h))
  | inl same ↦
      let (device, boot, number) = identity-Repeats source result same in
      (
        result,
        refl,
        device,
        boot,
        number,
        outcome_of-IsOutcome (or_null (get "outcome" result)) (or_null (get "reason" result)) o
            (rw same at h),
      )
]
item-Backs source _ o h = absurd (cc)

items-BackAll :
    (events : List Members) (vs : List Value) (os : List String)
    → classify_items events vs ≡ some os
    → BackAll events vs os
unfolding classify_items
items-BackAll [] [] os h = let same : [] ≡ os = cc in subst (BackAll [] []) same tt
items-BackAll [] (v ∷ vs) os h = absurd (cc)
items-BackAll (m ∷ ms) [] os h = absurd (cc)
items-BackAll (m ∷ ms) (v ∷ vs) os h = elim (Option-cases (classify_item m v)) [
  | inl bad ↦ absurd (cc (rw bad at h))
  | inr (o, first) ↦ elim (Option-cases (classify_items ms vs)) [
    | inl bad ↦ absurd (cc (rw (first, bad) at h))
    | inr (rest, others) ↦
        let same : (o ∷ rest) ≡ os = cc (rw (first, others) at h) in
        subst (BackAll (m ∷ ms) (v ∷ vs)) same
          (item-Backs m v o first, items-BackAll ms vs rest others)
  ]
]

-- A response in which the client reads outcomes.
pub record IsResponse (events : List Members) (v : Value) (os : List String) : Type 0 where
  pub response : Members
  pub batch_id : String
  pub results : Items
  pub is_object : v ≡ object response
  pub has_batch_id : or_null (get "batch_id" response) ≡ text batch_id
  pub named : is_blank batch_id ≡ false
  pub has_results : or_null (get "results" response) ≡ array results
  pub each : BackAll events (values results) os

batch_id_text :
    (v : Value) → is_batch_id v ≡ true → (s : String) × (v ≡ text s) × (is_blank s ≡ false)
batch_id_text (text s) h = (s, refl, ground arith)
batch_id_text null h = absurd (cc)
batch_id_text (boolean b) h = absurd (cc)
batch_id_text (integer n) h = absurd (cc)
batch_id_text (decimal d) h = absurd (cc)
batch_id_text (array xs) h = absurd (cc)
batch_id_text (object m) h = absurd (cc)

results_back :
    (events : List Members) (v : Value) (os : List String)
    → classify_results events v ≡ some os
    → (items : Items) × (v ≡ array items) × BackAll events (values items) os
results_back events (array items) os h =
    elim (Bool-cases (nat_eq (length (values items)) (length events))) [
      | inl same ↦ (items, refl, items-BackAll events (values items) os (rw same at h))
      | inr other ↦ absurd (cc (rw other at h))
    ]
results_back events null os h = absurd (cc)
results_back events (boolean b) os h = absurd (cc)
results_back events (integer n) os h = absurd (cc)
results_back events (decimal d) os h = absurd (cc)
results_back events (text t) os h = absurd (cc)
results_back events (object m) os h = absurd (cc)

-- Whatever the server sends: where the client reports outcomes, the response is an object with a batch
-- identifier that is not empty and a list of results, one for each event in order. Each result is an
-- object that repeats its event's three identities by value and type, and what is reported is the
-- result's outcome: accepted or duplicate without a reason, or rejected with a reason that is not empty.
pub reports_backed :
    (events : List Members) (v : Value) (os : List String)
    → classify_response events v ≡ some os
    → IsResponse events v os
unfolding classify_response
reports_backed events (object m) os h =
    elim (Bool-cases (is_batch_id (or_null (get "batch_id" m)))) [
      | inr nameless ↦ absurd (cc (rw nameless at h))
      | inl named ↦
          let (s, found_id, there) = batch_id_text (or_null (get "batch_id" m)) named in
          let (items, found, each) =
            results_back events (or_null (get "results" m)) os (rw named at h) in
          record {
            response = m;
            batch_id = s;
            results = items;
            is_object = refl;
            has_batch_id = found_id;
            named = there;
            has_results = found;
            each = each;
          }
    ]
reports_backed events null os h = absurd (cc)
reports_backed events (boolean b) os h = absurd (cc)
reports_backed events (integer n) os h = absurd (cc)
reports_backed events (decimal d) os h = absurd (cc)
reports_backed events (text t) os h = absurd (cc)
reports_backed events (array xs) os h = absurd (cc)
