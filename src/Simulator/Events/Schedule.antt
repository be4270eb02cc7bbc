-- ===== src/Simulator/Events/Schedule.antt =====
-- The events of a run: their number, their bounds on the wire, and their batches.
use industrial_equipment_mon.Prelude.{
  ℕ, zero, suc, ◌+◌, ◌-◌, ◌*◌, ◌≤◌, ◌<◌, ◌^◌, ◌≡◌, refl, sym, ap, ◌∙◌, inl, inr, true, some, List,
  [], ◌∷◌, ◌++◌, String, arith, length, take, drop, All, All-imp, Bool-cases, length-take,
}
use native.Mathlib.Nat.{mul-le-mul_right}
use industrial_equipment_mon.Simulator.Events.{
  Scenario, Sample, is_scenario, is_integer, sample, starts_boot, samples_from, generate_events,
  slices, batches,
}

-- What the wire contract and the calendar ask of a sample, for a run of `last + 1` events.
abbrev pub IsWithin : Scenario → ℕ → Sample → Type 0
IsWithin s last x =
    (x.sequence_number ≤ last)
    × (x.device_uptime_ms ≤ last * s.interval_ms)
    × (x.measured_at ≤ s.start_time + last * s.interval_ms * 1000)

module _ (derive : Scenario → ℕ → String) (s : Scenario) where
  sample-IsWithin :
      (last index boot_number boot_start : ℕ)
      → index ≤ last
      → IsWithin s last (sample derive s index boot_number boot_start)
  sample-IsWithin last index boot_number boot_start h =
      let up : (index - boot_start) * s.interval_ms ≤ last * s.interval_ms =
        mul-le-mul_right s.interval_ms (omega (arith, h)) in
      let at : index * s.interval_ms ≤ last * s.interval_ms = mul-le-mul_right s.interval_ms h in
      (omega (arith, h), up, omega (arith, at))

  samples_from-IsWithin :
      (left index boot_number boot_start last : ℕ)
      → index + left ≤ suc last
      → All (IsWithin s last) (samples_from derive s left index boot_number boot_start)
  unfolding samples_from
  samples_from-IsWithin zero index boot_number boot_start last h = tt
  samples_from-IsWithin (suc left) index boot_number boot_start last h =
      elim (Bool-cases (starts_boot derive s index)) [
        | inl reboot ↦ rw reboot (
          sample-IsWithin last index (suc boot_number) index (omega (arith, h)),
          samples_from-IsWithin left (suc index) (suc boot_number) index last (omega (arith, h)),
        )
        | inr same ↦ rw same (
          sample-IsWithin last index boot_number boot_start (omega (arith, h)),
          samples_from-IsWithin left (suc index) boot_number boot_start last (omega (arith, h)),
        )
      ]

  length-samples_from :
      (left index boot_number boot_start : ℕ)
      → length (samples_from derive s left index boot_number boot_start) ≡ left
  unfolding samples_from
  length-samples_from zero index boot_number boot_start = refl
  length-samples_from (suc left) index boot_number boot_start =
      elim (Bool-cases (starts_boot derive s index)) [
        | inl reboot ↦
            rw reboot (ap suc (length-samples_from left (suc index) (suc boot_number) index))
        | inr same ↦ rw same (ap suc (length-samples_from left (suc index) boot_number boot_start))
      ]

-- The instant and the counters of one sample are within the limits.
abbrev pub IsOnWire : ℕ → Sample → Type 0
IsOnWire last_instant x =
    (x.sequence_number < 2 ^ 63) × (x.device_uptime_ms < 2 ^ 63) × (x.measured_at ≤ last_instant)

-- A scenario that is admitted generates as many events as it says, each with counters below 2^63, as
-- the backend asks, and a time that a datetime can hold, whatever the derived identifiers are.
pub generated-IsOnWire :
    (derive : Scenario → ℕ → String) (s : Scenario) (last_instant : ℕ)
    → is_scenario last_instant s ≡ true
    → (length (generate_events derive s) ≡ s.events)
      × All (IsOnWire last_instant) (generate_events derive s)
unfolding is_scenario generate_events
generated-IsOnWire derive s last_instant h =
    let some_events : 1 ≤ s.events = ground arith in
    let few : s.events ≤ 1000000 = ground arith in
    let short : (s.events - 1) * s.interval_ms < 2 ^ 63 = ground arith in
    let early : s.start_time + (s.events - 1) * s.interval_ms * 1000 ≤ last_instant =
      ground arith in
    (
      length-samples_from derive s s.events 0 0 0,
      All-imp (IsWithin s (s.events - 1)) (IsOnWire last_instant)
          (samples_from derive s s.events 0 0 0)
          (λ x w.
            let (number, uptime, at) = w in
            (omega (arith, number, few), omega (arith, uptime, short), omega (arith, at, early)))
          (samples_from-IsWithin derive s s.events 0 0 0 (s.events - 1)
            (omega (arith, some_events))),
    )

abbrev pub flatten : {A : Type 0} → List (List A) → List A
flatten [] = []
flatten (b ∷ bs) = b ++ flatten bs

take-append-drop : {A : Type 0} (n : ℕ) (xs : List A) → take n xs ++ drop n xs ≡ xs
take-append-drop zero xs = refl
take-append-drop (suc n) [] = refl
take-append-drop (suc n) (x ∷ xs) = ap (λ ys. x ∷ ys) (take-append-drop n xs)

length-drop : {A : Type 0} (n : ℕ) (xs : List A) → length (drop n xs) ≤ length xs
length-drop zero xs = omega arith
length-drop (suc n) [] = omega arith
length-drop (suc n) (x ∷ xs) = omega (arith, length-drop n xs)

slices_cover :
    {A : Type 0} (turns size : ℕ) (xs : List A)
    → length xs ≤ turns
    → (flatten (slices turns (suc size) xs) ≡ xs)
      × All (λ (b : List A). (1 ≤ length b) × (length b ≤ suc size)) (slices turns (suc size) xs)
unfolding slices
slices_cover zero size [] h = (refl, tt)
slices_cover zero size (x ∷ xs) h = absurd (omega (arith, h))
slices_cover (suc turns) size [] h = (refl, tt)
slices_cover (suc turns) size (x ∷ xs) h =
    let shorter = length-drop size xs in
    let taken = length-take size xs in
    let (rest, each) = slices_cover turns size (drop size xs) (omega (arith, h, shorter)) in
    (
      ap (λ ys. x ∷ (take size xs ++ ys)) rest ∙ ap (λ ys. x ∷ ys) (take-append-drop size xs),
      ((omega arith, omega (arith, taken)), each),
    )

-- Any two numbers of turns that are enough give the same slices.
slices_enough :
    {A : Type 0} (turns more size : ℕ) (xs : List A)
    → length xs ≤ turns
    → length xs ≤ more
    → slices turns (suc size) xs ≡ slices more (suc size) xs
unfolding slices
slices_enough zero zero size xs h k = refl
slices_enough zero (suc more) size [] h k = refl
slices_enough (suc turns) zero size [] h k = refl
slices_enough (suc turns) (suc more) size [] h k = refl
slices_enough zero (suc more) size (x ∷ xs) h k = absurd (omega (arith, h))
slices_enough (suc turns) zero size (x ∷ xs) h k = absurd (omega (arith, k))
slices_enough (suc turns) (suc more) size (x ∷ xs) h k =
    let shorter = length-drop size xs in
    ap (λ bs. (x ∷ take size xs) ∷ bs)
      (slices_enough turns more size (drop size xs) (omega (arith, h, shorter))
        (omega (arith, k, shorter)))

-- Batches hold the events in order, none left out, and 1 to `size` of them each, where `size` is 1 to
-- 500.
batches_cover :
    {A : Type 0} (size : ℕ) (events : List A) (bs : List (List A))
    → batches size events ≡ some bs
    → (flatten bs ≡ events)
      × All (λ (b : List A). (1 ≤ length b) × (length b ≤ size)) bs
      × (1 ≤ size)
      × (size ≤ 500)
unfolding batches
batches_cover zero events bs h = absurd (ground arith)
batches_cover (suc size) events bs h = elim (Bool-cases (is_integer (suc size) 1 500)) [
  | inl fits ↦
      let same : slices (length events) (suc size) events ≡ bs = ground arith in
      let (whole, each) = slices_cover (length events) size events (omega arith) in
      (rw (sym same) whole, rw (sym same) each, omega arith, ground arith)
  | inr unfit ↦ absurd (ground arith)
]

-- Where `size` is 1 to 500, whatever the events: slicing ends with batches that hold the events in
-- order, none left out, and 1 to `size` of them each; and any further turns add nothing to them.
pub batches_end :
    {A : Type 0} (size turns : ℕ) (events : List A)
    → is_integer size 1 500 ≡ true
    → length events ≤ turns
    → (bs : List (List A)) × (batches size events ≡ some bs)
      × (slices turns size events ≡ bs)
      × (flatten bs ≡ events)
      × All (λ (b : List A). (1 ≤ length b) × (length b ≤ size)) bs
unfolding batches
batches_end zero turns events fits enough = absurd (ground arith)
batches_end (suc size) turns events fits enough =
    let bs = slices (length events) (suc size) events in
    let (whole, each, _, _) = batches_cover (suc size) events bs (rw fits refl) in
    (
      bs,
      rw fits refl,
      slices_enough turns (length events) size events enough (omega arith),
      whole,
      each,
    )
