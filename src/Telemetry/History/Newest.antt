-- ===== src/Telemetry/History/Newest.antt =====
-- The rows of a history against the rows of the table: which are shown, and which are left out.
use industrial_equipment_mon.Prelude.{
  ℕ, zero, suc, ◌≤◌, ◌<◌, ◌≡◌, ◌≢◌, ◌⊎◌, refl, ap, ◌∙◌, inl, inr, String, true, false, List, [],
  ◌∷◌, arith, All, All-imp, length, take, Bool-cases, str_eq, str_eq_iff, leb, ltb,
}
use industrial_equipment_mon.Db.Models.{Telemetry}
use industrial_equipment_mon.Telemetry.History.{
  HistoryRow, history_row, event_time, matching, is_in_range, precedes, newest_first,
  insert_ordered,
}
use industrial_equipment_mon.Telemetry.History.Order.{
  All-insert, All-newest_first, All-of_newest_first,
}

-- `x` is later than `y`, or of its time and of no lower number.
abbrev pub IsAfter : HistoryRow → HistoryRow → Type 0
IsAfter x y = (y.event_at < x.event_at) ⊎ ((y.event_at ≡ x.event_at) × (y.id ≤ x.id))

-- Newest first.
abbrev pub Ordered : List HistoryRow → Type 0
Ordered [] = Unit
Ordered (x ∷ xs) = All (IsAfter x) xs × Ordered xs

abbrev pub IsAmong : {A : Type 0} → A → List A → Type 0
IsAmong x [] = ⊥
IsAmong x (y ∷ ys) = (x ≡ y) ⊎ IsAmong x ys

-- A row of the device with a time in the range.
abbrev pub IsWanted : String → ℕ → ℕ → Telemetry → Type 0
IsWanted device_id start end row =
    (row.device_id ≡ device_id) × (start ≤ event_time row) × (event_time row < end)

abbrev pub IsUnwanted : String → ℕ → ℕ → Telemetry → Type 0
IsUnwanted device_id start end row =
    (row.device_id ≢ device_id) ⊎ (event_time row < start) ⊎ (end ≤ event_time row)

-- A shown row is one of the table's that is wanted.
abbrev pub IsFrom : String → ℕ → ℕ → List Telemetry → HistoryRow → Type 0
IsFrom device_id start end rows x =
    (row : Telemetry) × IsAmong row rows × (x ≡ history_row row) × IsWanted device_id start end row

-- A row is shown; or there are `n` others, none of which it is newer than.
abbrev pub IsPlaced : ℕ → List HistoryRow → HistoryRow → Type 0
IsPlaced n shown x =
    IsAmong x shown ⊎ ((length shown ≡ n) × All (λ (y : HistoryRow). IsAfter y x) shown)

IsAfter-trans : (x y z : HistoryRow) → IsAfter x y → IsAfter y z → IsAfter x z
IsAfter-trans x y z (inl h) (inl k) = inl (omega (arith, h, k))
IsAfter-trans x y z (inl h) (inr k) = let e = k.0 in inl (omega (arith, h, e))
IsAfter-trans x y z (inr h) (inl k) = let e = h.0 in inl (omega (arith, e, k))
IsAfter-trans x y z (inr h) (inr k) =
    let e = h.1 in let f = k.1 in inr (k.0 ∙ h.0, omega (arith, e, f))

precedes-IsAfter : (x y : HistoryRow) → precedes x y ≡ true → IsAfter x y
precedes-IsAfter x y h = elim (Bool-cases (ltb y.event_at x.event_at)) [
  | inl later ↦ inl (ground (arith, later))
  | inr level ↦ inr (ground (arith, h, level), ground (arith, h, level))
]

not_precedes-IsAfter : (x y : HistoryRow) → precedes y x ≡ false → IsAfter x y
not_precedes-IsAfter x y h = elim (Bool-cases (ltb y.event_at x.event_at)) [
  | inl later ↦ inl (ground (arith, later))
  | inr level ↦ inr (ground (arith, h, level), ground (arith, h, level))
]

insert-Ordered :
    (x : HistoryRow) (ys : List HistoryRow) → Ordered ys → Ordered (insert_ordered x ys)
unfolding insert_ordered
insert-Ordered x [] h = (tt, tt)
insert-Ordered x (y ∷ ys) h = elim (Bool-cases (precedes y x)) [
  | inl first ↦
      rw first
        (All-insert (IsAfter y) x ys (precedes-IsAfter y x first) h.0, insert-Ordered x ys h.1)
  | inr after ↦
      let below = not_precedes-IsAfter x y after in
      rw after
        ((below, All-imp (IsAfter y) (IsAfter x) ys (λ z k. IsAfter-trans x y z below k) h.0), h)
]

pub newest_first-Ordered : (xs : List HistoryRow) → Ordered (newest_first xs)
unfolding newest_first
newest_first-Ordered [] = tt
newest_first-Ordered (x ∷ xs) = insert-Ordered x (newest_first xs) (newest_first-Ordered xs)

All-take_of :
    (P : HistoryRow → Type 0) (n : ℕ) (xs : List HistoryRow) → All P xs → All P (take n xs)
All-take_of P zero xs h = tt
All-take_of P (suc n) [] h = tt
All-take_of P (suc n) (x ∷ xs) h = (h.0, All-take_of P n xs h.1)

pub take-Ordered : (n : ℕ) (xs : List HistoryRow) → Ordered xs → Ordered (take n xs)
take-Ordered zero xs h = tt
take-Ordered (suc n) [] h = tt
take-Ordered (suc n) (x ∷ xs) h = (All-take_of (IsAfter x) n xs h.0, take-Ordered n xs h.1)

nothing-IsPlaced : (xs : List HistoryRow) → All (IsPlaced 0 []) xs
nothing-IsPlaced [] = tt
nothing-IsPlaced (x ∷ xs) = (inr (refl, tt), nothing-IsPlaced xs)

-- One more shown row in front, which all of them are behind.
front-IsPlaced :
    (n : ℕ) (x : HistoryRow) (shown xs : List HistoryRow)
    → All (IsAfter x) xs
    → All (IsPlaced n shown) xs
    → All (IsPlaced (suc n) (x ∷ shown)) xs
front-IsPlaced n x shown [] a h = tt
front-IsPlaced n x shown (z ∷ zs) a (inl m, h) = (inl (inr m), front-IsPlaced n x shown zs a.1 h)
front-IsPlaced n x shown (z ∷ zs) a (inr (l, all), h) =
    (inr (ap suc l, (a.0, all)), front-IsPlaced n x shown zs a.1 h)

take-IsPlaced : (n : ℕ) (xs : List HistoryRow) → Ordered xs → All (IsPlaced n (take n xs)) xs
take-IsPlaced zero xs h = nothing-IsPlaced xs
take-IsPlaced (suc n) [] h = tt
take-IsPlaced (suc n) (x ∷ xs) h =
    (inl (inl refl), front-IsPlaced n x (take n xs) xs h.0 (take-IsPlaced n xs h.1))

outside-IsUnwanted :
    (device_id : String) (start end : ℕ) (row : Telemetry)
    → is_in_range device_id start end row ≡ false
    → IsUnwanted device_id start end row
outside-IsUnwanted device_id start end row h = elim (Bool-cases (str_eq row.device_id device_id)) [
  | inr other ↦ inl (ground (arith, other, str_eq_iff row.device_id device_id))
  | inl same ↦ elim (Bool-cases (leb start (event_time row))) [
    | inr early ↦ inr (inl (ground (arith, early)))
    | inl begun ↦ inr (inr (ground (arith, h, same, begun)))
  ]
]

-- What holds of every matching row holds of every row of the table that is wanted.
matching-All :
    (P : HistoryRow → Type 0) (device_id : String) (start end : ℕ) (rows : List Telemetry)
    → All P (matching device_id start end rows)
    → All (λ row. IsUnwanted device_id start end row ⊎ P (history_row row)) rows
unfolding matching
matching-All P device_id start end [] h = tt
matching-All P device_id start end (row ∷ rest) h =
    elim (Bool-cases (is_in_range device_id start end row)) [
      | inl inside ↦
          let h' = rw inside at h in (inr h'.0, matching-All P device_id start end rest h'.1)
      | inr outside ↦ (
        inl (outside-IsUnwanted device_id start end row outside),
        matching-All P device_id start end rest (rw outside at h),
      )
    ]

matching-IsFrom :
    (device_id : String) (start end : ℕ) (rows : List Telemetry)
    → All (IsFrom device_id start end rows) (matching device_id start end rows)
unfolding matching
matching-IsFrom device_id start end [] = tt
matching-IsFrom device_id start end (row ∷ rest) =
    let behind =
      All-imp (IsFrom device_id start end rest) (IsFrom device_id start end (row ∷ rest))
        (matching device_id start end rest) (λ x (r, m, e, w). (r, inr m, e, w))
        (matching-IsFrom device_id start end rest) in
    elim (Bool-cases (is_in_range device_id start end row)) [
      | inr outside ↦ rw outside behind
      | inl inside ↦ rw inside (
        (
          row,
          inl refl,
          refl,
          (
            ground (arith, inside, str_eq_iff row.device_id device_id),
            ground (arith, inside),
            ground (arith, inside),
          ),
        ),
        behind,
      )
    ]

-- The `n` newest of the matching rows, against the table.
pub newest_rows :
    (n : ℕ) (device_id : String) (start end : ℕ) (table : List Telemetry)
    → Ordered (take n (newest_first (matching device_id start end table)))
      × All
          (IsFrom device_id start end table)
          (take n (newest_first (matching device_id start end table)))
      × All
          (λ row.
            IsUnwanted device_id start end row
            ⊎ IsPlaced n
                (take n (newest_first (matching device_id start end table)))
                (history_row row))
          table
newest_rows n device_id start end table =
    let found = matching device_id start end table in
    let sorted = newest_first found in
    let ordered = newest_first-Ordered found in
    (
      take-Ordered n sorted ordered,
      All-take_of (IsFrom device_id start end table) n sorted (
          All-newest_first (IsFrom device_id start end table) found
            (matching-IsFrom device_id start end table)),
      matching-All (IsPlaced n (take n sorted)) device_id start end table
          (All-of_newest_first (IsPlaced n (take n sorted)) found (take-IsPlaced n sorted ordered)),
    )

pub take-take : (n : ℕ) (xs : List HistoryRow) → take n (take (suc n) xs) ≡ take n xs
take-take zero xs = refl
take-take (suc n) [] = refl
take-take (suc n) (x ∷ xs) = ap (λ ys. x ∷ ys) (take-take n xs)
