-- ===== src/Telemetry/History/Order.antt =====
-- The rows of a history are sorted, in range, and none of the matching ones is lost.
use industrial_equipment_mon.Prelude.{
  ℕ, zero, suc, ◌≤◌, inl, inr, List, [], ◌∷◌, ◌++◌, reverse, arith, All, All-append, All-imp,
  All-take, take, Bool-cases,
}
use mathlib.Core.List.{reverse-append, Perm}
use mathlib.Core.List.Perm
use industrial_equipment_mon.Telemetry.History.{HistoryRow, precedes, insert_ordered, newest_first}

-- Each row's time is no earlier than the times behind it.
abbrev pub Descending : List HistoryRow → Type 0
Descending [] = Unit
Descending (x ∷ xs) = All (λ (y : HistoryRow). y.event_at ≤ x.event_at) xs × Descending xs

abbrev pub Ascending : List HistoryRow → Type 0
Ascending [] = Unit
Ascending (x ∷ xs) = All (λ (y : HistoryRow). x.event_at ≤ y.event_at) xs × Ascending xs

pub All-insert {κ} :
    (P : HistoryRow → Type κ) (x : HistoryRow) (ys : List HistoryRow)
    → P x
    → All P ys
    → All P (insert_ordered x ys)
unfolding insert_ordered
All-insert P x [] p h = (p, tt)
All-insert P x (y ∷ ys) p h = elim (Bool-cases (precedes y x)) [
  | inl first ↦ rw first (h.0, All-insert P x ys p h.1)
  | inr after ↦ rw after (p, h)
]

Descending-insert :
    (x : HistoryRow) (ys : List HistoryRow) → Descending ys → Descending (insert_ordered x ys)
unfolding insert_ordered
Descending-insert x [] h = (tt, tt)
Descending-insert x (y ∷ ys) h = elim (Bool-cases (precedes y x)) [
  | inl first ↦ rw first (
    All-insert (λ (z : HistoryRow). z.event_at ≤ y.event_at) x ys (ground arith) h.0,
    Descending-insert x ys h.1,
  )
  | inr after ↦
      let below : y.event_at ≤ x.event_at = ground arith in
      rw after (
        (
          below,
          All-imp (λ (z : HistoryRow). z.event_at ≤ y.event_at)
              (λ (z : HistoryRow). z.event_at ≤ x.event_at) ys (λ z q. omega arith) h.0,
        ),
        h,
      )
]

pub newest_first-Descending : (xs : List HistoryRow) → Descending (newest_first xs)
unfolding newest_first
newest_first-Descending [] = tt
newest_first-Descending (x ∷ xs) =
    Descending-insert x (newest_first xs) (newest_first-Descending xs)

pub All-newest_first {κ} :
    (P : HistoryRow → Type κ) (xs : List HistoryRow) → All P xs → All P (newest_first xs)
unfolding newest_first
All-newest_first P [] h = tt
All-newest_first P (x ∷ xs) h = All-insert P x (newest_first xs) h.0 (All-newest_first P xs h.1)

All-uninsert {κ} :
    (P : HistoryRow → Type κ) (x : HistoryRow) (ys : List HistoryRow)
    → All P (insert_ordered x ys)
    → P x × All P ys
unfolding insert_ordered
All-uninsert P x [] h = (h.0, tt)
All-uninsert P x (y ∷ ys) h = elim (Bool-cases (precedes y x)) [
  | inl first ↦
      let h' = rw (first, insert_ordered) at h in
      let (px, rest) = All-uninsert P x ys h'.1 in (px, (h'.0, rest))
  | inr after ↦ let h' = rw (after, insert_ordered) at h in (h'.0, h'.1)
]

-- Sorting drops no row.
pub All-of_newest_first {κ} :
    (P : HistoryRow → Type κ) (xs : List HistoryRow) → All P (newest_first xs) → All P xs
unfolding newest_first
All-of_newest_first P [] h = tt
All-of_newest_first P (x ∷ xs) h =
    let (px, rest) = All-uninsert P x (newest_first xs) h in (px, All-of_newest_first P xs rest)

insert_ordered-perm : (x : HistoryRow) (ys : List HistoryRow) → Perm (insert_ordered x ys) (x ∷ ys)
unfolding insert_ordered
insert_ordered-perm x [] = Perm.refl (x ∷ [])
insert_ordered-perm x (y ∷ ys) = elim (Bool-cases (precedes y x)) [
  | inl first ↦ rw first (Perm.trans (Perm.cons y (insert_ordered-perm x ys)) (Perm.swap x y ys))
  | inr after ↦ rw after (Perm.refl (x ∷ y ∷ ys))
]

pub newest_first-perm : (xs : List HistoryRow) → Perm (newest_first xs) xs
unfolding newest_first
newest_first-perm [] = Perm.refl []
newest_first-perm (x ∷ xs) =
    Perm.trans (insert_ordered-perm x (newest_first xs)) (Perm.cons x (newest_first-perm xs))

pub Descending-take : (n : ℕ) (xs : List HistoryRow) → Descending xs → Descending (take n xs)
Descending-take zero xs h = tt
Descending-take (suc n) [] h = tt
Descending-take (suc n) (x ∷ xs) h =
    (All-take (λ (y : HistoryRow). y.event_at ≤ x.event_at) n xs h.0, Descending-take n xs h.1)

pub All-reverse {κ} :
    (P : HistoryRow → Type κ) (xs : List HistoryRow) → All P xs → All P (reverse xs)
All-reverse P [] h = tt
All-reverse P (x ∷ xs) h =
    rw (reverse-append (x ∷ []) xs)
      (All-append P (reverse xs) (x ∷ []) (All-reverse P xs h.1) (h.0, tt))

Ascending-append :
    (xs : List HistoryRow) (x : HistoryRow)
    → Ascending xs
    → All (λ (y : HistoryRow). y.event_at ≤ x.event_at) xs
    → Ascending (xs ++ x ∷ [])
Ascending-append [] x a h = (tt, tt)
Ascending-append (y ∷ ys) x a h = (
  All-append (λ (z : HistoryRow). y.event_at ≤ z.event_at) ys (x ∷ []) a.0 (h.0, tt),
  Ascending-append ys x a.1 h.1,
)

pub Ascending-reverse : (xs : List HistoryRow) → Descending xs → Ascending (reverse xs)
Ascending-reverse [] h = tt
Ascending-reverse (x ∷ xs) h =
    rw (reverse-append (x ∷ []) xs)
      (Ascending-append (reverse xs) x (Ascending-reverse xs h.1) (All-reverse _ xs h.0))
