-- ===== src/Alerts/Listing/Active.antt =====
-- The list shows active episodes before any other, and as many as the limit lets it.
use industrial_equipment_mon.Prelude.{
  ℕ, zero, suc, ◌≤◌, ◌≡◌, refl, ap, ◌∙◌, ◌⊎◌, inl, inr, true, false, List, [], ◌∷◌, arith, length,
  take, length-take, All, is_none, Bool-cases, if◌then◌else◌,
}
use Prim.Native.Nat.{min}
use industrial_equipment_mon.Prelude.Table.{Table}
use industrial_equipment_mon.Db.Models.{AlertEpisode, Database}
use industrial_equipment_mon.Alerts.Listing.{
  AlertEpisodeStatus, join_episode, join_episodes, is_active, is_before, place, active_first,
  count_active, list_alert_episodes,
}

abbrev pub actives : List AlertEpisodeStatus → ℕ
actives [] = 0
actives (x ∷ xs) = if is_active x then suc (actives xs) else actives xs

-- Behind an episode that is resolved there is no active one.
abbrev pub IsActiveFirst : List AlertEpisodeStatus → Type 0
IsActiveFirst [] = Unit
IsActiveFirst (x ∷ xs) = ((is_active x ≡ true) ⊎ (actives xs ≡ 0)) × IsActiveFirst xs

actives-place :
    (x : AlertEpisodeStatus) (ys : List AlertEpisodeStatus)
    → actives (place x ys) ≡ actives (x ∷ ys)
unfolding place
actives-place x [] = refl
actives-place x (y ∷ ys) = ground (arith, actives-place x ys)

actives-active_first : (xs : List AlertEpisodeStatus) → actives (active_first xs) ≡ actives xs
unfolding active_first
actives-active_first [] = refl
actives-active_first (x ∷ xs) =
    ground (arith, actives-place x (active_first xs), actives-active_first xs)

place-IsActiveFirst :
    (x : AlertEpisodeStatus) (ys : List AlertEpisodeStatus)
    → IsActiveFirst ys
    → IsActiveFirst (place x ys)
unfolding place
place-IsActiveFirst x [] h = (inr refl, tt)
place-IsActiveFirst x (y ∷ ys) h = elim (Bool-cases (is_before y x)) [
  | inl before ↦ rw before (
    elim (Bool-cases (is_active y)) [
      | inl active ↦ inl active
      | inr resolved ↦ inr (ground (arith, actives-place x ys, h.0))
    ],
    place-IsActiveFirst x ys h.1,
  )
  | inr after ↦ rw after (
    elim (Bool-cases (is_active x)) [
      | inl active ↦ inl active
      | inr resolved ↦ inr (ground (arith, h.0))
    ],
    h,
  )
]

active_first-IsActiveFirst : (xs : List AlertEpisodeStatus) → IsActiveFirst (active_first xs)
unfolding active_first
active_first-IsActiveFirst [] = tt
active_first-IsActiveFirst (x ∷ xs) =
    place-IsActiveFirst x (active_first xs) (active_first-IsActiveFirst xs)

actives-take :
    (n : ℕ) (xs : List AlertEpisodeStatus)
    → IsActiveFirst xs
    → actives (take n xs) ≡ min n (actives xs)
actives-take zero xs h = omega arith
actives-take (suc n) [] h = omega arith
actives-take (suc n) (x ∷ xs) h = ground (arith, h.0, actives-take n xs h.1)

take-IsActiveFirst :
    (n : ℕ) (xs : List AlertEpisodeStatus) → IsActiveFirst xs → IsActiveFirst (take n xs)
take-IsActiveFirst zero xs h = tt
take-IsActiveFirst (suc n) [] h = tt
take-IsActiveFirst (suc n) (x ∷ xs) h = (
  elim h.0 [
    | inl active ↦ inl active
    | inr none_left ↦ inr (omega (arith, actives-take n xs h.1, none_left))
  ],
  take-IsActiveFirst n xs h.1,
)

-- The references of an episode to its device and its opening reading hold.
abbrev pub IsJoined : Database → ℕ × AlertEpisode → Type 0
IsJoined db (id, e) = is_none (join_episode db id e) ≡ false

actives-join_episodes :
    (db : Database) (t : Table ℕ AlertEpisode)
    → All (IsJoined db) t
    → actives (join_episodes db t) ≡ count_active t
unfolding join_episodes count_active join_episode
actives-join_episodes db [] h = refl
actives-join_episodes db ((id, e) ∷ rest) h = ground (arith, h.0, actives-join_episodes db rest h.1)

-- Where the references of the episodes hold: the list shows as many active episodes as there are, up to
-- the limit, all of them before any resolved one, and no more episodes than the limit.
pub listed_active :
    (db : Database) (limit : ℕ)
    → All (IsJoined db) db.alerts.alert_episodes
    → (actives (list_alert_episodes db limit).episodes
        ≡ min limit (list_alert_episodes db limit).active_count)
      × IsActiveFirst (list_alert_episodes db limit).episodes
      × (length (list_alert_episodes db limit).episodes ≤ limit)
unfolding list_alert_episodes
listed_active db limit h =
    let rows = join_episodes db db.alerts.alert_episodes in
    let shown = actives-take limit (active_first rows) (active_first-IsActiveFirst rows) in
    let same = actives-active_first rows in
    let ordered = active_first-IsActiveFirst rows in
    let all = actives-join_episodes db db.alerts.alert_episodes h in
    (
      shown ∙ ap (min limit) (same ∙ all),
      take-IsActiveFirst limit (active_first rows) ordered,
      omega (arith, length-take limit (active_first rows)),
    )
