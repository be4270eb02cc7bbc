-- ===== src/Simulator/Sending/Replies.antt =====
-- The replies behind a run of simulator/simulate.py that ends with nothing rejected.
use industrial_equipment_mon.Prelude.{
  ℕ, ◌≤◌, ◌≡◌, ◌⊎◌, refl, ap, ◌∙◌, inl, inr, String, false, List, [], ◌∷◌, map, arith, All,
  Option-cases, length,
}
use mathlib.Core.Path.{subst}
use industrial_equipment_mon.Prelude.Texts.{concat, split_parts-concat}
use industrial_equipment_mon.Telemetry.Json.{Value, Members, values}
use industrial_equipment_mon.Simulator.Client.{classify_response}
use industrial_equipment_mon.Simulator.Client.Safety.{
  BackAll, IsOutcome, IsResponse, reports_backed,
}
use industrial_equipment_mon.Simulator.Run.{
  Category, Counts, Summary, Turn, confirmed, interrupted_before, interrupted_in_send,
  failed_in_send, started, add_outcome, add_outcomes, confirm, generate, start_send, send_all,
  run_scenario,
}
use industrial_equipment_mon.Simulator.Sending.{
  Reply, received, no_response, stopped_before, stopped_in_send, category_of, turn_of, turns_of,
}

-- Events that were answered, each with an outcome that confirms it.
abbrev pub IsConfirmed : String → Type 0
IsConfirmed o = (o ≡ "accepted") ⊎ (o ≡ "duplicate")

abbrev pub IsAnswered : List Members × Reply → Type 0
IsAnswered (events, reply) =
    (v : Value) × (outcomes : List String) × (reply ≡ received v)
    × IsResponse events v outcomes
    × All IsConfirmed outcomes

abbrev IsConfirming : Category → Type 0
IsConfirming Category.accepted = Unit
IsConfirming Category.duplicate = Unit
IsConfirming Category.rejected = ⊥

abbrev IsClean : ℕ × Turn → Type 0
IsClean (size, confirmed outcomes) = All IsConfirming outcomes
IsClean (size, _) = ⊥

-- Rejections are counted, and never taken back.
rejected_low : (c : Counts) (os : List Category) → c.rejected ≤ (add_outcomes c os).rejected
unfolding add_outcomes
rejected_low c [] = omega arith
rejected_low c (Category.accepted ∷ os) = rejected_low (add_outcome c Category.accepted) os
rejected_low c (Category.duplicate ∷ os) = rejected_low (add_outcome c Category.duplicate) os
rejected_low c (Category.rejected ∷ os) =
    omega (arith, rejected_low (add_outcome c Category.rejected) os)

none_rejected :
    (c : Counts) (os : List Category)
    → (add_outcomes c os).rejected ≡ c.rejected
    → All IsConfirming os
unfolding add_outcomes
none_rejected c [] h = tt
none_rejected c (Category.accepted ∷ os) h =
    (tt, none_rejected (add_outcome c Category.accepted) os h)
none_rejected c (Category.duplicate ∷ os) h =
    (tt, none_rejected (add_outcome c Category.duplicate) os h)
none_rejected c (Category.rejected ∷ os) h =
    absurd (omega (arith, h, rejected_low (add_outcome c Category.rejected) os))

send_low :
    (turns : List (ℕ × Turn)) (s : Summary) → s.counts.rejected ≤ (send_all turns s).counts.rejected
unfolding send_all
send_low [] s = omega arith
send_low ((size, confirmed os) ∷ rest) s =
    let t = confirm size os (start_send size (generate size s)) in
    omega (arith, rejected_low s.counts os, send_low rest t)
send_low ((size, interrupted_before) ∷ rest) s = omega arith
send_low ((size, interrupted_in_send) ∷ rest) s = omega arith
send_low ((size, failed_in_send) ∷ rest) s = omega arith

turns-IsClean :
    (turns : List (ℕ × Turn)) (s : Summary)
    → (send_all turns s).cancelled ≡ false
    → (send_all turns s).failures ≡ 0
    → (send_all turns s).counts.rejected ≡ s.counts.rejected
    → All IsClean turns
unfolding send_all
turns-IsClean [] s c f r = tt
turns-IsClean ((size, confirmed os) ∷ rest) s c f r =
    let t = confirm size os (start_send size (generate size s)) in
    let low = rejected_low s.counts os in
    let high = send_low rest t in
    (
      none_rejected s.counts os (omega (arith, low, high, r)),
      turns-IsClean rest t c f (omega (arith, low, high, r)),
    )
turns-IsClean ((size, interrupted_before) ∷ rest) s c f r = absurd (ground arith)
turns-IsClean ((size, interrupted_in_send) ∷ rest) s c f r = absurd (ground arith)
turns-IsClean ((size, failed_in_send) ∷ rest) s c f r = absurd (omega (arith, f))

rejected_category :
    (reason : String) → category_of (concat "rejected" (concat ":" reason)) ≡ Category.rejected
unfolding category_of
rejected_category reason = rw (split_parts-concat 58 "rejected" reason ":" refl refl) refl

outcome-IsConfirmed :
    (outcome reason : Value) (o : String)
    → IsOutcome outcome reason o
    → IsConfirming (category_of o)
    → IsConfirmed o
outcome-IsConfirmed outcome reason o (inl (a, b, same)) h = inl same
outcome-IsConfirmed outcome reason o (inr (inl (a, b, same))) h = inr same
outcome-IsConfirmed outcome reason o (inr (inr (why, a, b, c, same))) h =
    absurd (subst IsConfirming (ap category_of same ∙ rejected_category why) h)

all-IsConfirmed :
    (events : List Members) (vs : List Value) (os : List String)
    → BackAll events vs os
    → All IsConfirming (map category_of os)
    → All IsConfirmed os
all-IsConfirmed [] [] [] b h = tt
all-IsConfirmed (m ∷ ms) (v ∷ vs) (o ∷ os) (b, bs) h =
    let (_, _, _, _, _, outcome) = b in
    (outcome-IsConfirmed _ _ o outcome h.0, all-IsConfirmed ms vs os bs h.1)
all-IsConfirmed [] (v ∷ vs) os b h = absurd b
all-IsConfirmed [] [] (o ∷ os) b h = absurd b
all-IsConfirmed (m ∷ ms) [] os b h = absurd b
all-IsConfirmed (m ∷ ms) (v ∷ vs) [] b h = absurd b

turn-IsAnswered :
    (events : List Members) (reply : Reply)
    → (size : ℕ) → IsClean (size, turn_of events reply)
    → IsAnswered (events, reply)
turn-IsAnswered events no_response size h = absurd h
turn-IsAnswered events stopped_before size h = absurd h
turn-IsAnswered events stopped_in_send size h = absurd h
turn-IsAnswered events (received v) size h = elim (Option-cases (classify_response events v)) [
  | inl refused ↦ absurd (rw refused at h)
  | inr (os, read) ↦
      let backed = reports_backed events v os read in
      (
        v,
        os,
        refl,
        backed,
        all-IsConfirmed events (values backed.results) os backed.each (rw read at h),
      )
]

replies-IsAnswered :
    (replies : List (List Members × Reply))
    → All IsClean (turns_of replies)
    → All IsAnswered replies
unfolding turns_of
replies-IsAnswered [] h = tt
replies-IsAnswered ((events, reply) ∷ rest) h =
    (turn-IsAnswered events reply (length events) h.0, replies-IsAnswered rest h.1)

-- A run that was not interrupted, and had no failure and no rejection.
pub clean_run-IsAnswered :
    (planned : ℕ) (replies : List (List Members × Reply))
    → (run_scenario planned (turns_of replies)).cancelled ≡ false
    → (run_scenario planned (turns_of replies)).failures ≡ 0
    → (run_scenario planned (turns_of replies)).counts.rejected ≡ 0
    → All IsAnswered replies
unfolding run_scenario
clean_run-IsAnswered planned replies c f r =
    replies-IsAnswered replies (turns-IsClean (turns_of replies) (started planned) c f r)
