-- ===== src/Prelude/Texts.antt =====
-- Texts as Python's `str`: joining, and taking apart at a separator.
use Prim.Native.Nat.{ℕ}
use Prim.Native.Char.{Char, code}
use Prim.Native.String.{String}
use mathlib.Core.Path.{◌≡◌, refl}
use mathlib.Core.Bool.{Bool, true, false}
use mathlib.Core.List.{List, [], ◌∷◌}
use native.Mathlib.Omega.{arith}
use industrial_equipment_mon.Prelude.Tests.{nat_eq, if◌then◌else◌}

-- `s + t`
abbrev pub concat : String → String → String
concat String.[] t = t
concat (String.◌∷◌ c s) t = String.◌∷◌ c (concat s t)

abbrev pub has_character : ℕ → String → Bool
has_character k String.[] = false
has_character k (String.◌∷◌ c s) = if nat_eq (code c) k then true else has_character k s

-- `s.split(k)`: the first part, and those behind it.
unfoldable pub split_parts : ℕ → String → String × List String
split_parts k String.[] = (String.[], [])
split_parts k (String.◌∷◌ c s) =
    let (part, parts) = split_parts k s in
    if nat_eq (code c) k then (String.[], part ∷ parts) else (String.◌∷◌ c part, parts)

-- A part with no separator in it, in front of a separator.
pub split_parts-concat :
    (k : ℕ) (s t : String) (c : Char)
    → has_character k s ≡ false
    → code c ≡ k
    → split_parts k (concat s (String.◌∷◌ c t)) ≡ (s, (split_parts k t).0 ∷ (split_parts k t).1)
unfolding split_parts
split_parts-concat k String.[] t c h same = ground (arith, same)
split_parts-concat k (String.◌∷◌ d s) t c h same =
    ground (arith, h, split_parts-concat k s t c (ground (arith, h)) same)

pub split_parts-free : (k : ℕ) (s : String) → has_character k s ≡ false → split_parts k s ≡ (s, [])
unfolding split_parts
split_parts-free k String.[] h = refl
split_parts-free k (String.◌∷◌ d s) h = ground (arith, h, split_parts-free k s (ground (arith, h)))
