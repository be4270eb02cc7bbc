-- ===== src/Decimal.antt =====
-- Finite values of Python's `decimal.Decimal`, which telemetry/schemas.py, telemetry/service.py and
-- alerts/service.py compare by `<`, `>` and `==`.
-- A finite decimal is an integer over a power of ten: `mantissa / 10 ^ scale`.
use industrial_equipment_mon.Prelude.{
  ℕ, suc, ◌*◌, ◌^◌, ◌≡◌, refl, Bool, true, false, ltb, nat_eq, arith,
}

-- `negsuc n` is -(n + 1).
pub data ℤ : Type 0 where
  pos : ℕ → ℤ
  negsuc : ℕ → ℤ

pub record Decimal : Type 0 where
  pub mantissa : ℤ
  pub scale : ℕ

-- The order and the equality of two integers of known signs, scaled to one denominator.
abbrev lt_scaled : ℤ → ℕ → ℤ → ℕ → Bool
lt_scaled (pos a) p (pos b) q = ltb (a * q) (b * p)
lt_scaled (pos a) p (negsuc b) q = false
lt_scaled (negsuc a) p (pos b) q = true
lt_scaled (negsuc a) p (negsuc b) q = ltb (suc b * p) (suc a * q)

abbrev eq_scaled : ℤ → ℕ → ℤ → ℕ → Bool
eq_scaled (pos a) p (pos b) q = nat_eq (a * q) (b * p)
eq_scaled (pos a) p (negsuc b) q = false
eq_scaled (negsuc a) p (pos b) q = false
eq_scaled (negsuc a) p (negsuc b) q = nat_eq (suc a * q) (suc b * p)

-- `a < b`
unfoldable pub lt_decimal : Decimal → Decimal → Bool
lt_decimal a b = lt_scaled a.mantissa (10 ^ a.scale) b.mantissa (10 ^ b.scale)

-- `a == b`: by value, so that 25 and 25.0 are equal.
unfoldable pub eq_decimal : Decimal → Decimal → Bool
eq_decimal a b = eq_scaled a.mantissa (10 ^ a.scale) b.mantissa (10 ^ b.scale)

eq_scaled_refl : (a : ℤ) (p : ℕ) → eq_scaled a p a p ≡ true
eq_scaled_refl (pos a) p = ground arith
eq_scaled_refl (negsuc a) p = ground arith

pub eq_decimal_refl : (a : Decimal) → eq_decimal a a ≡ true
unfolding eq_decimal
eq_decimal_refl a = eq_scaled_refl a.mantissa (10 ^ a.scale)

-- Nothing lies above 30 and below 28.
scaled_gap : (m : ℤ) (p : ℕ) → lt_scaled (pos 30) 1 m p ≡ true → lt_scaled m p (pos 28) 1 ≡ false
scaled_gap (pos a) p h = ground arith
scaled_gap (negsuc a) p h = ground arith

pub not-below-above :
    (a : Decimal)
    → lt_decimal (record { mantissa = pos 30; scale = 0 }) a ≡ true
    → lt_decimal a (record { mantissa = pos 28; scale = 0 }) ≡ false
unfolding lt_decimal
not-below-above a h = scaled_gap a.mantissa (10 ^ a.scale) h

half_degree :
    lt_decimal (record { mantissa = pos 30; scale = 0 }) (record { mantissa = pos 305; scale = 1 })
    ≡ true
unfolding lt_decimal
half_degree = refl
