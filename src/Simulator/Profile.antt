-- ===== src/Simulator/Profile.antt =====
-- simulator/events.py, `TemperatureProfile` and the check of its bounds. Floating point is a parameter.
use industrial_equipment_mon.Prelude.{
  ℕ, ◌-◌, String, Bool, true, ◌&&◌, ◌||◌, not, List, [], ◌∷◌, str_eq, leb, if◌then◌else◌,
}
use industrial_equipment_mon.Simulator.Events.{max_events}

pub record Floats : Type 1 where
  pub Float : Type 0
  pub is_finite : Float → Bool
  pub is_negative : Float → Bool
  pub below : Float → Float → Bool
  pub plus : Float → Float → Float
  pub minus : Float → Float → Float
  pub times : Float → Float → Float
  pub of_index : ℕ → Float
  -- `math.sin(math.tau * (index % period) / period)`
  pub wave : ℕ → ℕ → Float

module _ (f : Floats) where
  open f use {Float, is_finite, is_negative, plus, minus, times, of_index, wave}

  pub record TemperatureProfile : Type 0 where
    pub kind : String
    pub temperature : Float
    pub step : Float
    pub amplitude : Float
    pub period : ℕ
    pub noise : Float

  -- `__post_init__`; the types of the fields are given.
  abbrev pub is_profile : TemperatureProfile → Bool
  is_profile p =
      (str_eq p.kind "constant" || str_eq p.kind "ramp" || str_eq p.kind "sine")
      && is_finite p.temperature
      && is_finite p.step
      && is_finite p.amplitude
      && is_finite p.noise
      && not (is_negative p.amplitude || is_negative p.noise)
      && leb 1 p.period
      && leb p.period max_events

  abbrev pub baseline : TemperatureProfile → ℕ → Float
  baseline p index =
      if str_eq p.kind "ramp"
      then plus p.temperature (times p.step (of_index index))
      else if str_eq p.kind "sine"
      then plus p.temperature (times p.amplitude (wave index p.period))
      else p.temperature

  abbrev pub bounds : TemperatureProfile → ℕ → List Float
  bounds p count =
      if str_eq p.kind "sine"
      then minus p.temperature p.amplitude ∷ plus p.temperature p.amplitude ∷ []
      else baseline p 0 ∷ baseline p (count - 1) ∷ []

  -- With the noise at either end of its range.
  abbrev pub are_finite : Float → List Float → Bool
  are_finite noise [] = true
  are_finite noise (v ∷ vs) =
      is_finite (minus v noise) && is_finite (plus v noise) && are_finite noise vs

  unfoldable pub has_finite_bounds : TemperatureProfile → ℕ → Bool
  has_finite_bounds p count = are_finite p.noise (bounds p count)
