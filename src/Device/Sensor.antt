-- ===== src/Device/Sensor.antt =====
-- `SensorSimulator` of legacy_device/device.py.
pub mod Bounds
use sodtware_dev_ops_gp_proj.Base.{◌≡◌, Bool, true, if◌then◌else◌}
use sodtware_dev_ops_gp_proj.Base.Int.{ℤ, pos, leb_ℤ}
use sodtware_dev_ops_gp_proj.Cloud.Reading.{FloatOrder}

-- Python's floats as far as the random walk needs them: `a + b`, `a < b` and `round(a, 2)`.
pub record FloatMath (F : Type 0) : Type 0 where
  pub order : FloatOrder F
  pub open order use *
  pub add : F → F → F
  pub lt : F → F → Bool
  pub round2 : F → F

-- The order on floats, of which a `nan` is no part, and a rounding that keeps the order and the whole
-- numbers.
pub record IsFloatMath {F : Type 0} (m : FloatMath F) : Type 0 where
  pub le_trans : (x y z : F) → m.le x y ≡ true → m.le y z ≡ true → m.le x z ≡ true
  pub lt_le : (x y : F) → m.lt x y ≡ true → m.le x y ≡ true
  pub of_ℤ_le : (i j : ℤ) → leb_ℤ i j ≡ true → m.le (m.of_ℤ i) (m.of_ℤ j) ≡ true
  pub round2_le : (x y : F) → m.le x y ≡ true → m.le (m.round2 x) (m.round2 y) ≡ true
  pub round2_of_ℤ : (i : ℤ) → m.round2 (m.of_ℤ i) ≡ m.of_ℤ i

pub record SensorSimulator (F : Type 0) : Type 0 where
  pub temp_c : F
  pub humidity : F

module _ {F : Type 0} (m : FloatMath F) where
  -- `SensorSimulator()`
  abbrev pub new_sensor : SensorSimulator F
  new_sensor = record { temp_c = m.of_ℤ (pos 21); humidity = m.of_ℤ (pos 45) }

  -- `max(low, x)` and `min(high, x)`: the first argument, unless the second is beyond it.
  abbrev pub at_least : F → F → F
  at_least low x = if m.lt low x then x else low

  abbrev pub at_most : F → F → F
  at_most high x = if m.lt x high then x else high

  -- One step of the walk of a value, by what `random.uniform` returns.
  unfoldable pub walk : ℤ → ℤ → F → F → F
  walk low high drift x = m.round2 (at_most (m.of_ℤ high) (at_least (m.of_ℤ low) (m.add x drift)))

  -- `read`: the sample, and the sensor afterwards.
  unfoldable pub read : F → F → SensorSimulator F → (F × F) × SensorSimulator F
  read drift_t drift_h s =
      let t = walk (pos 5) (pos 35) drift_t s.temp_c in
      let h = walk (pos 10) (pos 95) drift_h s.humidity in
      ((t, h), record { temp_c = t; humidity = h })
