-- ===== src/Device/Sensor/Bounds.antt =====
-- The ranges of the simulated sensor.
use sodtware_dev_ops_gp_proj.Base.{◌≡◌, refl, arith, true, inl, inr, Bool-cases, subst}
use sodtware_dev_ops_gp_proj.Base.Int.{ℤ, pos, leb_ℤ}
use sodtware_dev_ops_gp_proj.Device.Sensor.{
  FloatMath, IsFloatMath, SensorSimulator, at_least, at_most, walk, read,
}

module _ {F : Type 0} (m : FloatMath F) (sound : IsFloatMath m) where
  -- A value from `low` to `high`.
  pub record IsWithin (low high : ℤ) (x : F) : Type 0 where
    pub above : m.le (m.of_ℤ low) x ≡ true
    pub below : m.le x (m.of_ℤ high) ≡ true

  -- A value of a narrower range.
  pub IsWithin-wider :
      (low high low' high' : ℤ) (x : F)
      → IsWithin low high x
      → leb_ℤ low' low ≡ true
      → leb_ℤ high high' ≡ true
      → IsWithin low' high' x
  IsWithin-wider low high low' high' x w l h = record {
    above = sound.le_trans _ _ _ (sound.of_ℤ_le low' low l) w.above;
    below = sound.le_trans _ _ _ w.below (sound.of_ℤ_le high high' h);
  }

  pub IsWithin-round2 :
      (low high : ℤ) (x : F) → IsWithin low high x → IsWithin low high (m.round2 x)
  IsWithin-round2 low high x w = record {
    above =
        subst (λ (y : F). m.le y (m.round2 x) ≡ true) (sound.round2_of_ℤ low)
          (sound.round2_le _ _ w.above);
    below =
        subst (λ (y : F). m.le (m.round2 x) y ≡ true) (sound.round2_of_ℤ high)
          (sound.round2_le _ _ w.below);
  }

  at_most-at_least :
      (low high : ℤ) (x : F)
      → leb_ℤ low high ≡ true
      → IsWithin low high (at_most m (m.of_ℤ high) (at_least m (m.of_ℤ low) x))
  at_most-at_least low high x h =
      let same_low = sound.of_ℤ_le low low (ground arith) in
      let same_high = sound.of_ℤ_le high high (ground arith) in
      let ends = sound.of_ℤ_le low high h in
      let up : m.le (m.of_ℤ low) (at_least m (m.of_ℤ low) x) ≡ true =
        elim (Bool-cases (m.lt (m.of_ℤ low) x)) [
          | inl t ↦ rw t (sound.lt_le _ _ t)
          | inr t ↦ rw t same_low
        ] in
      let y = at_least m (m.of_ℤ low) x in
      elim (Bool-cases (m.lt y (m.of_ℤ high))) [
        | inl t ↦ rw t (record { above = up; below = sound.lt_le _ _ t })
        | inr t ↦ rw t (record { above = ends; below = same_high })
      ]

  walk-IsWithin :
      (low high : ℤ) (drift x : F)
      → leb_ℤ low high ≡ true
      → IsWithin low high (walk m low high drift x)
  unfolding walk
  walk-IsWithin low high drift x h =
      IsWithin-round2 low high _ (at_most-at_least low high (m.add x drift) h)

  -- Every sample, from any state of the sensor and whatever `random.uniform` returns (even a `nan`),
  -- is a temperature from 5 to 35 and a humidity from 10 to 95; the sensor keeps the sample as its
  -- new state.
  pub read-IsWithin :
      (drift_t drift_h : F) (s : SensorSimulator F)
      → let (sample, after) = read m drift_t drift_h s in
        IsWithin (pos 5) (pos 35) sample.0
        × IsWithin (pos 10) (pos 95) sample.1
        × (after.temp_c ≡ sample.0)
        × (after.humidity ≡ sample.1)
  unfolding read
  read-IsWithin drift_t drift_h s = (
    walk-IsWithin (pos 5) (pos 35) drift_t s.temp_c refl,
    walk-IsWithin (pos 10) (pos 95) drift_h s.humidity refl,
    refl,
    refl,
  )
