-- ===== src/Cloud/Reading.antt =====
-- `Reading` of cloud_service/app.py: the fields and the bounds that it declares. A float is a value
-- of a type `F`, of which the code uses the order and whole-number literals.
use sodtware_dev_ops_gp_proj.Base.{Bool, ◌&&◌, Text, length, leb}
use sodtware_dev_ops_gp_proj.Base.Int.{ℤ, pos, negsuc, leb_ℤ}

pub record Reading (F : Type 0) : Type 0 where
  pub device_id : Text
  pub seq : ℤ
  pub temp_c : F
  pub humidity : F
  pub uptime_s : ℤ

-- Python's floats as far as the bounds need them: `a <= b`, and the float of a whole number.
pub record FloatOrder (F : Type 0) : Type 0 where
  pub le : F → F → Bool
  pub of_ℤ : ℤ → F

-- What pydantic checks of a decoded reading.
unfoldable pub fits : {F : Type 0} → FloatOrder F → Reading F → Bool
fits o r =
    leb 1 (length r.device_id)
    && (leb (length r.device_id) 64
        && (leb_ℤ (pos 0) r.seq
            && (o.le (o.of_ℤ (negsuc 49)) r.temp_c
                && (o.le r.temp_c (o.of_ℤ (pos 150))
                    && (o.le (o.of_ℤ (pos 0)) r.humidity
                        && (o.le r.humidity (o.of_ℤ (pos 100)) && leb_ℤ (pos 0) r.uptime_s))))))
