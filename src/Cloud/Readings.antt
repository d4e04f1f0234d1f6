-- ===== src/Cloud/Readings.antt =====
-- `_store`, `list_readings`, `list_devices` and the readings part of `health` of
-- cloud_service/app.py.
pub mod Ring
pub mod Page
pub mod Devices
use mathlib.Core.List.{reverse}
use sodtware_dev_ops_gp_proj.Base.{
  ℕ, zero, suc, ◌+◌, ◌-◌, Bool, true, false, Option, none, some, List, [], ◌∷◌, ◌++◌, Text, length,
  drop, same, ltb, leb, ◌==◌, if◌then◌else◌,
}
use sodtware_dev_ops_gp_proj.Base.Int.{ℤ, pos, negsuc, leb_ℤ}
use sodtware_dev_ops_gp_proj.Base.Dict.{Dict, get, put}
use sodtware_dev_ops_gp_proj.Cloud.Reading.{Reading}
use sodtware_dev_ops_gp_proj.Cloud.State.{
  Cloud, Stored, Channel, legacy, mlkem, max_stored_readings,
}

-- `deque.append` with `maxlen`: the oldest entries are at the front, and one is dropped from a full
-- buffer.
unfoldable pub append_bounded {ℓ} : {A : Type ℓ} → ℕ → List A → A → List A
append_bounded max xs x = if ltb (length xs) max then xs ++ x ∷ [] else drop 1 (xs ++ x ∷ [])

-- `items[-n:]` of a positive n
pub last_items {ℓ} : {A : Type ℓ} → ℕ → List A → List A
last_items n xs = drop (length xs - n) xs

-- `max(1, min(limit, MAX_STORED_READINGS))`
pub clamp_limit : ℤ → ℕ
clamp_limit (negsuc n) = 1
clamp_limit (pos n) =
    if leb max_stored_readings n then max_stored_readings else if n == 0 then 1 else n

-- The value of one device in `devices`.
pub record Summary (F : Type 0) : Type 0 where
  pub device_id : Text
  pub readings : ℕ
  pub last_seq : ℤ
  pub last_temp_c : F
  pub last_humidity : F
  pub last_seen : ℕ

-- `by_channel[r["channel"]] += 1`, on the counts of `mlkem` and `legacy`.
abbrev pub tally : Channel → ℕ × ℕ → ℕ × ℕ
tally mlkem (m, l) = (m + 1, l)
tally legacy (m, l) = (m, l + 1)

module _ {F : Type 0} where
  unfoldable pub store : Reading F → Channel → ℕ → Cloud F → Cloud F
  store reading channel now cloud = record cloud {
    readings =
        append_bounded max_stored_readings cloud.readings
          (record { reading = reading; received_at = now; channel = channel });
  }

  -- `[r for r in items if r["device_id"] == device_id]`
  pub of_device : Text → List (Stored F) → List (Stored F)
  of_device d [] = []
  of_device d (r ∷ rs) = if same r.device_id d then r ∷ of_device d rs else of_device d rs

  -- `if device_id:` takes an absent and an empty filter alike.
  pub filtered : Option Text → List (Stored F) → List (Stored F)
  unfolding of_device
  filtered none items = items
  filtered (some []) items = items
  filtered (some (c ∷ d)) items = of_device (c ∷ d) items

  -- The count, and the page with the newest reading first.
  pub list_readings : ℤ → Option Text → Cloud F → ℕ × List (Stored F)
  list_readings limit device_id cloud =
      let page = last_items (clamp_limit limit) (filtered device_id cloud.readings) in
      (length page, reverse page)

  -- The entry's count after this reading: `setdefault` starts it at 0.
  abbrev pub count_of : Option (Summary F) → ℕ
  count_of none = 0
  count_of (some entry) = entry.readings

  abbrev pub summary : ℕ → Stored F → Summary F
  summary n r = record {
    device_id = r.device_id;
    readings = n;
    last_seq = r.seq;
    last_temp_c = r.temp_c;
    last_humidity = r.humidity;
    last_seen = r.received_at;
  }

  -- The loop over the readings in arrival order.
  pub summarise : List (Stored F) → Dict (Summary F) → Dict (Summary F)
  summarise [] devices = devices
  summarise (r ∷ rs) devices =
      summarise rs (put r.device_id (summary (count_of (get r.device_id devices) + 1) r) devices)

  pub list_devices : Cloud F → ℕ × Dict (Summary F)
  unfolding summarise
  list_devices cloud = let devices = summarise cloud.readings [] in (length devices, devices)

  -- `readings_by_channel` of `health`: how many came over ML-KEM, and how many over the legacy path.
  unfoldable pub by_channel : List (Stored F) → ℕ × ℕ
  by_channel [] = (0, 0)
  by_channel (r ∷ rs) = tally r.channel (by_channel rs)
