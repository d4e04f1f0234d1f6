-- ===== src/Cloud/Readings/Devices.antt =====
-- What `list_devices` says of each device.
use sodtware_dev_ops_gp_proj.Base.{
  suc, ◌+◌, ◌≡◌, refl, ap, ◌∙◌, Option, none, some, List, [], ◌∷◌, arith, Text, length, same,
  same_iff, Bool-cases, inl, inr,
}
use sodtware_dev_ops_gp_proj.Base.Dict.{Dict, get, put, get-put}
use sodtware_dev_ops_gp_proj.Cloud.State.{Cloud, Stored}
use sodtware_dev_ops_gp_proj.Cloud.Readings.{
  Summary, summary, count_of, summarise, list_devices, of_device,
}

module _ {F : Type 0} where
  -- The last of the readings.
  pub newest : Stored F → List (Stored F) → Stored F
  newest r [] = r
  newest r (s ∷ rs) = newest s rs

  -- A device's summary from its readings in the order of arrival: their number, and the values of
  -- the newest.
  pub summary_of : List (Stored F) → Option (Summary F)
  unfolding newest
  summary_of [] = none
  summary_of (r ∷ rs) = some (summary (length (r ∷ rs)) (newest r rs))

  -- The same behind earlier readings, of which the entry so far is the summary.
  continued : Option (Summary F) → List (Stored F) → Option (Summary F)
  unfolding newest
  continued before [] = before
  continued before (r ∷ rs) = some (summary (count_of before + length (r ∷ rs)) (newest r rs))

  continued-cons :
      (before : Option (Summary F)) (r : Stored F) (rs : List (Stored F))
      → continued (some (summary (count_of before + 1) r)) rs ≡ continued before (r ∷ rs)
  unfolding continued
  continued-cons before r [] = refl
  continued-cons before r (s ∷ rs) =
      let e : count_of before + 1 + suc (length rs) ≡ count_of before + suc (suc (length rs)) =
        omega arith in
      rw e

  get-summarise :
      (d : Text) (rs : List (Stored F)) (devices : Dict (Summary F))
      → get d (summarise rs devices) ≡ continued (get d devices) (of_device d rs)
  unfolding summarise of_device
  get-summarise d [] devices = unfold continued in refl
  get-summarise d (r ∷ rs) devices =
      let next = put r.device_id (summary (count_of (get r.device_id devices) + 1) r) devices in
      elim (Bool-cases (same r.device_id d)) [
        | inl t ↦
            let e : r.device_id ≡ d = (same_iff r.device_id d).0 t in
            get-summarise d rs next
            ∙ rw
                (
                  get-put r.device_id d (summary (count_of (get r.device_id devices) + 1) r)
                      devices,
                  t,
                )
                (ap
                    (λ (k : Text).
                      continued (some (summary (count_of (get k devices) + 1) r)) (of_device d rs))
                    e
                  ∙ continued-cons (get d devices) r (of_device d rs))
        | inr t ↦
            get-summarise d rs next
            ∙ rw (
              get-put r.device_id d (summary (count_of (get r.device_id devices) + 1) r) devices,
              t,
            )
      ]

  continued-none : (rs : List (Stored F)) → continued none rs ≡ summary_of rs
  unfolding continued summary_of
  continued-none [] = refl
  continued-none (r ∷ rs) = let e : 0 + suc (length rs) ≡ suc (length rs) = omega arith in rw e

  -- The answer lists exactly the devices that have a stored reading, each with the number of its
  -- readings and the values of the last that arrived.
  pub list_devices-summary_of :
      (cloud : Cloud F) (d : Text)
      → get d (list_devices cloud).1 ≡ summary_of (of_device d cloud.readings)
  unfolding list_devices
  list_devices-summary_of cloud d =
      get-summarise d cloud.readings [] ∙ unfold get in continued-none (of_device d cloud.readings)
