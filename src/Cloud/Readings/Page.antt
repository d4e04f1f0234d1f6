-- ===== src/Cloud/Readings/Page.antt =====
-- What a page of readings holds.
use Prim.Native.Nat.{min, max}
use mathlib.Core.List.{reverse, filter}
use mathlib.Core.Logic.{ite}
use sodtware_dev_ops_gp_proj.Base.{
  ℕ, ◌-◌, ◌≤◌, ◌≡◌, ◌↔◌, refl, ap, sym, ◌∙◌, inl, inr, Bool, true, false, Bool-cases, same,
  same_iff, if◌then◌else◌, Option, none, some, List, [], ◌∷◌, arith, Text, length, take,
  reverse-drop, length-reverse, take_all, dec_le,
}
use sodtware_dev_ops_gp_proj.Base.Int.{ℤ, pos, negsuc, pos_part, ◌≤ℤ◌}
use sodtware_dev_ops_gp_proj.Cloud.State.{Cloud, Stored, max_stored_readings}
use sodtware_dev_ops_gp_proj.Cloud.Readings.{
  last_items, clamp_limit, filtered, of_device, list_readings,
}

-- The clamp maps every integer into 1 .. 1000 and leaves what lies there alone.
pub clamp_limit_bounds :
    (limit : ℤ)
    → (1 ≤ clamp_limit limit)
      × (clamp_limit limit ≤ max_stored_readings)
      × (pos 1 ≤ℤ limit → limit ≤ℤ pos max_stored_readings → pos (clamp_limit limit) ≡ limit)
unfolding clamp_limit
clamp_limit_bounds (negsuc n) = (omega arith, omega arith, λ h k. absurd (omega arith))
clamp_limit_bounds (pos n) = (ground arith, ground arith, λ h k. ground arith)

take_min {ℓ} :
    {A : Type ℓ} (n : ℕ) (xs : List A) → take (length xs - (length xs - n)) xs ≡ take n xs
take_min n xs = elim (dec_le n (length xs)) [
  | yes h ↦ let e : length xs - (length xs - n) ≡ n = omega arith in rw e
  | no h ↦ take_all _ xs (omega arith) ∙ sym (take_all n xs (omega arith))
]

reverse-last_items {ℓ} :
    {A : Type ℓ} (n : ℕ) (xs : List A) → reverse (last_items n xs) ≡ take n (reverse xs)
unfolding last_items
reverse-last_items n xs =
    reverse-drop (length xs - n) xs ∙ (rw (← length-reverse xs) (take_min n (reverse xs)))

-- `if device_id:` and the comparison, as a predicate: no filter, an empty one, or an equal name.
abbrev pub IsWanted : {F : Type 0} → Option Text → Stored F → Type 0
IsWanted none r = Unit
IsWanted (some []) r = Unit
IsWanted (some (c ∷ d)) r = r.device_id ≡ c ∷ d

dec_named : (s t : Text) → Dec (s ≡ t)
dec_named s t = elim (Bool-cases (same s t)) [
  | inl h ↦ yes ((same_iff s t).0 h)
  | inr h ↦ no (λ e. absurd (cc (h, (same_iff s t).1 e)))
]

pub dec_wanted : {F : Type 0} (device_id : Option Text) (r : Stored F) → Dec (IsWanted device_id r)
dec_wanted none r = yes tt
dec_wanted (some []) r = yes tt
dec_wanted (some (c ∷ d)) r = dec_named r.device_id (c ∷ d)

keep_alike :
    {A P : Type 0} (b : Bool) (u : Dec P) (x : A) (xs ys : List A)
    → ((b ≡ true) ↔ P)
    → xs ≡ ys
    → (if b then x ∷ xs else xs) ≡ ite u (x ∷ ys) ys
keep_alike true (yes p) x xs ys h e = ap (λ zs. x ∷ zs) e
keep_alike true (no n) x xs ys h e = absurd (n (h.0 refl))
keep_alike false (yes p) x xs ys h e = absurd (cc (h.1 p))
keep_alike false (no n) x xs ys h e = e

clamp_limit-min : (limit : ℤ) → clamp_limit limit ≡ min 1000 (max 1 (pos_part limit))
unfolding clamp_limit
clamp_limit-min (negsuc n) = omega arith
clamp_limit-min (pos n) = ground arith

module _ {F : Type 0} where
  of_device-filter :
      (c : ℕ) (d : Text) (rs : List (Stored F))
      → of_device (c ∷ d) rs ≡ filter (dec_wanted (some (c ∷ d))) rs
  unfolding of_device dec_wanted
  of_device-filter c d [] = refl
  of_device-filter c d (r ∷ rs) =
      keep_alike (same r.device_id (c ∷ d)) (dec_named r.device_id (c ∷ d)) r _ _
        (same_iff r.device_id (c ∷ d)) (of_device-filter c d rs)

  filter_all : (rs : List (Stored F)) → rs ≡ filter (dec_wanted none) rs
  unfolding dec_wanted
  filter_all [] = refl
  filter_all (r ∷ rs) = ap (λ xs. r ∷ xs) (filter_all rs)

  filter_any : (rs : List (Stored F)) → rs ≡ filter (dec_wanted (some [])) rs
  unfolding dec_wanted
  filter_any [] = refl
  filter_any (r ∷ rs) = ap (λ xs. r ∷ xs) (filter_any rs)

  filtered-filter :
      (device_id : Option Text) (rs : List (Stored F))
      → filtered device_id rs ≡ filter (dec_wanted device_id) rs
  unfolding filtered
  filtered-filter none rs = filter_all rs
  filtered-filter (some []) rs = filter_any rs
  filtered-filter (some (c ∷ d)) rs = of_device-filter c d rs

  -- A page holds, newest first, those of the stored readings whose device has the name that was
  -- asked for, or all if no name or an empty one was given; at most `limit` of them, which counts as
  -- 1 below that and as 1000 above that. The count beside it is its length.
  pub list_readings-take-reverse :
      (limit : ℤ) (device_id : Option Text) (cloud : Cloud F)
      → let page =
          take
            (min 1000 (max 1 (pos_part limit)))
            (reverse (filter (dec_wanted device_id) cloud.readings)) in
        list_readings limit device_id cloud ≡ (length page, page)
  unfolding list_readings
  list_readings-take-reverse limit d cloud =
      let e : reverse (last_items (clamp_limit limit) (filtered d cloud.readings))
          ≡ take (min 1000 (max 1 (pos_part limit)))
              (reverse (filter (dec_wanted d) cloud.readings)) =
        reverse-last_items (clamp_limit limit) (filtered d cloud.readings)
        ∙ (rw (clamp_limit-min limit, filtered-filter d cloud.readings) refl) in
      let n = sym (length-reverse (last_items (clamp_limit limit) (filtered d cloud.readings))) in
      cc (n, e, ap length e)
