-- ===== src/Cloud/Readings/Ring.antt =====
-- The ring buffer of cloud_service/app.py over many stores.
use sodtware_dev_ops_gp_proj.Base.{
  ℕ, ◌-◌, ◌≤◌, ◌≡◌, sym, ap, ◌∙◌, List, [], ◌∷◌, ◌++◌, append_assoc, append-nil, arith, length,
  length-append, drop, length-drop, drop-append_le, drop-drop, ltb, Bool-cases, inl, inr,
}
use sodtware_dev_ops_gp_proj.Cloud.State.{Cloud, Stored, max_stored_readings}
use sodtware_dev_ops_gp_proj.Cloud.Readings.{append_bounded, last_items, store}

module _ {ℓ} {A : Type ℓ} where
  pub last_items_all : (n : ℕ) (xs : List A) → length xs ≤ n → last_items n xs ≡ xs
  unfolding last_items
  last_items_all n xs h = let e : length xs - n ≡ 0 = omega arith in rw e

  pub length-last_items : (n : ℕ) (xs : List A) → length (last_items n xs) ≤ n
  unfolding last_items
  length-last_items n xs = omega (arith, length-drop (length xs - n) xs)

  pub append_bounded-last_items :
      (n : ℕ) (xs : List A) (x : A)
      → length xs ≤ n
      → append_bounded n xs x ≡ last_items n (xs ++ x ∷ [])
  unfolding append_bounded
  append_bounded-last_items n xs x h = elim (Bool-cases (ltb (length xs) n)) [
    | inl t ↦
        rw t (sym (last_items_all n (xs ++ x ∷ []) (ground (arith, length-append xs (x ∷ [])))))
    | inr t ↦
        let e : length (xs ++ x ∷ []) - n ≡ 1 = ground (arith, length-append xs (x ∷ [])) in
        unfold last_items in rw (t, e)
  ]

  -- What fell out of a bounded buffer would not be in a later one either.
  pub last_items-append :
      (n : ℕ) (xs ys : List A) → last_items n (last_items n xs ++ ys) ≡ last_items n (xs ++ ys)
  unfolding last_items
  last_items-append n xs ys =
      let k = length xs - n in
      let fits : k ≤ length xs = omega arith in
      rw (← drop-append_le k xs ys fits) (
        drop-drop _ k (xs ++ ys)
        ∙ ap (λ (j : ℕ). drop j (xs ++ ys))
            (omega (arith, length-drop k (xs ++ ys), length-append xs ys)))

-- One call of `_store`: the reading, the path and the receive time.
abbrev pub Arrival : Type 0 → Type 0
Arrival F = Stored F

module _ {F : Type 0} where
  pub store_all : List (Arrival F) → Cloud F → Cloud F
  store_all [] cloud = cloud
  store_all (a ∷ arrivals) cloud =
      store_all arrivals (store a.reading a.channel a.received_at cloud)

  pub readings-store :
      (a : Arrival F) (cloud : Cloud F)
      → length cloud.readings ≤ max_stored_readings
      → (store a.reading a.channel a.received_at cloud).readings
        ≡ last_items max_stored_readings (cloud.readings ++ a ∷ [])
  unfolding store
  readings-store a cloud h = append_bounded-last_items max_stored_readings cloud.readings a h

  -- After any number of stores the buffer holds the newest thousand of all readings, those from
  -- before included, in the order of arrival.
  pub readings-store_all :
      (arrivals : List (Arrival F)) (cloud : Cloud F)
      → length cloud.readings ≤ max_stored_readings
      → (store_all arrivals cloud).readings
        ≡ last_items max_stored_readings (cloud.readings ++ arrivals)
  unfolding store_all
  readings-store_all [] cloud h =
      rw append-nil (sym (last_items_all max_stored_readings cloud.readings h))
  readings-store_all (a ∷ arrivals) cloud h =
      let next = store a.reading a.channel a.received_at cloud in
      let e = readings-store a cloud h in
      let small : length next.readings ≤ max_stored_readings =
        rw e (length-last_items max_stored_readings (cloud.readings ++ a ∷ [])) in
      readings-store_all arrivals next small
      ∙ (rw e (
          last_items-append max_stored_readings (cloud.readings ++ a ∷ []) arrivals
          ∙ ap (last_items max_stored_readings) (append_assoc cloud.readings (a ∷ []) arrivals)))
