-- ===== src/Cloud/Sessions/Claim.antt =====
-- What recording a counter does to the heap of session objects.
use sodtware_dev_ops_gp_proj.Base.{ℕ, ◌≡◌, ◌⊎◌, inl, inr, some, get_elem?, set, Option-cases}
use sodtware_dev_ops_gp_proj.Base.Result.{Exception, ok, err, http_error, Result-cases}
use sodtware_dev_ops_gp_proj.Cloud.State.{Cloud, Session}
use sodtware_dev_ops_gp_proj.Cloud.Sessions.{claim_counter, admit}

module _ {F : Type 0} where
  -- What a claim does to the heap.
  pub claim_cases :
      (ref counter : ℕ) (cloud : Cloud F)
      → ((e : Exception) × (claim_counter ref counter cloud ≡ (err e, cloud)))
        ⊎ ((s : Session) × (t : Session) × (get_elem? cloud.heap ref ≡ some s)
            × (admit counter (some s) ≡ ok t)
            × (claim_counter ref counter cloud
                ≡ (ok tt, record cloud { heap = set cloud.heap ref t })))
  unfolding claim_counter
  claim_cases ref counter cloud = elim (Option-cases (get_elem? cloud.heap ref)) [
    | inl e ↦ inl (http_error 401, (rw e))
    | inr (s, e) ↦ elim (Result-cases (admit counter (some s))) [
      | inl (t, a) ↦ inr (s, t, e, a, (rw (e, a)))
      | inr (x, a) ↦ inl (x, (rw (e, a)))
    ]
  ]
