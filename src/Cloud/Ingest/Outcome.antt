-- ===== src/Cloud/Ingest/Outcome.antt =====
-- What `ingest_sealed` changes on each of its outcomes.
use sodtware_dev_ops_gp_proj.Base.{
  ℕ, ◌≡◌, refl, ap, ◌⊎◌, inl, inr, true, Option, some, Bytes, arith, set, Option-cases, Bool-cases,
}
use sodtware_dev_ops_gp_proj.Base.Result.{Result, Exception, ok, err, http_error, Result-cases}
use sodtware_dev_ops_gp_proj.Channel.Crypto.{Crypto}
use sodtware_dev_ops_gp_proj.Cloud.Reading.{Reading, FloatOrder, fits}
use sodtware_dev_ops_gp_proj.Cloud.State.{Cloud, mlkem}
use sodtware_dev_ops_gp_proj.Cloud.Readings.{store}
use sodtware_dev_ops_gp_proj.Cloud.Sessions.{claim_counter}
use sodtware_dev_ops_gp_proj.Cloud.Sessions.Claim.{claim_cases}
use sodtware_dev_ops_gp_proj.Cloud.Messages.{SealedReading, Ticket, receive, validate}
use sodtware_dev_ops_gp_proj.Cloud.Ingest.{Accepted, ingest_sealed, deliver}

module _ {F : Type 0} (c : Crypto) (o : FloatOrder F)
    (parse_fields : Bytes → Option (Reading F)) where
  -- The courses that the handler can take, with the state that each leaves.
  abbrev pub Course : SealedReading → ℕ → ℕ → Cloud F → Result Accepted × Cloud F → Type 0
  Course m now wall cloud p =
      ((e : Exception) × (p ≡ (err e, cloud)))
      ⊎ ((t : Ticket) × (claimed : Cloud F) × (receive c m now cloud ≡ ok t)
          × (claim_counter t.ref t.counter cloud ≡ (ok tt, claimed))
          × (((validate o parse_fields t.plaintext ≡ err (http_error 422))
                × (p ≡ (err (http_error 422), claimed)))
              ⊎ ((r : Reading F) × (validate o parse_fields t.plaintext ≡ ok r)
                  × (p ≡ (
                    ok (record { device_id = r.device_id; seq = r.seq }),
                    store r mlkem wall claimed,
                  )))))

  validate_cases :
      (body : Bytes)
      → (validate o parse_fields body ≡ err (http_error 422))
        ⊎ ((r : Reading F) × (validate o parse_fields body ≡ ok r))
  unfolding validate
  validate_cases body = elim (Option-cases (parse_fields body)) [
    | inl e ↦ inl (rw (e, validate))
    | inr (r, e) ↦ elim (Bool-cases (fits o r)) [
      | inl h ↦ inr (r, (rw (e, validate) (rw h)))
      | inr h ↦ inl (rw (e, validate) (rw h))
    ]
  ]

  pub validate_ok :
      (body : Bytes) (r : Reading F)
      → validate o parse_fields body ≡ ok r
      → (parse_fields body ≡ some r) × (fits o r ≡ true)
  unfolding validate
  validate_ok body r h = ground arith

  pub ingest_sealed-Course :
      (m : SealedReading) (now wall : ℕ) (cloud : Cloud F)
      → Course m now wall cloud (ingest_sealed c o parse_fields m now wall cloud)
  unfolding ingest_sealed deliver
  ingest_sealed-Course m now wall cloud = elim (Result-cases (receive c m now cloud)) [
    | inr (e, h) ↦ inl (e, (rw h))
    | inl (t, h) ↦ elim (claim_cases t.ref t.counter cloud) [
      | inl (e, q) ↦ inl (e, (rw (h, q)))
      | inr (s, s', at, a, q) ↦ elim (validate_cases t.plaintext) [
        | inl v ↦ inr (t, _, h, q, inl (v, (rw (h, q, v))))
        | inr (r, v) ↦ inr (t, _, h, q, inr (r, v, (rw (h, q, v))))
      ]
    ]
  ]

  claimed_only :
      (ref counter : ℕ) (cloud claimed : Cloud F)
      → claim_counter ref counter cloud ≡ (ok tt, claimed)
      → (claimed.readings ≡ cloud.readings) × (claimed.sessions ≡ cloud.sessions)
  claimed_only ref counter cloud claimed h = elim (claim_cases ref counter cloud) [
    | inl (e, q) ↦ absurd (cc (h, q))
    | inr (s, t, at, a, q) ↦
        let e : claimed ≡ record cloud { heap = set cloud.heap ref t } = cc (h, q) in
        rw e (refl, refl)
  ]

  -- A message that is refused leaves the stored readings and the session table as they were;
  -- except after 422, where the counter is used up, it leaves the whole state as it was.
  pub ingest_sealed_refused :
      (m : SealedReading) (now wall : ℕ) (cloud : Cloud F) (e : Exception)
      → (ingest_sealed c o parse_fields m now wall cloud).0 ≡ err e
      → let after = (ingest_sealed c o parse_fields m now wall cloud).1 in
        (after.readings ≡ cloud.readings)
        × (after.sessions ≡ cloud.sessions)
        × ((after ≡ cloud) ⊎ (e ≡ http_error 422))
  ingest_sealed_refused m now wall cloud e h = elim (ingest_sealed-Course m now wall cloud) [
    | inl (x, p) ↦ rw p (refl, refl, inl refl)
    | inr (t, claimed, r, q, inl (v, p)) ↦
        let (same_readings, same_sessions) = claimed_only t.ref t.counter cloud claimed q in
        let code : e ≡ http_error 422 = cc (h, ap (λ (z : Result Accepted × Cloud F). z.0) p) in
        rw p (same_readings, same_sessions, inr code)
    | inr (t, claimed, r, q, inr (x, v, p)) ↦
        absurd (cc (h, ap (λ (z : Result Accepted × Cloud F). z.0) p))
  ]
