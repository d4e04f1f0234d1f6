-- ===== src/Cloud/Health/Report.antt =====
-- What the report of `health` says of the service's past: cloud_service/app.py.
use sodtware_dev_ops_gp_proj.Base.{
  ℕ, ◌+◌, ◌≤◌, ◌≡◌, ◌⊎◌, refl, inl, inr, Bool, true, false, Bool-cases, Option, List, [], ◌∷◌, ◌++◌,
  Bytes, Text, length, drop, ltb, arith,
}
use sodtware_dev_ops_gp_proj.Base.Dict.{Dict}
use sodtware_dev_ops_gp_proj.Base.Result.{Exception, Result, ok, err}
use sodtware_dev_ops_gp_proj.Base.Exec.{Exec, ◌>>=◌, unless, lift, continue}
use sodtware_dev_ops_gp_proj.Channel.Crypto.{Crypto}
use sodtware_dev_ops_gp_proj.Cloud.Reading.{Reading, FloatOrder}
use sodtware_dev_ops_gp_proj.Cloud.State.{
  Cloud, Config, Stored, Session, Channel, legacy, mlkem, max_stored_readings, max_sessions,
}
use sodtware_dev_ops_gp_proj.Cloud.Readings.{tally, by_channel, append_bounded, store}
use sodtware_dev_ops_gp_proj.Cloud.Sessions.{
  active_sessions, count_live, is_expired, claim_counter, open_session,
}
use sodtware_dev_ops_gp_proj.Cloud.Sessions.Claim.{claim_cases}
use sodtware_dev_ops_gp_proj.Cloud.Sessions.Prune.{prune_sessions_lem}
use sodtware_dev_ops_gp_proj.Cloud.Messages.{
  SessionRequest, SealedReading, validate, sealed_reading_fits,
}
use sodtware_dev_ops_gp_proj.Cloud.Ingest.{
  ingest, ingest_sealed, deliver, post_sealed, post_reading, pqc_session, post_session, opening,
}
use sodtware_dev_ops_gp_proj.Cloud.Steps.Invariant.{IsWell, Reach-IsWell}
use sodtware_dev_ops_gp_proj.Cloud.Steps.Handlers.{
  Request, reading, session, sealed, handle, handle_all, handle_all-Reach,
}
use sodtware_dev_ops_gp_proj.Cloud.Health.{health}

count_live_le : (heap : List Session) (now : ℕ) (d : Dict ℕ) → count_live heap now d ≤ length d
unfolding count_live
count_live_le heap now [] = omega arith
count_live_le heap now ((sid, ref) ∷ d) = elim (Bool-cases (is_expired heap now ref)) [
  | inl t ↦ rw t (omega (arith, count_live_le heap now d))
  | inr t ↦ rw t (omega (arith, count_live_le heap now d))
]

tally_total : (ch : Channel) (p : ℕ × ℕ) → (tally ch p).0 + (tally ch p).1 ≡ p.0 + p.1 + 1
tally_total mlkem p = omega arith
tally_total legacy p = omega arith

tally_mono : (ch : Channel) (p q : ℕ × ℕ) → p.1 ≤ q.1 → (tally ch p).1 ≤ (tally ch q).1
tally_mono mlkem p q h = h
tally_mono legacy p q h = omega arith

tally_more : (ch : Channel) (p : ℕ × ℕ) → p.1 ≤ (tally ch p).1
tally_more mlkem p = omega arith
tally_more legacy p = omega arith

module _ {F : Type 0} where
  by_channel_total : (rs : List (Stored F)) → (by_channel rs).0 + (by_channel rs).1 ≡ length rs
  unfolding by_channel
  by_channel_total [] = refl
  by_channel_total (r ∷ rs) =
      omega (arith, tally_total r.channel (by_channel rs), by_channel_total rs)

  -- The readings that came over the legacy path.
  abbrev legacy_count : List (Stored F) → ℕ
  legacy_count rs = (by_channel rs).1

  append-legacy_count :
      (rs : List (Stored F)) (a : Stored F)
      → a.channel ≡ mlkem
      → legacy_count (rs ++ a ∷ []) ≤ legacy_count rs
  unfolding by_channel
  append-legacy_count [] a e = rw e (omega arith)
  append-legacy_count (r ∷ rs) a e = tally_mono r.channel _ _ (append-legacy_count rs a e)

  drop-legacy_count : (rs : List (Stored F)) → legacy_count (drop 1 rs) ≤ legacy_count rs
  unfolding by_channel
  drop-legacy_count [] = omega arith
  drop-legacy_count (r ∷ rs) = tally_more r.channel (by_channel rs)

  store-legacy_count :
      (r : Reading F) (wall : ℕ) (cloud : Cloud F)
      → legacy_count (store r mlkem wall cloud).readings ≤ legacy_count cloud.readings
  unfolding store append_bounded
  store-legacy_count r wall cloud =
      let a : Stored F = record { reading = r; received_at = wall; channel = mlkem } in
      let longer = append-legacy_count cloud.readings a refl in
      elim (Bool-cases (ltb (length cloud.readings) max_stored_readings)) [
        | inl t ↦ rw t longer
        | inr t ↦ rw t (omega (arith, longer, drop-legacy_count (cloud.readings ++ a ∷ [])))
      ]

  -- An action that adds no reading over the legacy path, whether it returns or raises.
  record Modern {A : Type 0} (m : Exec (Cloud F) A) : Type 0 where
    at : (s : Cloud F) → legacy_count (m s).1.readings ≤ legacy_count s.readings

module _ {F : Type 0} where
  Modern-lift : {A : Type 0} (r : Result A) → Modern {F = F} (lift r)
  Modern-lift r = record { at = λ s. omega arith }

  Modern-unless : (b : Bool) (e : Exception) → Modern {F = F} (unless b e)
  Modern-unless true e = record { at = λ s. omega arith }
  Modern-unless false e = record { at = λ s. omega arith }

  continue-legacy_count :
      {A B : Type 0} (s : Cloud F) (r : Result A) (t : Cloud F) (f : A → Exec (Cloud F) B)
      → legacy_count t.readings ≤ legacy_count s.readings
      → ((a : A) → Modern (f a))
      → legacy_count (continue (r, t) f).1.readings ≤ legacy_count s.readings
  continue-legacy_count s (ok a) t f p w = omega (arith, p, (w a).at t)
  continue-legacy_count s (err e) t f p w = p

  Modern-bind :
      {A B : Type 0} (m : Exec (Cloud F) A) (f : A → Exec (Cloud F) B)
      → Modern m
      → ((a : A) → Modern (f a))
      → Modern (m >>= f)
  Modern-bind m f w k = record {
    at = λ s. let (r, t) = m s in continue-legacy_count s r t f (w.at s) k;
  }

  claim_counter-Modern : (ref counter : ℕ) → Modern {F = F} (claim_counter ref counter)
  claim_counter-Modern ref counter = record {
    at = λ s. elim (claim_cases ref counter s) [
      | inl (e, q) ↦ rw q (omega arith)
      | inr (_, t, _, _, q) ↦ rw q (omega arith)
    ];
  }

  opening-Modern : (sid : Text) (key : Bytes) (now : ℕ) → Modern {F = F} (opening sid key now)
  unfolding opening open_session
  opening-Modern sid key now = record {
    at = λ s.
        let (_, _, _, _, same_readings) = prune_sessions_lem now s in
        rw same_readings (omega arith);
  }

ruleset modern_rules =
    (Modern-lift, Modern-unless, Modern-bind, claim_counter-Modern, opening-Modern)

module _ {F : Type 0} (c : Crypto) (o : FloatOrder F) (parse_fields : Bytes → Option (Reading F))
    (config : Config) (legacy_off : config.legacy_ingest_enabled ≡ false) where
  post_sealed-Modern :
      (message : SealedReading) (now wall : ℕ)
      → Modern (post_sealed c o parse_fields message now wall)
  unfolding post_sealed ingest_sealed deliver
  post_sealed-Modern message now wall =
      Modern-bind (unless (sealed_reading_fits message) _) _ (Modern-unless _ _) (λ _.
        Modern-bind _ _ (record { at = λ s. omega arith })
          (λ t.
            Modern-bind (claim_counter t.ref t.counter) _ (claim_counter-Modern t.ref t.counter)
              (λ _.
                Modern-bind (lift (validate o parse_fields t.plaintext)) _ (Modern-lift _)
                  (λ r. record { at = λ s. store-legacy_count r wall s }))))

  post_reading-Modern :
      (body : Bytes) (token : Option Text) (wall : ℕ)
      → Modern (post_reading c o parse_fields config body token wall)
  unfolding post_reading ingest
  post_reading-Modern body token wall =
      Modern-bind (lift (validate o parse_fields body)) _ (Modern-lift _)
        (λ r. record { at = λ s. rw legacy_off (omega arith) })

  post_session-Modern :
      (r_encaps r_id now : ℕ) (request : SessionRequest)
      → Modern {F = F} (post_session c config r_encaps r_id now request)
  unfolding post_session pqc_session
  post_session-Modern r_encaps r_id now request = search modern_rules depth 20

  handle_all-legacy_count :
      (rs : List Request) (cloud : Cloud F)
      → legacy_count (handle_all c o parse_fields config cloud rs).readings
        ≤ legacy_count cloud.readings
  unfolding handle_all handle
  handle_all-legacy_count [] cloud = omega arith
  handle_all-legacy_count (reading body token wall ∷ rs) cloud =
      omega (arith, (post_reading-Modern body token wall).at cloud, handle_all-legacy_count rs _)
  handle_all-legacy_count (session r_encaps r_id now request ∷ rs) cloud = omega (
    arith,
    (post_session-Modern r_encaps r_id now request).at cloud,
    handle_all-legacy_count rs _,
  )
  handle_all-legacy_count (sealed message now wall ∷ rs) cloud =
      omega (arith, (post_sealed-Modern message now wall).at cloud, handle_all-legacy_count rs _)

module _ {F : Type 0} (c : Crypto) (o : FloatOrder F) (parse_fields : Bytes → Option (Reading F))
    (config : Config) where
  -- After any requests to a well-formed service, `health` reports counts by channel that add up to
  -- the readings stored, at most a thousand of these, and at most a thousand active sessions; and no
  -- more readings over the legacy path than were stored before the requests, unless that path is
  -- enabled.
  pub health-handle_all :
      (rs : List Request) (cloud : Cloud F) (started_at wall now : ℕ)
      → IsWell cloud
      → let h = health c config started_at wall now (handle_all c o parse_fields config cloud rs) in
        (h.readings_by_channel.0 + h.readings_by_channel.1 ≡ h.stored_readings)
        × (h.stored_readings ≤ max_stored_readings)
        × (h.active_sessions ≤ max_sessions)
        × ((h.readings_by_channel.1 ≤ (by_channel cloud.readings).1)
            ⊎ (config.legacy_ingest_enabled ≡ true))
  unfolding health active_sessions
  health-handle_all rs cloud started_at wall now well =
      let after = handle_all c o parse_fields config cloud rs in
      let w = Reach-IsWell well (handle_all-Reach c o parse_fields config rs cloud) in
      (
        by_channel_total after.readings,
        w.ring,
        omega (arith, w.table, count_live_le after.heap now after.sessions),
        elim (Bool-cases config.legacy_ingest_enabled) [
          | inl on ↦ inr on
          | inr off ↦ inl (handle_all-legacy_count c o parse_fields config off rs cloud)
        ],
      )
