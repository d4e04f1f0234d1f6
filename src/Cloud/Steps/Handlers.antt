-- ===== src/Cloud/Steps/Handlers.antt =====
-- The handlers of cloud_service/app.py as sequences of locked steps.
use sodtware_dev_ops_gp_proj.Base.{ℕ, Bool, true, false, Option, List, [], ◌∷◌, Bytes, Text}
use sodtware_dev_ops_gp_proj.Base.Result.{Exception, Result, ok, err}
use sodtware_dev_ops_gp_proj.Base.Exec.{Exec, ◌>>=◌, unless, lift, continue}
use sodtware_dev_ops_gp_proj.Channel.Crypto.{Crypto}
use sodtware_dev_ops_gp_proj.Channel.Keys.{new_session_id}
use sodtware_dev_ops_gp_proj.Cloud.Reading.{Reading, FloatOrder}
use sodtware_dev_ops_gp_proj.Cloud.State.{Cloud, Config, legacy, mlkem}
use sodtware_dev_ops_gp_proj.Cloud.Sessions.{claim_counter}
use sodtware_dev_ops_gp_proj.Cloud.Messages.{
  SessionRequest, SealedReading, agree, session_reply, validate, session_request_fits,
  sealed_reading_fits,
}
use sodtware_dev_ops_gp_proj.Cloud.Ingest.{
  ingest, ingest_sealed, deliver, post_sealed, post_reading, pqc_session, post_session, is_token,
  opening,
}
use sodtware_dev_ops_gp_proj.Cloud.Steps.{opens, claims, stores, Reach, here, next, Reach-trans}

-- An action that goes by locked steps, whether it returns or raises.
record Walks {F A : Type 0} (m : Exec (Cloud F) A) : Type 0 where
  at : (s : Cloud F) → Reach s (m s).1

Walks-lift : {F A : Type 0} (r : Result A) → Walks {F = F} (lift r)
Walks-lift r = record { at = λ s. here }

Walks-unless : {F : Type 0} (b : Bool) (e : Exception) → Walks {F = F} (unless b e)
Walks-unless true e = record { at = λ s. here }
Walks-unless false e = record { at = λ s. here }

continue-Reach :
    {F A B : Type 0} (s : Cloud F) (r : Result A) (t : Cloud F) (f : A → Exec (Cloud F) B)
    → Reach s t
    → ((a : A) → Walks (f a))
    → Reach s (continue (r, t) f).1
continue-Reach s (ok a) t f p w = Reach-trans p ((w a).at t)
continue-Reach s (err e) t f p w = p

Walks-bind :
    {F A B : Type 0} (m : Exec (Cloud F) A) (f : A → Exec (Cloud F) B)
    → Walks m
    → ((a : A) → Walks (f a))
    → Walks (m >>= f)
Walks-bind m f w k = record { at = λ s. let (r, t) = m s in continue-Reach s r t f (w.at s) k }

claim_counter-Walks : {F : Type 0} (ref counter : ℕ) → Walks {F = F} (claim_counter ref counter)
claim_counter-Walks ref counter = record { at = λ s. next here (claims ref counter s) }

opening-Walks :
    {F : Type 0} (sid : Text) (key : Bytes) (now : ℕ) → Walks {F = F} (opening sid key now)
unfolding opening
opening-Walks sid key now = record { at = λ s. next here (opens sid key now s) }

module _ {F : Type 0} (c : Crypto) (o : FloatOrder F)
    (parse_fields : Bytes → Option (Reading F)) where
  deliver-Walks : (plaintext : Bytes) (wall : ℕ) → Walks (deliver c o parse_fields plaintext wall)
  unfolding deliver
  deliver-Walks plaintext wall =
      Walks-bind (lift (validate o parse_fields plaintext)) _
        (Walks-lift (validate o parse_fields plaintext))
        (λ r. record { at = λ s. next here (stores r mlkem wall s) })

  ingest_sealed-Walks :
      (message : SealedReading) (now wall : ℕ)
      → Walks (ingest_sealed c o parse_fields message now wall)
  unfolding ingest_sealed
  ingest_sealed-Walks message now wall =
      Walks-bind _ _ (record { at = λ s. here })
        (λ t.
          Walks-bind (claim_counter t.ref t.counter) _ (claim_counter-Walks t.ref t.counter)
            (λ _. deliver-Walks t.plaintext wall))

  post_sealed-Walks :
      (message : SealedReading) (now wall : ℕ)
      → Walks (post_sealed c o parse_fields message now wall)
  unfolding post_sealed
  post_sealed-Walks message now wall =
      Walks-bind (unless (sealed_reading_fits message) _) _ (Walks-unless _ _)
        (λ _. ingest_sealed-Walks message now wall)

  post_reading-Walks :
      (config : Config) (body : Bytes) (token : Option Text) (wall : ℕ)
      → Walks (post_reading c o parse_fields config body token wall)
  unfolding post_reading ingest
  post_reading-Walks config body token wall =
      Walks-bind (lift (validate o parse_fields body)) _ (Walks-lift _) (λ r.
        Walks-bind (unless config.legacy_ingest_enabled _) _ (Walks-unless _ _) (λ _.
          Walks-bind (unless (is_token config.expected_token token) _) _ (Walks-unless _ _)
            (λ _. record { at = λ s. next here (stores r legacy wall s) })))

module _ {F : Type 0} (c : Crypto) where
  post_session-Walks :
      (config : Config) (r_encaps r_id now : ℕ) (request : SessionRequest)
      → Walks {F = F} (post_session c config r_encaps r_id now request)
  unfolding post_session pqc_session
  post_session-Walks config r_encaps r_id now request =
      Walks-bind (unless (session_request_fits request) _) _ (Walks-unless _ _) (λ _.
        Walks-bind (lift (agree c config r_encaps request)) _ (Walks-lift _) (λ keys.
          Walks-bind (opening (new_session_id c r_id) keys.0 now) _
            (opening-Walks (new_session_id c r_id) keys.0 now)
            (λ _. Walks-lift (session_reply c (new_session_id c r_id) keys.1 keys.2))))

-- The state-changing requests that the service answers.
pub data Request : Type 0 where
  reading : Bytes → Option Text → ℕ → Request
  session : ℕ → ℕ → ℕ → SessionRequest → Request
  sealed : SealedReading → ℕ → ℕ → Request

module _ {F : Type 0} (c : Crypto) (o : FloatOrder F) (parse_fields : Bytes → Option (Reading F))
    (config : Config) where
  -- The state that a request leaves, whatever the answer.
  unfoldable pub handle : Cloud F → Request → Cloud F
  handle cloud (reading body token wall) =
      (post_reading c o parse_fields config body token wall cloud).1
  handle cloud (session r_encaps r_id now request) =
      (post_session c config r_encaps r_id now request cloud).1
  handle cloud (sealed message now wall) = (post_sealed c o parse_fields message now wall cloud).1

  unfoldable pub handle_all : Cloud F → List Request → Cloud F
  unfolding handle
  handle_all cloud [] = cloud
  handle_all cloud (r ∷ rs) = handle_all (handle cloud r) rs

  handle-Reach : (cloud : Cloud F) (r : Request) → Reach cloud (handle cloud r)
  unfolding handle
  handle-Reach cloud (reading body token wall) =
      (post_reading-Walks c o parse_fields config body token wall).at cloud
  handle-Reach cloud (session r_encaps r_id now request) =
      (post_session-Walks c config r_encaps r_id now request).at cloud
  handle-Reach cloud (sealed message now wall) =
      (post_sealed-Walks c o parse_fields message now wall).at cloud

  -- Whatever is asked, the service moves by locked steps only.
  pub handle_all-Reach : (rs : List Request) (cloud : Cloud F) → Reach cloud (handle_all cloud rs)
  unfolding handle_all
  handle_all-Reach [] cloud = here
  handle_all-Reach (r ∷ rs) cloud =
      Reach-trans (handle-Reach cloud r) (handle_all-Reach rs (handle cloud r))
