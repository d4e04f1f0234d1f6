-- ===== src/Cloud/Steps/Outsider.antt =====
-- Requests of those who know neither the token nor a session key, to cloud_service/app.py.
use sodtware_dev_ops_gp_proj.Base.{
  ℕ, ◌≡◌, ◌≢◌, refl, ◌⊎◌, inl, inr, false, Bool-cases, Option, none, some, List, [], ◌∷◌, Bytes,
  Text, same, same_iff, All,
}
use sodtware_dev_ops_gp_proj.Base.Result.{
  Result, Result-cases, ok, err, http_error, value_error, channel_error, key_error, type_error,
  attribute_error, overflow_error, request_error, uplink_error, os_error, index_error,
  chain_returned,
}
use sodtware_dev_ops_gp_proj.Base.Exec.{Exec, continue}
use sodtware_dev_ops_gp_proj.Channel.Crypto.{Crypto}
use sodtware_dev_ops_gp_proj.Channel.Keys.{gateway_proof, open_sealed}
use sodtware_dev_ops_gp_proj.Cloud.Reading.{Reading, FloatOrder}
use sodtware_dev_ops_gp_proj.Cloud.State.{Cloud, Config}
use sodtware_dev_ops_gp_proj.Cloud.Messages.{
  SessionRequest, SealedReading, or_bad_request, Ticket, session_request_fits, sealed_reading_fits,
  decode_request, decode_sealed, open_message, receive, agree, validate,
}
use sodtware_dev_ops_gp_proj.Cloud.Sessions.{find_session}
use sodtware_dev_ops_gp_proj.Cloud.Ingest.{
  is_token, ingest, ingest_sealed, post_sealed, post_reading, pqc_session, post_session,
}
use sodtware_dev_ops_gp_proj.Cloud.Steps.Handlers.{
  Request, reading, session, sealed, handle, handle_all,
}

module _ {F : Type 0} (c : Crypto) (config : Config) where
  -- A reading without the token or to a service that has the old path disabled; a session request
  -- whose proof is not the one that the token makes of its contents; or a sealed message that does not
  -- open with the key of the session that it names, if there is one.
  unfoldable pub IsOutsider : Cloud F → Request → Type 0
  IsOutsider cloud (reading body token wall) =
      (config.legacy_ingest_enabled ≡ false) ⊎ (token ≢ some config.expected_token)
  IsOutsider cloud (session r_encaps r_id now request) =
      (ct pk proof : Bytes)
      → decode_request request ≡ ok (ct, pk, proof)
      → gateway_proof c config.expected_token ct pk ≢ ok proof
  IsOutsider cloud (sealed message now wall) =
      (ref : ℕ) (key nonce text plaintext : Bytes)
      → decode_sealed message ≡ ok (nonce, text)
      → find_session message.session_id now cloud ≡ ok (ref, key)
      → open_sealed c key nonce message.session_id text ≢ ok plaintext

is_token_other :
    (expected : Text) (token : Option Text)
    → token ≢ some expected
    → is_token expected token ≡ false
unfolding is_token
is_token_other expected none ne = refl
is_token_other expected (some t) ne = elim (Bool-cases (same t expected)) [
  | inl k ↦ let e : t ≡ expected = (same_iff t expected).0 k in absurd (ne (rw e refl))
  | inr k ↦ k
]

stopped :
    {S A B : Type 0} (s : S) (r : Result A) (f : A → Exec S B)
    → ((a : A) → r ≢ ok a)
    → (continue (r, s) f).1 ≡ s
stopped s (ok a) f never = absurd (never a refl)
stopped s (err e) f never = refl

or_bad_request_ok : {A : Type 0} (r : Result A) (a : A) → or_bad_request r ≡ ok a → r ≡ ok a
or_bad_request_ok (ok x) a e = e
or_bad_request_ok (err value_error) a e = absurd (cc e)
or_bad_request_ok (err channel_error) a e = absurd (cc e)
or_bad_request_ok (err key_error) a e = absurd (cc e)
or_bad_request_ok (err type_error) a e = absurd (cc e)
or_bad_request_ok (err attribute_error) a e = absurd (cc e)
or_bad_request_ok (err overflow_error) a e = absurd (cc e)
or_bad_request_ok (err request_error) a e = absurd (cc e)
or_bad_request_ok (err uplink_error) a e = absurd (cc e)
or_bad_request_ok (err os_error) a e = absurd (cc e)
or_bad_request_ok (err index_error) a e = absurd (cc e)
or_bad_request_ok (err (http_error n)) a e = absurd (cc e)

module _ {F : Type 0} (c : Crypto) (o : FloatOrder F) (parse_fields : Bytes → Option (Reading F))
    (config : Config) where
  post_reading_outside :
      (body : Bytes) (token : Option Text) (wall : ℕ) (cloud : Cloud F)
      → IsOutsider c config cloud (reading body token wall)
      → (post_reading c o parse_fields config body token wall cloud).1 ≡ cloud
  unfolding post_reading ingest IsOutsider
  post_reading_outside body token wall cloud out =
      elim (Result-cases (validate o parse_fields body)) [
        | inr (e, p) ↦ rw p refl
        | inl (r, p) ↦ rw p (elim (Bool-cases config.legacy_ingest_enabled) [
          | inr off ↦ rw off refl
          | inl on ↦ elim out [
            | inl off ↦ rw off refl
            | inr ne ↦ rw (on, is_token_other config.expected_token token ne) refl
          ]
        ])
      ]

  agree_outside :
      (random : ℕ) (request : SessionRequest) (made : Bytes × Bytes × Bytes)
      → ((ct pk proof : Bytes)
          → decode_request request ≡ ok (ct, pk, proof)
          → gateway_proof c config.expected_token ct pk ≢ ok proof)
      → agree c config random request ≢ ok made
  unfolding agree
  agree_outside random request made out e =
      let ((ct, pk, proof), decoded, e1) = chain_returned (decode_request request) _ e in
      let (expected, proved, e2) =
        chain_returned (gateway_proof c config.expected_token ct pk) _ e1 in
      elim (Bool-cases (same expected proof)) [
        | inl k ↦
            let same_proof : expected ≡ proof = (same_iff expected proof).0 k in
            out ct pk proof decoded (rw same_proof at proved)
        | inr k ↦ let z : err (http_error 401) ≡ ok made = rw k at e2 in cc z
      ]

  receive_outside :
      (message : SealedReading) (now : ℕ) (cloud : Cloud F) (ticket : Ticket)
      → ((ref : ℕ) (key nonce text plaintext : Bytes)
          → decode_sealed message ≡ ok (nonce, text)
          → find_session message.session_id now cloud ≡ ok (ref, key)
          → open_sealed c key nonce message.session_id text ≢ ok plaintext)
      → receive c message now cloud ≢ ok ticket
  unfolding receive open_message
  receive_outside message now cloud ticket out e =
      let ((nonce, text), decoded, e1) = chain_returned (decode_sealed message) _ e in
      let ((ref, key), found, e2) =
        chain_returned (find_session message.session_id now cloud) _ e1 in
      let (opened, came, _) =
        chain_returned (open_message c key nonce message.session_id text) _ e2 in
      let (plaintext, read, _) =
        chain_returned (or_bad_request (open_sealed c key nonce message.session_id text)) _ came in
      out ref key nonce text plaintext decoded found
        (or_bad_request_ok (open_sealed c key nonce message.session_id text) plaintext read)

  post_session_outside :
      (r_encaps r_id now : ℕ) (request : SessionRequest) (cloud : Cloud F)
      → IsOutsider c config cloud (session r_encaps r_id now request)
      → (post_session c config r_encaps r_id now request cloud).1 ≡ cloud
  unfolding post_session pqc_session IsOutsider
  post_session_outside r_encaps r_id now request cloud out =
      elim (Bool-cases (session_request_fits request)) [
        | inr misfit ↦ rw misfit refl
        | inl fit ↦ rw fit (
            stopped cloud (agree c config r_encaps request) _
              (λ made. agree_outside r_encaps request made out))
      ]

  post_sealed_outside :
      (message : SealedReading) (now wall : ℕ) (cloud : Cloud F)
      → IsOutsider c config cloud (sealed message now wall)
      → (post_sealed c o parse_fields message now wall cloud).1 ≡ cloud
  unfolding post_sealed ingest_sealed IsOutsider
  post_sealed_outside message now wall cloud out = elim (Bool-cases (sealed_reading_fits message)) [
    | inr misfit ↦ rw misfit refl
    | inl fit ↦ rw fit (
        stopped cloud (receive c message now cloud) _
          (λ ticket. receive_outside message now cloud ticket out))
  ]

  handle_outside :
      (cloud : Cloud F) (r : Request)
      → IsOutsider c config cloud r
      → handle c o parse_fields config cloud r ≡ cloud
  unfolding handle
  handle_outside cloud (reading body token wall) out =
      post_reading_outside body token wall cloud out
  handle_outside cloud (session r_encaps r_id now request) out =
      post_session_outside r_encaps r_id now request cloud out
  handle_outside cloud (sealed message now wall) out =
      post_sealed_outside message now wall cloud out

  -- However many requests come from outside, each a reading without the token or to a service that
  -- has the old path disabled, a session request whose proof is not the one that the token makes of
  -- its contents, or a message that does not open with the key of the session that it names: the
  -- readings, the sessions and their replay sets stay exactly as they were.
  pub handle_all-IsOutsider :
      (rs : List Request) (cloud : Cloud F)
      → All (IsOutsider c config cloud) rs
      → handle_all c o parse_fields config cloud rs ≡ cloud
  unfolding handle_all
  handle_all-IsOutsider [] cloud out = refl
  handle_all-IsOutsider (r ∷ rs) cloud (first, others) =
      rw (handle_outside cloud r first) (handle_all-IsOutsider rs cloud others)
