-- ===== src/Cloud/Ingest/Admission.antt =====
-- What an accepted message of `ingest_sealed` of cloud_service/app.py has behind it.
use sodtware_dev_ops_gp_proj.Base.{
  ℕ, ◌<◌, ◌≡◌, ◌≢◌, refl, sym, ap, ◌∙◌, inl, inr, true, false, Bool-cases, Option, none, some, List,
  [], ◌∷◌, Bytes, Text, All, arith, if◌then◌else◌, get_elem?, set, leb, length,
}
use sodtware_dev_ops_gp_proj.Base.Result.{
  Result, ok, err, value_error, channel_error, http_error, chain_returned,
}
use sodtware_dev_ops_gp_proj.Base.Dict.{get}
use sodtware_dev_ops_gp_proj.Base.Utf8
use sodtware_dev_ops_gp_proj.Channel.Base64.{b64decode}
use sodtware_dev_ops_gp_proj.Channel.Crypto.{Crypto, is_aes_key}
use sodtware_dev_ops_gp_proj.Channel.Keys.{open_sealed, or_channel_error}
use sodtware_dev_ops_gp_proj.Channel.Nonce.{counter_from}
use sodtware_dev_ops_gp_proj.Cloud.Reading.{Reading, FloatOrder, fits}
use sodtware_dev_ops_gp_proj.Cloud.State.{Cloud, Session, mlkem, max_stored_readings}
use sodtware_dev_ops_gp_proj.Cloud.Readings.{store, append_bounded}
use sodtware_dev_ops_gp_proj.Cloud.Sessions.{admit, contains}
use sodtware_dev_ops_gp_proj.Cloud.Sessions.Claim.{claim_cases}
use sodtware_dev_ops_gp_proj.Cloud.Sessions.Found.{find_session-Found}
use sodtware_dev_ops_gp_proj.Cloud.Messages.{
  SealedReading, decode_sealed, open_message, or_bad_request, receive,
}
use sodtware_dev_ops_gp_proj.Cloud.Messages.Received.{receive-Received}
use sodtware_dev_ops_gp_proj.Cloud.Ingest.{Accepted, ingest_sealed}
use sodtware_dev_ops_gp_proj.Cloud.Ingest.Outcome.{ingest_sealed-Course, validate_ok}

or_bad_request_ok {ℓ} : {A : Type ℓ} (r : Result A) (a : A) → or_bad_request r ≡ ok a → r ≡ ok a
or_bad_request_ok (ok b) a e = e
or_bad_request_ok (err channel_error) a e = absurd (cc e)
or_bad_request_ok (err x) a e = absurd (cc e)

or_channel_error_ok {ℓ} :
    {A : Type ℓ} (o : Option A) (a : A) → or_channel_error o ≡ ok a → o ≡ some a
or_channel_error_ok none a e = absurd (cc e)
or_channel_error_ok (some b) a e = cc e

decode_sealed_back :
    (m : SealedReading) (nonce text : Bytes)
    → decode_sealed m ≡ ok (nonce, text)
    → (b64decode m.nonce (some 12) ≡ ok nonce) × (b64decode m.ciphertext none ≡ ok text)
unfolding decode_sealed
decode_sealed_back m nonce text h =
    let (n, e1, h1) = chain_returned (b64decode m.nonce (some 12)) _ (or_bad_request_ok _ _ h) in
    let (t, e2, h2) = chain_returned (b64decode m.ciphertext none) _ h1 in (e1 ∙ cc h2, e2 ∙ cc h2)

-- The cipher has passed the tag, with the session id as associated data.
record Opened (c : Crypto) (key nonce text : Bytes) (sid : Text) (counter : ℕ) (plaintext : Bytes)
    : Type 0 where
  id : Bytes
  encoded : Utf8.encode sid ≡ ok id
  passed : c.aead_decrypt key nonce text id ≡ some plaintext
  counted : counter_from nonce ≡ ok counter

open_message-Opened :
    (c : Crypto) (key nonce text : Bytes) (sid : Text) (counter : ℕ) (plaintext : Bytes)
    → open_message c key nonce sid text ≡ ok (counter, plaintext)
    → Opened c key nonce text sid counter plaintext
unfolding open_message open_sealed
open_message-Opened c key nonce text sid counter plaintext h =
    let (p, e1, h1) = chain_returned (or_bad_request (open_sealed c key nonce sid text)) _ h in
    let (n, e2, h2) = chain_returned (counter_from nonce) _ h1 in
    let (_, _, h3) = chain_returned (counter_from nonce) _ (or_bad_request_ok _ _ e1) in
    let (_, _, h4) =
      chain_returned {A = Unit {0}} (if is_aes_key key then ok tt else err value_error) _ h3 in
    let (id, e5, h5) = chain_returned (Utf8.encode sid) _ h4 in
    record {
      id = id;
      encoded = e5;
      passed = or_channel_error_ok _ p h5 ∙ cc h2;
      counted = e2 ∙ cc h2;
    }

contains_not :
    (counter : ℕ) (seen : List ℕ) → contains counter seen ≡ false → All (λ x. x ≢ counter) seen
unfolding contains
contains_not counter [] h = tt
contains_not counter (x ∷ seen) h = ((λ e. ground arith), contains_not counter seen (ground arith))

admit_back :
    (counter : ℕ) (s t : Session)
    → admit counter (some s) ≡ ok t
    → All (λ x. x ≢ counter) s.seen_counters
      × (length s.seen_counters < 10_000)
      × (t ≡ record s { seen_counters = counter ∷ s.seen_counters })
unfolding admit
admit_back counter s t h = elim (Bool-cases (contains counter s.seen_counters)) [
  | inl e ↦ let q : err (http_error 409) ≡ ok t = rw e at h in absurd (cc q)
  | inr e ↦ elim (Bool-cases (leb 10_000 (length s.seen_counters))) [
    | inl l ↦ let q : err (http_error 401) ≡ ok t = rw (e, l) at h in absurd (cc q)
    | inr l ↦
        let q : ok (record s { seen_counters = counter ∷ s.seen_counters }) ≡ ok t =
          rw (e, l) at h in
        (contains_not counter s.seen_counters e, ground (arith, l), cc q)
  ]
]

-- The message is a reading that the holder of the session's key sealed for that session, and its
-- counter is fresh there.
pub record IsAuthentic {F : Type 0} (c : Crypto) (m : SealedReading) (now : ℕ) (cloud : Cloud F)
    (plaintext : Bytes) : Type 0 where
  pub nonce : Bytes
  pub text : Bytes
  pub id : Bytes
  pub ref : ℕ
  pub object : Session
  pub counter : ℕ
  pub decoded_nonce : b64decode m.nonce (some 12) ≡ ok nonce
  pub decoded : b64decode m.ciphertext none ≡ ok text
  pub encoded : Utf8.encode m.session_id ≡ ok id
  pub named : get m.session_id cloud.sessions ≡ some ref
  pub placed : get_elem? cloud.heap ref ≡ some object
  pub valid : now < object.expires_at
  pub passed : c.aead_decrypt object.aead_key nonce text id ≡ some plaintext
  pub counted : counter_from nonce ≡ ok counter
  pub fresh : All (λ x. x ≢ counter) object.seen_counters
  pub room : length object.seen_counters < 10_000

module _ {F : Type 0} (c : Crypto) (o : FloatOrder F)
    (parse_fields : Bytes → Option (Reading F)) where
  authentic :
      (m : SealedReading) (now ref counter : ℕ) (cloud : Cloud F) (plaintext : Bytes)
      (s t : Session)
      → receive c m now cloud ≡ ok (record { ref = ref; counter = counter; plaintext = plaintext })
      → get_elem? cloud.heap ref ≡ some s
      → admit counter (some s) ≡ ok t
      → (a : IsAuthentic c m now cloud plaintext) × (a.ref ≡ ref)
        × (t ≡ record a.object { seen_counters = a.counter ∷ a.object.seen_counters })
  authentic m now ref counter cloud plaintext s t got at admitted =
      let r = receive-Received c m now cloud _ got in
      let f = find_session-Found m.session_id now cloud ref r.key r.found in
      let (d1, d2) = decode_sealed_back m r.nonce r.text r.decoded in
      let opened =
        open_message-Opened c r.key r.nonce r.text m.session_id counter plaintext r.opened in
      let one : f.object ≡ s = cc (f.placed, at) in
      let (fresh, room, after) = admit_back counter s t admitted in
      (
        record {
          nonce = r.nonce;
          text = r.text;
          id = opened.id;
          ref = ref;
          object = s;
          counter = counter;
          decoded_nonce = d1;
          decoded = d2;
          encoded = opened.encoded;
          named = f.named;
          placed = at;
          valid = ground (arith, f.valid, ap (λ x. x.expires_at) one);
          passed =
              ap (λ k. c.aead_decrypt k r.nonce r.text opened.id)
                (ap (λ x. x.aead_key) (sym one) ∙ f.keyed)
              ∙ opened.passed;
          counted = opened.counted;
          fresh = fresh;
          room = room;
        },
        refl,
        after,
      )

  -- A message is accepted only if its session id names a session that has not expired, and the
  -- cipher, with that session's key, the message's nonce and the session id, passes the ciphertext
  -- and gives a plaintext; if the nonce's counter is none of those recorded in the session, which are
  -- fewer than ten thousand; and if the plaintext is a reading within the declared bounds. Then that
  -- reading, marked as come over ML-KEM at that time, is the newest stored one, the answer names it,
  -- and the counter is recorded in that session; the session table stays as it was.
  pub ingest_sealed_accepted :
      (m : SealedReading) (now wall : ℕ) (cloud : Cloud F) (a : Accepted)
      → (ingest_sealed c o parse_fields m now wall cloud).0 ≡ ok a
      → let after = (ingest_sealed c o parse_fields m now wall cloud).1 in
        (plaintext : Bytes) × (r : Reading F) × (w : IsAuthentic c m now cloud plaintext)
        × (parse_fields plaintext ≡ some r)
        × (fits o r ≡ true)
        × (a ≡ record { device_id = r.device_id; seq = r.seq })
        × (after.readings
            ≡ append_bounded max_stored_readings cloud.readings
                (record { reading = r; received_at = wall; channel = mlkem }))
        × (after.sessions ≡ cloud.sessions)
        × (after.heap
            ≡ set cloud.heap w.ref
                (record w.object { seen_counters = w.counter ∷ w.object.seen_counters }))
  unfolding store
  ingest_sealed_accepted m now wall cloud a h =
      elim (ingest_sealed-Course c o parse_fields m now wall cloud) [
        | inl (x, p) ↦ absurd (cc (h, ap (λ (z : Result Accepted × Cloud F). z.0) p))
        | inr (t, claimed, r, q, inl (v, p)) ↦
            absurd (cc (h, ap (λ (z : Result Accepted × Cloud F). z.0) p))
        | inr (t, claimed, got, q, inr (r, v, p)) ↦ elim (claim_cases t.ref t.counter cloud) [
          | inl (e, z) ↦ absurd (cc (q, z))
          | inr (s, s', at, admitted, z) ↦
              let (w, same_ref, after) =
                authentic m now t.ref t.counter cloud t.plaintext s s' got at admitted in
              let left : claimed ≡ record cloud { heap = set cloud.heap t.ref s' } = cc (q, z) in
              let (parsed, good) = validate_ok c o parse_fields t.plaintext r v in
              (
                t.plaintext,
                r,
                w,
                parsed,
                good,
                cc (h, ap (λ (z : Result Accepted × Cloud F). z.0) p),
                (rw (p, left) refl),
                (rw (p, left) refl),
                (rw (p, left, same_ref, after) refl),
              )
        ]
      ]
