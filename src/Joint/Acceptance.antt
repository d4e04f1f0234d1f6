-- ===== src/Joint/Acceptance.antt =====
-- The cloud's side of the first message of a session.
use sodtware_dev_ops_gp_proj.Base.{
  ◌&&◌, ℕ, ◌+◌, ◌*◌, ◌^◌, ◌≤◌, ◌<◌, ◌≡◌, refl, ◌∙◌, inl, inr, true, false, Option, some, [], ◌∷◌,
  Bytes, Text, IsBytes, length, arith, ltb, lt→ltb, same_refl, All, leb, le→leb, get_elem?, set,
  get_elem?-append_end,
}
use sodtware_dev_ops_gp_proj.Base.Dict.{get, get-put}
use sodtware_dev_ops_gp_proj.Base.Result.{ok}
use sodtware_dev_ops_gp_proj.Base.Utf8.{encode-ascii}
use sodtware_dev_ops_gp_proj.Channel.Base64.{b64encode}
use sodtware_dev_ops_gp_proj.Channel.Base64.RoundTrip.{b64decode-b64encode, length-b64encode}
use sodtware_dev_ops_gp_proj.Channel.Crypto.{Crypto, IsSound, is_aes_key, aead_limit, IsAeadInput}
use sodtware_dev_ops_gp_proj.Channel.Nonce.{nonce_bytes}
use sodtware_dev_ops_gp_proj.Channel.Nonce.RoundTrip.{nonce_for_cases}
use sodtware_dev_ops_gp_proj.Channel.Keys.{seal, open_sealed}
use sodtware_dev_ops_gp_proj.Cloud.Reading.{Reading, FloatOrder, fits}
use sodtware_dev_ops_gp_proj.Cloud.State.{
  Cloud, Session, mlkem, second, session_ttl_s, max_stored_readings,
}
use sodtware_dev_ops_gp_proj.Cloud.Readings.{append_bounded, store}
use sodtware_dev_ops_gp_proj.Cloud.Sessions.{
  open_session, find_session, claim_counter, contains, prune_sessions,
}
use sodtware_dev_ops_gp_proj.Cloud.Sessions.Prune.{prune_sessions_lem}
use sodtware_dev_ops_gp_proj.Cloud.Messages.{
  SealedReading, sealed_reading_fits, decode_sealed, open_message, receive, validate,
}
use sodtware_dev_ops_gp_proj.Cloud.Ingest.{ingest_sealed, post_sealed, deliver}
use sodtware_dev_ops_gp_proj.Channel.Base64.RoundTrip.{b64decode_exact}

-- The message as `send` writes it.
abbrev pub message_of : Text → Bytes → Bytes → SealedReading
message_of sid nonce text = record {
  session_id = sid;
  nonce = b64encode nonce;
  ciphertext = b64encode text;
}

pub sealed_reading_fits_made :
    (sid : Text) (nonce text : Bytes)
    → length sid ≡ 32
    → length nonce ≡ nonce_bytes
    → length text ≤ 3072
    → sealed_reading_fits (message_of sid nonce text) ≡ true
unfolding sealed_reading_fits
sealed_reading_fits_made sid nonce text h k l =
    let small : leb (length (b64encode text)) 4096 ≡ true =
      le→leb _ _ (omega (arith, length-b64encode text)) in
    rw (h, length-b64encode nonce, k, small) refl

pub decode_sealed_made :
    (sid : Text) (nonce text : Bytes)
    → IsBytes nonce
    → length nonce ≡ nonce_bytes
    → IsBytes text
    → decode_sealed (message_of sid nonce text) ≡ ok (nonce, text)
unfolding decode_sealed
decode_sealed_made sid nonce text h k l =
    rw (b64decode_exact nonce nonce_bytes h k, (b64decode-b64encode text 0 l).0) refl

abbrev pub opened_object : Bytes → ℕ → Session
opened_object key at = record {
  aead_key = key;
  expires_at = at + session_ttl_s * second;
  seen_counters = [];
}

module _ {F : Type 0} where
  -- The session object that was just opened.
  pub open_session_object :
      (sid : Text) (key : Bytes) (at : ℕ) (cloud : Cloud F)
      → get_elem? (open_session sid key at cloud).heap (length (prune_sessions at cloud).heap)
        ≡ some (opened_object key at)
  unfolding open_session
  open_session_object sid key at cloud =
      get_elem?-append_end (prune_sessions at cloud).heap (opened_object key at)

  find_session_opened :
      (sid : Text) (key : Bytes) (at now : ℕ) (cloud : Cloud F)
      → now < at + session_ttl_s * second
      → find_session sid now (open_session sid key at cloud)
        ≡ ok (length (prune_sessions at cloud).heap, key)
  unfolding find_session
  find_session_opened sid key at now cloud h =
      let size = length (prune_sessions at cloud).heap in
      let named : get sid (open_session sid key at cloud).sessions ≡ some size =
        unfold open_session in
        get-put sid sid size (prune_sessions at cloud).sessions ∙ (rw (same_refl sid) refl) in
      let fresh : leb (at + session_ttl_s * second) now ≡ false = ground arith in
      rw (named, find_session) (rw (open_session_object sid key at cloud) (rw fresh refl))

  -- The first counter of a session object that was just opened.
  claim_counter_opened :
      (sid : Text) (key : Bytes) (at : ℕ) (cloud : Cloud F)
      → (after : Cloud F) × (claim_counter
            (length (prune_sessions at cloud).heap)
            0
            (open_session sid key at cloud)
          ≡ (ok tt, after))
        × (after.readings ≡ cloud.readings)
  unfolding claim_counter contains
  claim_counter_opened sid key at cloud =
      let opened = open_session sid key at cloud in
      let size = length (prune_sessions at cloud).heap in
      (
        record opened {
          heap = set opened.heap size (record (opened_object key at) { seen_counters = 0 ∷ [] });
        },
        (rw (open_session_object sid key at cloud) refl),
        (unfold open_session in (prune_sessions_lem at cloud).4),
      )

module _ {F : Type 0} (c : Crypto) (sound : IsSound c) (o : FloatOrder F)
    (parse_fields : Bytes → Option (Reading F)) where
  -- A message of a session with this counter, as the gateway seals it.
  pub record Sealed (key : Bytes) (counter : ℕ) (sid : Text) (plaintext : Bytes) : Type 0 where
    pub nonce : Bytes
    pub text : Bytes
    pub made : seal c key counter sid plaintext ≡ ok (nonce, text)
    pub opens : open_message c key nonce sid text ≡ ok (counter, plaintext)
    pub decoded : decode_sealed (message_of sid nonce text) ≡ ok (nonce, text)
    pub fit : sealed_reading_fits (message_of sid nonce text) ≡ true

  pub seal_at :
      (key : Bytes) (counter : ℕ) (sid : Text) (plaintext : Bytes)
      → counter < 256 ^ nonce_bytes
      → length key ≡ 32
      → All (λ x. x < 128) sid
      → length sid ≡ 32
      → IsBytes plaintext
      → length plaintext ≤ 3056
      → Sealed key counter sid plaintext
  unfolding seal open_message open_sealed
  seal_at key counter sid plaintext low wide ascii size small short =
      elim (nonce_for_cases counter) [
        | inr (_, large) ↦
            let fits_nonce : ltb counter (256 ^ nonce_bytes) ≡ true = lt→ltb _ _ low in
            absurd (cc (large, fits_nonce))
        | inl (nonce, e, back, len, b, _) ↦
            let text = c.aead_encrypt key nonce plaintext sid in
            let id = encode-ascii sid ascii in
            let aes : is_aes_key key ≡ true = rw wide refl in
            let input : IsAeadInput key nonce plaintext sid = record {
              key = aes;
              nonce = len;
              plaintext = omega (arith, short);
              associated = omega (arith, size);
            } in
            let room : (leb (length plaintext) aead_limit && leb (length sid) aead_limit) ≡ true =
              ground (arith, short, size) in
            record {
              nonce = nonce;
              text = text;
              made = rw (e, aes, id, room) refl;
              opens = rw (back, aes, id, sound.aead_open key nonce plaintext sid input) refl;
              decoded =
                  decode_sealed_made sid nonce text b len
                    (sound.aead_bytes key nonce plaintext sid input small);
              fit =
                  sealed_reading_fits_made sid nonce text size len
                    (omega (arith, sound.aead_length key nonce plaintext sid input));
            }
      ]

  pub seal_first :
      (key : Bytes) (sid : Text) (plaintext : Bytes)
      → length key ≡ 32
      → All (λ x. x < 128) sid
      → length sid ≡ 32
      → IsBytes plaintext
      → length plaintext ≤ 3056
      → Sealed key 0 sid plaintext
  seal_first key sid plaintext = seal_at key 0 sid plaintext (omega arith)

  pub validate_made :
      (body : Bytes) (r : Reading F)
      → parse_fields body ≡ some r
      → fits o r ≡ true
      → validate o parse_fields body ≡ ok r
  unfolding validate
  validate_made body r parsed good = rw (parsed, validate) (rw good refl)

  -- The cloud accepts it, as long as the session lives.
  pub post_sealed_opened :
      (sid : Text) (key : Bytes) (at now wall : ℕ) (cloud : Cloud F) (plaintext : Bytes)
      (r : Reading F) (m : Sealed key 0 sid plaintext)
      → now < at + session_ttl_s * second
      → parse_fields plaintext ≡ some r
      → fits o r ≡ true
      → (after : Cloud F) × (post_sealed c o parse_fields
            (message_of sid m.nonce m.text)
            now
            wall
            (open_session sid key at cloud)
          ≡ (ok (record { device_id = r.device_id; seq = r.seq }), after))
        × (after.readings
            ≡ append_bounded max_stored_readings cloud.readings
                (record { reading = r; received_at = wall; channel = mlkem }))
  unfolding post_sealed ingest_sealed receive deliver
  post_sealed_opened sid key at now wall cloud plaintext r m live parsed good =
      let (claimed, claims, kept) = claim_counter_opened sid key at cloud in
      (
        store r mlkem wall claimed,
        (rw
            (
              m.fit,
              m.decoded,
              find_session_opened sid key at now cloud live,
              m.opens,
              claims,
              validate_made plaintext r parsed good,
            )
            refl),
        (unfold store in rw kept refl),
      )
