-- ===== src/Joint/Recovery.antt =====
-- A gateway whose session the cloud does not know any more, after the cloud was started again or has
-- evicted it: `send` of edge_gateway/gateway.py with `ingest_sealed` of cloud_service/app.py.
use sodtware_dev_ops_gp_proj.Base.{
  ◌&&◌, leb, ℕ, ◌+◌, ◌*◌, ◌^◌, ◌≤◌, ◌<◌, ◌≡◌, refl, inl, inr, true, false, Option, none, some,
  Bytes, Text, IsBytes, length, All, arith, lt→ltb, ltb, ◌==◌,
}
use sodtware_dev_ops_gp_proj.Base.Int.{ℤ}
use sodtware_dev_ops_gp_proj.Base.Dict.{get}
use sodtware_dev_ops_gp_proj.Base.Result.{Result, ok, err, http_error}
use sodtware_dev_ops_gp_proj.Base.Utf8.{encode-ascii}
use sodtware_dev_ops_gp_proj.Channel.Crypto.{Crypto, IsSound, is_aes_key, aead_limit, IsAeadInput}
use sodtware_dev_ops_gp_proj.Channel.Nonce.{nonce_bytes}
use sodtware_dev_ops_gp_proj.Channel.Nonce.RoundTrip.{nonce_for_cases}
use sodtware_dev_ops_gp_proj.Channel.Keys.{seal}
use sodtware_dev_ops_gp_proj.Cloud.Reading.{Reading, FloatOrder, fits}
use sodtware_dev_ops_gp_proj.Cloud.State.{Cloud, Config, mlkem, second, max_stored_readings}
use sodtware_dev_ops_gp_proj.Cloud.Readings.{append_bounded}
use sodtware_dev_ops_gp_proj.Cloud.Sessions.{find_session}
use sodtware_dev_ops_gp_proj.Cloud.Messages.{receive}
use sodtware_dev_ops_gp_proj.Cloud.Ingest.{ingest_sealed, post_sealed}
use sodtware_dev_ops_gp_proj.Gateway.Stats.{bump, shaken}
use sodtware_dev_ops_gp_proj.Gateway.State.{cloud_timeout_s, PqcSession, Gateway}
use sodtware_dev_ops_gp_proj.Gateway.Handshake.{asks}
use sodtware_dev_ops_gp_proj.Gateway.Uplink.{
  is_spent, issue, post_once, invalidate, check_status, send,
}
use sodtware_dev_ops_gp_proj.Gateway.Uplink.First.{next_message_current}
use sodtware_dev_ops_gp_proj.Joint.Link.{in_time_lt, World, link, passed}
use sodtware_dev_ops_gp_proj.Joint.Answering.{Paired, Trusts}
use sodtware_dev_ops_gp_proj.Joint.Acceptance.{
  message_of, sealed_reading_fits_made, decode_sealed_made,
}
use sodtware_dev_ops_gp_proj.Joint.Delivery.{post_once_delivers}

-- The gateway's current session will do for the gateway, but not for the cloud.
pub record IsStale {F : Type 0} (g : Gateway (World F)) (s : PqcSession) : Type 0 where
  pub current : g.session ≡ some s
  pub unspent : is_spent g.world.clock (some s) ≡ false
  pub unknown : get s.session_id g.world.cloud.sessions ≡ none
  pub ascii : All (λ x. x < 128) s.session_id
  pub size : length s.session_id ≡ 32
  pub wide : length s.aead_key ≡ 32
  pub counter : s.next_counter < 256 ^ nonce_bytes

module _ {F : Type 0} (c : Crypto) (sound : IsSound c) (o : FloatOrder F)
    (parse_fields : Bytes → Option (Reading F)) (config : Config) (int_text : Text → Result ℤ)
    (lag : ℕ) (token : Text) (quick : lag < cloud_timeout_s * second) where
  find_session_unknown :
      (sid : Text) (now : ℕ) (cloud : Cloud F)
      → get sid cloud.sessions ≡ none
      → find_session sid now cloud ≡ err (http_error 401)
  unfolding find_session
  find_session_unknown sid now cloud e = rw (e, find_session) refl

  -- A message of a session that the cloud does not know.
  post_sealed_unknown :
      (sid : Text) (nonce text : Bytes) (now wall : ℕ) (cloud : Cloud F)
      → length sid ≡ 32
      → length nonce ≡ nonce_bytes
      → IsBytes nonce
      → IsBytes text
      → length text ≤ 3072
      → get sid cloud.sessions ≡ none
      → post_sealed c o parse_fields (message_of sid nonce text) now wall cloud
        ≡ (err (http_error 401), cloud)
  unfolding post_sealed ingest_sealed receive
  post_sealed_unknown sid nonce text now wall cloud size len small small' short unknown =
      rw
        (
          sealed_reading_fits_made sid nonce text size len short,
          decode_sealed_made sid nonce text small len small',
          find_session_unknown sid now cloud unknown,
        )
        refl

  -- The gateway after the refusal, which has used up a counter.
  abbrev refused_at : Gateway (World F) → PqcSession → Gateway (World F)
  refused_at g s = record g {
    uplink = record g.uplink { session = some (record s { next_counter = s.next_counter + 1 }) };
    world = passed lag 0 g.world g.world.cloud;
  }

  post_once_stale :
      (g : Gateway (World F)) (s : PqcSession) (plaintext : Bytes)
      → IsStale g s
      → IsBytes plaintext
      → length plaintext ≤ 3056
      → post_once c (link c o parse_fields config int_text lag) token plaintext g
        ≡ (ok (s, 401), refused_at g s)
  unfolding post_once asks issue seal
  post_once_stale g s plaintext stale small short = elim (nonce_for_cases s.next_counter) [
    | inr (_, large) ↦
        let fits_nonce : ltb s.next_counter (256 ^ nonce_bytes) ≡ true = lt→ltb _ _ stale.counter in
        absurd (cc (large, fits_nonce))
    | inl (nonce, made, _, len, bytes, _) ↦
        let text = c.aead_encrypt s.aead_key nonce plaintext s.session_id in
        let aes : is_aes_key s.aead_key ≡ true = rw stale.wide refl in
        let input : IsAeadInput s.aead_key nonce plaintext s.session_id = record {
          key = aes;
          nonce = len;
          plaintext = omega (arith, short);
          associated = omega (arith, stale.size);
        } in
        let room : (leb (length plaintext) aead_limit && leb (length s.session_id) aead_limit)
            ≡ true =
          ground (arith, short, stale.size) in
        rw
          (
            next_message_current c (link c o parse_fields config int_text lag) token g s
                stale.current stale.unspent,
            made,
            aes,
            encode-ascii s.session_id stale.ascii,
            room,
            in_time_lt lag quick,
            post_sealed_unknown s.session_id nonce text g.world.clock g.world.clock g.world.cloud
                stale.size len bytes
                (sound.aead_bytes s.aead_key nonce plaintext s.session_id input small)
                (omega
                  (arith, short, sound.aead_length s.aead_key nonce plaintext s.session_id input))
                stale.unknown,
          )
          refl
  ]

  invalidate_current :
      (g : Gateway (World F)) (s : PqcSession)
      → invalidate s (refused_at g s)
        ≡ (ok tt, record (refused_at g s) { uplink = record g.uplink { session = none } })
  unfolding invalidate
  invalidate_current g s = let same : (s.serial == s.serial) ≡ true = ground arith in rw same refl

  -- A reading gets through although the cloud has lost the session that the gateway still holds, and
  -- holds for good: with the cloud's generated key not pinned or pinned, the same token at both ends,
  -- answers within the five seconds of the gateway's timeout, and a plaintext of at most 3056 bytes
  -- that decodes to a reading within the bounds, the first attempt is refused with 401, the gateway
  -- drops the session and makes a new one, and `send` returns, with the reading as the newest that the
  -- cloud has stored. One handshake is counted, and no failure.
  pub send_recovers :
      (g : Gateway (World F)) (s : PqcSession) (plaintext : Bytes) (r : Reading F)
      → IsStale g s
      → Paired c config token
      → Trusts c config g
      → IsBytes plaintext
      → length plaintext ≤ 3056
      → parse_fields plaintext ≡ some r
      → fits o r ≡ true
      → (after : Gateway (World F)) × (send c
            (link c o parse_fields config int_text lag)
            token
            plaintext
            g
          ≡ (ok tt, after))
        × (after.world.cloud.readings
            ≡ append_bounded max_stored_readings g.world.cloud.readings (record {
              reading = r;
              received_at = g.world.clock + lag + lag + lag;
              channel = mlkem;
            }))
        × (after.stats ≡ bump shaken g.stats)
  unfolding send check_status
  send_recovers g s plaintext r stale paired trusts small short parsed good =
      let dropped = record (refused_at g s) { uplink = record g.uplink { session = none } } in
      let (_, after, posted, kept, counted) =
        post_once_delivers c sound o parse_fields config int_text lag token quick dropped plaintext
          r paired trusts refl small short parsed good in
      (
        after,
        (rw (post_once_stale g s plaintext stale small short, invalidate_current g s, posted) refl),
        kept,
        counted,
      )
