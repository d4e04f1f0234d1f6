-- ===== src/Joint/Delivery.antt =====
-- A reading on its way from the gateway into the cloud's buffer.
use sodtware_dev_ops_gp_proj.Base.{
  ℕ, ◌+◌, ◌*◌, ◌≤◌, ◌<◌, ◌≡◌, refl, sym, subst, ◌∙◌, ap, true, Option, none, some, Bytes, Text,
  IsBytes, length, arith,
}
use sodtware_dev_ops_gp_proj.Base.Int.{ℤ}
use sodtware_dev_ops_gp_proj.Base.Result.{Result, ok}
use sodtware_dev_ops_gp_proj.Channel.Crypto.{Crypto, IsSound}
use sodtware_dev_ops_gp_proj.Channel.Keys.{seal}
use sodtware_dev_ops_gp_proj.Cloud.Reading.{Reading, FloatOrder, fits}
use sodtware_dev_ops_gp_proj.Cloud.State.{Cloud, Config, mlkem, second, max_stored_readings}
use sodtware_dev_ops_gp_proj.Cloud.Readings.{append_bounded}
use sodtware_dev_ops_gp_proj.Cloud.Ingest.{Accepted, post_sealed}
use sodtware_dev_ops_gp_proj.Gateway.Stats.{bump, shaken}
use sodtware_dev_ops_gp_proj.Gateway.State.{cloud_timeout_s, PqcSession, Gateway}
use sodtware_dev_ops_gp_proj.Gateway.Handshake.{asks}
use sodtware_dev_ops_gp_proj.Gateway.Uplink.{issue, next_message, post_once, check_status, send}
use sodtware_dev_ops_gp_proj.Gateway.Uplink.First.{next_message_first}
use sodtware_dev_ops_gp_proj.Joint.Link.{in_time_lt, World, link, passed}
use sodtware_dev_ops_gp_proj.Joint.Answering.{Paired, Trusts}
use sodtware_dev_ops_gp_proj.Joint.Agreement.{handshake_agrees}
use sodtware_dev_ops_gp_proj.Joint.Acceptance.{seal_first, post_sealed_opened, message_of}

module _ {F : Type 0} (c : Crypto) (sound : IsSound c) (o : FloatOrder F)
    (parse_fields : Bytes → Option (Reading F)) (config : Config) (int_text : Text → Result ℤ)
    (lag : ℕ) (token : Text) (quick : lag < cloud_timeout_s * second) where
  pub post_once_first :
      (g h : Gateway (World F)) (s : PqcSession) (plaintext nonce text : Bytes) (a : Accepted)
      (cloud' : Cloud F)
      → next_message c (link c o parse_fields config int_text lag) token g ≡ issue s h
      → seal c s.aead_key s.next_counter s.session_id plaintext ≡ ok (nonce, text)
      → post_sealed c o parse_fields
          (message_of s.session_id nonce text)
          h.world.clock
          h.world.clock
          h.world.cloud
        ≡ (ok a, cloud')
      → post_once c (link c o parse_fields config int_text lag) token plaintext g ≡ (
        ok (s, 202),
        record h {
          uplink = record h.uplink {
            session = some (record s { next_counter = s.next_counter + 1 });
          };
          world = passed lag 0 h.world cloud';
        },
      )
  unfolding post_once asks issue
  post_once_first g h s plaintext nonce text a cloud' e k p =
      rw (e, k, p, in_time_lt lag quick) refl

  -- The attempt of a gateway without a session.
  pub post_once_delivers :
      (g : Gateway (World F)) (plaintext : Bytes) (r : Reading F)
      → Paired c config token
      → Trusts c config g
      → g.session ≡ none
      → IsBytes plaintext
      → length plaintext ≤ 3056
      → parse_fields plaintext ≡ some r
      → fits o r ≡ true
      → (s : PqcSession) × (after : Gateway (World F)) × (post_once c
            (link c o parse_fields config int_text lag)
            token
            plaintext
            g
          ≡ (ok (s, 202), after))
        × (after.world.cloud.readings
            ≡ append_bounded max_stored_readings g.world.cloud.readings
                (record { reading = r; received_at = g.world.clock + lag + lag; channel = mlkem }))
        × (after.stats ≡ bump shaken g.stats)
  post_once_delivers g plaintext r paired trusts no_session small short parsed good =
      let (s, h, shook, opened, clock, unused, most, until, counted, ascii, size, wide, _) =
        handshake_agrees c sound o parse_fields config int_text lag token quick g paired trusts in
      let m =
        seal_first c sound o parse_fields s.aead_key s.session_id plaintext wide ascii size small
          short in
      let (cloud', posted, kept) =
        post_sealed_opened c sound o parse_fields s.session_id s.aead_key (g.world.clock + lag)
          h.world.clock h.world.clock g.world.cloud plaintext r m (omega (arith, clock, quick))
          parsed good in
      let a : Accepted = record { device_id = r.device_id; seq = r.seq } in
      (
        s,
        _,
        post_once_first g h s plaintext m.nonce m.text a cloud'
            (next_message_first c (link c o parse_fields config int_text lag) token g h s no_session
              shook)
            (subst (λ (k : ℕ). seal c s.aead_key k s.session_id plaintext ≡ ok (m.nonce, m.text))
              (sym unused) m.made)
            (subst
              (λ (d : Cloud F).
                post_sealed c o parse_fields (message_of s.session_id m.nonce m.text) h.world.clock
                  h.world.clock d
                ≡ (ok a, cloud'))
              (sym opened) posted),
        kept
            ∙ ap
                (λ (k : ℕ).
                  append_bounded max_stored_readings g.world.cloud.readings
                    (record { reading = r; received_at = k; channel = mlkem }))
                clock,
        counted,
      )

  -- A gateway without a session delivers a reading: with the cloud's generated key not pinned or
  -- pinned, the same token at both ends, and requests that take less than five seconds, `send`
  -- of a plaintext of at most 3056 bytes that decodes to a reading within the bounds returns, and
  -- that reading is then the newest one that the cloud has stored. One handshake is counted.
  pub send_delivers :
      (g : Gateway (World F)) (plaintext : Bytes) (r : Reading F)
      → Paired c config token
      → Trusts c config g
      → g.session ≡ none
      → IsBytes plaintext
      → length plaintext ≤ 3056
      → parse_fields plaintext ≡ some r
      → fits o r ≡ true
      → (after : Gateway (World F)) × (send c
            (link c o parse_fields config int_text lag)
            token
            plaintext
            g
          ≡ (ok tt, after))
        × (after.world.cloud.readings
            ≡ append_bounded max_stored_readings g.world.cloud.readings
                (record { reading = r; received_at = g.world.clock + lag + lag; channel = mlkem }))
        × (after.stats ≡ bump shaken g.stats)
  unfolding send check_status
  send_delivers g plaintext r paired trusts no_session small short parsed good =
      let (s, after, posted, kept, counted) =
        post_once_delivers g plaintext r paired trusts no_session small short parsed good in
      (after, (rw posted refl), kept, counted)
