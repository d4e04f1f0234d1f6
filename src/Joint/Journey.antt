-- ===== src/Joint/Journey.antt =====
-- A reading's whole way: from the device's frame through the gateway into the cloud's buffer.
use sodtware_dev_ops_gp_proj.Base.{
  ℕ, ◌+◌, ◌*◌, ◌≤◌, ◌<◌, ◌≡◌, ◌≢◌, refl, ◌∙◌, ap, inl, inr, true, false, Option, none, some, [],
  ◌∷◌, Bytes, Text, IsBytes, length, All, arith, ltb, leb, le→leb,
}
use sodtware_dev_ops_gp_proj.Base.Int.{ℤ}
use sodtware_dev_ops_gp_proj.Base.Dict.{get, put}
use sodtware_dev_ops_gp_proj.Base.Result.{Result, ok, ◌>>=◌}
use sodtware_dev_ops_gp_proj.Base.Split.{Lacks}
use sodtware_dev_ops_gp_proj.Channel.Crypto.{Crypto, IsSound}
use sodtware_dev_ops_gp_proj.Cloud.Reading.{Reading, FloatOrder, fits}
use sodtware_dev_ops_gp_proj.Cloud.State.{Config, mlkem, second, max_stored_readings}
use sodtware_dev_ops_gp_proj.Cloud.Readings.{append_bounded}
use sodtware_dev_ops_gp_proj.Gateway.Stats.{received, forwarded, shaken, bump}
use sodtware_dev_ops_gp_proj.Gateway.State.{cloud_timeout_s, Gateway, count}
use sodtware_dev_ops_gp_proj.Gateway.Tracker.{accept}
use sodtware_dev_ops_gp_proj.Gateway.Handler.{
  handle, process, sequence, dispatch, forward, settle, max_line_bytes,
}
use sodtware_dev_ops_gp_proj.Gateway.Handler.Mlkem.{handle_mlkem}
use sodtware_dev_ops_gp_proj.Joint.Link.{World, link}
use sodtware_dev_ops_gp_proj.Joint.Answering.{Paired, Trusts}
use sodtware_dev_ops_gp_proj.Joint.Delivery.{send_delivers}
use sodtware_dev_ops_gp_proj.Legacy.Cipher.{Cipher, IsCipher}
use sodtware_dev_ops_gp_proj.Legacy.Frame.{encrypt_frame, decrypt_frame}
use sodtware_dev_ops_gp_proj.Legacy.Frame.RoundTrip.{
  encrypt_frame_size, decrypt_frame-encrypt_frame,
}
use sodtware_dev_ops_gp_proj.Legacy.Record.{
  FloatText, IsFloatText, rounded, field_sep, record_text, build_reading, parse_reading,
}
use sodtware_dev_ops_gp_proj.Legacy.Record.RoundTrip.{build_reading_back}
use sodtware_dev_ops_gp_proj.Legacy.Record.Width.{build_reading-short}

-- What a device may send: a name without separator, and a record that fits the frame.
pub record IsSendable {F : Type 0} (f : FloatText F) (r : Reading F) : Type 0 where
  pub named : r.device_id ≢ []
  pub plain : Lacks field_sep r.device_id
  pub ascii : All (λ x. x < 128) (record_text f r)
  pub short : length (record_text f r) ≤ 95

module _ {F : Type 0} (k : Cipher) (whole : IsCipher k) (key : Bytes) (f : FloatText F)
    (floats : IsFloatText f) where
  -- The device's frame, and what the gateway reads from it.
  pub record Framed (random : ℕ) (r : Reading F) : Type 0 where
    pub frame : Bytes
    pub made : (build_reading f r >>= encrypt_frame k key random) ≡ ok frame
    pub read : (decrypt_frame k key frame >>= parse_reading f) ≡ ok (rounded floats r)
    small : ltb max_line_bytes (length frame) ≡ false

  pub framed : (random : ℕ) (r : Reading F) → IsSendable f r → Framed random r
  framed random r s = elim (encrypt_frame_size k whole key random (record_text f r) s.ascii) [
    | inr (long, _) ↦ absurd (omega (arith, long, s.short))
    | inl (short, (frame, made, size)) ↦
        let fit : leb (length (record_text f r)) 95 ≡ true = le→leb _ _ short in
        let back : (encrypt_frame k key random (record_text f r) >>= decrypt_frame k key)
            ≡ ok (record_text f r) =
          decrypt_frame-encrypt_frame k whole key random (record_text f r) s.ascii
          ∙ (rw fit refl) in
        let built = build_reading-short f r (omega (arith, short)) in
        record {
          frame = frame;
          made = rw built made;
          read = rw (rw made at back) (build_reading_back f floats r _ s.named s.plain built);
          small = ground (arith, size, short);
        }
  ]

module _ {F : Type 0} (k : Cipher) (whole : IsCipher k) (key : Bytes) (f : FloatText F)
    (floats : IsFloatText f) (c : Crypto) (sound : IsSound c) (o : FloatOrder F)
    (parse_fields : Bytes → Option (Reading F)) (dumps : Reading F → Bytes) (config : Config)
    (int_text : Text → Result ℤ) (lag : ℕ) (token : Text)
    (quick : lag < cloud_timeout_s * second) where
  -- The frame of a reading whose record is at most 95 ASCII characters, with a name that is not empty,
  -- has no separator and that the gateway has not seen: a gateway without a session opens one and its handler takes the reading through to the cloud, if
  -- both ends have the same token and the cloud's key pair is a generated one, its key is the pinned
  -- one or none is pinned, every answer is there within the five seconds that the gateway waits, and
  -- the reading with its floats rounded is within the bounds, is at most 3056 bytes of JSON and
  -- survives `dumps` and the cloud's decoding. The
  -- cloud then holds that reading as its newest, and the frame is counted as received and
  -- forwarded, beside one handshake.
  pub handle_delivers :
      (g : Gateway (World F)) (random : ℕ) (r : Reading F)
      → let sent = rounded floats r in
        IsSendable f r
        → get r.device_id g.seen ≡ none
        → Paired c config token
        → Trusts c config g
        → g.session ≡ none
        → IsBytes (dumps sent)
        → length (dumps sent) ≤ 3056
        → parse_fields (dumps sent) ≡ some sent
        → fits o sent ≡ true
        → (frame : Bytes) × (after : Gateway (World F)) × ((build_reading f r
              >>= encrypt_frame k key random)
            ≡ ok frame)
          × (handle_mlkem k key f c
                (link c o parse_fields config int_text lag)
                token
                dumps
                (frame ∷ [])
                g
              ≡ (ok tt, after))
          × (after.world.cloud.readings
              ≡ append_bounded max_stored_readings g.world.cloud.readings (record {
                reading = sent;
                received_at = g.world.clock + lag + lag;
                channel = mlkem;
              }))
          × (after.stats ≡ bump forwarded (bump shaken (bump received g.stats)))
  unfolding handle process sequence dispatch forward settle accept
  handle_delivers g random r sendable unseen paired trusts no_session bytes short parsed good =
      let m = framed k whole key f floats random r sendable in
      let sent = rounded floats r in
      let taken = record (count received g) { seen = put r.device_id r.seq g.seen } in
      let (after, delivered, kept, counted) =
        send_delivers c sound o parse_fields config int_text lag token quick taken (dumps sent) sent
          paired trusts no_session bytes short parsed good in
      (
        m.frame,
        count forwarded after,
        m.made,
        (rw (m.small, m.read, unseen, delivered) refl),
        kept,
        ap (bump forwarded) counted,
      )
