-- ===== src/Joint/Steady.antt =====
-- Readings one after the other over the ML-KEM uplink, with new sessions where they are due:
-- `send` of edge_gateway/gateway.py with the handlers of cloud_service/app.py.
use sodtware_dev_ops_gp_proj.Base.{
  ℕ, ◌+◌, ◌*◌, ◌≤◌, ◌<◌, ◌≡◌, refl, sym, subst, ◌⊎◌, inl, inr, true, false, Bool-cases, Option,
  some, Bytes, Text, IsBytes, length, arith,
}
use sodtware_dev_ops_gp_proj.Base.Int.{ℤ, pos}
use sodtware_dev_ops_gp_proj.Base.Result.{Result, ok}
use sodtware_dev_ops_gp_proj.Channel.Crypto.{Crypto, IsSound}
use sodtware_dev_ops_gp_proj.Cloud.Reading.{Reading, FloatOrder, fits}
use sodtware_dev_ops_gp_proj.Cloud.State.{
  Cloud, Config, mlkem, second, session_max_messages, max_stored_readings,
}
use sodtware_dev_ops_gp_proj.Cloud.Readings.{append_bounded, store}
use sodtware_dev_ops_gp_proj.Cloud.Sessions.{open_session}
use sodtware_dev_ops_gp_proj.Cloud.Sessions.Prune.{prune_sessions_lem}
use sodtware_dev_ops_gp_proj.Gateway.Stats.{bump}
use sodtware_dev_ops_gp_proj.Gateway.State.{cloud_timeout_s, PqcSession, Gateway}
use sodtware_dev_ops_gp_proj.Gateway.Uplink.{is_spent, issue, next_message, check_status, send}
use sodtware_dev_ops_gp_proj.Gateway.Uplink.First.{next_message_fresh, next_message_current}
use sodtware_dev_ops_gp_proj.Joint.Link.{World, link, passed}
use sodtware_dev_ops_gp_proj.Joint.Answering.{Paired, Trusts}
use sodtware_dev_ops_gp_proj.Joint.Agreement.{handshake_agrees}
use sodtware_dev_ops_gp_proj.Joint.Acceptance.{seal_at}
use sodtware_dev_ops_gp_proj.Joint.Delivery.{post_once_first}
use sodtware_dev_ops_gp_proj.Joint.Session.{
  Known, claimed, claimed-Known, store-Known, opened-Known, post_sealed-Known,
}

-- The gateway will make a new session for the next message, or its session is known to the cloud.
abbrev pub Ready : {F : Type 0} → Gateway (World F) → Type 0
Ready g =
    (is_spent g.world.clock g.session ≡ true)
    ⊎ ((s : PqcSession) × (g.session ≡ some s) × Known g.world.cloud s)

-- What the gateway's own test says of the session.
unspent_within :
    (now : ℕ) (s : PqcSession)
    → is_spent now (some s) ≡ false
    → s.max_messages ≡ pos session_max_messages
    → (now < s.expires_at) × (s.next_counter < session_max_messages)
unfolding is_spent
unspent_within now s e most = ground (arith, e, most)

module _ {F : Type 0} (c : Crypto) (sound : IsSound c) (o : FloatOrder F)
    (parse_fields : Bytes → Option (Reading F)) (config : Config) (int_text : Text → Result ℤ)
    (lag : ℕ) (token : Text) (quick : lag < cloud_timeout_s * second) where
  -- A reading was taken to the cloud, at some time, and the gateway is ready for the next.
  pub record Served (g : Gateway (World F)) (plaintext : Bytes) (r : Reading F) : Type 0 where
    pub after : Gateway (World F)
    pub at : ℕ
    pub sent : send c (link c o parse_fields config int_text lag) token plaintext g ≡ (ok tt, after)
    pub kept :
        after.world.cloud.readings
        ≡ append_bounded max_stored_readings g.world.cloud.readings
            (record { reading = r; received_at = at; channel = mlkem })
    pub failures : after.stats.forward_failed ≡ g.stats.forward_failed
    pub ready : Ready after
    pub trusts : Trusts c config after

  serve :
      (g h : Gateway (World F)) (s : PqcSession) (plaintext : Bytes) (r : Reading F)
      (k : Known h.world.cloud s)
      → next_message c (link c o parse_fields config int_text lag) token g ≡ issue s h
      → h.world.cloud.readings ≡ g.world.cloud.readings
      → h.stats.forward_failed ≡ g.stats.forward_failed
      → Trusts c config h
      → h.world.clock < k.object.expires_at
      → s.next_counter < session_max_messages
      → IsBytes plaintext
      → length plaintext ≤ 3056
      → parse_fields plaintext ≡ some r
      → fits o r ≡ true
      → Served g plaintext r
  unfolding send check_status
  serve g h s plaintext r k e same failures trusts live low small short parsed good =
      let m =
        seal_at c sound o parse_fields s.aead_key s.next_counter s.session_id plaintext
          (omega (arith, low)) k.wide k.ascii k.size small short in
      let posted =
        post_sealed-Known c sound o parse_fields h.world.cloud s h.world.clock h.world.clock
          plaintext r k m live low parsed good in
      let once =
        post_once_first c sound o parse_fields config int_text lag token quick g h s plaintext
          m.nonce m.text _ _ e m.made posted in
      record {
        after = record h {
          uplink = record h.uplink {
            session = some (record s { next_counter = s.next_counter + 1 });
          };
          world = passed lag 0 h.world (store r mlkem h.world.clock (claimed h.world.cloud s k));
        };
        at = h.world.clock;
        sent = rw once refl;
        kept = unfold store in rw same refl;
        failures = failures;
        ready = inr (
          record s { next_counter = s.next_counter + 1 },
          refl,
          store-Known (claimed h.world.cloud s k) (record s { next_counter = s.next_counter + 1 }) r
              h.world.clock (claimed-Known h.world.cloud s k),
        );
        trusts = trusts;
      }

  -- A gateway whose session is due, or that has none.
  serve_fresh :
      (g : Gateway (World F)) (plaintext : Bytes) (r : Reading F)
      → is_spent g.world.clock g.session ≡ true
      → Paired c config token
      → Trusts c config g
      → IsBytes plaintext
      → length plaintext ≤ 3056
      → parse_fields plaintext ≡ some r
      → fits o r ≡ true
      → Served g plaintext r
  serve_fresh g plaintext r spent paired trusts small short parsed good =
      let (s, h, shook, opened, clock, unused, most, until, counted, ascii, size, wide, still) =
        handshake_agrees c sound o parse_fields config int_text lag token quick g paired trusts in
      let at = g.world.clock + lag in
      let fresh =
        opened-Known g.world.cloud s at unused most (omega (arith, until, quick)) ascii size wide in
      let k = subst (λ (d : Cloud F). Known d s) (sym opened) fresh in
      serve g h s plaintext r k
        (next_message_fresh c (link c o parse_fields config int_text lag) token g h s spent shook)
        (rw opened (unfold open_session in (prune_sessions_lem at g.world.cloud).4))
        (rw counted (unfold bump in refl)) still (omega (arith, clock, until, quick, k.longer))
        (omega (arith, unused)) small short parsed good

  -- Whatever session the gateway holds, a reading gets through and leaves the gateway ready for the
  -- next one.
  pub send-Served :
      (g : Gateway (World F)) (plaintext : Bytes) (r : Reading F)
      → Ready g
      → Paired c config token
      → Trusts c config g
      → IsBytes plaintext
      → length plaintext ≤ 3056
      → parse_fields plaintext ≡ some r
      → fits o r ≡ true
      → Served g plaintext r
  send-Served g plaintext r (inl spent) paired trusts small short parsed good =
      serve_fresh g plaintext r spent paired trusts small short parsed good
  send-Served g plaintext r (inr (s, current, k)) paired trusts small short parsed good =
      elim (Bool-cases (is_spent g.world.clock (some s))) [
        | inl spent ↦
            serve_fresh g plaintext r (rw current spent) paired trusts small short parsed good
        | inr unspent ↦
            let (live, low) = unspent_within g.world.clock s unspent k.most in
            serve g g s plaintext r k
              (next_message_current c (link c o parse_fields config int_text lag) token g s current
                unspent)
              refl refl trusts (omega (arith, live, k.longer)) low small short parsed good
      ]
