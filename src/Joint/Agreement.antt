-- ===== src/Joint/Agreement.antt =====
-- A handshake of the gateway with the cloud.
use sodtware_dev_ops_gp_proj.Base.{
  ℕ, ◌+◌, ◌<◌, ◌*◌, ◌≡◌, refl, ap, Option, Bytes, Text, length, arith, All,
}
use sodtware_dev_ops_gp_proj.Base.Int.{ℤ, pos}
use sodtware_dev_ops_gp_proj.Base.Result.{Result, ok}
use sodtware_dev_ops_gp_proj.Channel.Crypto.{Crypto, IsSound}
use sodtware_dev_ops_gp_proj.Channel.Keys.{
  transcript, generate_keypair, encapsulate, new_session_id,
}
use sodtware_dev_ops_gp_proj.Channel.Keys.Laws.{
  derive_session_keys-length, decapsulate-encapsulate, generate_keypair-length, gateway_proof-IsTag,
  confirmation_tag-IsTag, new_session_id_ascii,
}
use sodtware_dev_ops_gp_proj.Cloud.Reading.{Reading, FloatOrder}
use sodtware_dev_ops_gp_proj.Cloud.State.{Config, second, session_ttl_s, session_max_messages}
use sodtware_dev_ops_gp_proj.Cloud.Sessions.{open_session}
use sodtware_dev_ops_gp_proj.Gateway.Stats.{bump, shaken}
use sodtware_dev_ops_gp_proj.Gateway.State.{cloud_timeout_s, PqcSession, Gateway, count}
use sodtware_dev_ops_gp_proj.Gateway.Handshake.Frame.{prepare-Keeps}
use sodtware_dev_ops_gp_proj.Gateway.Answers.{Agreed, expect}
use sodtware_dev_ops_gp_proj.Gateway.Handshake.{
  asks, prepare, do_handshake, handshake, construct, new_session, one_more,
}
use sodtware_dev_ops_gp_proj.Joint.Link.{in_time_lt, session_body, link_edited, World, link, passed}
use sodtware_dev_ops_gp_proj.Joint.Opening.{reply_made, session_keys, post_session_made}
use sodtware_dev_ops_gp_proj.Base.Json.{Json}
use sodtware_dev_ops_gp_proj.Channel.Keys.{decapsulate, confirmation_tag}
use sodtware_dev_ops_gp_proj.Channel.Crypto.{ciphertext_bytes}
use sodtware_dev_ops_gp_proj.Gateway.Answers.{conclude}
use sodtware_dev_ops_gp_proj.Base.{IsBytes, ◌∙◌}
use sodtware_dev_ops_gp_proj.Joint.Answering.{Paired, Trusts, fetch_key_made, conclude_made}

module _ {F : Type 0} (c : Crypto) (sound : IsSound c) (o : FloatOrder F)
    (parse_fields : Bytes → Option (Reading F)) (config : Config) (int_text : Text → Result ℤ)
    (lag : ℕ) (token : Text) (quick : lag < cloud_timeout_s * second) where
  -- The exchange up to the point where the gateway reads the reply, whatever was edited in it.
  pub record Exchange (edit : Json → Json) (g : Gateway (World F)) : Type 0 where
    pub static_ss : Bytes
    pub static_ct : Bytes
    pub ephemeral_pk : Bytes
    pub ephemeral_sk : Bytes
    pub ephemeral_ss : Bytes
    pub ephemeral_ct : Bytes
    pub tag : Bytes
    pub sid : Text
    pub after : Gateway (World F)
    pub ran : prepare c (link_edited c o parse_fields config int_text lag edit) token g ≡ (
      conclude c int_text config.kem_public_key static_ss static_ct ephemeral_pk ephemeral_sk
          (edit (session_body (reply_made c sid ephemeral_ct tag))),
      after,
    )
    pub ct_bytes : IsBytes ephemeral_ct
    pub ct_length : length ephemeral_ct ≡ ciphertext_bytes
    pub tag_bytes : IsBytes tag
    pub decapsulated : decapsulate c ephemeral_sk ephemeral_ct ≡ ok ephemeral_ss
    pub tagged :
        confirmation_tag c
          (session_keys c static_ss ephemeral_ss config.kem_public_key static_ct ephemeral_pk
            ephemeral_ct).1
          sid
        ≡ ok tag
    pub cloud :
        after.world.cloud
        ≡ open_session sid
            (session_keys c static_ss ephemeral_ss config.kem_public_key static_ct ephemeral_pk
              ephemeral_ct).0
            (g.world.clock + lag)
            g.world.cloud
    pub clock : after.world.clock ≡ g.world.clock + lag + lag
    pub trusts : Trusts c config after
    pub ascii : All (λ x. x < 128) sid
    pub size : length sid ≡ 32
    pub wide :
        length
          (session_keys c static_ss ephemeral_ss config.kem_public_key static_ct ephemeral_pk
            ephemeral_ct).0
        ≡ 32

  pub prepare-Exchange :
      (edit : Json → Json) (g : Gateway (World F))
      → Paired c config token
      → Trusts c config g
      → Exchange edit g
  unfolding prepare asks expect
  prepare-Exchange edit g paired t =
      let (h, w, still, fetched) =
        fetch_key_made c sound o parse_fields config int_text lag token quick edit g paired t in
      let d = h.world.draws in
      let (static_ss, static_ct, e1, d1, l1, b1) = decapsulate-encapsulate c sound paired.seed d in
      let pair = generate_keypair c (d + 1) in
      let (pl, pb) = generate_keypair-length c sound (d + 1) in
      let (ss, ct, e2, d2, l2, b2) = decapsulate-encapsulate c sound (d + 1) (d + 1 + 1) in
      let sid = new_session_id c (d + 1 + 1 + 1) in
      let (proof, made, pb', pl') =
        gateway_proof-IsTag c sound token paired.key static_ct pair.0 paired.encodes in
      let keys = session_keys c static_ss ss config.kem_public_key static_ct pair.0 ct in
      let (ascii, size) = new_session_id_ascii c sound (d + 1 + 1 + 1) in
      let (tag, tagged, tb, tl) = confirmation_tag-IsTag c sound keys.1 sid ascii in
      let opened =
        post_session_made c config (d + 1 + 1) (d + 1 + 1 + 1) h.world.clock h.world.cloud static_ss
          static_ct pair.0 ss ct proof tag (b1, l1) (pb, pl) (pb', pl') (rw paired.same_token made)
          (rw paired.private_key d1) e2 tagged in
      let enc : encapsulate c d config.kem_public_key ≡ ok (static_ss, static_ct) =
        rw paired.public_key e1 in
      record {
        static_ss = static_ss;
        static_ct = static_ct;
        ephemeral_pk = pair.0;
        ephemeral_sk = pair.1;
        ephemeral_ss = ss;
        ephemeral_ct = ct;
        tag = tag;
        sid = sid;
        after = record h {
          world =
              passed lag 2 (record h.world { draws = d + 1 + 1 })
                (open_session sid keys.0 h.world.clock h.world.cloud);
        };
        ran = rw (fetched, enc, made, opened, in_time_lt lag quick) refl;
        wide =
            derive_session_keys-length c sound static_ss ss
              (transcript config.kem_public_key static_ct pair.0 ct);
        ct_bytes = b2;
        ct_length = l2;
        tag_bytes = tb;
        decapsulated = d2;
        tagged = tagged;
        cloud = rw w refl;
        clock = rw w refl;
        trusts = still;
        ascii = ascii;
        size = size;
      }

  -- What both ends have after the exchange.
  record Met (g : Gateway (World F)) : Type 0 where
    agreed : Agreed
    after : Gateway (World F)
    ran : prepare c (link c o parse_fields config int_text lag) token g ≡ (ok agreed, after)
    cloud :
        after.world.cloud
        ≡ open_session agreed.session_id agreed.aead_key (g.world.clock + lag) g.world.cloud
    clock : after.world.clock ≡ g.world.clock + lag + lag
    trusts : Trusts c config after
    lifetime_s : agreed.lifetime_s ≡ 3540
    max_messages : agreed.max_messages ≡ pos 10_000
    ascii : All (λ x. x < 128) agreed.session_id
    size : length agreed.session_id ≡ 32
    wide : length agreed.aead_key ≡ 32

  prepare_made : (g : Gateway (World F)) → Paired c config token → Trusts c config g → Met g
  prepare_made g paired t =
      let x = prepare-Exchange (λ j. j) g paired t in
      let concluded =
        conclude_made c int_text config.kem_public_key x.static_ss x.static_ct x.ephemeral_pk
          x.ephemeral_sk x.ephemeral_ss x.ephemeral_ct x.tag x.sid x.ct_bytes x.ct_length
          x.tag_bytes x.decapsulated x.tagged in
      record {
        agreed = record {
          session_id = x.sid;
          aead_key =
              (session_keys c x.static_ss x.ephemeral_ss config.kem_public_key x.static_ct
                x.ephemeral_pk x.ephemeral_ct).0;
          lifetime_s = 3540;
          max_messages = pos 10_000;
        };
        after = x.after;
        ran = x.ran ∙ ap (λ (r : Result Agreed). (r, x.after)) concluded;
        cloud = x.cloud;
        clock = x.clock;
        trusts = x.trusts;
        lifetime_s = refl;
        max_messages = refl;
        ascii = x.ascii;
        size = x.size;
        wide = x.wide;
      }

  -- With a cloud whose key pair was generated, that has the same token and answers within the
  -- gateway's timeout of five seconds, and with no pin or the pin of that key, a handshake succeeds.
  -- The cloud has then just opened the session whose id and 32-byte key the gateway holds, and the
  -- gateway's copy has no counter used, the cloud's limit of messages, and a life that ends before
  -- the cloud's. It is counted as a success, and the gateway still trusts that key.
  pub handshake_agrees :
      (g : Gateway (World F))
      → Paired c config token
      → Trusts c config g
      → (s : PqcSession) × (after : Gateway (World F)) × (handshake c
            (link c o parse_fields config int_text lag)
            token
            g
          ≡ (ok s, after))
        × (after.world.cloud
            ≡ open_session s.session_id s.aead_key (g.world.clock + lag) g.world.cloud)
        × (after.world.clock ≡ g.world.clock + lag + lag)
        × (s.next_counter ≡ 0)
        × (s.max_messages ≡ pos session_max_messages)
        × (s.expires_at + 60 * second ≡ g.world.clock + lag + lag + session_ttl_s * second)
        × (after.stats ≡ bump shaken g.stats)
        × All (λ x. x < 128) s.session_id
        × (length s.session_id ≡ 32)
        × (length s.aead_key ≡ 32)
        × Trusts c config after
  unfolding handshake do_handshake construct
  handshake_agrees g paired t =
      let m = prepare_made g paired t in
      let framed =
        rw m.ran at ((prepare-Keeps c (link c o parse_fields config int_text lag) token).at g) in
      (
        new_session (link c o parse_fields config int_text lag) m.agreed m.after,
        count shaken (one_more m.after),
        (rw m.ran refl),
        m.cloud,
        m.clock,
        refl,
        m.max_messages,
        omega (arith, m.clock, m.lifetime_s),
        ap (bump shaken) framed.stats,
        m.ascii,
        m.size,
        m.wide,
        m.trusts,
      )
