-- ===== src/Joint/Session.antt =====
-- A session that both ends hold: what the cloud knows of the gateway's session object.
use sodtware_dev_ops_gp_proj.Base.{
  ℕ, ◌+◌, ◌*◌, ◌≤◌, ◌<◌, ◌≡◌, refl, true, false, Option, some, List, [], ◌∷◌, Bytes, length, All,
  All-map, arith, leb, get_elem?, set, get_elem?-set_self, same_refl, ◌∙◌,
}
use sodtware_dev_ops_gp_proj.Base.Int.{pos}
use sodtware_dev_ops_gp_proj.Base.Dict.{get, get-put}
use sodtware_dev_ops_gp_proj.Base.Result.{ok}
use sodtware_dev_ops_gp_proj.Channel.Crypto.{Crypto, IsSound}
use sodtware_dev_ops_gp_proj.Cloud.Reading.{Reading, FloatOrder, fits}
use sodtware_dev_ops_gp_proj.Cloud.State.{
  Cloud, Session, mlkem, second, session_ttl_s, session_max_messages,
}
use sodtware_dev_ops_gp_proj.Cloud.Readings.{store}
use sodtware_dev_ops_gp_proj.Cloud.Sessions.{
  open_session, prune_sessions, find_session, claim_counter, contains, admit,
}
use sodtware_dev_ops_gp_proj.Cloud.Messages.{receive}
use sodtware_dev_ops_gp_proj.Cloud.Ingest.{ingest_sealed, post_sealed, deliver}
use sodtware_dev_ops_gp_proj.Gateway.State.{PqcSession}
use sodtware_dev_ops_gp_proj.Joint.Acceptance.{
  Sealed, message_of, validate_made, opened_object, open_session_object,
}

-- The cloud's session object of that name has the same key and a life that is no shorter, and has
-- seen only counters that the gateway has handed out.
pub record Known {F : Type 0} (cloud : Cloud F) (s : PqcSession) : Type 0 where
  pub ref : ℕ
  pub object : Session
  pub named : get s.session_id cloud.sessions ≡ some ref
  pub placed : get_elem? cloud.heap ref ≡ some object
  pub same_key : object.aead_key ≡ s.aead_key
  pub longer : s.expires_at ≤ object.expires_at
  pub used : length object.seen_counters ≤ s.next_counter
  pub lower : All (λ x. x < s.next_counter) object.seen_counters
  pub most : s.max_messages ≡ pos session_max_messages
  pub ascii : All (λ x. x < 128) s.session_id
  pub size : length s.session_id ≡ 32
  pub wide : length s.aead_key ≡ 32

contains_fresh : (n : ℕ) (xs : List ℕ) → All (λ x. x < n) xs → contains n xs ≡ false
unfolding contains
contains_fresh n [] h = refl
contains_fresh n (x ∷ xs) h = ground (arith, h.0, contains_fresh n xs h.1)

module _ {F : Type 0} where
  find_session-Known :
      (cloud : Cloud F) (s : PqcSession) (now : ℕ) (k : Known cloud s)
      → now < k.object.expires_at
      → find_session s.session_id now cloud ≡ ok (k.ref, s.aead_key)
  unfolding find_session
  find_session-Known cloud s now k live =
      let fresh : leb k.object.expires_at now ≡ false = ground (arith, live) in
      rw (k.named, find_session) (rw k.placed (rw (fresh, k.same_key) refl))

  -- The cloud after it has taken the next message.
  abbrev pub claimed : (cloud : Cloud F) (s : PqcSession) → Known cloud s → Cloud F
  claimed cloud s k = record cloud {
    heap =
        set cloud.heap k.ref
          (record k.object { seen_counters = s.next_counter ∷ k.object.seen_counters });
  }

  claim_counter-Known :
      (cloud : Cloud F) (s : PqcSession) (k : Known cloud s)
      → s.next_counter < session_max_messages
      → claim_counter k.ref s.next_counter cloud ≡ (ok tt, claimed cloud s k)
  unfolding claim_counter admit
  claim_counter-Known cloud s k low =
      let fresh = contains_fresh s.next_counter k.object.seen_counters k.lower in
      let room : leb session_max_messages (length k.object.seen_counters) ≡ false =
        ground (arith, k.used, low) in
      rw (k.placed, fresh, room) refl

  -- The next one will be as good.
  pub claimed-Known :
      (cloud : Cloud F) (s : PqcSession) (k : Known cloud s)
      → Known (claimed cloud s k) (record s { next_counter = s.next_counter + 1 })
  claimed-Known cloud s k = record {
    ref = k.ref;
    object = record k.object { seen_counters = s.next_counter ∷ k.object.seen_counters };
    named = k.named;
    placed = get_elem?-set_self cloud.heap k.ref _ k.object k.placed;
    same_key = k.same_key;
    longer = k.longer;
    used = omega (arith, k.used);
    lower = (
      omega arith,
      All-map (λ x. x < s.next_counter) (λ x. x < s.next_counter + 1) k.object.seen_counters
          (λ x h. omega (arith, h)) k.lower,
    );
    most = k.most;
    ascii = k.ascii;
    size = k.size;
    wide = k.wide;
  }

  -- A stored reading changes nothing about it.
  pub store-Known :
      (cloud : Cloud F) (s : PqcSession) (r : Reading F) (wall : ℕ)
      → Known cloud s
      → Known (store r mlkem wall cloud) s
  unfolding store
  store-Known cloud s r wall k = record {
    ref = k.ref;
    object = k.object;
    named = k.named;
    placed = k.placed;
    same_key = k.same_key;
    longer = k.longer;
    used = k.used;
    lower = k.lower;
    most = k.most;
    ascii = k.ascii;
    size = k.size;
    wide = k.wide;
  }

  -- A session that was just opened.
  pub opened-Known :
      (cloud : Cloud F) (s : PqcSession) (at : ℕ)
      → s.next_counter ≡ 0
      → s.max_messages ≡ pos session_max_messages
      → s.expires_at ≤ at + session_ttl_s * second
      → All (λ x. x < 128) s.session_id
      → length s.session_id ≡ 32
      → length s.aead_key ≡ 32
      → Known (open_session s.session_id s.aead_key at cloud) s
  opened-Known cloud s at unused most until ascii size wide = record {
    ref = length (prune_sessions at cloud).heap;
    object = opened_object s.aead_key at;
    named =
        unfold open_session in
        get-put s.session_id s.session_id (length (prune_sessions at cloud).heap)
          (prune_sessions at cloud).sessions
        ∙ (rw (same_refl s.session_id) refl);
    placed = open_session_object s.session_id s.aead_key at cloud;
    same_key = refl;
    longer = until;
    used = omega arith;
    lower = tt;
    most = most;
    ascii = ascii;
    size = size;
    wide = wide;
  }

module _ {F : Type 0} (c : Crypto) (sound : IsSound c) (o : FloatOrder F)
    (parse_fields : Bytes → Option (Reading F)) where
  pub post_sealed-Known :
      (cloud : Cloud F) (s : PqcSession) (now wall : ℕ) (plaintext : Bytes) (r : Reading F)
      (k : Known cloud s)
      (m : Sealed c sound o parse_fields s.aead_key s.next_counter s.session_id plaintext)
      → now < k.object.expires_at
      → s.next_counter < session_max_messages
      → parse_fields plaintext ≡ some r
      → fits o r ≡ true
      → post_sealed c o parse_fields (message_of s.session_id m.nonce m.text) now wall cloud ≡ (
        ok (record { device_id = r.device_id; seq = r.seq }),
        store r mlkem wall (claimed cloud s k),
      )
  unfolding post_sealed ingest_sealed receive deliver
  post_sealed-Known cloud s now wall plaintext r k m live low parsed good =
      rw
        (
          m.fit,
          m.decoded,
          find_session-Known cloud s now k live,
          m.opens,
          claim_counter-Known cloud s k low,
          validate_made c sound o parse_fields plaintext r parsed good,
        )
        refl
