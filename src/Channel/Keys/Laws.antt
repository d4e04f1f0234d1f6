-- ===== src/Channel/Keys/Laws.antt =====
-- What the channel's pieces promise each other.
use sodtware_dev_ops_gp_proj.Base.{
  ◌==◌, ◌||◌, ◌&&◌, leb, Bool-cases, length-take, ◌*◌, ℕ, ◌^◌, ◌≡◌, refl, ◌↔◌, [], ◌∷◌, ◌++◌, inl,
  inr, arith, Bytes, Text, IsBytes, codes, All, All-map, ◌<◌, length, same, same_iff, ltb,
  if◌then◌else◌,
}
use sodtware_dev_ops_gp_proj.Base.Result.{
  Result, ok, err, channel_error, overflow_error, value_error, ◌>>=◌, Result-cases,
}
use sodtware_dev_ops_gp_proj.Base.Utf8
use sodtware_dev_ops_gp_proj.Base.Hex.{length-hex, hex, IsHexChar, hex-IsHexChar}
use sodtware_dev_ops_gp_proj.Channel.Crypto.{
  is_aes_key, aead_limit, IsAeadInput, Crypto, IsSound, ciphertext_bytes, public_key_bytes,
}
use sodtware_dev_ops_gp_proj.Channel.Nonce.RoundTrip.{nonce_for_cases}
use sodtware_dev_ops_gp_proj.Channel.Keys.{
  derive_session_keys, protocol_label, fingerprint, gateway_proof, new_session_id, generate_keypair,
  encapsulate, decapsulate, transcript, confirmation_tag, verify_confirmation, seal, open_sealed,
}

-- Two concatenations whose first parts have one length.
append_cancel :
    (xs xs' ys ys' : Bytes)
    → length xs ≡ length xs'
    → xs ++ ys ≡ xs' ++ ys'
    → (xs ≡ xs') × (ys ≡ ys')
append_cancel [] [] ys ys' h e = (refl, e)
append_cancel [] (x ∷ xs') ys ys' h e = absurd (omega arith)
append_cancel (x ∷ xs) [] ys ys' h e = absurd (omega arith)
append_cancel (x ∷ xs) (x' ∷ xs') ys ys' h e =
    let (p, q) = append_cancel xs xs' ys ys' (omega arith) (cc) in (cc, q)

-- Of handshake values with the lengths that both sides check, equal transcripts have equal parts:
-- the concatenation is unambiguous.
pub transcript-injective :
    (pk ct epk ect pk' ct' epk' ect' : Bytes)
    → length pk ≡ length pk'
    → length ct ≡ length ct'
    → length epk ≡ length epk'
    → transcript pk ct epk ect ≡ transcript pk' ct' epk' ect'
    → (pk ≡ pk') × (ct ≡ ct') × (epk ≡ epk') × (ect ≡ ect')
unfolding transcript
transcript-injective pk ct epk ect pk' ct' epk' ect' h k l e =
    let (p, rest) = append_cancel pk pk' _ _ h e in
    let (q, rest') = append_cancel ct ct' _ _ k rest in
    let (r, s) = append_cancel epk epk' _ _ l rest' in (p, q, r, s)

abbrev accepts : Bytes → Bytes → Result (Unit {0})
accepts tag expected = if same expected tag then ok tt else err channel_error

accepts_iff :
    (r : Result Bytes) (tag : Bytes) → ◌↔◌ {0, 0} ((r >>= accepts tag) ≡ ok tt) (r ≡ ok tag)
accepts_iff (ok t) tag = (λ h. ground (arith, same_iff t tag), λ h. ground (arith, same_iff t tag))
accepts_iff (err x) tag = (λ h. cc, λ h. cc)

module _ (c : Crypto) where
  -- A tag is accepted exactly if it is the one that the same key makes for that session.
  pub verify_confirmation_iff :
      (key : Bytes) (sid : Text) (tag : Bytes)
      → (verify_confirmation c key sid tag ≡ ok tt) ↔ (confirmation_tag c key sid ≡ ok tag)
  unfolding verify_confirmation
  verify_confirmation_iff key sid tag = accepts_iff (confirmation_tag c key sid) tag

  -- Sealing and opening again, under the same key and session id: the plaintext comes back if the
  -- counter is below 2 ^ 96, the key has 16, 24 or 32 bytes, UTF-8 can encode the session id, and
  -- neither that nor the plaintext has 2 ^ 31 bytes or more. Sealing raises `OverflowError` for the
  -- first and the last, `ValueError` for the others.
  pub open_sealed-seal :
      IsSound c
      → (key : Bytes) (counter : ℕ) (sid : Text) (plaintext : Bytes)
      → (seal c key counter sid plaintext >>= λ (nonce, sealed). open_sealed c key nonce sid sealed)
        ≡ (if ltb counter (2 ^ 96)
            then (if length key == 16 || (length key == 24 || length key == 32)
                then (do
                  id ← Utf8.encode sid
                  if leb (length plaintext) 2_147_483_647 && leb (length id) 2_147_483_647
                      then ok plaintext
                      else err overflow_error)
                else err value_error)
            else err overflow_error)
  unfolding seal open_sealed
  open_sealed-seal sound key counter sid plaintext = elim (nonce_for_cases counter) [
    | inr (made, large) ↦ rw (made, large)
    | inl (nonce, made, back, len, _, fits) ↦ elim (Bool-cases (is_aes_key key)) [
      | inr odd ↦ rw (made, fits, odd) refl
      | inl even ↦ elim (Result-cases (Utf8.encode sid)) [
        | inr (x, e) ↦ rw (made, fits, even, e) refl
        | inl (id, e) ↦
            elim (Bool-cases (leb (length plaintext) aead_limit && leb (length id) aead_limit)) [
              | inr huge ↦ rw (made, fits, even, e, huge) refl
              | inl small ↦
                  let input : IsAeadInput key nonce plaintext id = record {
                    key = even;
                    nonce = len;
                    plaintext = ground (arith, small);
                    associated = ground (arith, small);
                  } in
                  rw (made, fits, even, e, small)
                    (rw (back, sound.aead_open key nonce plaintext id input) refl)
            ]
      ]
    ]
  ]

  -- The first of the two keys fits AES-256.
  pub derive_session_keys-length :
      IsSound c
      → (static_ss ephemeral_ss t : Bytes)
      → length (derive_session_keys c static_ss ephemeral_ss t).0 ≡ 32
  unfolding derive_session_keys
  derive_session_keys-length sound static_ss ephemeral_ss t = omega (
    arith,
    length-take 32 (c.hkdf 64 (c.sha256 t) protocol_label (static_ss ++ ephemeral_ss)),
    sound.hkdf_length 64 (c.sha256 t) protocol_label (static_ss ++ ephemeral_ss) (omega arith),
  )

  -- Encapsulating to a generated public key succeeds, with a ciphertext of the stated length; its
  -- holder decapsulates it to the same secret.
  pub decapsulate-encapsulate :
      IsSound c
      → (r s : ℕ)
      → let pair = generate_keypair c r in
        (secret ct : Bytes) × (encapsulate c s pair.0 ≡ ok (secret, ct))
        × (decapsulate c pair.1 ct ≡ ok secret)
        × (length ct ≡ ciphertext_bytes)
        × IsBytes ct
  unfolding generate_keypair encapsulate decapsulate
  decapsulate-encapsulate sound r s =
      let (secret, ct, made, back, len, small) = sound.encaps_made r s in
      (secret, ct, (rw (sound.public_length r, made)), (rw (len, back)), len, small)

  pub generate_keypair-length :
      IsSound c
      → (r : ℕ)
      → (length (generate_keypair c r).0 ≡ public_key_bytes) × IsBytes (generate_keypair c r).0
  unfolding generate_keypair
  generate_keypair-length sound r = (sound.public_length r, sound.public_bytes r)

  pub length-fingerprint : (pk : Bytes) → length (fingerprint c pk) ≡ length (c.sha256 pk) * 2
  unfolding fingerprint
  length-fingerprint pk = length-hex (c.sha256 pk)

  pub fingerprint-All : IsSound c → (pk : Bytes) → All (λ x. x < 128) (fingerprint c pk)
  unfolding fingerprint
  fingerprint-All sound pk =
      All-map IsHexChar (λ x. x < 128) (hex (c.sha256 pk)) (λ x h. h.1)
        (hex-IsHexChar (c.sha256 pk) (sound.hash_bytes pk))

  -- The tags are 32 bytes, and exist for every text that UTF-8 can encode.
  abbrev pub IsTag : Result Bytes → Type 0
  IsTag r = (tag : Bytes) × (r ≡ ok tag) × IsBytes tag × (length tag ≡ 32)

  pub gateway_proof-IsTag :
      IsSound c
      → (token : Text) (key ct pk : Bytes) → Utf8.encode token ≡ ok key
      → IsTag (gateway_proof c token ct pk)
  unfolding gateway_proof
  gateway_proof-IsTag sound token key ct pk e =
      (_, (rw e refl), sound.mac_bytes key (ct ++ pk), sound.mac_length key (ct ++ pk))

  pub confirmation_tag-IsTag :
      IsSound c
      → (key : Bytes) (sid : Text) → All (λ x. x < 128) sid
      → IsTag (confirmation_tag c key sid)
  unfolding confirmation_tag
  confirmation_tag-IsTag sound key sid h =
      let m = codes "cloud-confirm|" ++ sid in
      (
        c.hmac_sha256 key m,
        (rw (Utf8.encode-ascii sid h) refl),
        sound.mac_bytes key m,
        sound.mac_length key m,
      )

  pub new_session_id_ascii :
      IsSound c
      → (r : ℕ) → All (λ x. x < 128) (new_session_id c r) × (length (new_session_id c r) ≡ 32)
  unfolding new_session_id
  new_session_id_ascii sound r = (sound.id_ascii r, sound.id_length r)

  pub private_key-IsBytes : IsSound c → (r : ℕ) → IsBytes (generate_keypair c r).1
  unfolding generate_keypair
  private_key-IsBytes sound r = sound.private_bytes r
