-- ===== src/Cloud/KeyFile/Restart.antt =====
-- The key file over a restart of cloud_service/app.py.
use sodtware_dev_ops_gp_proj.Base.{ℕ, ◌≡◌, refl, some, ◌∷◌, Bytes, Text, IsBytes, length}
use sodtware_dev_ops_gp_proj.Base.Codes
use sodtware_dev_ops_gp_proj.Base.Result.{ok}
use sodtware_dev_ops_gp_proj.Base.Json.{subscript}
use sodtware_dev_ops_gp_proj.Channel.Base64.RoundTrip.{b64decode-b64encode}
use sodtware_dev_ops_gp_proj.Channel.Crypto.{Crypto, IsSound, public_key_bytes}
use sodtware_dev_ops_gp_proj.Channel.Keys.{generate_keypair}
use sodtware_dev_ops_gp_proj.Channel.Keys.Laws.{generate_keypair-length, private_key-IsBytes}
use sodtware_dev_ops_gp_proj.Cloud.KeyFile.{
  absent, key_document, stored_keypair, load_or_create, load_or_create_keypair,
}
use sodtware_dev_ops_gp_proj.Channel.Base64.{b64decode_json}
use sodtware_dev_ops_gp_proj.Channel.Base64.RoundTrip.{b64decode_exact}

stored_keypair-key_document :
    (pk sk : Bytes)
    → IsBytes pk
    → length pk ≡ public_key_bytes
    → IsBytes sk
    → stored_keypair (key_document pk sk) ≡ ok (pk, sk)
unfolding stored_keypair subscript b64decode_json Codes.same
stored_keypair-key_document pk sk h l k =
    rw (b64decode_exact pk public_key_bytes h l, (b64decode-b64encode sk 0 k).0) refl

-- The first start with a path and no file makes a key pair and writes it; every later start with
-- that file, whatever the random source gives, returns the same pair and leaves the file as it is.
pub load_or_create_keypair_again :
    (c : Crypto) (sound : IsSound c) (r r' x : ℕ) (path : Text)
    → let first = load_or_create_keypair c r (some (x ∷ path)) absent in
      (first.0 ≡ ok (generate_keypair c r))
      × (load_or_create_keypair c r' (some (x ∷ path)) first.1 ≡ first)
unfolding load_or_create_keypair load_or_create
load_or_create_keypair_again c sound r r' x path =
    let pair = generate_keypair c r in
    let (len, small) = generate_keypair-length c sound r in
    (
      refl,
      rw (stored_keypair-key_document pair.0 pair.1 small len (private_key-IsBytes c sound r)) refl,
    )
