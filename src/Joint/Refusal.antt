-- ===== src/Joint/Refusal.antt =====
-- A pinned gateway before a cloud with another key.
use sodtware_dev_ops_gp_proj.Base.{◌≡◌, some, Bytes, Text}
use sodtware_dev_ops_gp_proj.Base.Codes
use sodtware_dev_ops_gp_proj.Base.Json.{str, subscript}
use sodtware_dev_ops_gp_proj.Base.Result.{ok}
use sodtware_dev_ops_gp_proj.Channel.Base64.{b64encode, b64decode, b64decode_json}
use sodtware_dev_ops_gp_proj.Channel.Base64.RoundTrip.{b64decode_exact}
use sodtware_dev_ops_gp_proj.Channel.Crypto.{Crypto, IsSound, public_key_bytes}
use sodtware_dev_ops_gp_proj.Channel.Keys.Laws.{generate_keypair-length}
use sodtware_dev_ops_gp_proj.Cloud.State.{Config}
use sodtware_dev_ops_gp_proj.Gateway.Answers.{expect}
use sodtware_dev_ops_gp_proj.Gateway.State.{answered, json}
use sodtware_dev_ops_gp_proj.Gateway.Uplink.Pinned.{Offers}
use sodtware_dev_ops_gp_proj.Joint.Answering.{Paired}
use sodtware_dev_ops_gp_proj.Joint.Link.{pqc_public_key}

-- The cloud offers its own key and no other.
pub pqc_public_key-Offers :
    (c : Crypto) (sound : IsSound c) (config : Config) (token : Text) (pk : Bytes)
    → Paired c config token
    → Offers (answered 200 (json (pqc_public_key c config))) pk
    → pk ≡ config.kem_public_key
unfolding expect subscript b64decode_json pqc_public_key Codes.same
pqc_public_key-Offers c sound config token pk paired offer =
    let (len, small) = generate_keypair-length c sound paired.seed in
    let decoded : b64decode (b64encode config.kem_public_key) (some public_key_bytes)
        ≡ ok config.kem_public_key =
      b64decode_exact config.kem_public_key public_key_bytes (rw paired.public_key small)
        (rw paired.public_key len) in
    let body : offer.body ≡ pqc_public_key c config = cc offer.came in
    let found : ok (str (b64encode config.kem_public_key)) ≡ ok offer.field =
      rw body at offer.found in
    let field : offer.field ≡ str (b64encode config.kem_public_key) = cc found in
    let read : b64decode (b64encode config.kem_public_key) (some public_key_bytes) ≡ ok pk =
      rw field at offer.decoded in
    cc (decoded, read)
