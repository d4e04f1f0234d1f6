-- ===== src/Cloud/KeyFile.antt =====
-- `_load_or_create_keypair` of cloud_service/app.py, with the file as the state.
pub mod Restart
use sodtware_dev_ops_gp_proj.Base.{ℕ, Option, none, some, [], ◌∷◌, Bytes, Text, codes}
use sodtware_dev_ops_gp_proj.Base.Result.{Result, ok, err, value_error, ◌>>=◌}
use sodtware_dev_ops_gp_proj.Base.Exec.{Exec}
use sodtware_dev_ops_gp_proj.Base.Json.{Json, str, obj, field, no_field, subscript}
use sodtware_dev_ops_gp_proj.Channel.Base64.{b64encode}
use sodtware_dev_ops_gp_proj.Channel.Crypto.{Crypto, public_key_bytes}
use sodtware_dev_ops_gp_proj.Channel.Keys.{algorithm, generate_keypair}
use sodtware_dev_ops_gp_proj.Channel.Base64.{b64decode_json}

-- The file: it is not there, holds something that `json.loads` refuses, or holds a document.
pub data KeyFile : Type 0 where
  absent : KeyFile
  garbled : KeyFile
  document : Json → KeyFile

-- The document that is written.
abbrev pub key_document : Bytes → Bytes → Json
key_document public_key private_key = obj (
    field (codes "algorithm") (str algorithm) (
      field (codes "public_key") (str (b64encode public_key))
        (field (codes "private_key") (str (b64encode private_key)) no_field)))

-- What a document is read back to.
unfoldable pub stored_keypair : Json → Result (Bytes × Bytes)
stored_keypair stored = do
  pk ← subscript stored (codes "public_key")
  public_key ← b64decode_json pk (some public_key_bytes)
  sk ← subscript stored (codes "private_key")
  private_key ← b64decode_json sk none
  ok (public_key, private_key)

module _ (c : Crypto) (random : ℕ) where
  -- With a path.
  unfoldable pub load_or_create : Exec KeyFile (Bytes × Bytes)
  load_or_create absent =
      let pair = generate_keypair c random in (ok pair, document (key_document pair.0 pair.1))
  load_or_create garbled = (err value_error, garbled)
  load_or_create (document stored) = (stored_keypair stored, document stored)

  -- `if not path` takes an absent and an empty path alike.
  unfoldable pub load_or_create_keypair : Option Text → Exec KeyFile (Bytes × Bytes)
  load_or_create_keypair none file = (ok (generate_keypair c random), file)
  load_or_create_keypair (some []) file = (ok (generate_keypair c random), file)
  load_or_create_keypair (some (x ∷ path)) file = load_or_create file
