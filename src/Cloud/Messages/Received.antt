-- ===== src/Cloud/Messages/Received.antt =====
-- A message of cloud_service/app.py that `ingest_sealed` has opened.
use sodtware_dev_ops_gp_proj.Base.{ℕ, ◌≡◌, ◌∙◌, Bytes}
use sodtware_dev_ops_gp_proj.Base.Result.{ok, chain_returned}
use sodtware_dev_ops_gp_proj.Channel.Crypto.{Crypto}
use sodtware_dev_ops_gp_proj.Cloud.State.{Cloud}
use sodtware_dev_ops_gp_proj.Cloud.Sessions.{find_session}
use sodtware_dev_ops_gp_proj.Cloud.Messages.{
  SealedReading, Ticket, receive, decode_sealed, open_message,
}

module _ {F : Type 0} (c : Crypto) where
  -- What stands behind a message that `ingest_sealed` has opened.
  pub record Received (m : SealedReading) (now : ℕ) (cloud : Cloud F) (t : Ticket) : Type 0 where
    pub nonce : Bytes
    pub text : Bytes
    pub key : Bytes
    pub decoded : decode_sealed m ≡ ok (nonce, text)
    pub found : find_session m.session_id now cloud ≡ ok (t.ref, key)
    pub opened : open_message c key nonce m.session_id text ≡ ok (t.counter, t.plaintext)

  pub receive-Received :
      (m : SealedReading) (now : ℕ) (cloud : Cloud F) (t : Ticket)
      → receive c m now cloud ≡ ok t
      → Received m now cloud t
  unfolding receive
  receive-Received m now cloud t h =
      let ((nonce, text), d, h1) = chain_returned (decode_sealed m) _ h in
      let ((ref, key), f, h2) = chain_returned (find_session m.session_id now cloud) _ h1 in
      let ((counter, plaintext), g, h3) =
        chain_returned (open_message c key nonce m.session_id text) _ h2 in
      record {
        nonce = nonce;
        text = text;
        key = key;
        decoded = d;
        found = f ∙ cc h3;
        opened = g ∙ cc h3;
      }
