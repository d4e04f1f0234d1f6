-- ===== src/Gateway/Handler/Mlkem.antt =====
-- The handler over the ML-KEM uplink.
use sodtware_dev_ops_gp_proj.Base.{List, Bytes, Text}
use sodtware_dev_ops_gp_proj.Base.Exec.{Exec}
use sodtware_dev_ops_gp_proj.Channel.Crypto.{Crypto}
use sodtware_dev_ops_gp_proj.Cloud.Reading.{Reading}
use sodtware_dev_ops_gp_proj.Gateway.State.{Gateway, Net}
use sodtware_dev_ops_gp_proj.Gateway.Handler.{handle}
use sodtware_dev_ops_gp_proj.Gateway.Handler.Accounting.{Accounts, handle-Accounts}
use sodtware_dev_ops_gp_proj.Gateway.Uplink.{send}
use sodtware_dev_ops_gp_proj.Gateway.Uplink.Quiet.{send-Untouched}
use sodtware_dev_ops_gp_proj.Legacy.Cipher.{Cipher}
use sodtware_dev_ops_gp_proj.Legacy.Record.{FloatText}

-- `handle` with a `PqcUplink`; `dumps` is `json.dumps(...).encode()` of a reading.
abbrev pub handle_mlkem :
    {W F : Type 0}
    → Cipher
    → Bytes
    → FloatText F
    → Crypto
    → Net W
    → Text
    → (Reading F → Bytes)
    → List Bytes
    → Exec (Gateway W) (Unit {0})
handle_mlkem k key f c net token dumps = handle k key f (λ r. send c net token (dumps r))

-- For every sequence of lines from a device, whatever they hold and whatever the cloud and the
-- network do: if the connection ends without an exception, every line has been counted once as
-- rejected, replayed, forwarded or failed, and every line that is not too long as received. If an
-- exception ends it, fewer lines were counted than there were.
pub handle_mlkem-Accounts :
    {W F : Type 0} (k : Cipher) (key : Bytes) (f : FloatText F) (c : Crypto) (net : Net W)
    (token : Text) (dumps : Reading F → Bytes) (lines : List Bytes) (g : Gateway W)
    → Accounts g lines (handle_mlkem k key f c net token dumps lines g)
handle_mlkem-Accounts k key f c net token dumps =
    handle-Accounts k key f (λ r. send c net token (dumps r))
      (λ r g. (send-Untouched c net token (dumps r) g).quiet)
