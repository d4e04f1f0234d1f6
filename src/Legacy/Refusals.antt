-- ===== src/Legacy/Refusals.antt =====
-- The exceptions of the readers of legacy_device/protocol.py.
use sodtware_dev_ops_gp_proj.Base.{◌≡◌, Option, none, some, List, [], ◌∷◌, Bytes, Text, ltb}
use sodtware_dev_ops_gp_proj.Base.Result.{Exception, err, value_error, ◌>>=◌}
use sodtware_dev_ops_gp_proj.Base.Plain.{
  IsPlain, IsPlain-ok, IsPlain-err, IsPlain-if, IsPlain-bind, plain_rules,
}
use sodtware_dev_ops_gp_proj.Legacy.Cipher.{Cipher}
use sodtware_dev_ops_gp_proj.Legacy.Frame.{
  ascii, or_value_error, two_parts, read_frame, decrypt_frame,
}
use sodtware_dev_ops_gp_proj.Legacy.Number.Refusals.{int_text-IsPlain}
use sodtware_dev_ops_gp_proj.Legacy.Record.{FloatText, IsFloatText, six_parts, parse_reading}

or_value_error-IsPlain : {A : Type 0} (o : Option A) → IsPlain (or_value_error o)
or_value_error-IsPlain none = IsPlain-err
or_value_error-IsPlain (some a) = IsPlain-ok a

ascii-IsPlain : (t : Text) → IsPlain (ascii t)
unfolding ascii
ascii-IsPlain [] = IsPlain-ok _
ascii-IsPlain (x ∷ t) =
    IsPlain-if (ltb x 128) _ _ (IsPlain-bind (ascii t) _ (ascii-IsPlain t) (λ rest. IsPlain-ok _))
      IsPlain-err

two_parts-IsPlain : (l : List Text) → IsPlain (two_parts l)
two_parts-IsPlain [] = IsPlain-err
two_parts-IsPlain (a ∷ []) = IsPlain-err
two_parts-IsPlain (a ∷ b ∷ []) = IsPlain-ok _
two_parts-IsPlain (a ∷ b ∷ c ∷ l) = IsPlain-err

six_parts-IsPlain : (l : List Text) → IsPlain (six_parts l)
six_parts-IsPlain [] = IsPlain-err
six_parts-IsPlain (a ∷ []) = IsPlain-err
six_parts-IsPlain (a ∷ b ∷ []) = IsPlain-err
six_parts-IsPlain (a ∷ b ∷ c ∷ []) = IsPlain-err
six_parts-IsPlain (a ∷ b ∷ c ∷ d ∷ []) = IsPlain-err
six_parts-IsPlain (a ∷ b ∷ c ∷ d ∷ e ∷ []) = IsPlain-err
six_parts-IsPlain (a ∷ b ∷ c ∷ d ∷ e ∷ f ∷ []) = IsPlain-ok _
six_parts-IsPlain (a ∷ b ∷ c ∷ d ∷ e ∷ f ∷ g ∷ l) = IsPlain-err

ruleset reader_rules = (
  plain_rules, or_value_error-IsPlain, ascii-IsPlain, two_parts-IsPlain, six_parts-IsPlain,
  int_text-IsPlain,
)

read_frame-IsPlain : (frame : Bytes) → IsPlain (read_frame frame)
unfolding read_frame
read_frame-IsPlain frame = search reader_rules depth 20

decrypt_frame-IsPlain : (k : Cipher) (key frame : Bytes) → IsPlain (decrypt_frame k key frame)
unfolding decrypt_frame
decrypt_frame-IsPlain k key frame = search (reader_rules, read_frame-IsPlain) depth 20

parse_reading-IsPlain :
    {F : Type 0} (f : FloatText F) → IsFloatText f → (text : Text) → IsPlain (parse_reading f text)
unfolding parse_reading
parse_reading-IsPlain f sound text = search (reader_rules, sound.float_IsPlain) depth 20

-- Whatever bytes the gateway takes for a frame, the only exception that decrypting them and parsing
-- the record raises is the `ValueError` that `_process` catches.
pub read_error :
    {F : Type 0} (k : Cipher) (key : Bytes) (f : FloatText F) (sound : IsFloatText f) (raw : Bytes)
    (e : Exception)
    → (decrypt_frame k key raw >>= parse_reading f) ≡ err e
    → e ≡ value_error
read_error k key f sound raw =
    (IsPlain-bind (decrypt_frame k key raw) (parse_reading f) (decrypt_frame-IsPlain k key raw)
      (parse_reading-IsPlain f sound)).error
