-- ===== src/Base/Json.antt =====
-- JSON documents as `json.loads` returns them, and what Python does with a value of the wrong
-- shape.
use sodtware_dev_ops_gp_proj.Base.Tests.{if◌then◌else◌}
use sodtware_dev_ops_gp_proj.Base.Codes.{Text, same}
use sodtware_dev_ops_gp_proj.Base.Int.{ℤ, pos}
use sodtware_dev_ops_gp_proj.Base.Result.{
  Result, ok, err, key_error, type_error, value_error, overflow_error,
}
use mathlib.Core.Bool.{Bool, true, false}

-- A float by what `int()` makes of it: `json.loads` also reads `NaN` and `Infinity`.
pub data Real : Type 0 where
  truncates_to : ℤ → Real
  not_a_number infinite : Real

mutual
  pub data Json : Type 0 where
    null : Json
    bool : Bool → Json
    int : ℤ → Json
    real : Real → Json
    str : Text → Json
    arr : Items → Json
    obj : Fields → Json

  pub data Items : Type 0 where
    nil : Items
    cons : Json → Items → Items

  pub data Fields : Type 0 where
    no_field : Fields
    field : Text → Json → Fields → Fields

find_field : Text → Fields → Result Json
find_field k no_field = err key_error
find_field k (field j v fs) = if same j k then ok v else find_field k fs

-- `body[key]` with a text key: only an object has one.
unfoldable pub subscript : Json → Text → Result Json
unfolding find_field
subscript (obj fs) k = find_field k fs
subscript _ k = err type_error

-- `int(value)`; how a text is read is the argument.
unfoldable pub to_int : (Text → Result ℤ) → Json → Result ℤ
to_int int_text (int z) = ok z
to_int int_text (bool true) = ok (pos 1)
to_int int_text (bool false) = ok (pos 0)
to_int int_text (real (truncates_to z)) = ok z
to_int int_text (real not_a_number) = err value_error
to_int int_text (real infinite) = err overflow_error
to_int int_text (str t) = int_text t
to_int int_text _ = err type_error
