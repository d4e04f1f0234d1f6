-- ===== src/Gateway/Tracker.antt =====
-- `SequenceTracker` of edge_gateway/gateway.py. The lock makes each call one step, so the calls of
-- all device threads stand in one order.
pub mod History
use sodtware_dev_ops_gp_proj.Base.{
  Bool, true, false, Option, none, some, Text, List, [], ◌∷◌, if◌then◌else◌,
}
use sodtware_dev_ops_gp_proj.Base.Int.{ℤ, leb_ℤ}
use sodtware_dev_ops_gp_proj.Base.Dict.{Dict, get, put}

-- `last is not None and seq <= last`
abbrev pub is_stale : Option ℤ → ℤ → Bool
is_stale none seq = false
is_stale (some last) seq = leb_ℤ seq last

-- The answer, and the table `_seen` afterwards.
unfoldable pub accept : Text → ℤ → Dict ℤ → Bool × Dict ℤ
accept device_id seq seen =
    if is_stale (get device_id seen) seq then (false, seen) else (true, put device_id seq seen)
