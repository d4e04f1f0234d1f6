-- ===== src/Gateway/Sample.antt =====
-- A gateway that has just started, before a cloud that nothing reaches.
use sodtware_dev_ops_gp_proj.Base.{ℕ, ◌+◌, none, []}
use sodtware_dev_ops_gp_proj.Base.Result.{err, value_error}
use sodtware_dev_ops_gp_proj.Gateway.Stats.{no_stats}
use sodtware_dev_ops_gp_proj.Gateway.State.{Gateway, Net, unreachable}

abbrev pub dead : Net ℕ
dead = record {
  monotonic = λ w. w;
  random = λ w. (w, w + 1);
  get_public_key = λ w. (unreachable, w + 5);
  post_session = λ request w. (unreachable, w + 5);
  post_telemetry = λ request w. (unreachable, w + 5);
  int_text = λ t. err value_error;
}

abbrev pub fresh : Gateway ℕ
fresh = record {
  stats = no_stats;
  seen = [];
  uplink = record { pinned = none; session = none; made = 0 };
  world = 0;
}
