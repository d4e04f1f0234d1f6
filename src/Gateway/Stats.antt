-- ===== src/Gateway/Stats.antt =====
-- `GatewayStats` of edge_gateway/gateway.py. The lock makes each call one step.
pub mod Lines
use sodtware_dev_ops_gp_proj.Base.{ℕ, ◌+◌, [], ◌∷◌, codes}
use sodtware_dev_ops_gp_proj.Base.Dict.{Dict}

pub record GatewayStats : Type 0 where
  pub frames_received : ℕ
  pub frames_rejected : ℕ
  pub forwarded_ok : ℕ
  pub forward_failed : ℕ
  pub replays_dropped : ℕ
  pub handshakes_ok : ℕ
  pub handshakes_failed : ℕ

-- The names that `bump` is called with.
pub data Counter : Type 0 where
  received rejected forwarded failed replayed shaken unshaken : Counter

unfoldable pub bump : Counter → GatewayStats → GatewayStats
bump received s = record s { frames_received = s.frames_received + 1 }
bump rejected s = record s { frames_rejected = s.frames_rejected + 1 }
bump forwarded s = record s { forwarded_ok = s.forwarded_ok + 1 }
bump failed s = record s { forward_failed = s.forward_failed + 1 }
bump replayed s = record s { replays_dropped = s.replays_dropped + 1 }
bump shaken s = record s { handshakes_ok = s.handshakes_ok + 1 }
bump unshaken s = record s { handshakes_failed = s.handshakes_failed + 1 }

abbrev pub no_stats : GatewayStats
no_stats = record {
  frames_received = 0;
  frames_rejected = 0;
  forwarded_ok = 0;
  forward_failed = 0;
  replays_dropped = 0;
  handshakes_ok = 0;
  handshakes_failed = 0;
}

-- `snapshot`: the dict of all counters.
unfoldable pub snapshot : GatewayStats → Dict ℕ
snapshot s =
    (codes "frames_received", s.frames_received)
    ∷ (codes "frames_rejected", s.frames_rejected)
    ∷ (codes "forwarded_ok", s.forwarded_ok)
    ∷ (codes "forward_failed", s.forward_failed)
    ∷ (codes "replays_dropped", s.replays_dropped)
    ∷ (codes "handshakes_ok", s.handshakes_ok)
    ∷ (codes "handshakes_failed", s.handshakes_failed)
    ∷ []
