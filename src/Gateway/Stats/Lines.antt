-- ===== src/Gateway/Stats/Lines.antt =====
-- The counters that say what became of the lines of a device.
use sodtware_dev_ops_gp_proj.Base.{ℕ, ◌+◌, ◌≡◌, refl, ◌∙◌}
use sodtware_dev_ops_gp_proj.Gateway.Stats.{GatewayStats, bump, shaken, unshaken}

-- The lines whose fate is counted.
abbrev pub settled : GatewayStats → ℕ
settled s = s.frames_rejected + s.replays_dropped + s.forwarded_ok + s.forward_failed

-- None of these counters has changed, nor the number of frames.
pub record IsQuiet (s t : GatewayStats) : Type 0 where
  pub same_rejected : t.frames_rejected ≡ s.frames_rejected
  pub same_replayed : t.replays_dropped ≡ s.replays_dropped
  pub same_settled : settled t ≡ settled s
  pub same_received : t.frames_received ≡ s.frames_received

pub IsQuiet-refl : (s : GatewayStats) → IsQuiet s s
IsQuiet-refl s = record {
  same_rejected = refl;
  same_replayed = refl;
  same_settled = refl;
  same_received = refl;
}

pub IsQuiet-trans : {s t u : GatewayStats} → IsQuiet s t → IsQuiet t u → IsQuiet s u
IsQuiet-trans p q = record {
  same_rejected = q.same_rejected ∙ p.same_rejected;
  same_replayed = q.same_replayed ∙ p.same_replayed;
  same_settled = q.same_settled ∙ p.same_settled;
  same_received = q.same_received ∙ p.same_received;
}

-- The handshake counters are none of them.
pub shaken-IsQuiet : (s : GatewayStats) → IsQuiet s (bump shaken s)
unfolding bump
shaken-IsQuiet s = record {
  same_rejected = refl;
  same_replayed = refl;
  same_settled = refl;
  same_received = refl;
}

pub unshaken-IsQuiet : (s : GatewayStats) → IsQuiet s (bump unshaken s)
unfolding bump
unshaken-IsQuiet s = record {
  same_rejected = refl;
  same_replayed = refl;
  same_settled = refl;
  same_received = refl;
}
