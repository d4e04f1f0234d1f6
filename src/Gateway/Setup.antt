-- ===== src/Gateway/Setup.antt =====
-- `PqcUplink.__init__` and `GatewayServer.__init__` of edge_gateway/gateway.py, as `main` calls them.
use sodtware_dev_ops_gp_proj.Base.{
  List, Bytes, ℕ, ◌+◌, Option, none, some, [], ◌∷◌, Text, leb, ◌&&◌, if◌then◌else◌, map,
}
use sodtware_dev_ops_gp_proj.Base.Exec.{Exec}
use sodtware_dev_ops_gp_proj.Gateway.Stats.{no_stats}
use sodtware_dev_ops_gp_proj.Gateway.State.{PqcUplink, Gateway}

-- `str.lower()` of a character of an ASCII text
abbrev pub lower_char : ℕ → ℕ
lower_char c = if leb b'A' c && leb c b'Z' then c + 32 else c

-- `pinned_fingerprint.lower() if pinned_fingerprint else None`: an empty pin is none.
unfoldable pub lowered : Option Text → Option Text
lowered none = none
lowered (some []) = none
lowered (some (c ∷ t)) = some (map lower_char (c ∷ t))

-- `PqcUplink(...)`, for the pin from the command line or the environment.
abbrev pub new_uplink : Option Text → PqcUplink
new_uplink pin = record { pinned = lowered pin; session = none; made = 0 }

-- `GatewayServer(...)` over it, with fresh counters.
abbrev pub new_gateway : {W : Type 0} → Option Text → W → Gateway W
new_gateway pin world = record {
  stats = no_stats;
  seen = [];
  uplink = new_uplink pin;
  world = world;
}

-- The server of `main` over connections that come one after the other: an exception ends its own
-- connection only.
unfoldable pub serve_all :
    {W : Type 0}
    → (List Bytes → Exec (Gateway W) (Unit {0}))
    → List (List Bytes)
    → Gateway W
    → Gateway W
serve_all handler [] g = g
serve_all handler (lines ∷ rest) g = serve_all handler rest (handler lines g).1
