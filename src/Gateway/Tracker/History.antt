-- ===== src/Gateway/Tracker/History.antt =====
-- The tracker against the history of all calls.
use sodtware_dev_ops_gp_proj.Base.{
  ◌≡◌, refl, Bool, true, not, ◌&&◌, ◌||◌, Option, none, some, List, [], ◌∷◌, arith, Text, same,
  same_iff, if◌then◌else◌,
}
use sodtware_dev_ops_gp_proj.Base.Int.{ℤ, leb_ℤ}
use sodtware_dev_ops_gp_proj.Base.Dict.{Dict, get, get-put}
use sodtware_dev_ops_gp_proj.Gateway.Tracker.{accept, is_stale}

-- All calls since the start, the newest first, whatever they answered.
abbrev pub Calls : Type 0
Calls = List (Text × ℤ)

-- The table after the calls, from an empty one.
pub seen_after : Calls → Dict ℤ
seen_after [] = []
seen_after ((device_id, seq) ∷ past) = (accept device_id seq (seen_after past)).1

-- The number is higher than anything that was ever offered for the device.
abbrev pub is_highest : Text → ℤ → Calls → Bool
is_highest d seq [] = true
is_highest d seq ((e, q) ∷ past) = (not (same e d) || not (leb_ℤ seq q)) && is_highest d seq past

higher : ℤ → Option ℤ → Option ℤ
higher q none = some q
higher q (some m) = if leb_ℤ q m then some m else some q

highest : Text → Calls → Option ℤ
unfolding higher
highest d [] = none
highest d ((e, q) ∷ past) = if same e d then higher q (highest d past) else highest d past

get-accept :
    (d e : Text) (q : ℤ) (seen : Dict ℤ)
    → get d (accept e q seen).1 ≡ (if same e d then higher q (get e seen) else get d seen)
unfolding accept higher
get-accept d e q seen = ground (arith, get-put e d q seen, same_iff e d)

get-seen_after : (d : Text) (past : Calls) → get d (seen_after past) ≡ highest d past
unfolding seen_after highest
get-seen_after d [] = unfold get in refl
get-seen_after d ((e, q) ∷ past) = ground (
  arith,
  get-accept d e q (seen_after past),
  get-seen_after e past,
  get-seen_after d past,
  same_iff e d,
)

stale-higher :
    (q seq : ℤ) (m : Option ℤ) → is_stale (higher q m) seq ≡ (leb_ℤ seq q || is_stale m seq)
unfolding higher
stale-higher q seq m = ground arith

is_stale-highest :
    (d : Text) (seq : ℤ) (past : Calls)
    → is_highest d seq past ≡ not (is_stale (highest d past) seq)
unfolding highest
is_stale-highest d seq [] = refl
is_stale-highest d seq ((e, q) ∷ past) =
    ground (arith, is_stale-highest d seq past, stale-higher q seq (highest d past))

-- After any calls, of any devices in any order, the tracker accepts a number exactly if it is
-- higher than every number that was ever offered for that device, accepted or not.
pub accept-is_highest :
    (past : Calls) (device_id : Text) (seq : ℤ)
    → (accept device_id seq (seen_after past)).0 ≡ is_highest device_id seq past
accept-is_highest past d seq =
    unfold accept in ground (arith, is_stale-highest d seq past, get-seen_after d past)
