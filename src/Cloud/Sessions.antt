-- ===== src/Cloud/Sessions.antt =====
-- The sessions of cloud_service/app.py: `_prune_sessions`, and the steps of the v2 handlers that
-- hold `_sessions_lock`.
pub mod Prune
pub mod Claim
pub mod Found
use sodtware_dev_ops_gp_proj.Base.{
  ℕ, ◌+◌, ◌*◌, Bool, true, false, ◌||◌, not, Option, none, some, List, [], ◌∷◌, ◌++◌, Bytes, Text,
  length, get_elem?, set, leb, ltb, ◌==◌, if◌then◌else◌,
}
use sodtware_dev_ops_gp_proj.Base.Result.{Result, ok, err, http_error}
use sodtware_dev_ops_gp_proj.Base.Dict.{Dict, get, put}
use sodtware_dev_ops_gp_proj.Base.Exec.{Exec}
use sodtware_dev_ops_gp_proj.Cloud.State.{
  Cloud, Session, second, session_ttl_s, session_max_messages, max_sessions,
}

-- `sess.expires_at <= now`; no entry of `_sessions` points past the heap.
unfoldable pub is_expired : List Session → ℕ → ℕ → Bool
is_expired heap now ref = elim (get_elem? heap ref) [ none ↦ true | some s ↦ leb s.expires_at now ]

-- The entries that the first loop of `_prune_sessions` leaves.
pub live : List Session → ℕ → Dict ℕ → Dict ℕ
live heap now [] = []
live heap now ((sid, ref) ∷ d) =
    if is_expired heap now ref then live heap now d else (sid, ref) ∷ live heap now d

-- Its second loop: the first keys are the oldest.
pub evict : Dict ℕ → Dict ℕ
evict [] = []
evict (entry ∷ d) =
    let rest = evict d in if leb max_sessions (length (entry ∷ d)) then rest else entry ∷ d

-- `counter in session.seen_counters`
unfoldable pub contains : ℕ → List ℕ → Bool
contains c [] = false
contains c (x ∷ xs) = x == c || contains c xs

-- What the second locked step decides about a session object.
unfoldable pub admit : ℕ → Option Session → Result Session
admit counter none = err (http_error 401)
admit counter (some s) =
    if contains counter s.seen_counters
    then err (http_error 409)
    else if leb session_max_messages (length s.seen_counters)
    then err (http_error 401)
    else ok (record s { seen_counters = counter ∷ s.seen_counters })

-- How many entries have not expired.
unfoldable pub count_live : List Session → ℕ → Dict ℕ → ℕ
count_live heap now [] = 0
count_live heap now ((sid, ref) ∷ d) =
    (if is_expired heap now ref then 0 else 1) + count_live heap now d

module _ {F : Type 0} where
  unfoldable pub prune_sessions : ℕ → Cloud F → Cloud F
  unfolding live evict
  prune_sessions now cloud = record cloud { sessions = evict (live cloud.heap now cloud.sessions) }

  -- The locked step of `pqc_session`: prune, and add a new session object.
  unfoldable pub open_session : Text → Bytes → ℕ → Cloud F → Cloud F
  open_session sid aead_key now cloud =
      let pruned = prune_sessions now cloud in
      record pruned {
        heap =
            pruned.heap
            ++ record {
              aead_key = aead_key;
              expires_at = now + session_ttl_s * second;
              seen_counters = [];
            }
              ∷ [];
        sessions = put sid (length pruned.heap) pruned.sessions;
      }

  -- The first locked step of `ingest_sealed`: the session object and its key, or 401.
  unfoldable pub find_session : Text → ℕ → Cloud F → Result (ℕ × Bytes)
  find_session sid now cloud = elim (get sid cloud.sessions) [
    | none ↦ err (http_error 401)
    | some ref ↦ elim (get_elem? cloud.heap ref) [
      | none ↦ err (http_error 401)
      | some s ↦ if leb s.expires_at now then err (http_error 401) else ok (ref, s.aead_key)
    ]
  ]

  abbrev pub write_back : ℕ → Cloud F → Result Session → Result (Unit {0}) × Cloud F
  write_back ref cloud (ok s) = (ok tt, record cloud { heap = set cloud.heap ref s })
  write_back ref cloud (err e) = (err e, cloud)

  -- The second locked step: the counter is recorded in the object in hand, whether or not
  -- `_sessions` still names it.
  unfoldable pub claim_counter : ℕ → ℕ → Exec (Cloud F) (Unit {0})
  unfolding admit
  claim_counter ref counter cloud = write_back ref cloud (admit counter (get_elem? cloud.heap ref))

  -- `active_sessions` of `health`
  unfoldable pub active_sessions : ℕ → Cloud F → ℕ
  unfolding count_live
  active_sessions now cloud = count_live cloud.heap now cloud.sessions
