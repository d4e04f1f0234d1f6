-- ===== src/Cloud/Steps/Invariant.antt =====
-- The state of cloud_service/app.py under any interleaving of requests.
use sodtware_dev_ops_gp_proj.Base.{
  ℕ, zero, suc, ◌+◌, ◌≤◌, ◌<◌, ◌≡◌, false, some, List, [], ◌∷◌, ◌++◌, arith, Text, Bytes, length,
  length-append, length-set, get_elem?, set, All, All-append, inl, inr,
}
use sodtware_dev_ops_gp_proj.Base.Result.{ok}
use sodtware_dev_ops_gp_proj.Base.Dict.{Dict, All-put}
use sodtware_dev_ops_gp_proj.Cloud.State.{
  Cloud, Session, Stored, max_sessions, max_stored_readings, session_max_messages,
}
use sodtware_dev_ops_gp_proj.Cloud.Readings.{store}
use sodtware_dev_ops_gp_proj.Cloud.Readings.Ring.{readings-store, length-last_items}
use sodtware_dev_ops_gp_proj.Cloud.Sessions.{
  open_session, prune_sessions, claim_counter, admit, contains,
}
use sodtware_dev_ops_gp_proj.Cloud.Sessions.Prune.{
  prune_sessions_lem, prune_sessions-All, length-open_session,
}
use sodtware_dev_ops_gp_proj.Cloud.Sessions.Claim.{claim_cases}
use sodtware_dev_ops_gp_proj.Cloud.Steps.{Step, opens, claims, stores, Reach, here, next}

-- No counter stands twice.
abbrev pub Distinct : List ℕ → Type 0
Distinct [] = Unit
Distinct (x ∷ xs) = (contains x xs ≡ false) × Distinct xs

-- A session object's replay set: no repetition, at most ten thousand counters.
pub record IsBounded (s : Session) : Type 0 where
  pub distinct : Distinct s.seen_counters
  pub few : length s.seen_counters ≤ session_max_messages

abbrev pub IsPlaced : ℕ → Text × ℕ → Type 0
IsPlaced size entry = entry.1 < size

pub record IsWell {F : Type 0} (cloud : Cloud F) : Type 0 where
  pub ring : length cloud.readings ≤ max_stored_readings
  pub table : length cloud.sessions ≤ max_sessions
  pub placed : All (IsPlaced (length cloud.heap)) cloud.sessions
  pub bounded : All IsBounded cloud.heap

IsPlaced-mono : (m n : ℕ) (d : Dict ℕ) → m ≤ n → All (IsPlaced m) d → All (IsPlaced n) d
IsPlaced-mono m n [] h a = tt
IsPlaced-mono m n (entry ∷ d) h a = (omega arith, IsPlaced-mono m n d h a.1)

All-set {ℓ κ} :
    {A : Type ℓ} (P : A → Type κ) (xs : List A) (i : ℕ) (v : A)
    → All P xs
    → P v
    → All P (set xs i v)
All-set P [] i v a h = tt
All-set P (x ∷ xs) zero v a h = (h, a.1)
All-set P (x ∷ xs) (suc i) v a h = (a.0, All-set P xs i v a.1 h)

All-get_elem? {ℓ κ} :
    {A : Type ℓ} (P : A → Type κ) (xs : List A) (i : ℕ) (v : A)
    → All P xs
    → get_elem? xs i ≡ some v
    → P v
All-get_elem? P [] i v a h = cc
All-get_elem? P (x ∷ xs) zero v a h = let e : x ≡ v = cc in rw e at a.0
All-get_elem? P (x ∷ xs) (suc i) v a h = All-get_elem? P xs i v a.1 h

admit-IsBounded :
    (counter : ℕ) (s t : Session) → admit counter (some s) ≡ ok t → IsBounded s → IsBounded t
unfolding admit
admit-IsBounded counter s t h b = ground arith

module _ {F : Type 0} where
  opens-IsWell :
      (sid : Text) (key : Bytes) (now : ℕ) (cloud : Cloud F)
      → IsWell cloud
      → IsWell (open_session sid key now cloud)
  unfolding open_session
  opens-IsWell sid key now cloud w =
      let (kept, few, fresh, same_heap, same_readings) = prune_sessions_lem now cloud in
      let size = length cloud.heap in
      record {
        ring = rw same_readings w.ring;
        table = unfold open_session in length-open_session sid key now cloud;
        placed =
            rw (same_heap, length-append cloud.heap _)
              (All-put (IsPlaced (size + 1)) sid size (prune_sessions now cloud).sessions
                (λ j. omega arith)
                (prune_sessions-All (IsPlaced (size + 1)) now cloud
                  (IsPlaced-mono size (size + 1) cloud.sessions (omega arith) w.placed)));
        bounded = rw same_heap (
            All-append IsBounded cloud.heap _ w.bounded
              (record { distinct = tt; few = omega arith }, tt));
      }

  claims-IsWell :
      (ref counter : ℕ) (cloud : Cloud F)
      → IsWell cloud
      → IsWell (claim_counter ref counter cloud).1
  claims-IsWell ref counter cloud w = elim (claim_cases ref counter cloud) [
    | inl (e, q) ↦ rw q w
    | inr (s, t, at, a, q) ↦ rw q (record {
      ring = w.ring;
      table = w.table;
      placed = rw (length-set cloud.heap ref t) w.placed;
      bounded =
          All-set IsBounded cloud.heap ref t w.bounded
            (admit-IsBounded counter s t a (All-get_elem? IsBounded cloud.heap ref s w.bounded at));
    })
  ]

  stores-IsWell :
      (a : Stored F) (cloud : Cloud F)
      → IsWell cloud
      → IsWell (store a.reading a.channel a.received_at cloud)
  stores-IsWell a cloud w = record {
    ring =
        rw (readings-store a cloud w.ring)
          (length-last_items max_stored_readings (cloud.readings ++ a ∷ []));
    table = unfold store in w.table;
    placed = unfold store in w.placed;
    bounded = unfold store in w.bounded;
  }

  Step-IsWell : {s t : Cloud F} → Step s t → IsWell s → IsWell t
  Step-IsWell (opens sid key now cloud) w = opens-IsWell sid key now cloud w
  Step-IsWell (claims ref counter cloud) w = claims-IsWell ref counter cloud w
  Step-IsWell (stores r channel wall cloud) w =
      stores-IsWell (record { reading = r; received_at = wall; channel = channel }) cloud w

  -- From a well-formed state every interleaving of locked steps keeps at most a thousand readings
  -- and a thousand sessions, session ids that name objects, and in every session object ever made
  -- a replay set of at most ten thousand different counters.
  pub Reach-IsWell : {s t : Cloud F} → IsWell s → Reach s t → IsWell t
  Reach-IsWell w here = w
  Reach-IsWell w (next r st) = Step-IsWell st (Reach-IsWell w r)
