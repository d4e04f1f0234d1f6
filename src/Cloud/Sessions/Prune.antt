-- ===== src/Cloud/Sessions/Prune.antt =====
-- What pruning keeps, and the bound on the number of sessions.
use sodtware_dev_ops_gp_proj.Base.{
  ℕ, zero, suc, ◌+◌, ◌-◌, ◌≤◌, ◌<◌, ◌≡◌, refl, false, List, [], ◌∷◌, arith, Bytes, Text, length,
  drop, All, leb, Bool-cases, inl, inr, length-drop,
}
use sodtware_dev_ops_gp_proj.Base.Dict.{Dict, length-put}
use sodtware_dev_ops_gp_proj.Cloud.State.{Cloud, Session, max_sessions}
use sodtware_dev_ops_gp_proj.Cloud.Sessions.{is_expired, live, evict, prune_sessions, open_session}

-- Eviction drops just enough of the oldest entries.
evict-drop : (d : Dict ℕ) → evict d ≡ drop (length d + 1 - max_sessions) d
unfolding evict
evict-drop [] = refl
evict-drop (entry ∷ d) = elim (Bool-cases (leb max_sessions (length (entry ∷ d)))) [
  | inl t ↦
      let e : suc (length d) + 1 - max_sessions ≡ suc (length d + 1 - max_sessions) =
        ground arith in
      rw (t, e) (evict-drop d)
  | inr t ↦ let e : suc (length d) + 1 - max_sessions ≡ 0 = ground arith in rw (t, e)
]

All-drop {ℓ κ} : {A : Type ℓ} (P : A → Type κ) (k : ℕ) (xs : List A) → All P xs → All P (drop k xs)
All-drop P zero xs h = h
All-drop P (suc k) [] h = tt
All-drop P (suc k) (x ∷ xs) h = All-drop P k xs h.1

abbrev pub IsLive : List Session → ℕ → Text × ℕ → Type 0
IsLive heap now entry = is_expired heap now entry.1 ≡ false

live-IsLive : (heap : List Session) (now : ℕ) (d : Dict ℕ) → All (IsLive heap now) (live heap now d)
unfolding live
live-IsLive heap now [] = tt
live-IsLive heap now ((sid, ref) ∷ d) = elim (Bool-cases (is_expired heap now ref)) [
  | inl t ↦ rw t (live-IsLive heap now d)
  | inr t ↦ rw t (t, live-IsLive heap now d)
]

live-All {κ} :
    (P : Text × ℕ → Type κ) (heap : List Session) (now : ℕ) (d : Dict ℕ)
    → All P d
    → All P (live heap now d)
unfolding live
live-All P heap now [] a = tt
live-All P heap now ((sid, ref) ∷ d) a = elim (Bool-cases (is_expired heap now ref)) [
  | inl t ↦ rw t (live-All P heap now d a.1)
  | inr t ↦ rw t (a.0, live-All P heap now d a.1)
]

module _ {F : Type 0} where
  pub prune_sessions_lem :
      (now : ℕ) (cloud : Cloud F)
      → let kept = live cloud.heap now cloud.sessions in
        let pruned = prune_sessions now cloud in
        (pruned.sessions ≡ drop (length kept + 1 - max_sessions) kept)
        × (length pruned.sessions < max_sessions)
        × All (IsLive cloud.heap now) pruned.sessions
        × (pruned.heap ≡ cloud.heap)
        × (pruned.readings ≡ cloud.readings)
  unfolding prune_sessions
  prune_sessions_lem now cloud =
      let kept = live cloud.heap now cloud.sessions in
      let e = evict-drop kept in
      (
        e,
        (rw e (omega (arith, length-drop (length kept + 1 - max_sessions) kept))),
        (rw e (
            All-drop (IsLive cloud.heap now) (length kept + 1 - max_sessions) kept
              (live-IsLive cloud.heap now cloud.sessions))),
        refl,
        refl,
      )

  -- However many sessions there were, opening one leaves at most a thousand.
  pub length-open_session :
      (sid : Text) (key : Bytes) (now : ℕ) (cloud : Cloud F)
      → length (open_session sid key now cloud).sessions ≤ max_sessions
  unfolding open_session
  length-open_session sid key now cloud = omega (
    arith,
    (prune_sessions_lem now cloud).1,
    length-put sid (length (prune_sessions now cloud).heap) (prune_sessions now cloud).sessions,
  )

  -- What holds of every entry still does after pruning.
  pub prune_sessions-All {κ} :
      (P : Text × ℕ → Type κ) (now : ℕ) (cloud : Cloud F)
      → All P cloud.sessions
      → All P (prune_sessions now cloud).sessions
  prune_sessions-All P now cloud h = rw (prune_sessions_lem now cloud).0 (
      All-drop P _ (live cloud.heap now cloud.sessions)
        (live-All P cloud.heap now cloud.sessions h))
