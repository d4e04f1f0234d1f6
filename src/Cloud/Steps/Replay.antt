-- ===== src/Cloud/Steps/Replay.antt =====
-- A counter of cloud_service/app.py that comes a second time.
use sodtware_dev_ops_gp_proj.Base.{
  ℕ, ◌≡◌, ap, ◌∙◌, true, some, arith, Bytes, get_elem?, get_elem?-set_self, get_elem?-set_ne,
  get_elem?-append_lt, lt_of_get_elem?, Bool-cases, inl, inr, ◌==◌, ==_iff, ◌||◌,
}
use sodtware_dev_ops_gp_proj.Base.Result.{Result, ok, err, http_error}
use sodtware_dev_ops_gp_proj.Cloud.State.{Cloud, Session}
use sodtware_dev_ops_gp_proj.Cloud.Readings.{store}
use sodtware_dev_ops_gp_proj.Cloud.Sessions.{
  open_session, prune_sessions, claim_counter, admit, contains,
}
use sodtware_dev_ops_gp_proj.Cloud.Sessions.Claim.{claim_cases}
use sodtware_dev_ops_gp_proj.Cloud.Steps.{Step, opens, claims, stores, Reach, here, next}

-- The object at `ref` has the property.
pub record Holds {F : Type 0} (P : Session → Type 0) (ref : ℕ) (cloud : Cloud F) : Type 0 where
  pub object : Session
  pub placed : get_elem? cloud.heap ref ≡ some object
  pub has : P object

-- A recorded counter does not destroy it.
abbrev pub IsStable : (Session → Type 0) → Type 0
IsStable P = (counter : ℕ) (s t : Session) → admit counter (some s) ≡ ok t → P s → P t

abbrev pub Seen : ℕ → Session → Type 0
Seen counter s = contains counter s.seen_counters ≡ true

abbrev pub Keyed : Bytes → ℕ → Session → Type 0
Keyed key deadline s = (s.aead_key ≡ key) × (s.expires_at ≡ deadline)

admit-contains :
    (counter k : ℕ) (s t : Session)
    → admit counter (some s) ≡ ok t
    → contains k t.seen_counters ≡ (counter == k || contains k s.seen_counters)
unfolding admit contains
admit-contains counter k s t h = ground arith

admit-new :
    (counter : ℕ) (s t : Session)
    → admit counter (some s) ≡ ok t
    → contains counter t.seen_counters ≡ true
admit-new counter s t h = ground (arith, admit-contains counter counter s t h)

Seen-IsStable : (k : ℕ) → IsStable (Seen k)
Seen-IsStable k counter s t h e = ground (arith, admit-contains counter k s t h)

pub Keyed-IsStable : (key : Bytes) (deadline : ℕ) → IsStable (Keyed key deadline)
unfolding admit
Keyed-IsStable key deadline counter s t h e = ground arith

admit_seen :
    (counter : ℕ) (s : Session)
    → contains counter s.seen_counters ≡ true
    → admit counter (some s) ≡ err (http_error 409)
unfolding admit
admit_seen counter s h = rw h

module _ {F : Type 0} (P : Session → Type 0) (stable : IsStable P) (ref : ℕ) where
  claim-Holds :
      (j k : ℕ) (cloud : Cloud F) → Holds P ref cloud → Holds P ref (claim_counter j k cloud).1
  claim-Holds j k cloud h = elim (claim_cases j k cloud) [
    | inl (e, q) ↦ rw q h
    | inr (s, t, at, a, q) ↦ rw q (elim (Bool-cases (j == ref)) [
      | inl same_ref ↦
          let eq : j ≡ ref = (==_iff j ref).0 same_ref in
          let is_s : s ≡ h.object = cc (at, eq, h.placed) in
          record {
            object = t;
            placed = rw (← eq) (get_elem?-set_self cloud.heap j t s at);
            has = stable k s t a (rw is_s h.has);
          }
      | inr other ↦ record {
        object = h.object;
        placed = get_elem?-set_ne cloud.heap j ref t (ground arith) ∙ h.placed;
        has = h.has;
      }
    ])
  ]

  Step-Holds : {s t : Cloud F} → Step s t → Holds P ref s → Holds P ref t
  Step-Holds (opens sid key now cloud) h = record {
    object = h.object;
    placed =
        unfold open_session prune_sessions in
        get_elem?-append_lt cloud.heap _ _ (lt_of_get_elem? cloud.heap _ h.placed) ∙ h.placed;
    has = h.has;
  }
  Step-Holds (claims j k cloud) h = claim-Holds j k cloud h
  Step-Holds (stores r channel wall cloud) h = record {
    object = h.object;
    placed = unfold store in h.placed;
    has = h.has;
  }

  -- A stable property of a session object outlives every step.
  pub Reach-Holds : {s t : Cloud F} → Holds P ref s → Reach s t → Holds P ref t
  Reach-Holds h here = h
  Reach-Holds h (next r st) = Step-Holds st (Reach-Holds h r)

module _ {F : Type 0} where
  claim_ok-Seen :
      (ref counter : ℕ) (cloud : Cloud F)
      → (claim_counter ref counter cloud).0 ≡ ok tt
      → Holds (Seen counter) ref (claim_counter ref counter cloud).1
  claim_ok-Seen ref counter cloud h = elim (claim_cases ref counter cloud) [
    | inl (e, q) ↦ absurd (cc (ap (λ (p : Result (Unit {0}) × Cloud F). p.0) q))
    | inr (s, t, at, a, q) ↦ rw q (record {
      object = t;
      placed = get_elem?-set_self cloud.heap ref t s at;
      has = admit-new counter s t a;
    })
  ]

  -- Once a counter has been accepted for a session object, every later attempt to record it there
  -- is answered 409 and changes nothing, whatever locked steps of whatever requests came in
  -- between, also if the session was pruned meanwhile.
  pub claim_counter_once :
      (ref counter : ℕ) (cloud later : Cloud F)
      → (claim_counter ref counter cloud).0 ≡ ok tt
      → Reach (claim_counter ref counter cloud).1 later
      → claim_counter ref counter later ≡ (err (http_error 409), later)
  claim_counter_once ref counter cloud later h r =
      let seen =
        Reach-Holds (Seen counter) (Seen-IsStable counter) ref (claim_ok-Seen ref counter cloud h)
          r in
      unfold claim_counter in rw (seen.placed, admit_seen counter seen.object seen.has)
