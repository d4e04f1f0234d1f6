-- ===== src/Base/Dict.antt =====
-- A Python dict with text keys: an association list in insertion order.
use sodtware_dev_ops_gp_proj.Base.Tests.{if◌then◌else◌, Bool-cases}
use sodtware_dev_ops_gp_proj.Base.Codes.{Text, same, same_iff}
use sodtware_dev_ops_gp_proj.Base.Lists.{length, All}
use Prim.Native.Nat.{◌+◌, ◌≤◌}
use mathlib.Core.Path.{◌≡◌, refl}
use mathlib.Core.Logic.{◌≢◌, inl, inr}
use mathlib.Core.Option.{Option, none, some}
use mathlib.Core.List.{List, [], ◌∷◌}
use native.Mathlib.Omega.{arith}

abbrev pub Dict {ℓ} : Type ℓ → Type ℓ
Dict V = List (Text × V)

module _ {ℓ} {V : Type ℓ} where
  -- `d.get(key)`
  unfoldable pub get : Text → Dict V → Option V
  get k [] = none
  get k ((j, v) ∷ d) = if same j k then some v else get k d

  -- `d[key] = value`: a present key keeps its place, a new one goes to the end.
  unfoldable pub put : Text → V → Dict V → Dict V
  put k v [] = (k, v) ∷ []
  put k v ((j, w) ∷ d) = if same j k then (j, v) ∷ d else (j, w) ∷ put k v d

  pub get-put :
      (k j : Text) (v : V) (d : Dict V) → get j (put k v d) ≡ (if same k j then some v else get j d)
  unfolding get put
  get-put k j v [] = refl
  get-put k j v ((i, w) ∷ d) =
      ground (arith, same_iff k j, same_iff i k, same_iff i j, get-put k j v d)

  pub length-put : (k : Text) (v : V) (d : Dict V) → length (put k v d) ≤ length d + 1
  unfolding put
  length-put k v [] = omega arith
  length-put k v ((j, w) ∷ d) = ground (arith, length-put k v d)

  pub put-ne-nil : (k : Text) (v : V) (d : Dict V) → put k v d ≢ []
  unfolding put
  put-ne-nil k v [] e = cc
  put-ne-nil k v ((j, w) ∷ d) e = elim (Bool-cases (same j k)) [
    | inl t ↦ ground arith
    | inr t ↦ ground arith
  ]

  -- What every binding satisfies still does after a write that satisfies it.
  pub All-put {κ} :
      (P : Text × V → Type κ) (k : Text) (v : V) (d : Dict V)
      → ((j : Text) → P (j, v))
      → All P d
      → All P (put k v d)
  unfolding put
  All-put P k v [] new old = (new k, tt)
  All-put P k v ((j, w) ∷ d) new old = elim (Bool-cases (same j k)) [
    | inl e ↦ rw e (new j, old.1)
    | inr e ↦ rw e (old.0, All-put P k v d new old.1)
  ]

  pub All-get {κ} :
      (P : Text × V → Type κ) (k : Text) (v : V) (d : Dict V)
      → All P d
      → get k d ≡ some v
      → (j : Text) × P (j, v)
  unfolding get
  All-get P k v [] h e = cc
  All-get P k v ((j, w) ∷ d) h e = elim (Bool-cases (same j k)) [
    | inl t ↦ (j, let q : w ≡ v = ground arith in rw q at h.0)
    | inr t ↦ All-get P k v d h.1 (ground arith)
  ]
