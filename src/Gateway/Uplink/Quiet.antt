-- ===== src/Gateway/Uplink/Quiet.antt =====
-- What sending over the ML-KEM uplink of edge_gateway/gateway.py counts.
use sodtware_dev_ops_gp_proj.Base.{
  ℕ, ◌≡◌, refl, ◌∙◌, Bool, true, false, Option, none, some, Bytes, Text, inl, inr, Bool-cases,
  Option-cases, if◌then◌else◌, ◌==◌,
}
use sodtware_dev_ops_gp_proj.Base.Result.{Exception, Result, ok, err}
use sodtware_dev_ops_gp_proj.Base.Exec.{Exec, pure, lift, unless, continue, ◌>>=◌}
use sodtware_dev_ops_gp_proj.Channel.Crypto.{Crypto}
use sodtware_dev_ops_gp_proj.Gateway.Stats.Lines.{
  IsQuiet, IsQuiet-refl, IsQuiet-trans, shaken-IsQuiet, unshaken-IsQuiet,
}
use sodtware_dev_ops_gp_proj.Gateway.State.{PqcSession, Gateway, Net}
use sodtware_dev_ops_gp_proj.Gateway.Answers.{is_caught}
use sodtware_dev_ops_gp_proj.Gateway.Handshake.{asks, handshake, construct}
use sodtware_dev_ops_gp_proj.Gateway.Handshake.Frame.{handshake-Shaken}
use sodtware_dev_ops_gp_proj.Gateway.Uplink.{
  is_spent, usable, issue, next_message, invalidate, post_once, check_status, send,
}

-- Neither those counters nor the replay table has changed.
pub record Untouched {W : Type 0} (g h : Gateway W) : Type 0 where
  pub quiet : IsQuiet g.stats h.stats
  pub same_seen : h.seen ≡ g.seen

module _ {W : Type 0} where
  pub Untouched-refl : (g : Gateway W) → Untouched g g
  Untouched-refl g = record { quiet = IsQuiet-refl g.stats; same_seen = refl }

  pub Untouched-same : (g h : Gateway W) → h.stats ≡ g.stats → h.seen ≡ g.seen → Untouched g h
  Untouched-same g h e k = record { quiet = rw e (IsQuiet-refl g.stats); same_seen = k }

  Untouched-trans : {g h k : Gateway W} → Untouched g h → Untouched h k → Untouched g k
  Untouched-trans p q = record {
    quiet = IsQuiet-trans p.quiet q.quiet;
    same_seen = q.same_seen ∙ p.same_seen;
  }

-- An action that leaves those counters alone, whether it returns or raises.
record Calm {W A : Type 0} (m : Exec (Gateway W) A) : Type 0 where
  at : (g : Gateway W) → Untouched g (m g).1

module _ {W : Type 0} where
  Calm-lift : {A : Type 0} (r : Result A) → Calm {W = W} (lift r)
  Calm-lift r = record { at = Untouched-refl }

  Calm-pure : {A : Type 0} (a : A) → Calm {W = W} (pure a)
  Calm-pure a = record { at = Untouched-refl }

  Calm-unless : (b : Bool) (e : Exception) → Calm {W = W} (unless b e)
  Calm-unless true e = record { at = Untouched-refl }
  Calm-unless false e = record { at = Untouched-refl }

  Calm-asks : {A : Type 0} (f : W → A × W) → Calm (asks f)
  unfolding asks
  Calm-asks f = record { at = λ g. Untouched-same g _ refl refl }

  Calm-issue : (s : PqcSession) → Calm {W = W} (issue s)
  unfolding issue
  Calm-issue s = record { at = λ g. Untouched-same g _ refl refl }

  Calm-if :
      {A : Type 0} (b : Bool) (m n : Exec (Gateway W) A)
      → Calm m
      → Calm n
      → Calm (if b then m else n)
  Calm-if true m n p q = p
  Calm-if false m n p q = q

  invalidate-parts :
      (s : PqcSession) (g : Gateway W)
      → ((invalidate s g).1.stats ≡ g.stats) × ((invalidate s g).1.seen ≡ g.seen)
  unfolding invalidate
  invalidate-parts s g = elim (Option-cases g.session) [
    | inl e ↦ rw (e, invalidate) (refl, refl)
    | inr (current, e) ↦ elim (Bool-cases (current.serial == s.serial)) [
      | inl t ↦ rw (e, invalidate) (rw t (refl, refl))
      | inr t ↦ rw (e, invalidate) (rw t (refl, refl))
    ]
  ]

  Calm-invalidate : (s : PqcSession) → Calm {W = W} (invalidate s)
  Calm-invalidate s = record {
    at = λ g. let (stats, seen) = invalidate-parts s g in Untouched-same g _ stats seen;
  }

  continue-Untouched :
      {A B : Type 0} (g : Gateway W) (r : Result A) (h : Gateway W) (f : A → Exec (Gateway W) B)
      → Untouched g h
      → ((a : A) → Calm (f a))
      → Untouched g (continue (r, h) f).1
  continue-Untouched g (ok a) h f p k = Untouched-trans p ((k a).at h)
  continue-Untouched g (err e) h f p k = p

  Calm-bind :
      {A B : Type 0} (m : Exec (Gateway W) A) (f : A → Exec (Gateway W) B)
      → Calm m
      → ((a : A) → Calm (f a))
      → Calm (m >>= f)
  Calm-bind m f p q = record { at = λ g. let (r, h) = m g in continue-Untouched g r h f (p.at g) q }

ruleset calm_rules =
    (Calm-lift, Calm-pure, Calm-unless, Calm-asks, Calm-bind, Calm-if, Calm-invalidate)

module _ {W : Type 0} (c : Crypto) (net : Net W) (token : Text) where
  handshake-Untouched : (g : Gateway W) → Untouched g (handshake c net token g).1
  unfolding construct
  handshake-Untouched g = elim (handshake-Shaken c net token g) [
    | inl (a, h, f, e, p) ↦
        rw (p, f.stats, f.seen) (record { quiet = shaken-IsQuiet g.stats; same_seen = refl })
    | inr (e, h, f, q, p) ↦ elim (Bool-cases (is_caught e)) [
      | inl t ↦
          rw p (
            rw (t, f.stats, f.seen) (record { quiet = unshaken-IsQuiet g.stats; same_seen = refl }))
      | inr t ↦
          rw p (rw t (record { quiet = rw f.stats (IsQuiet-refl g.stats); same_seen = f.seen }))
    ]
  ]

  usable-Calm : (o : Option PqcSession) (now : ℕ) → Calm (usable c net token o now)
  unfolding usable
  usable-Calm none now = record { at = handshake-Untouched }
  usable-Calm (some s) now =
      Calm-if (is_spent now (some s)) (handshake c net token) (pure s)
        (record { at = handshake-Untouched }) (Calm-pure s)

  next_message-Calm : Calm (next_message c net token)
  unfolding next_message
  next_message-Calm = record {
    at = λ g.
        (Calm-bind (usable c net token g.session (net.monotonic g.world)) issue
            (usable-Calm g.session (net.monotonic g.world)) Calm-issue).at
          g;
  }

  post_once-Calm : (plaintext : Bytes) → Calm (post_once c net token plaintext)
  unfolding post_once
  post_once-Calm plaintext = search (calm_rules, next_message-Calm) depth 20

  send-Calm : (plaintext : Bytes) → Calm (send c net token plaintext)
  unfolding send check_status
  send-Calm plaintext = search (calm_rules, post_once-Calm) depth 20

  pub send-Untouched :
      (plaintext : Bytes) (g : Gateway W) → Untouched g (send c net token plaintext g).1
  send-Untouched plaintext g = (send-Calm plaintext).at g
