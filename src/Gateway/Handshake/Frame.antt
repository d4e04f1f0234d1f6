-- ===== src/Gateway/Handshake/Frame.antt =====
-- What a handshake leaves alone, and what it counts.
use sodtware_dev_ops_gp_proj.Base.{
  ◌≡◌, refl, ◌∙◌, ◌⊎◌, inl, inr, Bool, true, false, Option, none, some, Text,
}
use sodtware_dev_ops_gp_proj.Base.Result.{Exception, Result, ok, err}
use sodtware_dev_ops_gp_proj.Base.Exec.{Exec, lift, unless, continue, Exec-cases, ◌>>=◌}
use sodtware_dev_ops_gp_proj.Channel.Crypto.{Crypto}
use sodtware_dev_ops_gp_proj.Gateway.State.{PqcSession, Gateway, Net}
use sodtware_dev_ops_gp_proj.Gateway.Answers.{Agreed}
use sodtware_dev_ops_gp_proj.Gateway.Handshake.{
  asks, check_pin, pin_to, construct, fetch_key, prepare, do_handshake, handshake, outcome,
}

-- Nothing but the world has changed, and the pin if there was none.
pub record Frame {W : Type 0} (g g' : Gateway W) : Type 0 where
  pub stats : g'.stats ≡ g.stats
  pub seen : g'.seen ≡ g.seen
  pub session : g'.session ≡ g.session
  pub made : g'.made ≡ g.made
  pub pin : (p : Text) → g.pinned ≡ some p → g'.pinned ≡ some p

module _ {W : Type 0} where
  pub Frame-refl : (g : Gateway W) → Frame g g
  Frame-refl g = record { stats = refl; seen = refl; session = refl; made = refl; pin = λ p e. e }

  pub Frame-trans : {g h k : Gateway W} → Frame g h → Frame h k → Frame g k
  Frame-trans a b = record {
    stats = b.stats ∙ a.stats;
    seen = b.seen ∙ a.seen;
    session = b.session ∙ a.session;
    made = b.made ∙ a.made;
    pin = λ p e. b.pin p (a.pin p e);
  }

-- An action that leaves the rest alone, whether it returns or raises.
pub record Keeps {W A : Type 0} (m : Exec (Gateway W) A) : Type 0 where
  pub at : (g : Gateway W) → Frame g (m g).1

module _ {W : Type 0} where
  pub Keeps-lift : {A : Type 0} (r : Result A) → Keeps {W = W} (lift r)
  Keeps-lift r = record { at = Frame-refl }

  pub Keeps-unless : (b : Bool) (e : Exception) → Keeps {W = W} (unless b e)
  Keeps-unless true e = record { at = Frame-refl }
  Keeps-unless false e = record { at = Frame-refl }

  pub Keeps-asks : {A : Type 0} (f : W → A × W) → Keeps (asks f)
  unfolding asks
  Keeps-asks f = record {
    at = λ g. record { stats = refl; seen = refl; session = refl; made = refl; pin = λ p e. e };
  }

  continue-Frame :
      {A B : Type 0} (g : Gateway W) (r : Result A) (h : Gateway W) (f : A → Exec (Gateway W) B)
      → Frame g h
      → ((a : A) → Keeps (f a))
      → Frame g (continue (r, h) f).1
  continue-Frame g (ok a) h f p k = Frame-trans p ((k a).at h)
  continue-Frame g (err e) h f p k = p

  pub Keeps-bind :
      {A B : Type 0} (m : Exec (Gateway W) A) (f : A → Exec (Gateway W) B)
      → Keeps m
      → ((a : A) → Keeps (f a))
      → Keeps (m >>= f)
  Keeps-bind m f km kf = record {
    at = λ g. let (r, h) = m g in continue-Frame g r h f (km.at g) kf;
  }

  pin_to-Frame :
      (actual : Text) (o : Option Text) (g : Gateway W)
      → g.pinned ≡ o
      → Frame g (pin_to actual o g).1
  unfolding pin_to
  pin_to-Frame actual none g e = record {
    stats = refl;
    seen = refl;
    session = refl;
    made = refl;
    pin = λ p q. cc (e, q);
  }
  pin_to-Frame actual (some p) g e = Frame-refl g

  check_pin-Keeps : (actual : Text) → Keeps {W = W} (check_pin actual)
  unfolding check_pin
  check_pin-Keeps actual = record { at = λ g. pin_to-Frame actual g.pinned g refl }

ruleset keeps_rules = (Keeps-lift, Keeps-unless, Keeps-asks, Keeps-bind, check_pin-Keeps)

module _ {W : Type 0} (c : Crypto) (net : Net W) (token : Text) where
  fetch_key-Keeps : Keeps (fetch_key c net token)
  unfolding fetch_key
  fetch_key-Keeps = search keeps_rules depth 20

  pub prepare-Keeps : Keeps (prepare c net token)
  unfolding prepare
  prepare-Keeps = search (keeps_rules, fetch_key-Keeps) depth 20

  -- The two courses of a handshake.
  abbrev pub Shaken : Gateway W → Result PqcSession × Gateway W → Type 0
  Shaken g p =
      ((a : Agreed) × (h : Gateway W) × Frame g h
        × (prepare c net token g ≡ (ok a, h))
        × (p ≡ outcome (construct net a h)))
      ⊎ ((e : Exception) × (h : Gateway W) × Frame g h
          × (prepare c net token g ≡ (err e, h))
          × (p ≡ outcome (err e, h)))

  pub handshake-Shaken : (g : Gateway W) → Shaken g (handshake c net token g)
  unfolding handshake do_handshake
  handshake-Shaken g =
      let framed = prepare-Keeps.at g in
      elim (Exec-cases (prepare c net token g)) [
        | inl (a, h, e) ↦ inl (a, h, (rw e at framed), e, (rw e))
        | inr (x, h, e) ↦ inr (x, h, (rw e at framed), e, (rw e))
      ]
