-- ===== src/Gateway/Uplink/Issued.antt =====
-- What `_next_message` of edge_gateway/gateway.py comes to.
use sodtware_dev_ops_gp_proj.Base.{
  ℕ, ◌+◌, ◌≡◌, refl, ap, ◌⊎◌, inl, inr, false, Option, none, some, Text, Bool-cases,
}
use sodtware_dev_ops_gp_proj.Base.Result.{Exception, Result, err, uplink_error}
use sodtware_dev_ops_gp_proj.Base.Exec.{◌>>=◌}
use sodtware_dev_ops_gp_proj.Channel.Crypto.{Crypto}
use sodtware_dev_ops_gp_proj.Gateway.Stats.{shaken, unshaken}
use sodtware_dev_ops_gp_proj.Gateway.State.{PqcSession, Gateway, Net, count}
use sodtware_dev_ops_gp_proj.Gateway.Answers.{is_caught}
use sodtware_dev_ops_gp_proj.Gateway.Handshake.{handshake, construct, new_session, one_more}
use sodtware_dev_ops_gp_proj.Gateway.Handshake.Frame.{handshake-Shaken}
use sodtware_dev_ops_gp_proj.Gateway.Uplink.{is_spent, usable, issue, next_message}

module _ {W : Type 0} (c : Crypto) (net : Net W) (token : Text) where
  -- What `_next_message` comes to: the current session's next counter, or counter 0 of a session
  -- object that has just been made, or nothing.
  abbrev pub Issued : Gateway W → Result (PqcSession × ℕ) × Gateway W → Type 0
  Issued g p =
      ((s : PqcSession) × (g.session ≡ some s)
        × (is_spent (net.monotonic g.world) (some s) ≡ false)
        × (p ≡ issue s g))
      ⊎ ((s : PqcSession) × (h : Gateway W) × (s.serial ≡ g.made)
          × (s.next_counter ≡ 0)
          × (h.made ≡ g.made + 1)
          × (p ≡ issue s h))
      ⊎ ((e : Exception) × (h : Gateway W) × (h.session ≡ g.session)
          × (h.made ≡ g.made)
          × (p ≡ (err e, h)))

  handshake-Issued : (g : Gateway W) → Issued g ((handshake c net token >>= issue) g)
  unfolding construct
  handshake-Issued g = elim (handshake-Shaken c net token g) [
    | inl (a, h, f, e, p) ↦ rw p (
        inr (
          inl (
            new_session net a h,
            count shaken (one_more h),
            f.made,
            refl,
            ap (λ (n : ℕ). n + 1) f.made,
            refl,
          )))
    | inr (e, h, f, q, p) ↦ rw p (elim (Bool-cases (is_caught e)) [
      | inl t ↦ rw t (inr (inr (uplink_error, count unshaken h, f.session, f.made, refl)))
      | inr t ↦ rw t (inr (inr (e, h, f.session, f.made, refl)))
    ])
  ]

  usable-Issued :
      (o : Option PqcSession) (g : Gateway W)
      → g.session ≡ o
      → Issued g ((usable c net token o (net.monotonic g.world) >>= issue) g)
  unfolding usable
  usable-Issued none g e = handshake-Issued g
  usable-Issued (some s) g e = elim (Bool-cases (is_spent (net.monotonic g.world) (some s))) [
    | inl t ↦ rw t (handshake-Issued g)
    | inr t ↦ rw t (inl (s, e, t, refl))
  ]

  pub next_message-Issued : (g : Gateway W) → Issued g (next_message c net token g)
  unfolding next_message
  next_message-Issued g = usable-Issued g.session g refl
