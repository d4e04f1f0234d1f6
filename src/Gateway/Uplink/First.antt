-- ===== src/Gateway/Uplink/First.antt =====
-- The first message of a new session, and the next one of a current session.
use sodtware_dev_ops_gp_proj.Base.{ℕ, ◌≡◌, refl, sym, subst, Option, none, some, true, false, Text}
use sodtware_dev_ops_gp_proj.Base.Result.{Exception, ok, err}
use sodtware_dev_ops_gp_proj.Base.Exec.{◌>>=◌}
use sodtware_dev_ops_gp_proj.Channel.Crypto.{Crypto}
use sodtware_dev_ops_gp_proj.Gateway.State.{PqcSession, Gateway, Net}
use sodtware_dev_ops_gp_proj.Gateway.Handshake.{handshake}
use sodtware_dev_ops_gp_proj.Gateway.Uplink.{is_spent, usable, issue, next_message}

usable_fresh :
    {W : Type 0} (c : Crypto) (net : Net W) (token : Text) (o : Option PqcSession) (now : ℕ)
    → is_spent now o ≡ true
    → usable c net token o now ≡ handshake c net token
unfolding usable
usable_fresh c net token none now e = refl
usable_fresh c net token (some s) now e = rw e refl

pub next_message_fresh :
    {W : Type 0} (c : Crypto) (net : Net W) (token : Text) (g h : Gateway W) (s : PqcSession)
    → is_spent (net.monotonic g.world) g.session ≡ true
    → handshake c net token g ≡ (ok s, h)
    → next_message c net token g ≡ issue s h
unfolding next_message
next_message_fresh c net token g h s spent shook =
    rw (usable_fresh c net token g.session (net.monotonic g.world) spent, shook) refl

pub next_message_failed :
    {W : Type 0} (c : Crypto) (net : Net W) (token : Text) (g h : Gateway W) (x : Exception)
    → g.session ≡ none
    → handshake c net token g ≡ (err x, h)
    → next_message c net token g ≡ (err x, h)
unfolding next_message is_spent
next_message_failed c net token g h x e raised =
    let spent : is_spent (net.monotonic g.world) g.session ≡ true = rw e refl in
    rw (usable_fresh c net token g.session (net.monotonic g.world) spent, raised) refl

pub next_message_first :
    {W : Type 0} (c : Crypto) (net : Net W) (token : Text) (g h : Gateway W) (s : PqcSession)
    → g.session ≡ none
    → handshake c net token g ≡ (ok s, h)
    → next_message c net token g ≡ issue s h
next_message_first c net token g h s e shook =
    next_message_fresh c net token g h s (rw e (unfold is_spent in refl)) shook

pub next_message_current :
    {W : Type 0} (c : Crypto) (net : Net W) (token : Text) (g : Gateway W) (s : PqcSession)
    → g.session ≡ some s
    → is_spent (net.monotonic g.world) (some s) ≡ false
    → next_message c net token g ≡ issue s g
unfolding next_message usable
next_message_current {W} c net token g s e unspent =
    subst
      (λ (o : Option PqcSession).
        (usable c net token o (net.monotonic g.world) >>= issue) g ≡ issue s g)
      (sym e) (rw unspent refl)
