-- ===== src/Gateway/Uplink/Pinned.antt =====
-- A pinned gateway before a network that serves another key: `PqcUplink` of edge_gateway/gateway.py.
use sodtware_dev_ops_gp_proj.Base.{
  ◌≡◌, ◌≢◌, ◌∙◌, refl, inl, inr, Bool-cases, none, some, Bytes, Text, codes, Option, ℕ,
}
use sodtware_dev_ops_gp_proj.Base.Result.{uplink_error, Exception, Result, ok, err, channel_error}
use sodtware_dev_ops_gp_proj.Base.Exec.{Exec, continue}
use sodtware_dev_ops_gp_proj.Base.Json.{Json, subscript}
use sodtware_dev_ops_gp_proj.Channel.Base64.{b64decode_json}
use sodtware_dev_ops_gp_proj.Channel.Crypto.{Crypto, public_key_bytes}
use sodtware_dev_ops_gp_proj.Channel.Keys.{algorithm, fingerprint}
use sodtware_dev_ops_gp_proj.Gateway.Stats.{GatewayStats, bump, unshaken}
use sodtware_dev_ops_gp_proj.Gateway.State.{Gateway, Net, Reply, count}
use sodtware_dev_ops_gp_proj.Gateway.Answers.{expect, check_digest, is_text, is_caught}
use sodtware_dev_ops_gp_proj.Gateway.Answers.Digest.{check_digest_other}
use sodtware_dev_ops_gp_proj.Gateway.Uplink.{post_once, send}
use sodtware_dev_ops_gp_proj.Gateway.Uplink.First.{next_message_failed}
use sodtware_dev_ops_gp_proj.Gateway.Handshake.{
  asks, pin_to, check_pin, fetch_key, prepare, do_handshake, handshake, outcome,
}

-- The reply holds this public key.
pub record Offers (reply : Reply) (pk : Bytes) : Type 0 where
  pub body : Json
  pub field : Json
  pub came : expect 200 reply ≡ ok body
  pub found : subscript body (codes "public_key") ≡ ok field
  pub decoded : b64decode_json field (some public_key_bytes) ≡ ok pk

-- An exception that leaves the state as it is.
abbrev Stops : {S A : Type 0} → S → Result A × S → Type 0
Stops s p = (e : Exception) × (p ≡ (err e, s))

module _ {S A B : Type 0} where
  lift-Stops :
      (s : S) (r : Result A) (f : A → Exec S B)
      → ((a : A) → r ≡ ok a → Stops s (f a s))
      → Stops s (continue (r, s) f)
  lift-Stops s (ok a) f h = h a refl
  lift-Stops s (err e) f h = (e, refl)

module _ {W : Type 0} where
  pin_to-some :
      (g : Gateway W) (actual pin : Text) (o : Option Text)
      → o ≡ some pin
      → pin_to actual o g ≡ (check_digest actual pin, g)
  unfolding pin_to
  pin_to-some g actual pin o e = rw e refl

  check_pin-Stops :
      {B : Type 0} (g : Gateway W) (actual pin : Text) (f : Unit {0} → Exec (Gateway W) B)
      → g.pinned ≡ some pin
      → actual ≢ pin
      → Stops g (continue (check_pin actual g) f)
  unfolding check_pin
  check_pin-Stops g actual pin f e ne = rw (pin_to-some g actual pin g.pinned e) (
      lift-Stops g (check_digest actual pin) f
        (λ u d. absurd (check_digest_other actual pin u ne d)))

-- The pin is set and no session is current; of the world `Kept` holds, and `n` frames were forwarded.
pub record Shut {W : Type 0} (pin : Text) (Kept : W → Type 0) (n : ℕ) (g : Gateway W) : Type 0 where
  pub pinned : g.pinned ≡ some pin
  pub session : g.session ≡ none
  pub world : Kept g.world
  pub forwarded : g.stats.forwarded_ok ≡ n

abbrev pub Failed : {W A : Type 0} → Text → (W → Type 0) → ℕ → Result A × Gateway W → Type 0
Failed {W = W} pin Kept n p =
    (e : Exception) × (h : Gateway W) × (p ≡ (err e, h)) × Shut pin Kept n h

module _ {W : Type 0} (pin : Text) (Kept : W → Type 0) (n : ℕ) where
  pub recount :
      (g : Gateway W) (stats : GatewayStats)
      → Shut pin Kept n g
      → stats.forwarded_ok ≡ g.stats.forwarded_ok
      → Shut pin Kept n (record g { stats = stats })
  recount g stats s e = record {
    pinned = s.pinned;
    session = s.session;
    world = s.world;
    forwarded = e ∙ s.forwarded;
  }

  outcome-Failed :
      (e : Exception) (h : Gateway W) → Shut pin Kept n h → Failed pin Kept n (outcome (err e, h))
  unfolding bump
  outcome-Failed e h s = elim (Bool-cases (is_caught e)) [
    | inl t ↦ rw t (uplink_error, count unshaken h, refl, recount h (bump unshaken h.stats) s refl)
    | inr t ↦ rw t (e, h, refl, s)
  ]

module _ {W : Type 0} (c : Crypto) (net : Net W) (token pin : Text) (Kept : W → Type 0)
    (keeps : (w : W) → Kept w → Kept (net.get_public_key w).1)
    (other : (w : W) (pk : Bytes)
      → Kept w
      → Offers (net.get_public_key w).0 pk
      → fingerprint c pk ≢ pin) where
  fetch_key-Stops :
      (g : Gateway W)
      → g.pinned ≡ some pin
      → Kept g.world
      → Stops (record g { world = (net.get_public_key g.world).1 }) (fetch_key c net token g)
  unfolding fetch_key asks
  fetch_key-Stops g e i =
      let h = record g { world = (net.get_public_key g.world).1 } in
      lift-Stops h (expect 200 (net.get_public_key g.world).0) _ (λ body came.
        lift-Stops h (subscript body (codes "algorithm")) _ (λ alg _.
          elim (Bool-cases (is_text algorithm alg)) [
            | inr t ↦ rw t (channel_error, refl)
            | inl t ↦ rw t (
                lift-Stops h (subscript body (codes "public_key")) _ (λ field found.
                  lift-Stops h (b64decode_json field (some public_key_bytes)) _ (λ pk decoded.
                    check_pin-Stops h (fingerprint c pk) pin _ e (
                      other g.world pk i (record {
                        body = body;
                        field = field;
                        came = came;
                        found = found;
                        decoded = decoded;
                      })))))
          ]))

  -- A handshake fails before anything is posted.
  handshake-Shut :
      (n : ℕ) (g : Gateway W) → Shut pin Kept n g → Failed pin Kept n (handshake c net token g)
  unfolding handshake do_handshake prepare
  handshake-Shut n g s =
      let (e, stops) = fetch_key-Stops g s.pinned s.world in
      let asked = record g { world = (net.get_public_key g.world).1 } in
      let shut : Shut pin Kept n asked = record {
        pinned = s.pinned;
        session = s.session;
        world = keeps g.world s.world;
        forwarded = s.forwarded;
      } in
      rw stops (outcome-Failed pin Kept n e asked shut)

  pub send-Failed :
      (n : ℕ) (plaintext : Bytes) (g : Gateway W)
      → Shut pin Kept n g
      → Failed pin Kept n (send c net token plaintext g)
  unfolding send post_once
  send-Failed n plaintext g s =
      let (e, h, raised, shut) = handshake-Shut n g s in
      let first = next_message_failed c net token g h e s.session raised in
      (e, h, (rw first refl), shut)
