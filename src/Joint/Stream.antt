-- ===== src/Joint/Stream.antt =====
-- The frames of a device at the gateway's handler: legacy_device/device.py with
-- edge_gateway/gateway.py.
use sodtware_dev_ops_gp_proj.Base.{
  ℕ, suc, ◌+◌, ◌≤◌, ◌<◌, ◌≡◌, refl, inl, inr, true, false, Bool-cases, some, Option-cases, List,
  Bytes, Text, length, arith, ltb, same_refl,
}
use sodtware_dev_ops_gp_proj.Base.Int.{ℤ, pos, leb_ℤ, ◌≤ℤ◌}
use sodtware_dev_ops_gp_proj.Base.Dict.{Dict, get, put, get-put}
use sodtware_dev_ops_gp_proj.Base.Result.{Result, ok, err}
use sodtware_dev_ops_gp_proj.Base.Exec.{Exec, continue}
use sodtware_dev_ops_gp_proj.Cloud.Reading.{Reading, FloatOrder}
use sodtware_dev_ops_gp_proj.Device.Stream.{Stream, over, next}
use sodtware_dev_ops_gp_proj.Gateway.Stats.{received, forwarded, failed, bump}
use sodtware_dev_ops_gp_proj.Gateway.State.{Gateway, count}
use sodtware_dev_ops_gp_proj.Gateway.Tracker.{accept}
use sodtware_dev_ops_gp_proj.Gateway.Handler.{
  handle, process, sequence, dispatch, forward, settle, is_uplink_failure, max_line_bytes,
}
use sodtware_dev_ops_gp_proj.Gateway.Uplink.Quiet.{Untouched}
use sodtware_dev_ops_gp_proj.Legacy.Cipher.{Cipher}
use sodtware_dev_ops_gp_proj.Legacy.Record.{FloatText}

-- The gateway has seen no higher number of the device.
abbrev pub UpTo : Text → ℕ → Dict ℤ → Type 0
UpTo name n seen = (q : ℤ) → get name seen ≡ some q → q ≤ℤ pos n

-- A number that is new to the gateway, and the table with it.
pub UpTo-accept :
    (name : Text) (low n : ℕ) (seen : Dict ℤ)
    → UpTo name low seen
    → low < n
    → accept name (pos n) seen ≡ (true, put name (pos n) seen)
unfolding accept
UpTo-accept name low n seen up h = elim (Option-cases (get name seen)) [
  | inl e ↦ rw e refl
  | inr (q, e) ↦
      let stale : leb_ℤ (pos n) q ≡ false = ground (arith, up q e, h) in rw e (rw stale refl)
]

pub UpTo-put : (name : Text) (n : ℕ) (seen : Dict ℤ) → UpTo name n (put name (pos n) seen)
UpTo-put name n seen q e =
    let k : some (pos n) ≡ some q = rw (get-put name name (pos n) seen, same_refl name) at e in
    ground (arith, k)

UpTo-wider :
    (name : Text) (low high : ℕ) (seen : Dict ℤ)
    → UpTo name low seen
    → low ≤ high
    → UpTo name high seen
UpTo-wider name low high seen up h q e = omega (arith, up q e, h)

-- All `n` frames were forwarded or counted as failed, none was refused; or an exception has passed,
-- and until then none was refused.
abbrev pub Passed : {W : Type 0} → Gateway W → Text → ℕ → ℕ → Result (Unit {0}) × Gateway W → Type 0
Passed g name high n (ok _, h) =
    UpTo name high h.seen
    × (h.stats.frames_rejected ≡ g.stats.frames_rejected)
    × (h.stats.replays_dropped ≡ g.stats.replays_dropped)
    × (h.stats.forwarded_ok + h.stats.forward_failed
        ≡ g.stats.forwarded_ok + g.stats.forward_failed + n)
    × (h.stats.frames_received ≡ g.stats.frames_received + n)
Passed g name high n (err e, h) =
    (h.stats.frames_rejected ≡ g.stats.frames_rejected)
    × (h.stats.replays_dropped ≡ g.stats.replays_dropped)

module _ {W : Type 0} where
  Passed-next :
      (g h : Gateway W) (name : Text) (high n : ℕ) (q : Result (Unit {0}) × Gateway W)
      → h.stats.frames_rejected ≡ g.stats.frames_rejected
      → h.stats.replays_dropped ≡ g.stats.replays_dropped
      → h.stats.forwarded_ok + h.stats.forward_failed
        ≡ g.stats.forwarded_ok + g.stats.forward_failed + 1
      → h.stats.frames_received ≡ g.stats.frames_received + 1
      → Passed h name high n q
      → Passed g name high (suc n) q
  Passed-next g h name high n (ok _, j) a b c d (up, p, q, r, s) =
      (up, omega (arith, a, p), omega (arith, b, q), omega (arith, c, r), omega (arith, d, s))
  Passed-next g h name high n (err e, j) a b c d (p, q) = (omega (arith, a, p), omega (arith, b, q))

module _ {W F : Type 0} (k : Cipher) (key : Bytes) (f : FloatText F) (o : FloatOrder F)
    (send : Reading F → Exec (Gateway W) (Unit {0}))
    (untouched : (r : Reading F) (g : Gateway W) → Untouched g (send r g).1) where
  -- A frame that was sent on, and the frames behind it.
  settle-Passed :
      (g : Gateway W) (seen : Dict ℤ) (name : Text) (n high size : ℕ)
      (p : Result (Unit {0}) × Gateway W) (go : Exec (Gateway W) (Unit {0}))
      → UpTo name n seen
      → Untouched (record (count received g) { seen = seen }) p.1
      → ((h : Gateway W) → UpTo name n h.seen → Passed h name high size (go h))
      → Passed g name high (suc size) (continue (settle p) (λ _. go))
  unfolding settle bump
  settle-Passed g seen name n high size (ok _, h) go up u ih =
      let q = u.quiet in
      Passed-next g (count forwarded h) name high size (go (count forwarded h)) q.same_rejected
        q.same_replayed (omega (arith, q.same_settled, q.same_rejected, q.same_replayed))
        q.same_received (ih (count forwarded h) (rw u.same_seen up))
  settle-Passed g seen name n high size (err x, h) go up u ih =
      let q = u.quiet in
      elim (Bool-cases (is_uplink_failure x)) [
        | inl caught ↦ rw caught (
            Passed-next g (count failed h) name high size (go (count failed h)) q.same_rejected
              q.same_replayed (omega (arith, q.same_settled, q.same_rejected, q.same_replayed))
              q.same_received (ih (count failed h) (rw u.same_seen up)))
        | inr escapes ↦ rw escapes (q.same_rejected, q.same_replayed)
      ]

  pub handle-Passed :
      (name : Text) {low high : ℕ} {frames : List Bytes} (g : Gateway W)
      → Stream k key f o name low frames high
      → UpTo name low g.seen
      → Passed g name high (length frames) (handle k key f send frames g)
  unfolding handle process sequence dispatch forward
  handle-Passed name g (over h) up =
      (UpTo-wider name _ _ g.seen up h, refl, refl, omega arith, omega arith)
  handle-Passed name g (next {n = n} {high = high} {frame = frame} {frames = frames} h t s) up =
      let fits_line : ltb max_line_bytes (length frame) ≡ false = ground (arith, t.small) in
      let seen = put name (pos n) g.seen in
      let g1 = record (count received g) { seen = seen } in
      let fresh : accept t.reading.device_id t.reading.seq g.seen ≡ (true, seen) =
        rw (t.named, t.numbered) (UpTo-accept name _ n g.seen up h) in
      rw (fits_line, t.decoded, fresh)
        (settle-Passed g seen name n high (length frames) (send t.reading g1)
          (handle k key f send frames) (UpTo-put name n g.seen) (untouched t.reading g1)
          (λ j up'. handle-Passed name j s up'))
