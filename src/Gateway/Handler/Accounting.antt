-- ===== src/Gateway/Handler/Accounting.antt =====
-- The counters of edge_gateway/gateway.py against the lines of a connection.
use sodtware_dev_ops_gp_proj.Base.{
  ℕ, ◌+◌, ◌<◌, ◌≡◌, refl, inl, inr, Bool, true, false, Bool-cases, List, [], ◌∷◌, Bytes, length,
  arith, ltb, if◌then◌else◌,
}
use sodtware_dev_ops_gp_proj.Base.Result.{Result, ok, err, ◌>>=◌}
use sodtware_dev_ops_gp_proj.Base.Exec.{Exec, continue}
use sodtware_dev_ops_gp_proj.Cloud.Reading.{Reading}
use sodtware_dev_ops_gp_proj.Gateway.Stats.{bump, received, rejected}
use sodtware_dev_ops_gp_proj.Gateway.Stats.Lines.{settled, IsQuiet}
use sodtware_dev_ops_gp_proj.Gateway.State.{Gateway, count}
use sodtware_dev_ops_gp_proj.Gateway.Tracker.{accept}
use sodtware_dev_ops_gp_proj.Gateway.Handler.{
  settle, forward, dispatch, sequence, process, handle, is_uplink_failure, is_value_error,
  max_line_bytes,
}
use sodtware_dev_ops_gp_proj.Legacy.Cipher.{Cipher}
use sodtware_dev_ops_gp_proj.Legacy.Frame.{decrypt_frame}
use sodtware_dev_ops_gp_proj.Legacy.Record.{FloatText, parse_reading}

-- How many lines are too long.
pub oversized : List Bytes → ℕ
oversized [] = 0
oversized (raw ∷ rest) = (if ltb max_line_bytes (length raw) then 1 else 0) + oversized rest

-- One more line has been settled, or an exception has passed.
abbrev Once : {W : Type 0} → Gateway W → Result (Unit {0}) × Gateway W → Type 0
Once g (ok _, h) =
    (settled h.stats ≡ settled g.stats + 1) × (h.stats.frames_received ≡ g.stats.frames_received)
Once g (err e, h) =
    (settled h.stats ≡ settled g.stats) × (h.stats.frames_received ≡ g.stats.frames_received)

-- What a connection comes to.
abbrev pub Accounts : {W : Type 0} → Gateway W → List Bytes → Result (Unit {0}) × Gateway W → Type 0
Accounts g lines (ok _, h) =
    (settled h.stats ≡ settled g.stats + length lines)
    × (h.stats.frames_received + oversized lines ≡ g.stats.frames_received + length lines)
Accounts g lines (err e, h) = settled h.stats < settled g.stats + length lines

-- A first line that was settled, and the rest.
Accounts-cons :
    {W : Type 0} (g h : Gateway W) (raw : Bytes) (rest : List Bytes)
    (q : Result (Unit {0}) × Gateway W)
    → settled h.stats ≡ settled g.stats + 1
    → h.stats.frames_received + (if ltb max_line_bytes (length raw) then 1 else 0)
      ≡ g.stats.frames_received + 1
    → Accounts h rest q
    → Accounts g (raw ∷ rest) q
unfolding oversized
Accounts-cons g h raw rest (ok _, j) e r (a, b) = (omega (arith, a, e), omega (arith, b, r))
Accounts-cons g h raw rest (err x, j) e r a = omega (arith, a, e)

module _ {W F : Type 0} (k : Cipher) (key : Bytes) (f : FloatText F)
    (send : Reading F → Exec (Gateway W) (Unit {0}))
    (quiet : (r : Reading F) (g : Gateway W) → IsQuiet g.stats (send r g).1.stats) where
  settle-Once :
      (g : Gateway W) (p : Result (Unit {0}) × Gateway W)
      → IsQuiet g.stats p.1.stats
      → Once g (settle p)
  unfolding settle bump
  settle-Once g (ok _, h) q = (omega (arith, q.same_settled), q.same_received)
  settle-Once g (err e, h) q = elim (Bool-cases (is_uplink_failure e)) [
    | inl t ↦ rw t (omega (arith, q.same_settled), q.same_received)
    | inr t ↦ rw t (q.same_settled, q.same_received)
  ]

  dispatch-Once : (b : Bool) (r : Reading F) (g : Gateway W) → Once g (dispatch k key f send b r g)
  unfolding dispatch forward bump
  dispatch-Once true r g = settle-Once g (send r g) (quiet r g)
  dispatch-Once false r g = (omega arith, refl)

  sequence-Once : (p : Result (Reading F)) (g : Gateway W) → Once g (sequence k key f send p g)
  unfolding sequence bump
  sequence-Once (ok r) g =
      let (fresh, seen) = accept r.device_id r.seq g.seen in
      dispatch-Once fresh r (record g { seen = seen })
  sequence-Once (err e) g = elim (Bool-cases (is_value_error e)) [
    | inl t ↦ rw t (omega arith, refl)
    | inr t ↦ rw t (refl, refl)
  ]

  -- Behind a first line that was settled.
  continued-Accounts :
      (g : Gateway W) (raw : Bytes) (rest : List Bytes) (p : Result (Unit {0}) × Gateway W)
      → ltb max_line_bytes (length raw) ≡ false
      → Once (count received g) p
      → ((h : Gateway W) → Accounts h rest (handle k key f send rest h))
      → Accounts g (raw ∷ rest) (continue p (λ _. handle k key f send rest))
  unfolding bump
  continued-Accounts g raw rest (ok _, h) t (e, r) ih =
      Accounts-cons g h raw rest (handle k key f send rest h) e (rw t (omega (arith, r))) (ih h)
  continued-Accounts g raw rest (err x, h) t (e, r) ih = omega (arith, e)

  -- For every sequence of lines from a device, whatever they hold: if the connection ends without an
  -- exception, every line is counted once as rejected, replayed, forwarded or failed, and every line
  -- that is not too long as received. An exception that `_forward` does not catch leaves a line
  -- uncounted.
  pub handle-Accounts :
      (lines : List Bytes) (g : Gateway W) → Accounts g lines (handle k key f send lines g)
  unfolding handle
  handle-Accounts [] g = (omega arith, unfold oversized in omega arith)
  handle-Accounts (raw ∷ rest) g = elim (Bool-cases (ltb max_line_bytes (length raw))) [
    | inl t ↦ rw t (
        Accounts-cons g (count rejected g) raw rest (handle k key f send rest (count rejected g))
          (unfold bump in omega arith) (unfold bump in rw t refl)
          (handle-Accounts rest (count rejected g)))
    | inr t ↦ rw t (
        continued-Accounts g raw rest (process k key f send raw (count received g)) t
          (unfold process in
            sequence-Once (decrypt_frame k key raw >>= parse_reading f) (count received g))
          (handle-Accounts rest))
  ]
