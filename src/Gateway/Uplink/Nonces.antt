-- ===== src/Gateway/Uplink/Nonces.antt =====
-- The counters that the device threads of edge_gateway/gateway.py are handed out.
use sodtware_dev_ops_gp_proj.Base.{
  ℕ, ◌+◌, ◌<◌, ◌≡◌, ◌≢◌, sym, ap, subst, ◌⊎◌, inl, inr, Option, none, some, List, [], ◌∷◌, Text,
  arith, All, All-map, Option-cases, Bool-cases, ◌==◌, ==_iff,
}
use sodtware_dev_ops_gp_proj.Base.Result.{Exception, Result, ok, err}
use sodtware_dev_ops_gp_proj.Channel.Crypto.{Crypto}
use sodtware_dev_ops_gp_proj.Gateway.State.{PqcSession, PqcUplink, Gateway, Net}
use sodtware_dev_ops_gp_proj.Gateway.Uplink.{issue, next_message, invalidate}
use sodtware_dev_ops_gp_proj.Gateway.Uplink.Issued.{Issued, next_message-Issued}

-- A pair of a session object and a counter was not handed out before.
abbrev IsNew : ℕ × ℕ → List (ℕ × ℕ) → Type 0
IsNew p = All (λ q. (p.0 ≢ q.0) ⊎ (p.1 ≢ q.1))

-- No pair stands twice.
abbrev pub AllDifferent : List (ℕ × ℕ) → Type 0
AllDifferent [] = Unit
AllDifferent (p ∷ ps) = IsNew p ps × AllDifferent ps

module _ {W : Type 0} (c : Crypto) (net : Net W) (token : Text) where
  -- The locked steps of the device threads, in the order in which they happen, with the pairs that
  -- `_next_message` has handed out, the newest first. Between them the world goes on, and the
  -- counters and the replay table change.
  pub data Schedule (start : Gateway W) : Gateway W → List (ℕ × ℕ) → Type 0 where
    begins : Schedule start start []
    issues :
        {g h : Gateway W} {log : List (ℕ × ℕ)} (s : PqcSession) (n : ℕ)
        → Schedule start g log
        → next_message c net token g ≡ (ok (s, n), h)
        → Schedule start h ((s.serial, n) ∷ log)
    fails :
        {g h : Gateway W} {log : List (ℕ × ℕ)} (e : Exception)
        → Schedule start g log
        → next_message c net token g ≡ (err e, h)
        → Schedule start h log
    drops :
        {g h : Gateway W} {log : List (ℕ × ℕ)} (s : PqcSession)
        → Schedule start g log
        → invalidate s g ≡ (ok tt, h)
        → Schedule start h log
    passes :
        {g h : Gateway W} {log : List (ℕ × ℕ)}
        → Schedule start g log
        → h.uplink ≡ g.uplink
        → Schedule start h log

-- What the handed-out pairs have to do with the current session.
abbrev Behind : Option PqcSession → ℕ × ℕ → Type 0
Behind none q = Unit
Behind (some s) q = q.0 ≡ s.serial → q.1 < s.next_counter

abbrev Older : Option PqcSession → ℕ → Type 0
Older none made = Unit
Older (some s) made = s.serial < made

record IsOrdered (o : Option PqcSession) (n : ℕ) (log : List (ℕ × ℕ)) : Type 0 where
  made : All (λ q. q.0 < n) log
  behind : All (Behind o) log
  older : Older o n
  different : AllDifferent log

abbrev after_issue : PqcSession → PqcSession
after_issue s = record s { next_counter = s.next_counter + 1 }

Behind-differs :
    (s : PqcSession) (q : ℕ × ℕ) → Behind (some s) q → (s.serial ≢ q.0) ⊎ (s.next_counter ≢ q.1)
Behind-differs s (a, b) h = elim (Bool-cases (a == s.serial)) [
  | inl t ↦
      let e : a ≡ s.serial = (==_iff a s.serial).0 t in
      let k : b < s.next_counter = h e in inr (omega arith)
  | inr t ↦ inl (ground arith)
]

issue_current :
    (s : PqcSession) (n : ℕ) (log : List (ℕ × ℕ))
    → IsOrdered (some s) n log
    → IsOrdered (some (after_issue s)) n ((s.serial, s.next_counter) ∷ log)
issue_current s n log o = record {
  made = (o.older, o.made);
  behind = (
    (λ e. omega arith),
    All-map (Behind (some s)) (Behind (some (after_issue s))) log
        (λ q h e. let k : q.1 < s.next_counter = h e in omega arith) o.behind,
  );
  older = o.older;
  different = (All-map (Behind (some s)) _ log (Behind-differs s) o.behind, o.different);
}

issue_fresh :
    (old : Option PqcSession) (s : PqcSession) (n : ℕ) (log : List (ℕ × ℕ))
    → s.serial ≡ n
    → IsOrdered old n log
    → IsOrdered (some (after_issue s)) (n + 1) ((s.serial, s.next_counter) ∷ log)
issue_fresh old s n log e o = record {
  made = (omega arith, All-map (λ q. q.0 < n) (λ q. q.0 < n + 1) log (λ q h. omega arith) o.made);
  behind = (
    (λ _. omega arith),
    All-map (λ q. q.0 < n) (Behind (some (after_issue s))) log (λ q h k. absurd (omega arith))
        o.made,
  );
  older = omega arith;
  different = (
    All-map (λ q. q.0 < n) (λ q. (s.serial ≢ q.0) ⊎ (s.next_counter ≢ q.1)) log
        (λ q h. inl (omega arith)) o.made,
    o.different,
  );
}

dropped :
    (o : Option PqcSession) (n : ℕ) (log : List (ℕ × ℕ)) → IsOrdered o n log → IsOrdered none n log
dropped o n log h = record {
  made = h.made;
  behind = All-map (λ q. q.0 < n) (Behind none) log (λ q _. tt) h.made;
  older = tt;
  different = h.different;
}

module _ {W : Type 0} where
  abbrev IsFine : Gateway W → List (ℕ × ℕ) → Type 0
  IsFine g log = IsOrdered g.session g.made log

  invalidate_cases :
      (s : PqcSession) (g : Gateway W)
      → (invalidate s g ≡ (ok tt, g))
        ⊎ (invalidate s g ≡ (ok tt, record g { uplink = record g.uplink { session = none } }))
  invalidate_cases s g = elim (Option-cases g.session) [
    | inl e ↦ inl (unfold invalidate in ground arith)
    | inr (current, e) ↦ elim (Bool-cases (current.serial == s.serial)) [
      | inl t ↦ inr (unfold invalidate in ground arith)
      | inr t ↦ inl (unfold invalidate in ground arith)
    ]
  ]

  invalidate-IsFine :
      (s : PqcSession) (g h : Gateway W) (log : List (ℕ × ℕ))
      → invalidate s g ≡ (ok tt, h)
      → IsFine g log
      → IsFine h log
  invalidate-IsFine s g h log e o = elim (invalidate_cases s g) [
    | inl q ↦ let k : h ≡ g = cc (e, q) in rw k o
    | inr q ↦
        let k : h ≡ record g { uplink = record g.uplink { session = none } } = cc (e, q) in
        rw k (dropped g.session g.made log o)
  ]

module _ {W : Type 0} (c : Crypto) (net : Net W) (token : Text) where
  issue-IsFine :
      (g h : Gateway W) (s : PqcSession) (n : ℕ) (log : List (ℕ × ℕ))
      → Issued c net token g (ok (s, n), h)
      → IsFine g log
      → IsFine h ((s.serial, n) ∷ log)
  unfolding issue
  issue-IsFine g h s n log (inl (s', cur, live, p)) o =
      let is_s : s ≡ s' = cc p in
      let is_n : n ≡ s'.next_counter = cc p in
      let is_h = ap (λ (z : Result (PqcSession × ℕ) × Gateway W). z.1) p in
      rw (is_h, is_s, is_n)
        (issue_current s' g.made log (subst (λ z. IsOrdered z g.made log) cur o))
  issue-IsFine g h s n log (inr (inl (s', k, serial, counter, made, p))) o =
      let is_s : s ≡ s' = cc p in
      let is_n : n ≡ s'.next_counter = cc p in
      let is_h = ap (λ (z : Result (PqcSession × ℕ) × Gateway W). z.1) p in
      rw (is_h, is_s, is_n, made) (issue_fresh g.session s' g.made log serial o)
  issue-IsFine g h s n log (inr (inr (e, k, same, made, p))) o =
      absurd (cc (ap (λ (z : Result (PqcSession × ℕ) × Gateway W). z.0) p))

  fail-IsFine :
      (g h : Gateway W) (x : Exception) (log : List (ℕ × ℕ))
      → Issued c net token g (err x, h)
      → IsFine g log
      → IsFine h log
  unfolding issue
  fail-IsFine g h x log (inl (s', cur, live, p)) o =
      absurd (cc (ap (λ (z : Result (PqcSession × ℕ) × Gateway W). z.0) p))
  fail-IsFine g h x log (inr (inl (s', k, serial, counter, made, p))) o =
      absurd (cc (ap (λ (z : Result (PqcSession × ℕ) × Gateway W). z.0) p))
  fail-IsFine g h x log (inr (inr (e, k, same, made, p))) o =
      let is_h = ap (λ (z : Result (PqcSession × ℕ) × Gateway W). z.1) p in rw (is_h, same, made) o

  Schedule-IsFine :
      {start g : Gateway W} {log : List (ℕ × ℕ)}
      → IsFine start []
      → Schedule c net token start g log
      → IsFine g log
  Schedule-IsFine o begins = o
  Schedule-IsFine o (issues {g} {h} {log} s n r e) =
      issue-IsFine g h s n log (rw e at (next_message-Issued c net token g)) (Schedule-IsFine o r)
  Schedule-IsFine o (fails {g} {h} {log} x r e) =
      fail-IsFine g h x log (rw e at (next_message-Issued c net token g)) (Schedule-IsFine o r)
  Schedule-IsFine o (drops {g} {h} {log} s r e) =
      invalidate-IsFine s g h log e (Schedule-IsFine o r)
  Schedule-IsFine o (passes {g} {h} {log} r e) =
      subst (λ (u : PqcUplink). IsOrdered u.session u.made log) (sym e) (Schedule-IsFine o r)

  -- From a gateway with no session, whatever the device threads, the clock, the cloud and the
  -- network do, `_next_message` never hands out the same counter twice for one session object.
  pub Schedule-AllDifferent :
      (start g : Gateway W) (log : List (ℕ × ℕ))
      → start.session ≡ none
      → Schedule c net token start g log
      → AllDifferent log
  Schedule-AllDifferent start g log e r =
      (Schedule-IsFine (rw e (record { made = tt; behind = tt; older = tt; different = tt }))
        r).different
