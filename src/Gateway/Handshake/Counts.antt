-- ===== src/Gateway/Handshake/Counts.antt =====
-- How `_handshake` of edge_gateway/gateway.py counts what `_do_handshake` came to.
use sodtware_dev_ops_gp_proj.Base.{
  ◌+◌, ◌≡◌, ◌≢◌, refl, ap, ◌⊎◌, inl, inr, true, false, some, [], ◌∷◌, Text, All,
}
use sodtware_dev_ops_gp_proj.Base.Result.{
  Exception, ok, err, value_error, channel_error, key_error, type_error, attribute_error,
  overflow_error, request_error, uplink_error, os_error, index_error, http_error,
}
use sodtware_dev_ops_gp_proj.Base.Exec.{Exec-cases}
use sodtware_dev_ops_gp_proj.Channel.Crypto.{Crypto}
use sodtware_dev_ops_gp_proj.Gateway.Answers.{is_caught}
use sodtware_dev_ops_gp_proj.Gateway.Stats.{bump, shaken, unshaken}
use sodtware_dev_ops_gp_proj.Gateway.State.{PqcSession, Gateway, Net, count}
use sodtware_dev_ops_gp_proj.Gateway.Handshake.{
  one_more, new_session, construct, prepare, do_handshake, handshake,
}
use sodtware_dev_ops_gp_proj.Gateway.Handshake.Frame.{prepare-Keeps}

-- None of the exceptions that the `except` clause of `_handshake` lists.
abbrev pub IsOutside : Exception → Type 0
IsOutside x =
    All (λ y. x ≢ y) (channel_error ∷ request_error ∷ key_error ∷ type_error ∷ value_error ∷ [])

caught_cases :
    (x : Exception) → ((is_caught x ≡ true) × ¬ IsOutside x) ⊎ ((is_caught x ≡ false) × IsOutside x)
unfolding is_caught
caught_cases channel_error = inl (refl, λ h. h.0 refl)
caught_cases request_error = inl (refl, λ h. h.1.0 refl)
caught_cases key_error = inl (refl, λ h. h.1.1.0 refl)
caught_cases type_error = inl (refl, λ h. h.1.1.1.0 refl)
caught_cases value_error = inl (refl, λ h. h.1.1.1.1.0 refl)
caught_cases attribute_error =
    inr (refl, ((λ e. cc e), ((λ e. cc e), ((λ e. cc e), ((λ e. cc e), ((λ e. cc e), tt))))))
caught_cases overflow_error =
    inr (refl, ((λ e. cc e), ((λ e. cc e), ((λ e. cc e), ((λ e. cc e), ((λ e. cc e), tt))))))
caught_cases uplink_error =
    inr (refl, ((λ e. cc e), ((λ e. cc e), ((λ e. cc e), ((λ e. cc e), ((λ e. cc e), tt))))))
caught_cases os_error =
    inr (refl, ((λ e. cc e), ((λ e. cc e), ((λ e. cc e), ((λ e. cc e), ((λ e. cc e), tt))))))
caught_cases index_error =
    inr (refl, ((λ e. cc e), ((λ e. cc e), ((λ e. cc e), ((λ e. cc e), ((λ e. cc e), tt))))))
caught_cases (http_error n) =
    inr (refl, ((λ e. cc e), ((λ e. cc e), ((λ e. cc e), ((λ e. cc e), ((λ e. cc e), tt))))))

module _ {W : Type 0} (c : Crypto) (net : Net W) (token : Text) where
  -- Whatever the cloud answers, a handshake leaves the replay table, the current session and a pin
  -- that was set as they were. If it returns, it has made one session object, whose counter starts
  -- at 0, and one more success is counted and nothing else. If `_do_handshake` raises one of the
  -- five exceptions that the `except` clause lists, `UplinkError` is raised, no session object is
  -- made, and one more failure is counted and nothing else; any other exception passes, and nothing
  -- is counted.
  pub handshake_counts :
      (g : Gateway W)
      → (h : Gateway W) × (h.seen ≡ g.seen)
        × (h.session ≡ g.session)
        × ((p : Text) → g.pinned ≡ some p → h.pinned ≡ some p)
        × (((s : PqcSession) × (handshake c net token g ≡ (ok s, h))
              × (s.serial ≡ g.made)
              × (s.next_counter ≡ 0)
              × (h.made ≡ g.made + 1)
              × (h.stats ≡ record g.stats { handshakes_ok = g.stats.handshakes_ok + 1 }))
            ⊎ ((x : Exception) × ((do_handshake c net token g).0 ≡ err x)
                × (h.made ≡ g.made)
                × (((handshake c net token g ≡ (err uplink_error, h))
                      × ¬ IsOutside x
                      × (h.stats
                          ≡ record g.stats { handshakes_failed = g.stats.handshakes_failed + 1 }))
                    ⊎ ((handshake c net token g ≡ (err x, h))
                        × IsOutside x
                        × (h.stats ≡ g.stats)))))
  unfolding handshake do_handshake construct bump
  handshake_counts g =
      let framed = (prepare-Keeps c net token).at g in
      elim (Exec-cases (prepare c net token g)) [
        | inl (a, h, e) ↦
            let f = rw e at framed in
            (
              count shaken (one_more h),
              f.seen,
              f.session,
              f.pin,
              inl (
                new_session net a h,
                (rw e refl),
                f.made,
                refl,
                ap (λ n. n + 1) f.made,
                ap (bump shaken) f.stats,
              ),
            )
        | inr (x, h, e) ↦
            let f = rw e at framed in
            elim (caught_cases x) [
              | inl (caught, one) ↦ (
                count unshaken h,
                f.seen,
                f.session,
                f.pin,
                inr (
                  x,
                  (rw e refl),
                  f.made,
                  inl ((rw (e, caught) refl), one, ap (bump unshaken) f.stats),
                ),
              )
              | inr (passes, none) ↦ (
                h,
                f.seen,
                f.session,
                f.pin,
                inr (x, (rw e refl), f.made, inr ((rw (e, passes) refl), none, f.stats)),
              )
            ]
      ]
