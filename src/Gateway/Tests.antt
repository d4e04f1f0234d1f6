-- ===== src/Gateway/Tests.antt =====
-- The gateway on concrete inputs.
use sodtware_dev_ops_gp_proj.Base.{
  ◌⊎◌, Text, ℕ, ◌+◌, none, some, refl, List, Bytes, ◌≡◌, [], ◌∷◌, codes,
}
use sodtware_dev_ops_gp_proj.Base.Int.{ℤ, pos}
use sodtware_dev_ops_gp_proj.Channel.Crypto.Sample.{toy}
use sodtware_dev_ops_gp_proj.Gateway.Handshake.{handshake, do_handshake}
use sodtware_dev_ops_gp_proj.Gateway.Handshake.Counts.{IsOutside, handshake_counts}
use sodtware_dev_ops_gp_proj.Gateway.Tracker.{accept}
use sodtware_dev_ops_gp_proj.Gateway.Tracker.History.{seen_after, is_highest, accept-is_highest}
use sodtware_dev_ops_gp_proj.Gateway.Handler.Accounting.{Accounts}
use sodtware_dev_ops_gp_proj.Gateway.Handler.Mlkem.{handle_mlkem, handle_mlkem-Accounts}
use sodtware_dev_ops_gp_proj.Legacy.Cipher.Sample.{toy_cipher}
use sodtware_dev_ops_gp_proj.Legacy.Sample.{whole_text, whole_text-IsFloatText}
use sodtware_dev_ops_gp_proj.Legacy.Frame.{ascii, read_frame, decrypt_frame}
use sodtware_dev_ops_gp_proj.Legacy.Record.{parse_reading}
use sodtware_dev_ops_gp_proj.Legacy.Refusals.{read_error}
use sodtware_dev_ops_gp_proj.Base.Split.{strip, split_on}
use sodtware_dev_ops_gp_proj.Base.Result.{Exception, uplink_error, ok, err, value_error, ◌>>=◌}
use sodtware_dev_ops_gp_proj.Cloud.Reading.{Reading}
use sodtware_dev_ops_gp_proj.Gateway.State.{PqcSession, Gateway, Reply, answered, not_json}
use sodtware_dev_ops_gp_proj.Gateway.Handler.{handle}
use sodtware_dev_ops_gp_proj.Gateway.Rollback.{send_legacy, handle_legacy-Accounts}
use sodtware_dev_ops_gp_proj.Gateway.Sample.{dead, fresh}
use sodtware_dev_ops_gp_proj.Base.Codes
use sodtware_dev_ops_gp_proj.Base.Dict.{get}
use sodtware_dev_ops_gp_proj.Gateway.Stats.{received, bump, no_stats, snapshot}
use sodtware_dev_ops_gp_proj.Gateway.Setup.{lowered}

accept-is_highest_example :
    (accept (codes "a") (pos 3) (seen_after ((codes "a", pos 3) ∷ (codes "b", pos 9) ∷ []))).0
    ≡ is_highest (codes "a") (pos 3) ((codes "a", pos 3) ∷ (codes "b", pos 9) ∷ [])
accept-is_highest_example =
    accept-is_highest ((codes "a", pos 3) ∷ (codes "b", pos 9) ∷ []) (codes "a") (pos 3)

handshake_counts_example :
    (h : Gateway ℕ) × (h.seen ≡ fresh.seen)
    × (h.session ≡ fresh.session)
    × ((p : Text) → fresh.pinned ≡ some p → h.pinned ≡ some p)
    × (((s : PqcSession) × (handshake toy dead (codes "token") fresh ≡ (ok s, h))
          × (s.serial ≡ fresh.made)
          × (s.next_counter ≡ 0)
          × (h.made ≡ fresh.made + 1)
          × (h.stats ≡ record fresh.stats { handshakes_ok = fresh.stats.handshakes_ok + 1 }))
        ⊎ ((x : Exception) × ((do_handshake toy dead (codes "token") fresh).0 ≡ err x)
            × (h.made ≡ fresh.made)
            × (((handshake toy dead (codes "token") fresh ≡ (err uplink_error, h))
                  × ¬ IsOutside x
                  × (h.stats ≡ record fresh.stats {
                    handshakes_failed = fresh.stats.handshakes_failed + 1;
                  }))
                ⊎ ((handshake toy dead (codes "token") fresh ≡ (err x, h))
                    × IsOutside x
                    × (h.stats ≡ fresh.stats)))))
handshake_counts_example = handshake_counts toy dead (codes "token") fresh

-- Two lines that are no frames.
abbrev lines : List Bytes
lines = codes "noise" ∷ codes "more noise" ∷ []

handle_mlkem-Accounts_example :
    Accounts fresh lines (
      handle_mlkem toy_cipher [] whole_text toy dead (codes "token") (λ r. r.device_id) lines fresh)
handle_mlkem-Accounts_example =
    handle_mlkem-Accounts toy_cipher [] whole_text toy dead (codes "token") (λ r. r.device_id) lines
      fresh

-- A cloud that answers 500 to everything.
abbrev broken : Reading ℤ → ℕ → Reply × ℕ
broken r w = (answered 500 not_json, w + 1)

handle_legacy-Accounts_example :
    (h : Gateway ℕ) × (handle toy_cipher [] whole_text (send_legacy broken) lines fresh
      ≡ (ok tt, h))
    × Accounts fresh lines (ok tt, h)
handle_legacy-Accounts_example =
    handle_legacy-Accounts toy_cipher [] whole_text whole_text-IsFloatText broken lines fresh

-- The first line is no frame.
noise_refused :
    (decrypt_frame toy_cipher [] (codes "noise") >>= parse_reading whole_text) ≡ err value_error
unfolding decrypt_frame read_frame ascii strip split_on
noise_refused = refl

read_error_example : value_error ≡ value_error
read_error_example =
    read_error toy_cipher [] whole_text whole_text-IsFloatText (codes "noise") value_error
      noise_refused

-- A pin in capitals, and an empty one.
pin_lowered : lowered (some (codes "AB12")) ≡ some (codes "ab12")
unfolding lowered
pin_lowered = refl

pin_empty : lowered (some []) ≡ none
unfolding lowered
pin_empty = refl

one_received : get (codes "frames_received") (snapshot (bump received no_stats)) ≡ some 1
unfolding snapshot bump get Codes.same
one_received = refl
