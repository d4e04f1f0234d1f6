-- ===== src/Gateway/Answers/Digest.antt =====
-- A digest compared with itself and with another.
use sodtware_dev_ops_gp_proj.Base.{
  ◌<◌, ◌≡◌, ◌≢◌, refl, inl, inr, Bool-cases, ◌&&◌, true, [], ◌∷◌, Text, All, same, same_iff,
  same_refl, lt→ltb,
}
use sodtware_dev_ops_gp_proj.Base.Result.{ok, err, channel_error, type_error}
use sodtware_dev_ops_gp_proj.Gateway.Answers.{is_ascii, check_digest}

is_ascii-All : (t : Text) → All (λ x. x < 128) t → is_ascii t ≡ true
unfolding is_ascii
is_ascii-All [] h = refl
is_ascii-All (x ∷ t) h = rw (lt→ltb x 128 h.0) (is_ascii-All t h.1)

pub check_digest_same : (t : Text) → All (λ x. x < 128) t → check_digest t t ≡ ok tt
unfolding check_digest
check_digest_same t h = rw (is_ascii-All t h, same_refl t)

pub check_digest_other : (a p : Text) (u : Unit {0}) → a ≢ p → check_digest a p ≢ ok u
unfolding check_digest
check_digest_other a p u ne e = elim (Bool-cases (is_ascii a && is_ascii p)) [
  | inl t ↦ elim (Bool-cases (same a p)) [
    | inl k ↦ ne ((same_iff a p).0 k)
    | inr k ↦ let z : err channel_error ≡ ok u = rw (t, k) at e in cc z
  ]
  | inr t ↦ let z : err type_error ≡ ok u = rw t at e in cc z
]
