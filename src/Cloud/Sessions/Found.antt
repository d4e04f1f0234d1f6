-- ===== src/Cloud/Sessions/Found.antt =====
-- The first locked step of `ingest_sealed` of cloud_service/app.py, where it finds the session.
use sodtware_dev_ops_gp_proj.Base.{
  ℕ, ◌≡◌, ap, ◌∙◌, inl, inr, false, some, Bytes, Text, get_elem?, leb, Option-cases, Bool-cases,
}
use sodtware_dev_ops_gp_proj.Base.Result.{ok, err, http_error}
use sodtware_dev_ops_gp_proj.Base.Dict.{get}
use sodtware_dev_ops_gp_proj.Cloud.State.{Cloud, Session}
use sodtware_dev_ops_gp_proj.Cloud.Sessions.{find_session}

-- What a found session is.
pub record Found {F : Type 0} (sid : Text) (now : ℕ) (cloud : Cloud F) (ref : ℕ) (key : Bytes)
    : Type 0 where
  pub object : Session
  pub named : get sid cloud.sessions ≡ some ref
  pub placed : get_elem? cloud.heap ref ≡ some object
  pub keyed : object.aead_key ≡ key
  pub valid : leb object.expires_at now ≡ false

module _ {F : Type 0} where
  pub find_session-Found :
      (sid : Text) (now : ℕ) (cloud : Cloud F) (ref : ℕ) (key : Bytes)
      → find_session sid now cloud ≡ ok (ref, key)
      → Found sid now cloud ref key
  unfolding find_session
  find_session-Found sid now cloud ref key h = elim (Option-cases (get sid cloud.sessions)) [
    | inl e ↦
        let q : find_session sid now cloud ≡ err (http_error 401) = rw (e, find_session) in
        absurd (cc (h, q))
    | inr (r, e) ↦ elim (Option-cases (get_elem? cloud.heap r)) [
      | inl at ↦
          let q : find_session sid now cloud ≡ err (http_error 401) =
            rw (e, find_session) (rw at) in
          absurd (cc (h, q))
      | inr (s, at) ↦ elim (Bool-cases (leb s.expires_at now)) [
        | inl t ↦
            let q : find_session sid now cloud ≡ err (http_error 401) =
              rw (e, find_session) (rw at (rw t)) in
            absurd (cc (h, q))
        | inr t ↦
            let q : find_session sid now cloud ≡ ok (r, s.aead_key) =
              rw (e, find_session) (rw at (rw t)) in
            record {
              object = s;
              named = e ∙ ap some (cc (h, q));
              placed = cc (h, q, at);
              keyed = cc (h, q);
              valid = t;
            }
      ]
    ]
  ]
