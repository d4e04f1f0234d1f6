-- ===== src/Cloud/Steps/Once.antt =====
-- A sealed message of cloud_service/app.py that comes a second time.
use sodtware_dev_ops_gp_proj.Base.{
  ℕ, ◌≡◌, refl, ap, ◌∙◌, ◌⊎◌, inl, inr, Option, some, Bytes, Text, get_elem?, leb, Bool-cases,
}
use sodtware_dev_ops_gp_proj.Base.Result.{Result, ok, err, http_error}
use sodtware_dev_ops_gp_proj.Base.Dict.{get}
use sodtware_dev_ops_gp_proj.Channel.Crypto.{Crypto}
use sodtware_dev_ops_gp_proj.Cloud.Reading.{Reading, FloatOrder}
use sodtware_dev_ops_gp_proj.Cloud.State.{Cloud, Session, mlkem}
use sodtware_dev_ops_gp_proj.Cloud.Sessions.{find_session, claim_counter}
use sodtware_dev_ops_gp_proj.Cloud.Sessions.Found.{find_session-Found}
use sodtware_dev_ops_gp_proj.Cloud.Messages.{
  SealedReading, Ticket, receive, decode_sealed, open_message,
}
use sodtware_dev_ops_gp_proj.Cloud.Messages.Received.{receive-Received}
use sodtware_dev_ops_gp_proj.Cloud.Ingest.{Accepted, ingest_sealed}
use sodtware_dev_ops_gp_proj.Cloud.Ingest.Outcome.{ingest_sealed-Course}
use sodtware_dev_ops_gp_proj.Cloud.Steps.{Reach, here, next, claims, stores, Reach-trans}
use sodtware_dev_ops_gp_proj.Cloud.Steps.Replay.{
  Keyed, Keyed-IsStable, Reach-Holds, claim_counter_once,
}

module _ {F : Type 0} where
  -- Whatever the time, a session that is still named is found with its key or has expired.
  find_session_again :
      (sid : Text) (now : ℕ) (cloud : Cloud F) (ref : ℕ) (s : Session)
      → get sid cloud.sessions ≡ some ref
      → get_elem? cloud.heap ref ≡ some s
      → (find_session sid now cloud ≡ err (http_error 401))
        ⊎ (find_session sid now cloud ≡ ok (ref, s.aead_key))
  unfolding find_session
  find_session_again sid now cloud ref s e at = elim (Bool-cases (leb s.expires_at now)) [
    | inl t ↦ inl (rw (e, find_session) (rw at (rw t)))
    | inr t ↦ inr (rw (e, find_session) (rw at (rw t)))
  ]

module _ {F : Type 0} (c : Crypto) where
  -- The same message, while its session id names the same object: refused for the session, or
  -- with the same ticket as before.
  receive_again :
      (m : SealedReading) (now' : ℕ) (later : Cloud F) (t : Ticket) (nonce text : Bytes)
      (s : Session)
      → decode_sealed m ≡ ok (nonce, text)
      → open_message c s.aead_key nonce m.session_id text ≡ ok (t.counter, t.plaintext)
      → get m.session_id later.sessions ≡ some t.ref
      → get_elem? later.heap t.ref ≡ some s
      → (receive c m now' later ≡ err (http_error 401)) ⊎ (receive c m now' later ≡ ok t)
  unfolding receive
  receive_again m now' later t nonce text s d g e at =
      elim (find_session_again m.session_id now' later t.ref s e at) [
        | inl f ↦ inl (rw (d, f))
        | inr f ↦ inr (rw (d, f, g))
      ]

module _ {F : Type 0} (c : Crypto) (o : FloatOrder F)
    (parse_fields : Bytes → Option (Reading F)) where
  repeated :
      (m : SealedReading) (now' wall' : ℕ) (later : Cloud F) (t : Ticket)
      → claim_counter t.ref t.counter later ≡ (err (http_error 409), later)
      → (receive c m now' later ≡ err (http_error 401)) ⊎ (receive c m now' later ≡ ok t)
      → (ingest_sealed c o parse_fields m now' wall' later ≡ (err (http_error 409), later))
        ⊎ (ingest_sealed c o parse_fields m now' wall' later ≡ (err (http_error 401), later))
  unfolding ingest_sealed
  repeated m now' wall' later t q (inl e) = inr (rw e)
  repeated m now' wall' later t q (inr e) = inl (rw (e, q))

  -- Once a sealed message has been accepted it is never accepted again: at any later time and
  -- after any locked steps of any requests, as long as the session id still names the same session
  -- object, it is answered 409, or 401 when the session has expired, and the state stays as it is.
  pub ingest_sealed_once :
      (m : SealedReading) (now wall now' wall' : ℕ) (cloud later : Cloud F) (a : Accepted)
      → (ingest_sealed c o parse_fields m now wall cloud).0 ≡ ok a
      → Reach (ingest_sealed c o parse_fields m now wall cloud).1 later
      → get m.session_id later.sessions ≡ get m.session_id cloud.sessions
      → (ingest_sealed c o parse_fields m now' wall' later ≡ (err (http_error 409), later))
        ⊎ (ingest_sealed c o parse_fields m now' wall' later ≡ (err (http_error 401), later))
  ingest_sealed_once m now wall now' wall' cloud later a h r names =
      elim (ingest_sealed-Course c o parse_fields m now wall cloud) [
        | inl (x, p) ↦ absurd (cc (h, ap (λ (z : Result Accepted × Cloud F). z.0) p))
        | inr (t, claimed, got, q, inl (v, p)) ↦
            absurd (cc (h, ap (λ (z : Result Accepted × Cloud F). z.0) p))
        | inr (t, claimed, got, q, inr (b, v, p)) ↦
            let first = receive-Received c m now cloud t got in
            let found = find_session-Found m.session_id now cloud t.ref first.key first.found in
            let steps : Reach (claim_counter t.ref t.counter cloud).1 later =
              rw q (Reach-trans (next here (stores b mlkem wall claimed)) (rw p at r)) in
            let held =
              Reach-Holds (Keyed first.key found.object.expires_at)
                (Keyed-IsStable first.key found.object.expires_at) t.ref
                (record { object = found.object; placed = found.placed; has = (found.keyed, refl) })
                (Reach-trans (next here (claims t.ref t.counter cloud)) steps) in
            let again =
              claim_counter_once t.ref t.counter cloud later
                (ap (λ (z : Result (Unit {0}) × Cloud F). z.0) q) steps in
            repeated m now' wall' later t again (
              receive_again c m now' later t first.nonce first.text held.object first.decoded
                (rw held.has.0 first.opened) (names ∙ found.named) held.placed)
      ]
