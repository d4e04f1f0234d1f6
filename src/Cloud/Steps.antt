-- ===== src/Cloud/Steps.antt =====
-- The locked steps of cloud_service/app.py. Requests run on several threads and interleave between
-- these steps only, so a sequence of steps is any interleaving of any requests.
pub mod Handlers
pub mod Invariant
pub mod Replay
pub mod Outsider
pub mod Once
use sodtware_dev_ops_gp_proj.Base.{ℕ, Bytes, Text}
use sodtware_dev_ops_gp_proj.Cloud.Reading.{Reading}
use sodtware_dev_ops_gp_proj.Cloud.State.{Cloud, Channel}
use sodtware_dev_ops_gp_proj.Cloud.Readings.{store}
use sodtware_dev_ops_gp_proj.Cloud.Sessions.{open_session, claim_counter}

pub data Step {F : Type 0} : Cloud F → Cloud F → Type 0 where
  opens :
      (sid : Text) (key : Bytes) (now : ℕ) (cloud : Cloud F)
      → Step cloud (open_session sid key now cloud)
  claims : (ref counter : ℕ) (cloud : Cloud F) → Step cloud (claim_counter ref counter cloud).1
  stores :
      (r : Reading F) (channel : Channel) (wall : ℕ) (cloud : Cloud F)
      → Step cloud (store r channel wall cloud)

pub data Reach {F : Type 0} (start : Cloud F) : Cloud F → Type 0 where
  here : Reach start start
  next : {mid stop : Cloud F} → Reach start mid → Step mid stop → Reach start stop

pub Reach-trans : {F : Type 0} {s t u : Cloud F} → Reach s t → Reach t u → Reach s u
Reach-trans p here = p
Reach-trans p (next q st) = next (Reach-trans p q) st
