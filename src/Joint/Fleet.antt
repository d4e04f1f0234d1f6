-- ===== src/Joint/Fleet.antt =====
-- Any number of connections of any devices, one after the other, from a gateway that was just started
-- into the cloud's buffer.
pub mod Tests
use sodtware_dev_ops_gp_proj.Base.{
  ℕ, ◌+◌, ◌*◌, ◌<◌, ◌≤◌, ◌≡◌, refl, sym, ap, subst, ◌∙◌, inl, inr, false, Bool-cases, if◌then◌else◌,
  none, some, Option, List, [], ◌∷◌, ◌++◌, append_assoc, append-nil, map, Bytes, Text, length, All,
  All-append, arith, same, same_iff,
}
use mathlib.Core.List.{map-append}
use sodtware_dev_ops_gp_proj.Base.Int.{ℤ}
use sodtware_dev_ops_gp_proj.Base.Dict.{Dict, get}
use sodtware_dev_ops_gp_proj.Base.Result.{Result}
use sodtware_dev_ops_gp_proj.Base.Exec.{Exec}
use sodtware_dev_ops_gp_proj.Channel.Crypto.{Crypto, IsSound}
use sodtware_dev_ops_gp_proj.Channel.Keys.{fingerprint}
use sodtware_dev_ops_gp_proj.Cloud.Reading.{Reading, FloatOrder}
use sodtware_dev_ops_gp_proj.Cloud.State.{Config, Stored, mlkem, second, max_stored_readings}
use sodtware_dev_ops_gp_proj.Cloud.Readings.{last_items}
use sodtware_dev_ops_gp_proj.Cloud.Readings.Ring.{
  last_items_all, last_items-append, length-last_items,
}
use sodtware_dev_ops_gp_proj.Device.Stream.{Stream}
use sodtware_dev_ops_gp_proj.Gateway.Handler.Mlkem.{handle_mlkem}
use sodtware_dev_ops_gp_proj.Gateway.Setup.{lower_char, lowered, new_gateway, serve_all}
use sodtware_dev_ops_gp_proj.Gateway.State.{cloud_timeout_s, Gateway}
use sodtware_dev_ops_gp_proj.Gateway.Uplink.{is_spent, send}
use sodtware_dev_ops_gp_proj.Gateway.Uplink.Quiet.{send-Untouched}
use sodtware_dev_ops_gp_proj.Joint.Answering.{Paired, Trusts}
use sodtware_dev_ops_gp_proj.Joint.Arrival.{told, AllCarried, handle-Arrived}
use sodtware_dev_ops_gp_proj.Joint.Link.{World, link}
use sodtware_dev_ops_gp_proj.Joint.Steady.{Ready}
use sodtware_dev_ops_gp_proj.Joint.Stream.{UpTo, Passed, handle-Passed}
use sodtware_dev_ops_gp_proj.Legacy.Cipher.{Cipher}
use sodtware_dev_ops_gp_proj.Legacy.Record.{FloatText}

-- The highest numbers, when the device `name` has got up to `n`.
abbrev pub raised : Text → ℕ → (Text → ℕ) → Text → ℕ
raised name n high x = if same name x then n else high x

-- How many frames the connections bring.
pub total : List (List Bytes) → ℕ
total [] = 0
total (frames ∷ rest) = length frames + total rest

module _ {F : Type 0} (k : Cipher) (key : Bytes) (f : FloatText F) (o : FloatOrder F) where
  -- Connections in turn, each of some device, whose numbers go on from where they were; `high` holds
  -- the numbers from before.
  pub data Fleet : (Text → ℕ) → List (List Bytes) → Type 0 where
    closed : {high : Text → ℕ} → Fleet high []
    connection :
        {high : Text → ℕ} {n : ℕ} {frames : List Bytes} {rest : List (List Bytes)} (name : Text)
        → Stream k key f o name (high name) frames n
        → Fleet (raised name n high) rest
        → Fleet high (frames ∷ rest)

  -- Their readings, and that JSON carries them all.
  pub all_told : {high : Text → ℕ} {lines : List (List Bytes)} → Fleet high lines → List (Reading F)
  all_told closed = []
  all_told (connection name s rest) = told k key f o s ++ all_told rest

  abbrev pub FleetCarried :
      (parse_fields : Bytes → Option (Reading F)) (dumps : Reading F → Bytes) {high : Text → ℕ}
      {lines : List (List Bytes)}
      → Fleet high lines
      → Type 0
  FleetCarried parse_fields dumps closed = Unit
  FleetCarried parse_fields dumps (connection name s rest) =
      AllCarried k key f o parse_fields dumps s × FleetCarried parse_fields dumps rest

UpTo-raised :
    (name x : Text) (n : ℕ) (high : Text → ℕ) (seen after : Dict ℤ)
    → UpTo name n after
    → ((y : Text) → same name y ≡ false → get y after ≡ get y seen)
    → UpTo x (high x) seen
    → UpTo x (raised name n high x) after
UpTo-raised name x n high seen after up others before = elim (Bool-cases (same name x)) [
  | inl t ↦ rw t (subst (λ (y : Text). UpTo y n after) ((same_iff name x).0 t) up)
  | inr t ↦ rw t (λ q e. before q (sym (others x t) ∙ e))
]

module _ {F : Type 0} (k : Cipher) (key : Bytes) (f : FloatText F) (c : Crypto) (sound : IsSound c)
    (o : FloatOrder F) (parse_fields : Bytes → Option (Reading F)) (dumps : Reading F → Bytes)
    (config : Config) (int_text : Text → Result ℤ) (lag : ℕ) (token : Text)
    (quick : lag < cloud_timeout_s * second) (paired : Paired c config token) where
  abbrev handler : List Bytes → Exec (Gateway (World F)) (Unit {0})
  handler = handle_mlkem k key f c (link c o parse_fields config int_text lag) token dumps

  -- The readings are in the cloud's buffer in order, `n` frames were counted as forwarded and none as
  -- failed, and the gateway can go on.
  record Landed (g : Gateway (World F)) (rs : List (Reading F)) (n : ℕ) (h : Gateway (World F))
      : Type 0 where
    stored : List (Stored F)
    kept :
        h.world.cloud.readings ≡ last_items max_stored_readings (g.world.cloud.readings ++ stored)
    same_readings : map (λ a. a.reading) stored ≡ rs
    channels : All (λ a. a.channel ≡ mlkem) stored
    failures : h.stats.forward_failed ≡ g.stats.forward_failed
    successes : h.stats.forwarded_ok ≡ g.stats.forwarded_ok + n
    ready : Ready h

  serve_all-Landed :
      {high : Text → ℕ} {lines : List (List Bytes)} (g : Gateway (World F))
      (s : Fleet k key f o high lines)
      → FleetCarried k key f o parse_fields dumps s
      → ((x : Text) → UpTo x (high x) g.seen)
      → Ready g
      → Trusts c config g
      → length g.world.cloud.readings ≤ max_stored_readings
      → Landed g (all_told k key f o s) (total lines) (serve_all handler lines g)
  unfolding serve_all all_told total
  serve_all-Landed g closed carried up ready trusts ring = record {
    stored = [];
    kept = rw append-nil (sym (last_items_all max_stored_readings g.world.cloud.readings ring));
    same_readings = refl;
    channels = tt;
    failures = refl;
    successes = omega arith;
    ready = ready;
  }
  serve_all-Landed g (connection {high = high} {n = n} {frames = frames} {rest = rest} name s more)
        (here, others) up ready trusts ring =
      let a =
        handle-Arrived k key f c sound o parse_fields dumps config int_text lag token quick paired
          name g s here (up name) ready trusts ring in
      let (highest, _, _, _, _) = subst (Passed g name n (length frames)) a.ran (
        handle-Passed k key f o
          (λ r. send c (link c o parse_fields config int_text lag) token (dumps r))
          (λ r g. send-Untouched c (link c o parse_fields config int_text lag) token (dumps r) g)
          name g s (up name)) in
      let full : length a.after.world.cloud.readings ≤ max_stored_readings =
        rw a.kept (length-last_items max_stored_readings (g.world.cloud.readings ++ a.stored)) in
      let r =
        serve_all-Landed a.after more others
          (λ x. UpTo-raised name x n high g.seen a.after.seen highest a.others (up x)) a.ready
          a.trusts full in
      rw a.ran (record {
        stored = a.stored ++ r.stored;
        kept =
            r.kept
            ∙ rw a.kept (
                last_items-append max_stored_readings (g.world.cloud.readings ++ a.stored) r.stored
                ∙ ap (last_items max_stored_readings)
                    (append_assoc g.world.cloud.readings a.stored r.stored));
        same_readings =
            rw
              (
                map-append (λ (x : Stored F). x.reading) a.stored r.stored,
                a.same_readings,
                r.same_readings,
              )
              refl;
        channels = All-append (λ a. a.channel ≡ mlkem) a.stored r.stored a.channels r.channels;
        failures = r.failures ∙ a.failures;
        successes = omega (arith, r.successes, a.successes);
        ready = r.ready;
      })

  -- The pin of the command line: none, or the cloud's fingerprint in letters of either case.
  abbrev pub Matches : Option Text → Type 0
  Matches none = Unit {0}
  Matches (some []) = Unit {0}
  Matches (some (x ∷ pin)) = map lower_char (x ∷ pin) ≡ fingerprint c config.kem_public_key

  started-Trusts :
      (pin : Option Text) (world : World F) → Matches pin → Trusts c config (new_gateway pin world)
  unfolding lowered
  started-Trusts none world m = inl refl
  started-Trusts (some []) world m = inl refl
  started-Trusts (some (x ∷ pin)) world m = inr (ap some m)

  -- A gateway that was just started, with no pin or with the cloud's fingerprint in letters of either
  -- case, and connections of any number of devices, one after the other, each device going on from its
  -- own last number with frames that the gateway reads, within the cloud's bounds: if JSON carries the readings in at most 3056 bytes each, both ends have the same
  -- token, the cloud's key pair is a generated one, its buffer holds at most its thousand readings,
  -- and every answer is there within the five seconds that the gateway waits, then all readings are
  -- in the cloud's buffer behind those of before, in the order
  -- of the frames, as far as its thousand places go, each marked as come over ML-KEM, however often a
  -- new session was due. All frames were counted as forwarded and none as failed.
  pub serve_all-all_told :
      (pin : Option Text) (world : World F) {lines : List (List Bytes)}
      (s : Fleet k key f o (λ x. 0) lines)
      → FleetCarried k key f o parse_fields dumps s
      → Matches pin
      → length world.cloud.readings ≤ max_stored_readings
      → let h =
          serve_all
            (handle_mlkem k key f c (link c o parse_fields config int_text lag) token dumps)
            lines
            (new_gateway pin world) in
        (stored : List (Stored F)) × (h.world.cloud.readings
          ≡ last_items max_stored_readings (world.cloud.readings ++ stored))
        × (map (λ a. a.reading) stored ≡ all_told k key f o s)
        × All (λ a. a.channel ≡ mlkem) stored
        × (h.stats.forwarded_ok ≡ total lines)
        × (h.stats.forward_failed ≡ 0)
  unfolding is_spent get
  serve_all-all_told pin world s carried m ring =
      let l =
        serve_all-Landed (new_gateway pin world) s carried (λ x q e. absurd (cc e)) (inl refl)
          (started-Trusts pin world m) ring in
      (l.stored, l.kept, l.same_readings, l.channels, (omega (arith, l.successes)), l.failures)
