-- ===== src/Joint/Arrival.antt =====
-- All frames of a device's stream, through the gateway's handler over the ML-KEM uplink into the
-- cloud's buffer.
pub mod Tests
use sodtware_dev_ops_gp_proj.Base.{
  ℕ, same, false, ◌+◌, ◌*◌, ◌<◌, ◌≤◌, ◌≡◌, refl, sym, ap, subst, ◌∙◌, true, false, Option, some,
  List, [], ◌∷◌, ◌++◌, append_assoc, append-nil, map, Bytes, Text, IsBytes, length, All, arith, ltb,
}
use sodtware_dev_ops_gp_proj.Base.Int.{ℤ, pos}
use sodtware_dev_ops_gp_proj.Base.Dict.{get, get-put, put}
use sodtware_dev_ops_gp_proj.Base.Result.{Result, ok}
use sodtware_dev_ops_gp_proj.Base.Exec.{Exec}
use sodtware_dev_ops_gp_proj.Channel.Crypto.{Crypto, IsSound}
use sodtware_dev_ops_gp_proj.Cloud.Reading.{Reading, FloatOrder}
use sodtware_dev_ops_gp_proj.Cloud.State.{Config, Stored, mlkem, second, max_stored_readings}
use sodtware_dev_ops_gp_proj.Cloud.Readings.{last_items}
use sodtware_dev_ops_gp_proj.Cloud.Readings.Ring.{
  last_items_all, append_bounded-last_items, last_items-append, length-last_items,
}
use sodtware_dev_ops_gp_proj.Device.Stream.{Stream, over, next}
use sodtware_dev_ops_gp_proj.Gateway.Stats.{bump, received, forwarded}
use sodtware_dev_ops_gp_proj.Gateway.State.{cloud_timeout_s, Gateway, count}
use sodtware_dev_ops_gp_proj.Gateway.Tracker.{accept}
use sodtware_dev_ops_gp_proj.Gateway.Handler.{
  handle, process, sequence, dispatch, forward, settle, max_line_bytes,
}
use sodtware_dev_ops_gp_proj.Gateway.Handler.Mlkem.{handle_mlkem}
use sodtware_dev_ops_gp_proj.Gateway.Uplink.{send}
use sodtware_dev_ops_gp_proj.Gateway.Uplink.Quiet.{Untouched, send-Untouched}
use sodtware_dev_ops_gp_proj.Joint.Link.{World, link}
use sodtware_dev_ops_gp_proj.Joint.Answering.{Paired, Trusts}
use sodtware_dev_ops_gp_proj.Joint.Steady.{Ready, Served, send-Served}
use sodtware_dev_ops_gp_proj.Joint.Stream.{UpTo, UpTo-accept, UpTo-put, Passed, handle-Passed}
use sodtware_dev_ops_gp_proj.Legacy.Cipher.{Cipher}
use sodtware_dev_ops_gp_proj.Legacy.Record.{FloatText}

-- JSON carries the reading.
pub record IsCarried {F : Type 0} (parse_fields : Bytes → Option (Reading F))
    (dumps : Reading F → Bytes) (r : Reading F) : Type 0 where
  pub bytes : IsBytes (dumps r)
  pub short : length (dumps r) ≤ 3056
  pub parsed : parse_fields (dumps r) ≡ some r

module _ {F : Type 0} (k : Cipher) (key : Bytes) (f : FloatText F) (o : FloatOrder F) where
  -- The readings of a stream, and that JSON carries them all.
  unfoldable pub told :
      {name : Text} {low high : ℕ} {frames : List Bytes}
      → Stream k key f o name low frames high
      → List (Reading F)
  told (over h) = []
  told (next h t s) = t.reading ∷ told s

  abbrev pub AllCarried :
      (parse_fields : Bytes → Option (Reading F)) (dumps : Reading F → Bytes) {name : Text}
      {low high : ℕ} {frames : List Bytes}
      → Stream k key f o name low frames high
      → Type 0
  AllCarried parse_fields dumps (over h) = Unit
  AllCarried parse_fields dumps (next h t s) =
      IsCarried parse_fields dumps t.reading × AllCarried parse_fields dumps s

module _ {F : Type 0} (k : Cipher) (key : Bytes) (f : FloatText F) (c : Crypto) (sound : IsSound c)
    (o : FloatOrder F) (parse_fields : Bytes → Option (Reading F)) (dumps : Reading F → Bytes)
    (config : Config) (int_text : Text → Result ℤ) (lag : ℕ) (token : Text)
    (quick : lag < cloud_timeout_s * second) (paired : Paired c config token) where
  abbrev run_handler : List Bytes → Exec (Gateway (World F)) (Unit {0})
  run_handler = handle_mlkem k key f c (link c o parse_fields config int_text lag) token dumps

  -- All readings have arrived in order, behind those that were there.
  pub record Arrived (name : Text) (g : Gateway (World F)) (rs : List (Reading F))
      (frames : List Bytes) : Type 0 where
    pub after : Gateway (World F)
    pub stored : List (Stored F)
    pub ran : run_handler frames g ≡ (ok tt, after)
    pub kept :
        after.world.cloud.readings
        ≡ last_items max_stored_readings (g.world.cloud.readings ++ stored)
    pub same_readings : map (λ a. a.reading) stored ≡ rs
    pub channels : All (λ a. a.channel ≡ mlkem) stored
    pub others : (x : Text) → same name x ≡ false → get x after.seen ≡ get x g.seen
    pub failures : after.stats.forward_failed ≡ g.stats.forward_failed
    pub successes : after.stats.forwarded_ok ≡ g.stats.forwarded_ok + length frames
    pub ready : Ready after
    pub trusts : Trusts c config after

  -- One frame more in front.
  arrive :
      (name : Text) (g taken : Gateway (World F)) (r : Reading F) (rs : List (Reading F))
      (frame : Bytes) (frames : List Bytes)
      (served : Served c sound o parse_fields config int_text lag token quick taken (dumps r) r)
      → taken.stats ≡ bump received g.stats
      → taken.world ≡ g.world
      → run_handler (frame ∷ frames) g ≡ run_handler frames (count forwarded served.after)
      → length g.world.cloud.readings ≤ max_stored_readings
      → ((x : Text) → same name x ≡ false → get x served.after.seen ≡ get x g.seen)
      → Arrived name (count forwarded served.after) rs frames
      → Arrived name g (r ∷ rs) (frame ∷ frames)
  unfolding bump
  arrive name g taken r rs frame frames served counted unmoved step ring apart rest =
      let a : Stored F = record { reading = r; received_at = served.at; channel = mlkem } in
      let q =
        (subst (λ p. Untouched taken p.1) served.sent
          (send-Untouched c (link c o parse_fields config int_text lag) token (dumps r)
            taken)).quiet in
      let kept : served.after.world.cloud.readings
          ≡ last_items max_stored_readings (g.world.cloud.readings ++ a ∷ []) =
        served.kept
        ∙ rw unmoved
            (append_bounded-last_items max_stored_readings g.world.cloud.readings a ring) in
      record {
        after = rest.after;
        stored = a ∷ rest.stored;
        ran = step ∙ rest.ran;
        kept =
            rest.kept
            ∙ rw kept (
                last_items-append max_stored_readings (g.world.cloud.readings ++ a ∷ []) rest.stored
                ∙ ap (last_items max_stored_readings)
                    (append_assoc g.world.cloud.readings (a ∷ []) rest.stored));
        same_readings = ap (λ xs. r ∷ xs) rest.same_readings;
        channels = (refl, rest.channels);
        others = λ x e. rest.others x e ∙ apart x e;
        failures = rest.failures ∙ served.failures ∙ ap (λ x. x.forward_failed) counted;
        successes = omega (
          arith,
          rest.successes,
          served.failures,
          q.same_settled,
          q.same_rejected,
          q.same_replayed,
          ap (λ x. x.forward_failed) counted,
          ap (λ x. x.forwarded_ok) counted,
        );
        ready = rest.ready;
        trusts = rest.trusts;
      }

  pub handle-Arrived :
      (name : Text) {low high : ℕ} {frames : List Bytes} (g : Gateway (World F))
      (s : Stream k key f o name low frames high)
      → AllCarried k key f o parse_fields dumps s
      → UpTo name low g.seen
      → Ready g
      → Trusts c config g
      → length g.world.cloud.readings ≤ max_stored_readings
      → Arrived name g (told k key f o s) frames
  unfolding handle told process sequence dispatch forward settle
  handle-Arrived name g (over h) carried up ready trusts ring = record {
    after = g;
    stored = [];
    ran = refl;
    kept = rw append-nil (sym (last_items_all max_stored_readings g.world.cloud.readings ring));
    same_readings = refl;
    channels = tt;
    others = λ x e. refl;
    failures = refl;
    successes = omega arith;
    ready = ready;
    trusts = trusts;
  }
  handle-Arrived name g (next {n = n} {frame = frame} {frames = frames} h t s) (carried, others) up
        ready trusts ring =
      let seen = put name (pos n) g.seen in
      let taken = record (count received g) { seen = seen } in
      let served =
        send-Served c sound o parse_fields config int_text lag token quick taken (dumps t.reading)
          t.reading ready paired trusts carried.bytes carried.short carried.parsed t.within in
      let fits_line : ltb max_line_bytes (length frame) ≡ false = ground (arith, t.small) in
      let fresh : accept t.reading.device_id t.reading.seq g.seen ≡ (true, seen) =
        rw (t.named, t.numbered) (UpTo-accept name _ n g.seen up h) in
      let u =
        subst (λ p. Untouched taken p.1) served.sent
          (send-Untouched c (link c o parse_fields config int_text lag) token (dumps t.reading)
            taken) in
      let full : length served.after.world.cloud.readings ≤ max_stored_readings =
        rw
          (served.kept, append_bounded-last_items max_stored_readings g.world.cloud.readings _ ring)
          (length-last_items max_stored_readings _) in
      let apart : (x : Text) → same name x ≡ false → get x served.after.seen ≡ get x g.seen =
        λ x e. rw (u.same_seen, get-put name x (pos n) g.seen, e) refl in
      arrive name g taken t.reading (told k key f o s) frame frames served refl refl
        (rw (fits_line, t.decoded, fresh, served.sent) refl) ring apart
        (handle-Arrived name (count forwarded served.after) s others
          (rw u.same_seen (UpTo-put name n g.seen)) served.ready served.trusts full)

  -- The frames of a device, which the gateway reads as readings of it within the cloud's bounds with
  -- rising sequence numbers, at a gateway that has seen none so high, and that has no session, or one that is spent, or one that the cloud knows: if both ends have the
  -- same token and the cloud's key pair is a generated one, JSON carries the readings in at most 3056
  -- bytes each, the first key is trusted or pinned, the cloud's buffer holds at most its thousand
  -- readings, and every answer is there within the five seconds that the gateway waits, then the
  -- handler returns, however many frames there are and however often a new session is due. Their
  -- readings are in the cloud's buffer behind those of before, in the order of the frames, as far as
  -- its thousand places go, each marked as come over ML-KEM. All were counted as forwarded, none as
  -- failed, rejected or replayed, and the gateway can go on from there in the same way.
  pub handle_mlkem-told :
      (name : Text) {low high : ℕ} {frames : List Bytes} (g : Gateway (World F))
      (s : Stream k key f o name low frames high)
      → AllCarried k key f o parse_fields dumps s
      → UpTo name low g.seen
      → Ready g
      → Trusts c config g
      → length g.world.cloud.readings ≤ max_stored_readings
      → (after : Gateway (World F)) × (stored : List (Stored F)) × (handle_mlkem k key f c
            (link c o parse_fields config int_text lag)
            token
            dumps
            frames
            g
          ≡ (ok tt, after))
        × (after.world.cloud.readings
            ≡ last_items max_stored_readings (g.world.cloud.readings ++ stored))
        × (map (λ a. a.reading) stored ≡ told k key f o s)
        × All (λ a. a.channel ≡ mlkem) stored
        × (after.stats.forwarded_ok ≡ g.stats.forwarded_ok + length frames)
        × (after.stats.forward_failed ≡ g.stats.forward_failed)
        × (after.stats.frames_rejected ≡ g.stats.frames_rejected)
        × (after.stats.replays_dropped ≡ g.stats.replays_dropped)
        × UpTo name high after.seen
        × Ready after
        × Trusts c config after
  handle_mlkem-told name {high = high} {frames = frames} g s carried up ready trusts ring =
      let a = handle-Arrived name g s carried up ready trusts ring in
      let net = link c o parse_fields config int_text lag in
      let (highest, rejected, replayed, _, _) = subst (Passed g name high (length frames)) a.ran (
        handle-Passed k key f o (λ r. send c net token (dumps r))
          (λ r g. send-Untouched c net token (dumps r) g) name g s up) in
      (
        a.after, a.stored, a.ran, a.kept, a.same_readings, a.channels, a.successes, a.failures,
        rejected, replayed, highest, a.ready, a.trusts,
      )
