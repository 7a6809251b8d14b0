-- ===== src/Ingest/Pipeline.antt =====
-- server/pipeline.py: what is done with an envelope that was let in. Each call of server/db.py is a step
-- with a transaction of its own: where one raises, it is rolled back, what the steps before it wrote
-- stays, and the ones after it do not come. Which step raises, on what rows, is given by `Faults`; the
-- payloads on which one does (an entry of storage that is no dict, a number of more than 64 bits, a text
-- that cannot be encoded) are not told apart from others. The tables other than devices and trust are
-- kept as the writes made to them, the newest first; of a recompute of the scores, only that it runs.
-- `parses` says whether parse_payload accepts the payload.
pub mod Steps
pub mod Scores
pub mod Scope
use Prim.Native.String.{String}
use srp.Texts.{Dict, lookup, put}
use srp.Netdisco.Sets.{contains}
use srp.Rescore.{RescoreQueue, submit}
use srp.Trust.States.{CollectorStatus}
use srp.Ingest.Devices.{
  Profile, DeviceRow, Touch, UpdateStatus, parse_iso, upsert_device, touch_device,
  set_update_status,
}
use srp.Ingest.Sources.{Payload}
use srp.Ingest.Evaluate.{DeviceTrust, evaluate_trust}
use srp.Prelude.{
  if◌then◌else◌, Floats, ℕ, Bool, true, false, not, ◌&&◌, Option, none, some, List, [], ◌∷◌, ◌++◌,
}

pub data MsgType : Type 0 where
  inventory historical heartbeat events print_jobs liveness update_status : MsgType

-- What a payload holds: the readings, the columns of an inventory, and a self-update status.
pub record Content (F : Type 0) : Type 0 where
  pub readings : Payload F
  pub identity : Profile
  pub status : UpdateStatus

-- class Envelope; the name and the site columns stand in `profile`, by name
pub record Envelope (F : Type 0) : Type 0 where
  pub device_id : String
  pub agent_version : String
  pub msg_type : MsgType
  pub ts : String
  pub payload : Content F
  pub source_health : Dict CollectorStatus
  pub profile : Profile
  pub idempotency_key : Option String

pub data Write (F : Type 0) : Type 0 where
  store_inventory : String → String → Content F → Write F
  store_historical store_heartbeat : String → String → Content F → String → Option (ℕ × ℕ) → Write F
  store_disk_readings : String → Content F → String → String → Write F
  store_printer_ip_hints : String → Content F → Write F
  store_net_snapshot : String → String → Content F → Write F
  store_events : String → Content F → String → Option (ℕ × ℕ) → Write F
  store_print_jobs : String → Content F → String → Write F

pub record Db (F : Type 0) : Type 0 where
  pub devices : Dict DeviceRow
  pub trust : Dict (DeviceTrust F)
  pub writes : List (Write F)

-- The database, _RESCORE_QUEUE, and the devices whose scores were recomputed, the newest first.
pub record Pipeline (F : Type 0) : Type 0 where
  pub db : Db F
  pub rescore_queue : Option RescoreQueue
  pub recomputed : List String

-- The wall clock, as a number and as a text.
pub record Clock : Type 0 where
  pub now : ℕ
  pub received_at : String

pub data Rescored : Type 0 where
  skipped queued done : Rescored

abbrev pub is_no_trust : MsgType → Bool
is_no_trust liveness = true
is_no_trust update_status = true
is_no_trust _ = false

abbrev pub is_no_rescore : MsgType → Bool
is_no_rescore events = true
is_no_rescore print_jobs = true
is_no_rescore liveness = true
is_no_rescore update_status = true
is_no_rescore _ = false

abbrev pub identity_columns : List String
identity_columns = "hostname" ∷ "manufacturer" ∷ "model" ∷ "chassis" ∷ []

-- inv.get(…) for the columns of the machine, and the envelope's own for the others
unfoldable pub inventory_profile : Profile → Profile → Profile
inventory_profile identity profile column =
    if contains identity_columns column then identity column else profile column

abbrev pub has_health : Dict CollectorStatus → Bool
has_health [] = false
has_health (h ∷ health) = true

abbrev pub drift_of : Option ℕ → Option ℕ → Option (ℕ × ℕ)
drift_of (some recv) (some reported) = some (recv, reported)
drift_of _ _ = none

module _ {F : Type 0} where
  abbrev pub no_trust_rows : DeviceTrust F
  no_trust_rows = record { sources = []; last_good = []; trust = none }

  abbrev pub trust_or_empty : Option (DeviceTrust F) → DeviceTrust F
  trust_or_empty none = no_trust_rows
  trust_or_empty (some t) = t

module _ {F : Type 0} (from_iso : String → Option ℕ) where
  unfoldable pub clock_drift : Clock → Envelope F → Option (ℕ × ℕ)
  clock_drift c env =
      drift_of (parse_iso from_iso (some c.received_at)) (parse_iso from_iso (some env.ts))

  unfoldable pub touch_of : Clock → Envelope F → Profile → Touch
  touch_of c env profile = record {
    now = c.now;
    agent_version = env.agent_version;
    profile = profile;
    received_at = c.received_at;
    last_reported_ts = env.ts;
    clock_drift = clock_drift c env;
    envelope_ts = some env.ts;
  }

  unfoldable pub touched : Clock → Envelope F → Dict DeviceRow → Dict DeviceRow
  touched c env devices = touch_device from_iso env.device_id (touch_of c env env.profile) devices

-- the calls of server/db.py and evaluate_trust, as steps
pub data Step : Type 0 where
  upsert_step touch_step status_step : Step
  inventory_step historical_step disks_step hints_step snapshot_step : Step
  heartbeat_step events_step jobs_step : Step
  trust_step : Step

-- ValueError and its kind, which the handler catches, or another exception
pub data Failure : Type 0 where
  value_failure other_failure : Failure

-- Where a step raises, what a failing evaluate_trust, which writes source by source, leaves of the rows of
-- the device, and where recompute_scores raises.
pub record Faults (F : Type 0) : Type 0 where
  pub at_step : Step → Envelope F → Db F → Option Failure
  pub trust_left : Envelope F → DeviceTrust F → DeviceTrust F
  pub at_scores : Envelope F → Db F → Option Failure

-- the branches over env.msg_type
unfoldable pub kind_steps : MsgType → List Step
kind_steps inventory = upsert_step ∷ inventory_step ∷ []
kind_steps historical = touch_step ∷ historical_step ∷ disks_step ∷ hints_step ∷ snapshot_step ∷ []
kind_steps heartbeat = touch_step ∷ heartbeat_step ∷ []
kind_steps events = touch_step ∷ events_step ∷ []
kind_steps print_jobs = touch_step ∷ jobs_step ∷ []
kind_steps liveness = touch_step ∷ []
kind_steps update_status = touch_step ∷ status_step ∷ []

module _ {F : Type 0} where
  unfoldable pub steps_of : Envelope F → List Step
  steps_of env =
      kind_steps env.msg_type
      ++ (if not (is_no_trust env.msg_type) && has_health env.source_health
          then trust_step ∷ []
          else [])

  abbrev pub with_write : Write F → Db F → Db F
  with_write w db = record { devices = db.devices; trust = db.trust; writes = w ∷ db.writes }

  abbrev pub with_devices : Dict DeviceRow → Db F → Db F
  with_devices devices db = record { devices = devices; trust = db.trust; writes = db.writes }

  abbrev pub with_trust : String → DeviceTrust F → Db F → Db F
  with_trust device rows db = record {
    devices = db.devices;
    trust = put device rows db.trust;
    writes = db.writes;
  }

  -- What a step leaves that raises.
  abbrev pub left_step : Faults F → Envelope F → Step → Db F → Db F
  left_step faults env trust_step db =
      with_trust env.device_id
        (faults.trust_left env (trust_or_empty (lookup env.device_id db.trust))) db
  left_step faults env _ db = db

module _ {F : Type 0} ⦃fl : Floats F⦄ (from_iso : String → Option ℕ) where
  unfoldable pub apply_step : Clock → Envelope F → Step → Db F → Db F
  apply_step c env upsert_step db =
      with_devices
        (upsert_device from_iso env.device_id
          (touch_of from_iso c env (inventory_profile env.payload.identity env.profile)) db.devices)
        db
  apply_step c env touch_step db = with_devices (touched from_iso c env db.devices) db
  apply_step c env status_step db =
      with_devices (set_update_status from_iso c.now env.device_id env.payload.status db.devices) db
  apply_step c env inventory_step db =
      with_write (store_inventory env.device_id env.ts env.payload) db
  apply_step c env historical_step db =
      with_write
        (store_historical env.device_id env.ts env.payload c.received_at
          (clock_drift from_iso c env))
        db
  apply_step c env disks_step db =
      with_write (store_disk_readings env.device_id env.payload env.ts c.received_at) db
  apply_step c env hints_step db = with_write (store_printer_ip_hints env.device_id env.payload) db
  apply_step c env snapshot_step db =
      with_write (store_net_snapshot env.device_id env.ts env.payload) db
  apply_step c env heartbeat_step db =
      with_write
        (store_heartbeat env.device_id env.ts env.payload c.received_at
          (clock_drift from_iso c env))
        db
  apply_step c env events_step db =
      with_write (store_events env.device_id env.payload c.received_at (clock_drift from_iso c env))
        db
  apply_step c env jobs_step db =
      with_write (store_print_jobs env.device_id env.payload c.received_at) db
  apply_step c env trust_step db =
      with_trust env.device_id
        (evaluate_trust env.payload.readings env.source_health env.ts c.received_at
          (trust_or_empty (lookup env.device_id db.trust)))
        db

  -- The steps in turn, up to the first that raises.
  unfoldable pub run_steps :
      Faults F → Clock → Envelope F → List Step → Db F → Option Failure × Db F
  run_steps faults c env [] db = (none, db)
  run_steps faults c env (step ∷ steps) db =
      let rest = run_steps faults c env steps (apply_step c env step db) in
      elim (faults.at_step step env db) [
        | none ↦ rest
        | some failure ↦ (some failure, left_step faults env step db)
      ]

-- What ingest_envelope comes to: its result, or what it raises.
pub data Ended : Type 0 where
  finished : Rescored → Ended
  raised : Failure → Ended

module _ {F : Type 0} where
  abbrev pub rescore_now : Faults F → Envelope F → Pipeline F → Option Failure → Ended × Pipeline F
  rescore_now faults env p none =
      (finished done, record p { recomputed = env.device_id ∷ p.recomputed })
  rescore_now faults env p (some failure) = (raised failure, p)

  abbrev pub rescore_by :
      Faults F → Envelope F → Pipeline F → Option RescoreQueue → Ended × Pipeline F
  rescore_by faults env p (some q) =
      (finished queued, record p { rescore_queue = some (submit env.device_id q) })
  rescore_by faults env p none = rescore_now faults env p (faults.at_scores env p.db)

  -- The scores: left alone, handed to the queue, or recomputed at once.
  unfoldable pub rescore : Faults F → Envelope F → Pipeline F → Ended × Pipeline F
  rescore faults env p =
      if is_no_rescore env.msg_type
      then (finished skipped, p)
      else rescore_by faults env p p.rescore_queue

  abbrev pub with_db : Db F → Pipeline F → Pipeline F
  with_db db p = record { db = db; rescore_queue = p.rescore_queue; recomputed = p.recomputed }

  abbrev pub after_steps :
      Faults F → Envelope F → Pipeline F → Option Failure × Db F → Ended × Pipeline F
  after_steps faults env p (none, db) = rescore faults env (with_db db p)
  after_steps faults env p (some failure, db) = (raised failure, with_db db p)

module _ {F : Type 0} ⦃fl : Floats F⦄ (from_iso : String → Option ℕ) (parses : Envelope F → Bool)
    (faults : Faults F) where
  unfoldable pub ingest_envelope : Clock → Envelope F → Pipeline F → Ended × Pipeline F
  ingest_envelope c env p =
      if parses env
      then after_steps faults env p (run_steps from_iso faults c env (steps_of env) p.db)
      else (raised value_failure, p)
