-- ===== src/Ingest/Examples.antt =====
-- server/api.py, server/pipeline.py, server/db.py: runs with one computer, over tenths. A text of
-- digits is the moment that it counts.
use Prim.Native.String.{String}
use text.Mathlib.Text.{◌==◌ as str_eq}
use srp.Texts.{Dict, lookup, put, AreUnique}
use srp.Trust.States.{CollectorStatus, inconsistent}
use srp.Trust.Domains.{trusted, resolve_domain_trust}
use srp.Trust.Validators.{Reading}
use srp.Guards.{count_reject, Guards, check_rate_limit, has_seen, recent, trim_windows}
use srp.Rescore.{new_queue}
use srp.Netdisco.Sets.{contains as in_set}
use srp.Ingest.Versions.{
  Version, parse_version, version_lt, is_contract_compatible, split_dots, int_of, rstrip, lstrip,
  read_digits,
}
use srp.Ingest.Devices.{
  DeviceRow, Touch, UpdateStatus, Profile, parse_iso, touch_device, upsert_device, updated_row,
  resolve_agent_version, resolve_known, device_known, coalesce, only, touch_columns,
}
use srp.Ingest.Sources.{Payload, extract_reading}
use srp.Ingest.Evaluate.{SourceRow, DeviceTrust, evaluate_trust, build_source_trust_map}
use srp.Ingest.Evaluate.Evidence.{
  evidence_of, row_written, written, is_evidence, evaluate_trust-evidence, no_space,
  evaluate_trust-empty,
}
use srp.Ingest.Evaluate.Repeats.{evaluate_trust-repeat}
use srp.Ingest.Pipeline.{
  Envelope, MsgType, heartbeat, liveness, events, events_step, Pipeline, Rescored, queued, Faults,
  value_failure, steps_of, kind_steps, run_steps, apply_step, touched, rescore, ingest_envelope,
  no_trust_rows,
}
use srp.Ingest.Pipeline.Scope.{IsScoped, ingest_envelope-IsScoped}
use srp.Ingest.Api.{
  Settings, Server, Moment, accepted, invalid, ingest, has_token, is_ascii, rate_key, is_over_limit,
  ingest_checked,
}
use srp.Ingest.Api.Verdicts.{IsOutcome, is_let_in, ingest-IsOutcome}
use srp.Ingest.Api.Replays.{Requests, serve, ingest-serve}
use srp.Ingest.Api.Limits.{devices_of, serve-count_devices}
use srp.Prelude.{
  if◌then◌else◌, tenths, pos, ℕ, ◌≤◌, ◌≡◌, refl, ◌≢◌, Bool, true, false, Option, none, some, [],
  ◌∷◌, arith,
}

-- A text of one digit counts the seconds, in microseconds.
abbrev clock : String → Option ℕ
clock text =
    if str_eq text "1"
    then some 1000000
    else if str_eq text "2"
    then some 2000000
    else if str_eq text "3"
    then some 3000000
    else none

abbrev pc : String
pc = "pc"

abbrev nothing_sent : Profile
nothing_sent column = none

abbrev named : Profile
named column = if str_eq column "hostname" then some "PC-1" else none

abbrev old_row : DeviceRow
old_row = record {
  agent_version = some "0.2.0";
  first_seen = "1";
  last_seen = "2";
  profile = named;
  last_reported_ts = "2";
  clock_drift = none;
  version_changed_at = some "2";
  update_state = some "ok";
  update_error = none;
  update_checked_at = some "2";
  update_available_version = none;
}

abbrev late_touch : Touch
late_touch = record {
  now = 3000000;
  agent_version = "0.1.9";
  profile = nothing_sent;
  received_at = "3";
  last_reported_ts = "1";
  clock_drift = none;
  envelope_ts = some "1";
}

abbrev fleet : Dict DeviceRow
fleet = ("pc", old_row) ∷ []

version_read :
    parse_version (some " 1.12.0_3")
    ≡ some (record { major = pos 1; minor = pos 12; patch = pos 3 })
unfolding parse_version split_dots int_of rstrip lstrip read_digits
version_read = refl

version_malformed : parse_version (some "1.2.x") ≡ none
unfolding parse_version split_dots int_of rstrip lstrip read_digits
version_malformed = refl

abbrev touched_row : DeviceRow
touched_row = record {
  agent_version = some "0.2.0";
  first_seen = "1";
  last_seen = "3";
  profile = λ column. coalesce (only touch_columns nothing_sent column) (named column);
  last_reported_ts = "1";
  clock_drift = none;
  version_changed_at = some "2";
  update_state = some "ok";
  update_error = none;
  update_checked_at = some "2";
  update_available_version = none;
}

-- An envelope that was sent late leaves the version as it is.
version_kept : touch_device clock "pc" late_touch fleet ≡ ("pc", touched_row) ∷ []
unfolding touch_device upsert_device updated_row resolve_agent_version resolve_known parse_iso
    version_lt parse_version split_dots int_of rstrip lstrip read_digits lookup put
version_kept = refl

abbrev zero_two : Version
zero_two = record { major = pos 0; minor = pos 2; patch = pos 0 }

stored_version : parse_version (some "0.2.0") ≡ some zero_two
unfolding parse_version split_dots int_of rstrip lstrip read_digits
stored_version = refl

moments_read :
    (parse_iso clock (some "2") ≡ some 2000000) × (parse_iso clock (some "1") ≡ some 1000000)
unfolding parse_iso
moments_read = (refl, refl)

abbrev old_status : UpdateStatus
old_status = record {
  state = some "failed";
  error = some "no";
  checked_at = some "1";
  available_version = none;
}

abbrev disk : Reading ℕ
disk = record {
  num = λ key. if str_eq key "power_on_hours" then some 1500 else none;
  serial_hash = some "s";
  smart_attrs = none;
  model = "M";
  firmware = "F";
  quality = [];
  signal_pcts = [];
  counts = [];
}

abbrev readings : Payload ℕ
readings = record {
  storage = some disk ∷ [];
  free_space_pct = none;
  cpu_perf_pct = none;
  reliability_stability_index = none;
  avg_boot_ms = none;
  network_quality = [];
  adapter_signals = [];
}

abbrev health : Dict CollectorStatus
health = ("storage_reliability", CollectorStatus.ok) ∷ ("free_space", CollectorStatus.ok) ∷ []

health_unique : AreUnique health
unfolding lookup
health_unique = (refl, (refl, tt))

evaluate_trust-evidence_example :
    evidence_of (evaluate_trust {F = ℕ} readings health "1" "2" no_trust_rows) "storage_reliability"
    ≡ (if is_evidence {F = ℕ} readings "storage_reliability" (lookup "storage_reliability" health)
        then some "2"
        else none)
unfolding lookup
evaluate_trust-evidence_example =
    evaluate_trust-evidence readings health "1" "2" no_trust_rows "storage_reliability"
      health_unique

evaluate_trust-empty_example :
    (resolve_domain_trust "disk_fill"
      (build_source_trust_map (evaluate_trust {F = ℕ} readings health "1" "2" no_trust_rows))).state
    ≢ trusted
unfolding lookup
evaluate_trust-empty_example =
    evaluate_trust-empty readings health "1" "2" no_trust_rows "disk_fill" "free_space"
      (no_space refl) health_unique refl

-- The same disk in a payload with more to it.
abbrev more_readings : Payload ℕ
more_readings = record readings { free_space_pct = some 300 }

abbrev disk_health : Dict CollectorStatus
disk_health = ("storage_reliability", CollectorStatus.ok) ∷ []

disk_health_unique : AreUnique disk_health
unfolding lookup
disk_health_unique = (refl, tt)

abbrev twice : DeviceTrust ℕ
twice =
    evaluate_trust more_readings disk_health "2" "3"
      (evaluate_trust readings health "1" "2" no_trust_rows)

abbrev once : DeviceTrust ℕ
once = evaluate_trust readings health "1" "2" no_trust_rows

abbrev disk_row : SourceRow ℕ
disk_row =
    row_written more_readings disk_health "2" "3" once "storage_reliability" CollectorStatus.ok

row_found : lookup "storage_reliability" twice.sources ≡ some disk_row
unfolding evaluate_trust lookup in_set
row_found =
    written more_readings disk_health "2" "3" once "storage_reliability" CollectorStatus.ok
      disk_health_unique refl refl

evaluate_trust-repeat_example : disk_row.semantic_status ≢ inconsistent
unfolding lookup extract_reading
evaluate_trust-repeat_example =
    evaluate_trust-repeat readings more_readings disk health disk_health "1" "2" "2" "3"
      no_trust_rows disk_row health_unique disk_health_unique refl refl refl refl row_found

abbrev message : MsgType → Envelope ℕ
message kind = record {
  device_id = "pc";
  agent_version = "0.2.0";
  msg_type = kind;
  ts = "1";
  payload = record { readings = readings; identity = nothing_sent; status = old_status };
  source_health = health;
  profile = named;
  idempotency_key = some "k";
}

abbrev fresh_guards : Guards
fresh_guards = record { seen_keys = []; device_windows = []; reject_counts = [] }

abbrev fresh_pipeline : Pipeline ℕ
fresh_pipeline = record {
  db = record { devices = []; trust = []; writes = [] };
  rescore_queue = some new_queue;
  recomputed = [];
}

abbrev fresh_server : Server ℕ
fresh_server = record { guards = fresh_guards; pipeline = fresh_pipeline }

abbrev settings : Settings
settings = record { demo_mode = false; ingest_token = "t"; max_devices = some 3 }

abbrev moment : ℕ → Moment
moment n = record { wall = record { now = 2000000; received_at = "2" }; monotonic = n }

abbrev well_formed : Envelope ℕ → Bool
well_formed env = true

-- Nothing raises.
abbrev calm : Faults ℕ
calm = record {
  at_step = λ step env db. none;
  trust_left = λ env rows. rows;
  at_scores = λ env db. none;
}

ingest-IsOutcome_example :
    IsOutcome clock well_formed calm settings
      (moment 5)
      (some "t")
      (message heartbeat)
      fresh_server
      (is_let_in clock well_formed calm settings
        (moment 5)
        (some "t")
        (message heartbeat)
        fresh_server)
      (ingest clock well_formed calm settings
        (moment 5)
        (some "t")
        (message heartbeat)
        fresh_server)
ingest-IsOutcome_example =
    ingest-IsOutcome clock well_formed calm settings (moment 5) (some "t") (message heartbeat)
      fresh_server

ingest_envelope-IsScoped_example :
    IsScoped clock well_formed calm
      (moment 5).wall
      (message heartbeat)
      fresh_pipeline
      (ingest_envelope clock well_formed calm (moment 5).wall (message heartbeat) fresh_pipeline).0
      (ingest_envelope clock well_formed calm (moment 5).wall (message heartbeat) fresh_pipeline).1
ingest_envelope-IsScoped_example =
    ingest_envelope-IsScoped clock well_formed calm (moment 5).wall (message heartbeat)
      fresh_pipeline

-- Events with a number that the table cannot hold.
abbrev overflow : Faults ℕ
overflow = record {
  at_step = λ step env db. elim step [ events_step ↦ some value_failure | _ ↦ none ];
  trust_left = λ env rows. rows;
  at_scores = λ env db. none;
}

-- They are answered with 422, the row of the device is there all the same, and the key is not marked.
half_stored :
    let given =
      ingest clock well_formed overflow settings
        (moment 5)
        (some "t")
        (message events)
        fresh_server in
    (given.0 ≡ invalid)
    × (device_known "pc" given.1.pipeline.db.devices ≡ true)
    × (given.1.guards.seen_keys ≡ [])
unfolding ingest ingest_checked has_token is_ascii rate_key check_rate_limit recent trim_windows
    has_seen is_contract_compatible parse_version split_dots int_of rstrip lstrip read_digits
    is_over_limit device_known ingest_envelope steps_of kind_steps run_steps apply_step touched
    touch_device upsert_device lookup put count_reject
half_stored = (refl, refl, refl)

abbrev first_server : Server ℕ
first_server =
    (ingest clock well_formed calm settings (moment 5) (some "t") (message heartbeat)
      fresh_server).1

abbrev requests : Requests clock well_formed calm settings
requests = (moment 6, some "x", message liveness) ∷ []

taken :
    (ingest clock well_formed calm settings
      (moment 5)
      (some "t")
      (message heartbeat)
      fresh_server).0
    ≡ accepted queued
unfolding ingest ingest_checked has_token is_ascii rate_key check_rate_limit recent trim_windows
    has_seen is_contract_compatible parse_version split_dots int_of rstrip lstrip read_digits
    is_over_limit device_known ingest_envelope steps_of kind_steps run_steps rescore lookup put
taken = refl

ingest-serve_example :
    ((again : Rescored)
      → (ingest clock well_formed calm settings
          (moment 9)
          (some "t")
          (message heartbeat)
          (serve clock well_formed calm settings requests first_server)).0
        ≢ accepted again)
    × ((ingest clock well_formed calm settings
          (moment 9)
          (some "t")
          (message heartbeat)
          (serve clock well_formed calm settings requests first_server)).1.pipeline
        ≡ (serve clock well_formed calm settings requests first_server).pipeline)
ingest-serve_example =
    ingest-serve clock well_formed calm settings "k" (moment 5) (moment 9) (some "t") (some "t")
      (message heartbeat) (message heartbeat) requests fresh_server queued refl refl refl tt taken
      (omega arith, omega arith, tt)

abbrev more_requests : Requests clock well_formed calm settings
more_requests = (moment 5, some "t", message heartbeat) ∷ requests

serve-count_devices_example :
    devices_of clock well_formed calm settings 3
      (serve clock well_formed calm settings more_requests fresh_server)
    ≤ 3
serve-count_devices_example =
    serve-count_devices clock well_formed calm settings 3 more_requests fresh_server refl
      (omega arith)
