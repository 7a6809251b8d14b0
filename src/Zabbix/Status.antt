-- ===== src/Zabbix/Status.antt =====
-- server/zabbix/status.py: the state of the export and the choice of what goes into the log. Moments
-- of the monotonic clock are whole nanoseconds; `iso` is what _now_iso gives. Each method holds its
-- lock, so a call is one step.
use Prim.Native.String.{String}
use text.Mathlib.Text.{◌==◌ as str_eq}
use srp.Prelude.{
  ltb, leb, if◌then◌else◌, tenths, ℕ, ◌+◌, ◌-◌, ◌*◌, Bool, true, false, not, ◌||◌, Option, none,
  some, List, [], ◌∷◌,
}
use srp.Texts.{Dict, put, keep_if}

abbrev pub repeat_log_interval : ℕ
repeat_log_interval = 3600 * 1000000000

pub record ExportStatus : Type 0 where
  pub configured : Bool
  pub target : String
  pub started_at : String
  pub last_attempt_at : String
  pub last_success_at : String
  pub next_attempt_at : String
  pub devices : ℕ
  pub sent : ℕ
  pub accepted : ℕ
  pub rejected : ℕ
  pub skipped : ℕ
  pub unknown : ℕ
  pub last_error : String
  pub last_error_kind : String
  pub failing_since : String
  pub rejected_hosts : List String
  pub backoff_hosts : List String

abbrev pub new_status : String → ExportStatus
new_status iso = record {
  configured = false;
  target = "";
  started_at = iso;
  last_attempt_at = "";
  last_success_at = "";
  next_attempt_at = "";
  devices = 0;
  sent = 0;
  accepted = 0;
  rejected = 0;
  skipped = 0;
  unknown = 0;
  last_error = "";
  last_error_kind = "";
  failing_since = "";
  rejected_hosts = [];
  backoff_hosts = [];
}

pub record StatusStore : Type 0 where
  pub status : ExportStatus
  pub last_logged_kind : Option String
  pub last_logged_at : ℕ
  pub failing_since_mono : Option ℕ
  pub failed_attempts : ℕ
  pub last_success_sig : Option String
  pub last_success_log_at : ℕ

abbrev pub new_store : String → StatusStore
new_store iso = record {
  status = new_status iso;
  last_logged_kind = none;
  last_logged_at = 0;
  failing_since_mono = none;
  failed_attempts = 0;
  last_success_sig = none;
  last_success_log_at = 0;
}

unfoldable pub snapshot : StatusStore → ExportStatus
snapshot s = s.status

unfoldable pub set_configured : Bool → String → StatusStore → StatusStore
set_configured configured target s = record s {
  status = record s.status { configured = configured; target = target };
}

-- what setattr does to the fields that are given
unfoldable pub record_cycle : (ExportStatus → ExportStatus) → StatusStore → StatusStore
record_cycle set s = record s { status = set s.status }

abbrev pub same_kind : String → Option String → Bool
same_kind kind none = false
same_kind kind (some k) = str_eq kind k

abbrev pub start_outage : ℕ → String → Option ℕ → StatusStore → StatusStore
start_outage now iso none s = record s {
  status = record s.status { failing_since = iso };
  failing_since_mono = some now;
}
start_outage now iso (some since) s = s

-- one more failed attempt
abbrev pub failed_once : ℕ → String → StatusStore → StatusStore
failed_once now iso s =
    let started = start_outage now iso s.failing_since_mono s in
    record started { failed_attempts = started.failed_attempts + 1 }

-- now - last >= _REPEAT_LOG_INTERVAL_SEC
abbrev pub is_due : ℕ → ℕ → Bool
is_due last now = leb (last + repeat_log_interval) now

unfoldable pub should_log_error : String → ℕ → String → StatusStore → Bool × StatusStore
should_log_error kind now iso s =
    let failed = failed_once now iso s in
    if not (same_kind kind s.last_logged_kind) || is_due s.last_logged_at now
    then (true, record failed { last_logged_kind = some kind; last_logged_at = now })
    else (false, failed)

abbrev pub since : ℕ → Option ℕ → Option ℕ
since now none = none
since now (some t) = some (now - t)

unfoldable pub outage_seconds : ℕ → StatusStore → Option ℕ
outage_seconds now s = since now s.failing_since_mono

unfoldable pub should_log_success : String → ℕ → StatusStore → Bool × StatusStore
should_log_success signature now s =
    if not (same_kind signature s.last_success_sig) || is_due s.last_success_log_at now
    then (true, record s { last_success_sig = some signature; last_success_log_at = now })
    else (false, s)

unfoldable pub reset : String → StatusStore → StatusStore
reset iso s = new_store iso

-- the length of the outage, if there was one
unfoldable pub clear_error : ℕ → StatusStore → Option ℕ × StatusStore
clear_error now s = (
  since now s.failing_since_mono,
  record s {
    status = record s.status { last_error = ""; last_error_kind = ""; failing_since = "" };
    last_logged_kind = none;
    last_logged_at = 0;
    failing_since_mono = none;
    failed_attempts = 0;
  },
)

pub record BackoffStore : Type 0 where
  pub ttl : ℕ
  pub until : Dict ℕ

abbrev pub keys : Dict ℕ → List String
keys [] = []
keys ((k, t) ∷ d) = k ∷ keys d

unfoldable pub active : ℕ → BackoffStore → List String × BackoffStore
active now b = let left = keep_if (ltb now) b.until in (keys left, record b { until = left })

unfoldable pub put_all : List String → ℕ → Dict ℕ → Dict ℕ
put_all [] deadline d = d
put_all (host ∷ hosts) deadline d = put_all hosts deadline (put host deadline d)

unfoldable pub add : List String → ℕ → BackoffStore → BackoffStore
add hosts now b = record b { until = put_all hosts (now + b.ttl) b.until }

unfoldable pub clear : BackoffStore → BackoffStore
clear b = record b { until = [] }
