-- ===== src/Ingest/Devices.antt =====
-- server/db.py: the table of devices. The columns that an envelope may leave out stand together as
-- `profile`, by name. A moment is a number of microseconds, and `from_iso` gives what
-- datetime.fromisoformat makes of a text, in UTC.
pub mod Replays
pub mod Rows
use Prim.Native.String.{String}
use Prim.Native.String as Text
use text.Mathlib.Text.{◌==◌ as str_eq}
use mathlib.Core.Option as Option
use srp.Texts.{Dict, lookup, put}
use srp.Netdisco.Sets.{contains}
use srp.Ingest.Versions.{Version, parse_version, version_lt}
use srp.Prelude.{
  ltb, leb, if◌then◌else◌, length, ℕ, zero, suc, ◌+◌, Bool, true, false, not, ◌&&◌, Option, none,
  some, List, [], ◌∷◌,
}

abbrev pub Profile : Type 0
Profile = String → Option String

-- a row of devices; the drift is kept as the two moments that it is the difference of
pub record DeviceRow : Type 0 where
  pub agent_version : Option String
  pub first_seen : String
  pub last_seen : String
  pub profile : Profile
  pub last_reported_ts : String
  pub clock_drift : Option (ℕ × ℕ)
  pub version_changed_at : Option String
  pub update_state : Option String
  pub update_error : Option String
  pub update_checked_at : Option String
  pub update_available_version : Option String

abbrev pub hour : ℕ
hour = 3600000000

abbrev pub five_minutes : ℕ
five_minutes = 300000000

-- COALESCE(excluded.column, devices.column)
abbrev pub coalesce : Option String → Option String → Option String
coalesce none old = old
coalesce (some new) old = some new

-- a IS b
abbrev pub same_text : Option String → Option String → Bool
same_text none none = true
same_text (some a) (some b) = str_eq a b
same_text _ _ = false

abbrev pub touch_columns : List String
touch_columns =
    "hostname" ∷ "site_code" ∷ "site_name" ∷ "org_code" ∷ "dept_code" ∷ "comment"
    ∷ "owner_full_name" ∷ "owner_position" ∷ "owner_phone" ∷ []

unfoldable pub only : List String → Profile → Profile
only columns profile column = if contains columns column then profile column else none

-- text[:n]
unfoldable pub first_chars : ℕ → String → String
first_chars zero s = ""
first_chars (suc n) Text.[] = ""
first_chars (suc n) (Text.◌∷◌ c s) = Text.◌∷◌ c (first_chars n s)

-- What `excluded` holds, and what the clock says.
pub record Touch : Type 0 where
  pub now : ℕ
  pub agent_version : String
  pub profile : Profile
  pub received_at : String
  pub last_reported_ts : String
  pub clock_drift : Option (ℕ × ℕ)
  pub envelope_ts : Option String

pub record UpdateStatus : Type 0 where
  pub state : Option String
  pub error : Option String
  pub checked_at : Option String
  pub available_version : Option String

unfoldable pub status_row : UpdateStatus → DeviceRow → DeviceRow
status_row u row = record row {
  update_state = u.state;
  update_error = Option.map (first_chars 500) u.error;
  update_checked_at = u.checked_at;
  update_available_version = u.available_version;
}

abbrev pub is_after : Option ℕ → Option ℕ → Bool
is_after (some a) (some b) = ltb b a
is_after _ _ = false

-- changed_dt is not None and now - changed_dt > _VERSION_STALENESS_ESCAPE
abbrev pub is_long_ago : ℕ → Option ℕ → Bool
is_long_ago now none = false
is_long_ago now (some changed) = ltb (changed + hour) now

abbrev pub or_incoming : Option String → String → String
or_incoming none incoming = incoming
or_incoming (some stored) incoming = stored

-- The new status is a replay of one older than the one stored, whose own time is not to come.
abbrev pub is_replay : ℕ → Option ℕ → Option ℕ → Bool
is_replay now (some stored) (some incoming) = leb stored (now + five_minutes) && ltb incoming stored
is_replay now _ _ = false

module _ (from_iso : String → Option ℕ) where
  -- _parse_iso(value)
  unfoldable pub parse_iso : Option String → Option ℕ
  parse_iso none = none
  parse_iso (some value) = if str_eq value "" then none else from_iso value

  -- the part of the function where both versions are known
  unfoldable pub resolve_known :
      ℕ → String → Version → Option String → String → Version → Option String → String
  resolve_known now stored stored_parsed changed_at incoming incoming_parsed envelope_ts =
      let changed = parse_iso changed_at in
      if not (version_lt incoming_parsed stored_parsed)
      then incoming
      else if is_after (parse_iso envelope_ts) changed
      then incoming
      else if is_long_ago now changed
      then incoming
      else stored

  unfoldable pub resolve_agent_version :
      ℕ → Option String → Option String → String → Option String → String
  resolve_agent_version now stored changed_at incoming envelope_ts =
      elim (parse_version (some incoming)) [
        | none ↦ or_incoming stored incoming
        | some incoming_parsed ↦ elim stored [
          | none ↦ incoming
          | some text ↦ elim (parse_version (some text)) [
            | none ↦ incoming
            | some stored_parsed ↦
                resolve_known now text stored_parsed changed_at incoming incoming_parsed envelope_ts
          ]
        ]
      ]

  -- INSERT
  unfoldable pub new_row : Touch → DeviceRow
  new_row t = record {
    agent_version = some (resolve_agent_version t.now none none t.agent_version t.envelope_ts);
    first_seen = t.received_at;
    last_seen = t.received_at;
    profile = t.profile;
    last_reported_ts = t.last_reported_ts;
    clock_drift = t.clock_drift;
    version_changed_at = some t.received_at;
    update_state = none;
    update_error = none;
    update_checked_at = none;
    update_available_version = none;
  }

  -- ON CONFLICT(device_id) DO UPDATE
  unfoldable pub updated_row : Touch → DeviceRow → DeviceRow
  updated_row t row =
      let resolved = some (
        resolve_agent_version t.now row.agent_version row.version_changed_at t.agent_version
          t.envelope_ts) in
      record row {
        agent_version = resolved;
        last_seen = t.received_at;
        profile = λ column. coalesce (t.profile column) (row.profile column);
        last_reported_ts = t.last_reported_ts;
        clock_drift = t.clock_drift;
        version_changed_at =
            if same_text resolved row.agent_version
            then row.version_changed_at
            else some t.received_at;
      }

  abbrev pub row_after : Touch → Option DeviceRow → DeviceRow
  row_after t none = new_row t
  row_after t (some row) = updated_row t row

  unfoldable pub upsert_device : String → Touch → Dict DeviceRow → Dict DeviceRow
  upsert_device device t devices = put device (row_after t (lookup device devices)) devices

  -- The statement is that of `upsert_device` for fewer columns.
  unfoldable pub touch_device : String → Touch → Dict DeviceRow → Dict DeviceRow
  touch_device device t devices =
      upsert_device device (record t { profile = only touch_columns t.profile }) devices

  unfoldable pub set_update_status : ℕ → String → UpdateStatus → Dict DeviceRow → Dict DeviceRow
  set_update_status now device u devices = elim (lookup device devices) [
    | none ↦ devices
    | some row ↦
        if is_replay now (parse_iso row.update_checked_at) (parse_iso u.checked_at)
        then devices
        else put device (status_row u row) devices
  ]

unfoldable pub device_known : String → Dict DeviceRow → Bool
device_known device devices = elim (lookup device devices) [ none ↦ false | some _ ↦ true ]

abbrev pub count_devices : Dict DeviceRow → ℕ
count_devices devices = length devices
