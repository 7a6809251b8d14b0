-- ===== src/Ingest/Api.antt =====
-- server/api.py: the handler of POST /ingest, for one request at a time. Every step that changes the
-- guards changes them also where the envelope is turned away after it. The server runs the handler on
-- several threads, and the test of the device limit and the insertion of the row are transactions of
-- their own: what is said of runs of requests holds where each is handled to its end before the next.
pub mod Verdicts
pub mod Replays
pub mod Limits
use Prim.Native.Char.{code}
use Prim.Native.String as Text
use Prim.Native.String.{String, ◌++◌ as text_append}
use text.Mathlib.Text.{◌==◌ as str_eq}
use srp.Guards.{Guards, check_rate_limit, retry_after_sec, has_seen, mark_seen, count_reject}
use srp.Ingest.Versions.{is_contract_compatible}
use srp.Ingest.Devices.{DeviceRow, device_known, count_devices}
use srp.Ingest.Pipeline.{
  Envelope, Pipeline, Clock, Rescored, Faults, Ended, finished, raised, value_failure,
  other_failure, ingest_envelope,
}
use srp.Prelude.{
  leb, ltb, if◌then◌else◌, Floats, ℕ, Bool, true, false, not, ◌&&◌, Option, none, some, List,
}

-- app.state.ingest_token, limits.DEMO_MODE and limits.MAX_DEVICES
pub record Settings : Type 0 where
  pub demo_mode : Bool
  pub ingest_token : String
  pub max_devices : Option ℕ

pub record Server (F : Type 0) : Type 0 where
  pub guards : Guards
  pub pipeline : Pipeline F

-- The wall clock and the monotonic one.
pub record Moment : Type 0 where
  pub wall : Clock
  pub monotonic : ℕ

pub data Reply : Type 0 where
  -- 403, 401, and 429 with its Retry-After
  read_only bad_token : Reply
  rate_limited : ℕ → Reply
  -- 200 with "duplicate"; 406, 403 and 422
  duplicate incompatible device_limit invalid : Reply
  -- 500, for an exception that is not caught
  server_error : Reply
  -- 200
  accepted : Rescored → Reply

-- request.headers.get("x-srp-token") or ""
abbrev pub token_of : Option String → String
token_of none = ""
token_of (some token) = token

unfoldable pub is_ascii : String → Bool
is_ascii Text.[] = true
is_ascii (Text.◌∷◌ c text) = ltb (code c) 128 && is_ascii text

-- not expected, or hmac.compare_digest(provided, expected), `none` where it raises a TypeError
unfoldable pub has_token : Settings → Option String → Option Bool
has_token settings token =
    if str_eq settings.ingest_token ""
    then some true
    else if is_ascii (token_of token) && is_ascii settings.ingest_token
    then some (str_eq (token_of token) settings.ingest_token)
    else none

unfoldable pub rate_key : String → String
rate_key device = text_append "device:" device

unfoldable pub is_over_limit : Option ℕ → String → List (String × DeviceRow) → Bool
is_over_limit none device devices = false
is_over_limit (some most) device devices =
    not (device_known device devices) && leb most (count_devices devices)

module _ {F : Type 0} where
  abbrev pub rejecting : String → Reply → Guards → Pipeline F → Reply × Server F
  rejecting reason reply g p = (reply, record { guards = count_reject reason g; pipeline = p })

  abbrev pub concluded : Option String → ℕ → Guards → Ended × Pipeline F → Reply × Server F
  concluded key now g (raised value_failure, after) = rejecting "invalid" invalid g after
  concluded key now g (raised other_failure, after) =
      (server_error, record { guards = g; pipeline = after })
  concluded key now g (finished rescored, after) =
      (accepted rescored, record { guards = mark_seen key now g; pipeline = after })

  abbrev pub with_token : Option Bool → Server F → Reply × Server F → Reply × Server F
  with_token none s given = (server_error, s)
  with_token (some false) s given = rejecting "auth" bad_token s.guards s.pipeline
  with_token (some true) s given = given

module _ {F : Type 0} ⦃fl : Floats F⦄ (from_iso : String → Option ℕ) (parses : Envelope F → Bool)
    (faults : Faults F) (settings : Settings) where
  -- the checks after the rate limit
  unfoldable pub ingest_checked : Moment → Envelope F → Guards → Pipeline F → Reply × Server F
  ingest_checked m env g p =
      if has_seen env.idempotency_key g
      then rejecting "duplicate" duplicate g p
      else if not (is_contract_compatible (some env.agent_version))
      then rejecting "incompatible" incompatible g p
      else if is_over_limit settings.max_devices env.device_id p.db.devices
      then rejecting "device_limit" device_limit g p
      else concluded env.idempotency_key m.monotonic g
          (ingest_envelope from_iso parses faults m.wall env p)

  unfoldable pub ingest : Moment → Option String → Envelope F → Server F → Reply × Server F
  ingest m token env s =
      let key = rate_key env.device_id in
      let checked = check_rate_limit key m.monotonic s.guards in
      let rest = ingest_checked m env checked.1 s.pipeline in
      if settings.demo_mode
      then (read_only, s)
      else with_token (has_token settings token) s (
          if not checked.0
          then rejecting "rate_limit" (rate_limited (retry_after_sec key m.monotonic checked.1))
              checked.1 s.pipeline
          else rest)
