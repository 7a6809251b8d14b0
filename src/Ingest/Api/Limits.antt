-- ===== src/Ingest/Api/Limits.antt =====
-- server/limits.py, server/api.py: the number of devices stays within MAX_DEVICES.
use Prim.Native.String.{String}
use mathlib.Core.Path.{subst}
use srp.Texts.{Dict, lookup}
use srp.Ingest.Devices.{
  DeviceRow, Touch, row_after, upsert_device, touch_device, device_known, count_devices,
}
use srp.Guards.{Guards, check_rate_limit, has_seen}
use srp.Ingest.Versions.{is_contract_compatible}
use srp.Ingest.Devices.Rows.{
  lookup-put_known, Grows, upsert_device-Grows, length-set_update_status, status_found, not_known,
  known_of_found,
}
use srp.Ingest.Pipeline.{
  Envelope, Db, Pipeline, Clock, Step, Failure, Faults, Ended, touched, finished, raised,
  value_failure, other_failure, upsert_step, touch_step, status_step, trust_step, with_devices,
  with_db, left_step, apply_step, run_steps, steps_of, after_steps, ingest_envelope,
}
use srp.Ingest.Pipeline.Steps.{run_steps-keeps}
use srp.Ingest.Pipeline.Scores.{db-rescore}
use srp.Ingest.Api.{
  Settings, Server, Moment, Reply, is_over_limit, has_token, rate_key, concluded, with_token,
  ingest_checked, ingest,
}
use srp.Ingest.Api.Verdicts.{guards_checked}
use srp.Ingest.Api.Replays.{Requests, serve}
use srp.Prelude.{
  leb, if◌then◌else◌, Bool-cases, Floats, tenths, ℕ, ◌≤◌, ◌<◌, ◌≡◌, refl, sym, ◌≢◌, ◌⊎◌, inl, inr,
  Bool, true, false, not, Option, none, some, [], ◌∷◌, arith,
}

module _ {F : Type 0} ⦃fl : Floats F⦄ (from_iso : String → Option ℕ) (faults : Faults F) (c : Clock)
    (env : Envelope F) (most : ℕ) where
  -- There is a row of the device, or room for one.
  abbrev HasRoom : Db F → Type 0
  HasRoom db =
      ((device_known env.device_id db.devices ≡ true) × (count_devices db.devices ≤ most))
      ⊎ (count_devices db.devices < most)

  grown_room :
      (before : Db F) (devices : Dict DeviceRow)
      → Grows env.device_id before.devices devices
      → lookup env.device_id devices ≢ none
      → HasRoom before
      → HasRoom (with_devices devices before)
  grown_room before devices grows found (inl (known, few)) = inl (
    known_of_found env.device_id devices found,
    omega (arith, grows.0 (not_known env.device_id before.devices known), few),
  )
  grown_room before devices grows found (inr fewer) =
      inl (known_of_found env.device_id devices found, omega (arith, grows.1, fewer))

  status_room : (db : Db F) → HasRoom db → HasRoom (apply_step from_iso c env status_step db)
  unfolding apply_step
  status_room db (inl (known, few)) = inl (
    known_of_found env.device_id _ (
        status_found from_iso c.now env.device_id env.payload.status db.devices
          (not_known env.device_id db.devices known)),
    omega (
      arith,
      length-set_update_status from_iso c.now env.device_id env.payload.status db.devices,
      few,
    ),
  )
  status_room db (inr fewer) = inr (
      omega (
        arith,
        length-set_update_status from_iso c.now env.device_id env.payload.status db.devices,
        fewer,
      ))

  upsert_room :
      (t : Touch) (db : Db F)
      → HasRoom db
      → HasRoom (with_devices (upsert_device from_iso env.device_id t db.devices) db)
  upsert_room t db room =
      grown_room db (upsert_device from_iso env.device_id t db.devices)
        (upsert_device-Grows from_iso env.device_id t db.devices)
        (unfold upsert_device in
          lookup-put_known env.device_id (row_after from_iso t (lookup env.device_id db.devices))
            db.devices)
        room

  apply_step-HasRoom :
      (step : Step) (db : Db F) → HasRoom db → HasRoom (apply_step from_iso c env step db)
  unfolding apply_step touched touch_device
  apply_step-HasRoom upsert_step db room = upsert_room _ db room
  apply_step-HasRoom touch_step db room = upsert_room _ db room
  apply_step-HasRoom status_step db room = status_room db room
  apply_step-HasRoom _ db room = room

  left_step-HasRoom :
      (step : Step) (db : Db F) → HasRoom db → HasRoom (left_step faults env step db)
  left_step-HasRoom trust_step db room = room
  left_step-HasRoom _ db room = room

  within_room : (db : Db F) → HasRoom db → count_devices db.devices ≤ most
  within_room db (inl (known, few)) = few
  within_room db (inr fewer) = omega (arith, fewer)

  run_steps-count_devices :
      (db : Db F)
      → HasRoom db
      → count_devices (run_steps from_iso faults c env (steps_of env) db).1.devices ≤ most
  run_steps-count_devices db room =
      within_room (run_steps from_iso faults c env (steps_of env) db).1 (
        run_steps-keeps from_iso faults c env HasRoom (λ step. Unit)
          (λ step x _ r. apply_step-HasRoom step x r) (λ step x _ r. left_step-HasRoom step x r)
          (steps_of env) db (λ step m. tt) room)

module _ {F : Type 0} ⦃fl : Floats F⦄ (from_iso : String → Option ℕ) (parses : Envelope F → Bool)
    (faults : Faults F) (settings : Settings) (most : ℕ) where
  -- The number of devices.
  abbrev pub devices_of : Server F → ℕ
  devices_of s = count_devices s.pipeline.db.devices

  steps_limit :
      (env : Envelope F) (p : Pipeline F) (r : Option Failure × Db F)
      → count_devices r.1.devices ≤ most
      → count_devices (after_steps faults env p r).1.db.devices ≤ most
  steps_limit env p (none, db) few =
      subst (λ (d : Db F). count_devices d.devices ≤ most)
        (sym (db-rescore faults env (with_db db p))) few
  steps_limit env p (some failure, db) few = few

  envelope_limit :
      (c : Clock) (env : Envelope F) (p : Pipeline F)
      → HasRoom from_iso faults c env most p.db
      → count_devices (ingest_envelope from_iso parses faults c env p).1.db.devices ≤ most
  unfolding ingest_envelope
  envelope_limit c env p room = elim (Bool-cases (parses env)) [
    | inr bad ↦ rw (ingest_envelope, bad) (within_room from_iso faults c env most p.db room)
    | inl fine ↦
        rw (ingest_envelope, fine)
          (steps_limit env p (run_steps from_iso faults c env (steps_of env) p.db)
            (run_steps-count_devices from_iso faults c env most p.db room))
  ]

  room_of :
      (c : Clock) (env : Envelope F) (db : Db F)
      → is_over_limit (some most) env.device_id db.devices ≡ false
      → count_devices db.devices ≤ most
      → HasRoom from_iso faults c env most db
  unfolding is_over_limit
  room_of c env db room few = elim (Bool-cases (device_known env.device_id db.devices)) [
    | inl known ↦ inl (known, few)
    | inr fresh ↦
        let below : leb most (count_devices db.devices) ≡ false = rw fresh at room in
        inr (ground arith)
  ]

  concluded_limit :
      (key : Option String) (now : ℕ) (g : Guards) (r : Ended × Pipeline F)
      → count_devices r.1.db.devices ≤ most
      → devices_of (concluded key now g r).1 ≤ most
  concluded_limit key now g (raised value_failure, after) few = few
  concluded_limit key now g (raised other_failure, after) few = few
  concluded_limit key now g (finished rescored, after) few = few

  either :
      (b : Bool) (x y : Reply × Server F)
      → devices_of x.1 ≤ most
      → (b ≡ false → devices_of y.1 ≤ most)
      → devices_of (if b then x else y).1 ≤ most
  either true x y few other = few
  either false x y few other = other refl

  with_token_limit :
      (fits : Option Bool) (s : Server F) (given : Reply × Server F)
      → devices_of s ≤ most
      → devices_of given.1 ≤ most
      → devices_of (with_token fits s given).1 ≤ most
  with_token_limit none s given few other = few
  with_token_limit (some false) s given few other = few
  with_token_limit (some true) s given few other = other

  ingest_limit :
      (m : Moment) (token : Option String) (env : Envelope F) (s : Server F)
      → settings.max_devices ≡ some most
      → devices_of s ≤ most
      → devices_of (ingest from_iso parses faults settings m token env s).1 ≤ most
  unfolding ingest ingest_checked
  ingest_limit m token env s limit few =
      let g = guards_checked from_iso parses faults settings m token env s in
      either settings.demo_mode _ _ few (λ _. with_token_limit (has_token settings token) s _ few (
        either (not (check_rate_limit (rate_key env.device_id) m.monotonic s.guards).0) _ _ few
          (λ _. either (has_seen env.idempotency_key g) _ _ few (λ _.
            either (not (is_contract_compatible (some env.agent_version))) _ _ few (λ _.
              either (is_over_limit settings.max_devices env.device_id s.pipeline.db.devices) _ _
                few
                (λ within.
                  concluded_limit env.idempotency_key m.monotonic g
                    (ingest_envelope from_iso parses faults m.wall env s.pipeline)
                    (envelope_limit m.wall env s.pipeline (
                      room_of m.wall env s.pipeline.db
                        (subst (λ o. is_over_limit o env.device_id s.pipeline.db.devices ≡ false)
                          limit within)
                        few))))))))

  -- With a limit on the number of devices and no more of them than it allows, no run of requests, of any
  -- kind and by anyone, brings their number above it, whatever step of storing raises. Each request is
  -- handled to its end before the next one: of two that run at once, both may pass the test.
  pub serve-count_devices :
      (requests : Requests from_iso parses faults settings) (s : Server F)
      → settings.max_devices ≡ some most
      → devices_of s ≤ most
      → devices_of (serve from_iso parses faults settings requests s) ≤ most
  unfolding serve
  serve-count_devices [] s limit few = few
  serve-count_devices ((m, token, env) ∷ requests) s limit few =
      serve-count_devices requests (ingest from_iso parses faults settings m token env s).1 limit
        (ingest_limit m token env s limit few)
