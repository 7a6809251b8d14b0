-- ===== src/Ingest/Pipeline/Scope.antt =====
-- server/pipeline.py: what an envelope changes, and what it leaves alone.
use Prim.Native.String.{String}
use text.Mathlib.Text.{◌==◌ as str_eq}
use text.Mathlib.TextEquality.{eq_iff}
use mathlib.Core.Path.{subst}
use mathlib.Core.List.{Memᴰ}
use mathlib.Core.List.Memᴰ
use srp.Texts.{Dict, lookup, lookup-put}
use srp.Ingest.Devices.{DeviceRow, touch_device}
use srp.Ingest.Evaluate.{DeviceTrust}
use srp.Ingest.Devices.Rows.{upsert_other, status_other}
use srp.Ingest.Pipeline.{
  Envelope, MsgType, Write, Db, Pipeline, Clock, Step, Failure, Faults, Ended, is_no_trust,
  has_health, touched, kind_steps, steps_of, with_write, with_devices, with_trust, with_db,
  left_step, apply_step, run_steps, after_steps, ingest_envelope, value_failure, store_inventory,
  store_historical, store_heartbeat, store_disk_readings, store_printer_ip_hints,
  store_net_snapshot, store_events, store_print_jobs, upsert_step, touch_step, status_step,
  inventory_step, historical_step, disks_step, hints_step, snapshot_step, heartbeat_step,
  events_step, jobs_step, trust_step, liveness, update_status,
}
use srp.Ingest.Pipeline.Steps.{run_steps-keeps}
use srp.Ingest.Pipeline.Scores.{
  IsBare, bare_lem, AreScoresScoped, rescore-AreScoresScoped, raised-AreScoresScoped, db-rescore,
}
use srp.Prelude.{
  if◌then◌else◌, Bool-cases, Floats, tenths, ℕ, ◌≡◌, refl, sym, ap, ◌∙◌, ◌≢◌, inl, inr, Bool, true,
  false, not, ◌&&◌, Option, none, some, List, [], ◌∷◌, ◌++◌, arith,
}

-- The device that a row of the other tables belongs to.
abbrev pub owner : {F : Type 0} → Write F → String
owner (store_inventory device _ _) = device
owner (store_historical device _ _ _ _) = device
owner (store_heartbeat device _ _ _ _) = device
owner (store_disk_readings device _ _ _) = device
owner (store_printer_ip_hints device _) = device
owner (store_net_snapshot device _ _) = device
owner (store_events device _ _ _) = device
owner (store_print_jobs device _ _) = device

abbrev pub AreOwn : {F : Type 0} → String → List (Write F) → Type 0
AreOwn device [] = Unit
AreOwn device (w ∷ ws) = (owner w ≡ device) × AreOwn device ws

module _ {F : Type 0} ⦃fl : Floats F⦄ (from_iso : String → Option ℕ) (faults : Faults F) (c : Clock)
    (env : Envelope F) where
  -- What was in the database stays, but for the rows of the device.
  pub record IsScopedDb (before after : Db F) : Type 0 where
    pub devices :
        (d : String) → env.device_id ≢ d → lookup d after.devices ≡ lookup d before.devices
    pub trust : (d : String) → env.device_id ≢ d → lookup d after.trust ≡ lookup d before.trust
    pub added : List (Write F)
    pub writes : after.writes ≡ added ++ before.writes
    pub own : AreOwn env.device_id added

  IsScopedDb-refl : (db : Db F) → IsScopedDb db db
  IsScopedDb-refl db = record {
    devices = λ d h. refl;
    trust = λ d h. refl;
    added = [];
    writes = refl;
    own = tt;
  }

  apart_of : (d : String) → env.device_id ≢ d → str_eq env.device_id d ≡ false
  apart_of d h = ground (arith, eq_iff env.device_id d)

  wrote :
      (before db : Db F) (w : Write F)
      → owner w ≡ env.device_id
      → IsScopedDb before db
      → IsScopedDb before (with_write w db)
  wrote before db w mine s = record {
    devices = s.devices;
    trust = s.trust;
    added = w ∷ s.added;
    writes = ap (λ ws. w ∷ ws) s.writes;
    own = (mine, s.own);
  }

  trusted_rows :
      (before db : Db F) (rows : DeviceTrust F)
      → IsScopedDb before db
      → IsScopedDb before (with_trust env.device_id rows db)
  trusted_rows before db rows s = record {
    devices = s.devices;
    trust = λ d h. (rw (lookup-put env.device_id d rows db.trust, apart_of d h) refl) ∙ s.trust d h;
    added = s.added;
    writes = s.writes;
    own = s.own;
  }

  with_rows :
      (before db : Db F) (devices : Dict DeviceRow)
      → ((d : String) → str_eq env.device_id d ≡ false → lookup d devices ≡ lookup d db.devices)
      → IsScopedDb before db
      → IsScopedDb before (with_devices devices db)
  with_rows before db devices other s = record {
    devices = λ d h. other d (apart_of d h) ∙ s.devices d h;
    trust = s.trust;
    added = s.added;
    writes = s.writes;
    own = s.own;
  }

  apply_step-IsScopedDb :
      (before : Db F) (step : Step) (db : Db F)
      → IsScopedDb before db
      → IsScopedDb before (apply_step from_iso c env step db)
  unfolding apply_step touched touch_device
  apply_step-IsScopedDb before upsert_step db s =
      with_rows before db _ (λ d apart. upsert_other from_iso env.device_id d _ db.devices apart) s
  apply_step-IsScopedDb before touch_step db s =
      with_rows before db _ (λ d apart. upsert_other from_iso env.device_id d _ db.devices apart) s
  apply_step-IsScopedDb before status_step db s =
      with_rows before db _
        (λ d apart. status_other from_iso c.now env.device_id d env.payload.status db.devices apart)
        s
  apply_step-IsScopedDb before inventory_step db s = wrote before db _ refl s
  apply_step-IsScopedDb before historical_step db s = wrote before db _ refl s
  apply_step-IsScopedDb before disks_step db s = wrote before db _ refl s
  apply_step-IsScopedDb before hints_step db s = wrote before db _ refl s
  apply_step-IsScopedDb before snapshot_step db s = wrote before db _ refl s
  apply_step-IsScopedDb before heartbeat_step db s = wrote before db _ refl s
  apply_step-IsScopedDb before events_step db s = wrote before db _ refl s
  apply_step-IsScopedDb before jobs_step db s = wrote before db _ refl s
  apply_step-IsScopedDb before trust_step db s = trusted_rows before db _ s

  left_step-IsScopedDb :
      (before : Db F) (step : Step) (db : Db F)
      → IsScopedDb before db
      → IsScopedDb before (left_step faults env step db)
  left_step-IsScopedDb before trust_step db s = trusted_rows before db _ s
  left_step-IsScopedDb before _ db s = s

  run_steps-IsScopedDb :
      (db : Db F) → IsScopedDb db (run_steps from_iso faults c env (steps_of env) db).1
  run_steps-IsScopedDb db =
      run_steps-keeps from_iso faults c env (IsScopedDb db) (λ step. Unit)
        (λ step x _ s. apply_step-IsScopedDb db step x s)
        (λ step x _ s. left_step-IsScopedDb db step x s) (steps_of env) db (λ step m. tt)
        (IsScopedDb-refl db)

  apply_step-trust :
      (rows : Dict (DeviceTrust F)) (step : Step) (db : Db F)
      → step ≢ trust_step
      → db.trust ≡ rows
      → (apply_step from_iso c env step db).trust ≡ rows
  unfolding apply_step
  apply_step-trust rows trust_step db other same = absurd (other refl)
  apply_step-trust rows _ db other same = same

  left_step-trust :
      (rows : Dict (DeviceTrust F)) (step : Step) (db : Db F)
      → step ≢ trust_step
      → db.trust ≡ rows
      → (left_step faults env step db).trust ≡ rows
  left_step-trust rows trust_step db other same = absurd (other refl)
  left_step-trust rows _ db other same = same

  quiet_steps :
      (kind : MsgType) (health : Bool)
      → is_no_trust kind ≡ true
      → (step : Step)
      → Memᴰ step
          (kind_steps kind ++ (if not (is_no_trust kind) && health then trust_step ∷ [] else []))
      → step ≢ trust_step
  unfolding kind_steps
  quiet_steps liveness health h step m e = elim (Memᴰ.cases_cons m) [
    | inl q ↦ cc (sym q ∙ e)
    | inr n ↦ Memᴰ.not-nil n
  ]
  quiet_steps update_status health h step m e = elim (Memᴰ.cases_cons m) [
    | inl q ↦ cc (sym q ∙ e)
    | inr n ↦ elim (Memᴰ.cases_cons n) [ inl q ↦ cc (sym q ∙ e) | inr k ↦ Memᴰ.not-nil k ]
  ]
  quiet_steps _ health h step m e = cc h

  bare_steps : (step : Step) → IsBare env.msg_type → Memᴰ step (steps_of env) → step ≢ trust_step
  unfolding steps_of kind_steps
  bare_steps step bare m =
      quiet_steps env.msg_type (has_health env.source_health) (bare_lem env.msg_type bare) step m

  run_steps-trust :
      (db : Db F)
      → IsBare env.msg_type
      → (run_steps from_iso faults c env (steps_of env) db).1.trust ≡ db.trust
  run_steps-trust db bare =
      run_steps-keeps from_iso faults c env (λ (x : Db F). x.trust ≡ db.trust)
        (λ step. step ≢ trust_step) (apply_step-trust db.trust) (left_step-trust db.trust)
        (steps_of env) db (λ step m. bare_steps step bare m) refl

module _ {F : Type 0} ⦃fl : Floats F⦄ (from_iso : String → Option ℕ) (parses : Envelope F → Bool)
    (faults : Faults F) (c : Clock) (env : Envelope F) (p : Pipeline F) where
  -- What the pipeline does for an envelope, beside the rows of the device itself.
  pub record IsScoped (ended : Ended) (after : Pipeline F) : Type 0 where
    pub rows : IsScopedDb from_iso faults c env p.db after.db
    pub untrusted : IsBare env.msg_type → after.db.trust ≡ p.db.trust
    pub scores : AreScoresScoped faults env p ended after

  after_steps-IsScoped :
      (r : Option Failure × Db F)
      → IsScopedDb from_iso faults c env p.db r.1
      → (IsBare env.msg_type → r.1.trust ≡ p.db.trust)
      → IsScoped (after_steps faults env p r).0 (after_steps faults env p r).1
  after_steps-IsScoped (none, db) rows quiet =
      let same = sym (db-rescore faults env (with_db db p)) in
      let scored_part = rescore-AreScoresScoped faults env (with_db db p) in
      record {
        rows = subst (IsScopedDb from_iso faults c env p.db) same rows;
        untrusted = λ bare. subst (λ (x : Db F). x.trust ≡ p.db.trust) same (quiet bare);
        scores = record {
          unscored = scored_part.unscored;
          scored = scored_part.scored;
          stopped = scored_part.stopped;
          others = scored_part.others;
        };
      }
  after_steps-IsScoped (some failure, db) rows quiet = record {
    rows = rows;
    untrusted = quiet;
    scores = raised-AreScoresScoped faults env failure p (with_db db p) refl refl;
  }

  -- Whether an envelope is taken or a step of it raises: the rows of every other device stay in
  -- `devices` and in the trust, and all that the other tables get are rows of the device itself. A
  -- liveness or self-update message changes no trust, whatever sources it reports. The scores are not
  -- touched for events, print jobs, liveness and self-updates, nor where something raises; otherwise
  -- they are recomputed, or the device waits in the queue where that is not stopping; and no other
  -- device is recomputed.
  pub ingest_envelope-IsScoped :
      IsScoped
        (ingest_envelope from_iso parses faults c env p).0
        (ingest_envelope from_iso parses faults c env p).1
  unfolding ingest_envelope
  ingest_envelope-IsScoped = elim (Bool-cases (parses env)) [
    | inr malformed ↦
        rw (ingest_envelope, malformed)
          (record {
            rows = IsScopedDb-refl from_iso faults c env p.db;
            untrusted = λ bare. refl;
            scores = raised-AreScoresScoped faults env value_failure p p refl refl;
          })
    | inl fine ↦
        rw (ingest_envelope, fine)
          (after_steps-IsScoped (run_steps from_iso faults c env (steps_of env) p.db)
            (run_steps-IsScopedDb from_iso faults c env p.db)
            (run_steps-trust from_iso faults c env p.db))
  ]
