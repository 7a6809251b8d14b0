-- ===== src/Ingest/Api/Verdicts.antt =====
-- server/api.py: which envelopes are stored, and what is left where a step of it raises.
use Prim.Native.String.{String}
use srp.Guards.{Guards, check_rate_limit, has_seen, mark_seen, count_reject}
use srp.Ingest.Versions.{is_contract_compatible}
use srp.Ingest.Pipeline.{
  Envelope, Db, Pipeline, Rescored, Failure, Faults, Ended, finished, raised, value_failure,
  other_failure, steps_of, run_steps, with_db, after_steps, rescore, ingest_envelope,
}
use srp.Ingest.Pipeline.Steps.{Runs, run_steps-Runs}
use srp.Ingest.Api.{
  Settings, Server, Moment, Reply, read_only, invalid, server_error, accepted, has_token, rate_key,
  is_over_limit, concluded, with_token, ingest_checked, ingest,
}
use srp.Prelude.{
  if◌then◌else◌, Bool-cases, Floats, tenths, ℕ, ◌≡◌, refl, ◌≢◌, ◌⊎◌, inl, inr, Bool, true, false,
  not, ◌&&◌, Option, none, some,
}

-- The token is fine, and nothing is raised.
abbrev pub is_fine : Option Bool → Bool
is_fine none = false
is_fine (some fits) = fits

-- 422 for the ValueError that the handler catches, which it counts, and 500 for any other exception.
abbrev pub reply_of : Failure → Reply
reply_of value_failure = invalid
reply_of other_failure = server_error

refused : (failure : Failure) (x : Rescored) → reply_of failure ≢ accepted x
refused value_failure x h = cc h
refused other_failure x h = cc h

abbrev pub counted : Failure → Guards → Guards
counted value_failure g = count_reject "invalid" g
counted other_failure g = g

module _ {F : Type 0} ⦃fl : Floats F⦄ (from_iso : String → Option ℕ) (parses : Envelope F → Bool)
    (faults : Faults F) (settings : Settings) (m : Moment) (token : Option String)
    (env : Envelope F) (s : Server F) where
  abbrev pub guards_checked : Guards
  guards_checked = (check_rate_limit (rate_key env.device_id) m.monotonic s.guards).1

  -- The conditions of the handler before the envelope goes to the pipeline.
  abbrev pub is_let_in : Bool
  is_let_in =
      not settings.demo_mode
      && (is_fine (has_token settings token)
          && ((check_rate_limit (rate_key env.device_id) m.monotonic s.guards).0
              && (not (has_seen env.idempotency_key guards_checked)
                  && (is_contract_compatible (some env.agent_version)
                      && not (
                          is_over_limit settings.max_devices env.device_id
                            s.pipeline.db.devices)))))

  -- What an envelope comes to that was let in. The payload is malformed; or a step raises, and what
  -- the steps before it wrote stays; or all is stored and then the recompute of the scores raises; or
  -- nothing raises, and only then is the key marked.
  pub data IsConclusion : Reply × Server F → Type 0 where
    malformed :
        parses env ≡ false
        → IsConclusion (
          invalid,
          record { guards = count_reject "invalid" guards_checked; pipeline = s.pipeline },
        )
    cut_short :
        {failure : Failure} {db : Db F}
        → parses env ≡ true
        → Runs from_iso faults m.wall env (steps_of env) s.pipeline.db (some failure) db
        → IsConclusion (
          reply_of failure,
          record { guards = counted failure guards_checked; pipeline = with_db db s.pipeline },
        )
    not_scored :
        {failure : Failure} {db : Db F} {after : Pipeline F}
        → parses env ≡ true
        → Runs from_iso faults m.wall env (steps_of env) s.pipeline.db none db
        → rescore faults env (with_db db s.pipeline) ≡ (raised failure, after)
        → IsConclusion
            (reply_of failure, record { guards = counted failure guards_checked; pipeline = after })
    stored :
        {rescored : Rescored} {db : Db F} {after : Pipeline F}
        → parses env ≡ true
        → Runs from_iso faults m.wall env (steps_of env) s.pipeline.db none db
        → rescore faults env (with_db db s.pipeline) ≡ (finished rescored, after)
        → IsConclusion (
          accepted rescored,
          record {
            guards = mark_seen env.idempotency_key m.monotonic guards_checked;
            pipeline = after;
          },
        )

  -- What the handler gives, where the envelope is let in or not.
  abbrev pub IsOutcome : Bool → Reply × Server F → Type 0
  IsOutcome let_in given =
      ((let_in ≡ true) × IsConclusion given)
      ⊎ ((let_in ≡ false)
          × ((rescored : Rescored) → given.0 ≢ accepted rescored)
          × (given.1.pipeline ≡ s.pipeline))

  rescored-IsConclusion :
      (db : Db F) (r : Ended × Pipeline F)
      → parses env ≡ true
      → Runs from_iso faults m.wall env (steps_of env) s.pipeline.db none db
      → rescore faults env (with_db db s.pipeline) ≡ r
      → IsConclusion (concluded env.idempotency_key m.monotonic guards_checked r)
  rescored-IsConclusion db (raised value_failure, after) fine runs e = not_scored fine runs e
  rescored-IsConclusion db (raised other_failure, after) fine runs e = not_scored fine runs e
  rescored-IsConclusion db (finished rescored, after) fine runs e = stored fine runs e

  run-IsConclusion :
      (r : Option Failure × Db F)
      → parses env ≡ true
      → Runs from_iso faults m.wall env (steps_of env) s.pipeline.db r.0 r.1
      → IsConclusion (
          concluded env.idempotency_key m.monotonic guards_checked
            (after_steps faults env s.pipeline r))
  run-IsConclusion (none, db) fine runs =
      rescored-IsConclusion db (rescore faults env (with_db db s.pipeline)) fine runs refl
  run-IsConclusion (some value_failure, db) fine runs = cut_short fine runs
  run-IsConclusion (some other_failure, db) fine runs = cut_short fine runs

  concluded-IsConclusion : IsConclusion (
      concluded env.idempotency_key m.monotonic guards_checked
        (ingest_envelope from_iso parses faults m.wall env s.pipeline))
  unfolding ingest_envelope
  concluded-IsConclusion = elim (Bool-cases (parses env)) [
    | inr bad ↦ rw (ingest_envelope, bad) (malformed bad)
    | inl fine ↦
        rw (ingest_envelope, fine)
          (run-IsConclusion (run_steps from_iso faults m.wall env (steps_of env) s.pipeline.db) fine
            (run_steps-Runs from_iso faults m.wall env (steps_of env) s.pipeline.db))
  ]

  checked-IsOutcome :
      IsOutcome
        (not (has_seen env.idempotency_key guards_checked)
          && (is_contract_compatible (some env.agent_version)
              && not (is_over_limit settings.max_devices env.device_id s.pipeline.db.devices)))
        (ingest_checked from_iso parses faults settings m env guards_checked s.pipeline)
  unfolding ingest_checked
  checked-IsOutcome = elim (Bool-cases (has_seen env.idempotency_key guards_checked)) [
    | inl seen ↦ rw (ingest_checked, seen) (inr (refl, λ r h. cc h, refl))
    | inr unseen ↦ elim (Bool-cases (is_contract_compatible (some env.agent_version))) [
      | inr foreign ↦ rw (ingest_checked, unseen, foreign) (inr (refl, λ r h. cc h, refl))
      | inl fits ↦
          elim (Bool-cases
            (is_over_limit settings.max_devices env.device_id s.pipeline.db.devices)) [
              | inl over ↦ rw (ingest_checked, unseen, fits, over) (inr (refl, λ r h. cc h, refl))
              | inr within ↦
                  rw (ingest_checked, unseen, fits, within) (inl (refl, concluded-IsConclusion))
            ]
    ]
  ]

  unless_demo :
      (demo let_in : Bool) (given : Reply × Server F)
      → IsOutcome let_in given
      → IsOutcome (not demo && let_in) (if demo then (read_only, s) else given)
  unless_demo true let_in given h = inr (refl, λ r e. cc e, refl)
  unless_demo false let_in given h = h

  token_checked :
      (fits : Option Bool) (let_in : Bool) (given : Reply × Server F)
      → IsOutcome let_in given
      → IsOutcome (is_fine fits && let_in) (with_token fits s given)
  token_checked none let_in given h = inr (refl, λ r e. cc e, refl)
  token_checked (some false) let_in given h = inr (refl, λ r e. cc e, refl)
  token_checked (some true) let_in given h = h

  -- The handler lets an envelope in exactly if every condition holds: it is no demo, the token fits and
  -- its test raises nothing, the rate limit is kept, the key is new, the version fits, and the device is
  -- known or there is room for it. If not, it answers with something else than an accepted envelope and
  -- leaves the database, the queue and the scores as they are. If so, it does one of four things: it
  -- answers 422 for a malformed payload and stores nothing; or a step of storing raises, and it answers
  -- 422 or 500, with the steps before it stored and the key not marked; or all is stored, the recompute
  -- raises and it answers 422 or 500, the key not marked; or all is stored and the key marked, and it
  -- answers with what became of the scores.
  pub ingest-IsOutcome : IsOutcome is_let_in (ingest from_iso parses faults settings m token env s)
  unfolding ingest
  ingest-IsOutcome = unless_demo settings.demo_mode _ _ (
      token_checked (has_token settings token) _ _
        (elim (Bool-cases (check_rate_limit (rate_key env.device_id) m.monotonic s.guards).0) [
          | inr fast ↦ rw fast (inr (refl, λ r h. cc h, refl))
          | inl slow ↦ rw slow checked-IsOutcome
        ]))

  -- An envelope that is accepted was let in, and its key is marked.
  pub accepted-mark_seen :
      (given : Reply × Server F) (rescored : Rescored)
      → IsConclusion given
      → given.0 ≡ accepted rescored
      → given.1.guards ≡ mark_seen env.idempotency_key m.monotonic guards_checked
  accepted-mark_seen given rescored (malformed bad) e = cc e
  accepted-mark_seen given rescored (cut_short {failure} fine runs) e =
      absurd (refused failure rescored e)
  accepted-mark_seen given rescored (not_scored {failure} fine runs late) e =
      absurd (refused failure rescored e)
  accepted-mark_seen given rescored (stored fine runs done) e = refl
