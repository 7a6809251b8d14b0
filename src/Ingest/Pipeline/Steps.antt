-- ===== src/Ingest/Pipeline/Steps.antt =====
-- server/pipeline.py: the runs of the steps of an envelope, and what holds through all of them.
use Prim.Native.String.{String}
use mathlib.Core.List.{Memᴰ}
use srp.Ingest.Pipeline.{
  Envelope, Db, Clock, Step, Failure, Faults, left_step, apply_step, run_steps,
}
use srp.Prelude.{
  Option-cases, Floats, tenths, ℕ, ◌≡◌, refl, inl, inr, Option, none, some, List, [], ◌∷◌,
}

module _ {F : Type 0} ⦃fl : Floats F⦄ (from_iso : String → Option ℕ) (faults : Faults F) (c : Clock)
    (env : Envelope F) where
  -- The steps, the database before them, what was raised, and the database after it: one step after the
  -- other, and none after one that raises.
  pub data Runs : List Step → Db F → Option Failure → Db F → Type 0 where
    all_done : {db : Db F} → Runs [] db none db
    one_raises :
        {step : Step} {steps : List Step} {db : Db F} {failure : Failure}
        → faults.at_step step env db ≡ some failure
        → Runs (step ∷ steps) db (some failure) (left_step faults env step db)
    one_done :
        {step : Step} {steps : List Step} {db after : Db F} {o : Option Failure}
        → faults.at_step step env db ≡ none
        → Runs steps (apply_step from_iso c env step db) o after
        → Runs (step ∷ steps) db o after

  pub run_steps-Runs :
      (steps : List Step) (db : Db F)
      → Runs steps db
          (run_steps from_iso faults c env steps db).0
          (run_steps from_iso faults c env steps db).1
  unfolding run_steps
  run_steps-Runs [] db = all_done
  run_steps-Runs (step ∷ steps) db = elim (Option-cases (faults.at_step step env db)) [
    | inl fine ↦
        rw (run_steps, fine)
          (one_done fine (run_steps-Runs steps (apply_step from_iso c env step db)))
    | inr (failure, bad) ↦ rw (run_steps, bad) (one_raises bad)
  ]

  -- What every step keeps, and every step that raises, the run keeps.
  pub run_steps-keeps :
      (Kept : Db F → Type 0) (Good : Step → Type 0)
      → ((step : Step) (db : Db F) → Good step → Kept db → Kept (apply_step from_iso c env step db))
      → ((step : Step) (db : Db F) → Good step → Kept db → Kept (left_step faults env step db))
      → (steps : List Step) (db : Db F) → ((step : Step) → Memᴰ step steps → Good step)
      → Kept db
      → Kept (run_steps from_iso faults c env steps db).1
  unfolding run_steps
  run_steps-keeps Kept Good on left [] db good k = k
  run_steps-keeps Kept Good on left (step ∷ steps) db good k =
      elim (Option-cases (faults.at_step step env db)) [
        | inl fine ↦
            rw (run_steps, fine)
              (run_steps-keeps Kept Good on left steps (apply_step from_iso c env step db)
                (λ s m. good s (Memᴰ.tail m)) (on step db (good step (Memᴰ.head refl)) k))
        | inr (failure, bad) ↦ rw (run_steps, bad) (left step db (good step (Memᴰ.head refl)) k)
      ]
