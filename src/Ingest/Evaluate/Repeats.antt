-- ===== src/Ingest/Evaluate/Repeats.antt =====
-- server/pipeline.py: a counter that ran backwards is compared with itself the next time.
use Prim.Native.String.{String}
use mathlib.Core.Path.{subst}
use mathlib.Core.Option as Option
use srp.Texts.{Dict, lookup, AreUnique}
use srp.Netdisco.Sets.{contains}
use srp.Trust.States.{CollectorStatus, SemanticStatus, plausible, inconsistent}
use srp.Trust.Validators.{
  Item, Reading, ◌or_else◌, validate_source, validate_storage_item, validate_scalar_range,
  check_known_bad, check_counters, check_negative, check_drop, storage_counters,
}
use srp.Ingest.Sources.{Payload, slice, extract_reading, as_reading}
use srp.Ingest.Evaluate.{SourceRow, DeviceTrust, evaluate_trust, evaluated_row}
use srp.Ingest.Evaluate.Evidence.{evaluate_trust-last_good, row_written, written}
use srp.Prelude.{
  Floats, tenths, ◌≡◌, refl, sym, ap, ◌∙◌, ◌≢◌, Option, none, some, List, [], ◌∷◌, arith,
}

or_else-inconsistent :
    (a b : SemanticStatus) → a ≢ inconsistent → b ≢ inconsistent → (a or_else b) ≢ inconsistent
or_else-inconsistent plausible b h k = k
or_else-inconsistent a b h k = h

module _ {F : Type 0} ⦃fl : Floats F⦄ where
  range-inconsistent : (v : Option F) (lo hi : F) → validate_scalar_range v lo hi ≢ inconsistent
  unfolding validate_scalar_range
  range-inconsistent none lo hi h = cc h
  range-inconsistent (some v) lo hi h = ground arith

  negative-inconsistent : (v : Option F) → check_negative v ≢ inconsistent
  unfolding check_negative
  negative-inconsistent none h = cc h
  negative-inconsistent (some v) h = ground arith

  drop-inconsistent : (v : Option F) → check_drop v v ≢ inconsistent
  unfolding check_drop
  drop-inconsistent none h = cc h
  drop-inconsistent (some v) h = ground (arith, fl.lt_irrefl v)

  counters-inconsistent :
      (keys : List String) (item : Item F) → check_counters keys item (some item) ≢ inconsistent
  unfolding check_counters
  counters-inconsistent [] item = λ h. cc h
  counters-inconsistent (key ∷ keys) item =
      or_else-inconsistent _ _ (negative-inconsistent (item key))
        (or_else-inconsistent _ _ (drop-inconsistent (item key)) (counters-inconsistent keys item))

  known_bad-inconsistent : (r : Reading F) → check_known_bad r ≢ inconsistent
  unfolding check_known_bad
  known_bad-inconsistent r h = ground arith

  storage-inconsistent :
      (r : Reading F) → validate_source "storage_reliability" r (some r) ≢ inconsistent
  unfolding validate_source validate_storage_item
  storage-inconsistent r = or_else-inconsistent _ _ (known_bad-inconsistent r) (
      or_else-inconsistent _ _ (range-inconsistent (r.num "wear_pct") (fl.whole 0) (fl.whole 100))
        (counters-inconsistent storage_counters r.num))

  -- Two envelopes whose first disk is the same, with the storage source reported once and as "ok" in
  -- both, and whatever else in them: whatever stood in the tables, the reading of the second one is
  -- never called inconsistent, also where that of the first one was.
  pub evaluate_trust-repeat :
      (payload payload' : Payload F) (disk : Reading F) (health health' : Dict CollectorStatus)
      (ts received_at ts' received_at' : String) (t : DeviceTrust F) (row : SourceRow F)
      → AreUnique health
      → AreUnique health'
      → lookup "storage_reliability" health ≡ some CollectorStatus.ok
      → lookup "storage_reliability" health' ≡ some CollectorStatus.ok
      → extract_reading "storage_reliability" payload ≡ slice disk
      → extract_reading "storage_reliability" payload' ≡ slice disk
      → lookup "storage_reliability"
          (evaluate_trust payload' health' ts' received_at'
            (evaluate_trust payload health ts received_at t)).sources
        ≡ some row
      → row.semantic_status ≢ inconsistent
  unfolding evaluate_trust evaluated_row contains
  evaluate_trust-repeat payload payload' disk health health' ts received_at ts' received_at' t row
        unique unique' reported reported' full full' found h =
      let first = evaluate_trust payload health ts received_at t in
      let good =
        evaluate_trust-last_good payload health ts received_at t "storage_reliability" unique refl
          reported (rw full refl) in
      let entry =
        written payload' health' ts' received_at' first "storage_reliability" CollectorStatus.ok
          unique' reported' refl in
      let same : row_written payload' health' ts' received_at' first "storage_reliability"
            CollectorStatus.ok
          ≡ row =
        cc (sym entry ∙ found) in
      storage-inconsistent disk (
        subst
          (λ o. validate_source "storage_reliability" disk (Option.map as_reading o) ≡ inconsistent)
          (good ∙ ap some full)
          (subst
            (λ e.
              validate_source "storage_reliability" (as_reading e)
                (Option.map as_reading (lookup "storage_reliability" first.last_good))
              ≡ inconsistent)
            full' (ap (λ r. r.semantic_status) same ∙ h)))
