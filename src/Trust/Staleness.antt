-- ===== src/Trust/Staleness.antt =====
-- server/trust/staleness.py: the periodic look at sources that have gone silent. Timestamps and the
-- clock are not modelled: `seconds_since t` is what `(now - fromisoformat(t)).total_seconds()` gives,
-- and `none` where the text is no timestamp.
pub mod Passes
use Prim.Native.String.{String}
use text.Mathlib.Text.{◌==◌ as str_eq}
use srp.Prelude.{
  if◌then◌else◌, Floats, length, ok, ℕ, Bool, true, false, ◌||◌, Option, none, some, List, [], ◌∷◌,
}
use srp.Trust.States.{CollectorStatus, SemanticStatus, SourceState}
use srp.Trust.Gate.{derive_state, compute_weight}

-- source in _STALENESS_SOURCES
unfoldable pub is_staleness_source : String → Bool
is_staleness_source source =
    str_eq source "storage_reliability"
    || (str_eq source "disk_latency"
        || (str_eq source "smart"
            || (str_eq source "free_space"
                || (str_eq source "reliability"
                    || (str_eq source "boot_time"
                        || (str_eq source "throttle"
                            || (str_eq source "network" || str_eq source "identity")))))))

-- CollectorStatus(text), `none` for its ValueError
unfoldable pub collector_of : String → Option CollectorStatus
collector_of text =
    if str_eq text "ok"
    then some CollectorStatus.ok
    else if str_eq text "partial"
    then some CollectorStatus.partial
    else if str_eq text "empty"
    then some CollectorStatus.empty
    else if str_eq text "timeout"
    then some CollectorStatus.timeout
    else if str_eq text "blocked"
    then some CollectorStatus.blocked
    else if str_eq text "absent"
    then some CollectorStatus.absent
    else none

-- SemanticStatus(text)
unfoldable pub semantic_of : String → Option SemanticStatus
semantic_of text =
    if str_eq text "plausible"
    then some SemanticStatus.plausible
    else if str_eq text "implausible"
    then some SemanticStatus.implausible
    else if str_eq text "inconsistent"
    then some SemanticStatus.inconsistent
    else if str_eq text "frozen"
    then some SemanticStatus.frozen
    else if str_eq text "known_bad"
    then some SemanticStatus.known_bad
    else if str_eq text "unchecked"
    then some SemanticStatus.unchecked
    else none

-- state.value
abbrev pub value : SourceState → String
value SourceState.ok = "ok"
value SourceState.degraded = "degraded"
value SourceState.stale = "stale"
value SourceState.unavailable = "unavailable"
value SourceState.suspect = "suspect"
value SourceState.not_applicable = "not_applicable"

-- a row of device_source_trust
pub record TrustRow : Type 0 where
  pub device_id : String
  pub source : String
  pub state : Option String
  pub collector_status : String
  pub semantic_status : String
  pub evidence_seen_at : Option String

-- The hours in `reason` are kept as the seconds that they are made of.
pub record StaleUpdate (F : Type 0) : Type 0 where
  pub device_id : String
  pub source : String
  pub state : String
  pub weight : F
  pub age : F
  pub threshold : F
  pub evidence_seen_at : Option String

-- new_state.value == row.get("state")
abbrev pub says : String → Option String → Bool
says text none = false
says text (some stored) = str_eq text stored

module _ {F : Type 0} ⦃fl : Floats F⦄ (seconds_since : String → Option F) where
  unfoldable pub age_sec : Option String → Option F
  age_sec none = none
  age_sec (some text) = if str_eq text "" then none else seconds_since text

  -- the statuses are texts of their enumerations, and the age is known
  unfoldable pub update_with :
      TrustRow → F → F → CollectorStatus → SemanticStatus → Option (StaleUpdate F)
  update_with row limit age collector semantic =
      let new_state = derive_state collector semantic (some age) (some limit) true in
      if says (value new_state) row.state
      then none
      else some (record {
        device_id = row.device_id;
        source = row.source;
        state = value new_state;
        weight = compute_weight new_state;
        age = age;
        threshold = limit;
        evidence_seen_at = row.evidence_seen_at;
      })

  -- the body of the loop: `none` for each `continue`
  unfoldable pub update_of : F → TrustRow → Option (StaleUpdate F)
  update_of limit row =
      if is_staleness_source row.source
      then elim (age_sec row.evidence_seen_at) [
        | none ↦ none
        | some age ↦ elim (collector_of row.collector_status) [
          | none ↦ none
          | some collector ↦ elim (semantic_of row.semantic_status) [
            | none ↦ none
            | some semantic ↦ update_with row limit age collector semantic
          ]
        ]
      ]
      else none

  abbrev pub add_update : Option (StaleUpdate F) → List (StaleUpdate F) → List (StaleUpdate F)
  add_update none updates = updates
  add_update (some u) updates = u ∷ updates

  unfoldable pub reevaluate_staleness : List TrustRow → F → List (StaleUpdate F)
  reevaluate_staleness [] limit = []
  reevaluate_staleness (row ∷ rows) limit =
      add_update (update_of limit row) (reevaluate_staleness rows limit)

  -- max(60.0, stale_after_sec)
  abbrev pub floor_sec : F → F
  floor_sec stale_after = if fl.lt (fl.whole 60) stale_after then stale_after else fl.whole 60

  -- run_staleness_cycle: the rows checked, the updates applied, and the updates whose devices are
  -- rebuilt. `write` is the database's count of what it applied.
  unfoldable pub run_staleness_cycle :
      List TrustRow → (List (StaleUpdate F) → ℕ) → F → ℕ × ℕ × List (StaleUpdate F)
  unfolding reevaluate_staleness
  run_staleness_cycle rows write stale_after =
      let updates = reevaluate_staleness rows (floor_sec stale_after) in
      (length rows, elim updates [ [] ↦ 0 | u ∷ us ↦ write (u ∷ us) ], updates)
