-- ===== src/Ingest/Evaluate.antt =====
-- server/pipeline.py: the trust in the sources of one envelope, and the tables of server/db.py that it
-- is kept in. The text of an enumeration is kept as the member, and of a reason nothing.
pub mod Rows
pub mod Evidence
pub mod Repeats
use Prim.Native.String.{String}
use mathlib.Core.Option as Option
use mathlib.Core.List.{map}
use srp.Texts.{Dict, lookup, put}
use srp.Netdisco.Sets.{contains}
use srp.Trust.States.{CollectorStatus, SemanticStatus, SourceState, SourceTrust}
use srp.Trust.Gate.{collector_fails, derive_state, compute_weight}
use srp.Trust.Domains.{DomainTrust, resolve_domain_trust}
use srp.Trust.Validators.{validate_source}
use srp.Prelude.{
  if◌then◌else◌, Floats, ok, Bool, true, false, not, ◌&&◌, Option, none, some, List, [], ◌∷◌,
}
use srp.Ingest.Sources.{
  known_trust_sources, empty_coercible_sources, Payload, Extracted, extract_reading,
  reading_is_empty, is_given, as_reading,
}

-- a row of device_source_trust
pub record SourceRow (F : Type 0) : Type 0 where
  pub state : SourceState
  pub weight : F
  pub collector_status : CollectorStatus
  pub semantic_status : SemanticStatus
  pub ts : String
  pub evidence_seen_at : Option String

pub record SourceLine (F : Type 0) : Type 0 where
  pub trust : SourceTrust F
  pub regressed : Bool

-- what build_trust_blob builds
pub record TrustBlob (F : Type 0) : Type 0 where
  pub domains : List (DomainTrust F)
  pub sources : Dict (SourceLine F)

-- The rows of one device in device_source_trust, source_last_good and trust.
pub record DeviceTrust (F : Type 0) : Type 0 where
  pub sources : Dict (SourceRow F)
  pub last_good : Dict (Extracted F)
  pub trust : Option (TrustBlob F)

abbrev pub is_ok : CollectorStatus → Bool
is_ok CollectorStatus.ok = true
is_ok _ = false

-- COALESCE(excluded.evidence_seen_at, evidence_seen_at)
abbrev pub coalesce_evidence : Option String → Option String → Option String
coalesce_evidence none old = old
coalesce_evidence (some stamp) old = some stamp

abbrev pub stamp_if : Bool → String → Option String
stamp_if true received_at = some received_at
stamp_if false received_at = none

abbrev pub domain_names : List String
domain_names = "storage" ∷ "disk_fill" ∷ "os_stability" ∷ "boot" ∷ "thermal" ∷ "network" ∷ []

module _ {F : Type 0} where
  abbrev pub old_evidence : Option (SourceRow F) → Option String
  old_evidence none = none
  old_evidence (some row) = row.evidence_seen_at

  -- The row that a row makes of the one before.
  abbrev pub merged : SourceRow F → Option (SourceRow F) → SourceRow F
  merged row old = record {
    state = row.state;
    weight = row.weight;
    collector_status = row.collector_status;
    semantic_status = row.semantic_status;
    ts = row.ts;
    evidence_seen_at = coalesce_evidence row.evidence_seen_at (old_evidence old);
  }

  unfoldable pub upsert_source_trust : String → SourceRow F → DeviceTrust F → DeviceTrust F
  upsert_source_trust source row t = record {
    sources = put source (merged row (lookup source t.sources)) t.sources;
    last_good = t.last_good;
    trust = t.trust;
  }

  unfoldable pub set_last_good : String → Extracted F → DeviceTrust F → DeviceTrust F
  set_last_good source reading t = record {
    sources = t.sources;
    last_good = put source reading t.last_good;
    trust = t.trust;
  }

  -- An "ok" with nothing to validate is EMPTY, for the sources that are never empty.
  unfoldable pub coerce : String → Extracted F → CollectorStatus → CollectorStatus
  coerce source reading status =
      if is_ok status && (reading_is_empty reading && contains empty_coercible_sources source)
      then CollectorStatus.empty
      else status

module _ {F : Type 0} ⦃fl : Floats F⦄ where
  -- what the loop writes to the row of a source
  unfoldable pub evaluated_row :
      String → Extracted F → Option (Extracted F) → CollectorStatus → String → String → SourceRow F
  evaluated_row source reading last_good collector ts received_at =
      let semantic =
        validate_source source (as_reading reading) (Option.map as_reading last_good) in
      let state = derive_state {F = F} collector semantic none none true in
      record {
        state = state;
        weight = compute_weight state;
        collector_status = collector;
        semantic_status = semantic;
        ts = ts;
        evidence_seen_at = stamp_if (is_ok collector) received_at;
      }

  -- one turn of the loop over source_health
  unfoldable pub evaluate_source :
      Payload F → String → String → String → CollectorStatus → DeviceTrust F → DeviceTrust F
  evaluate_source payload ts received_at source status t =
      let reading = extract_reading source payload in
      let collector = coerce source reading status in
      let row = evaluated_row source reading (lookup source t.last_good) collector ts received_at in
      let written = upsert_source_trust source row t in
      if not (contains known_trust_sources source)
      then t
      else if is_ok collector && is_given reading
      then set_last_good source reading written
      else written

  unfoldable pub evaluate_sources :
      Payload F → String → String → Dict CollectorStatus → DeviceTrust F → DeviceTrust F
  evaluate_sources payload ts received_at [] t = t
  evaluate_sources payload ts received_at ((source, status) ∷ health) t =
      evaluate_sources payload ts received_at health
        (evaluate_source payload ts received_at source status t)

  abbrev pub source_trust_of : String → SourceRow F → SourceTrust F
  source_trust_of source row = record {
    source = source;
    state = row.state;
    weight = row.weight;
    collector_status = row.collector_status;
    semantic_status = row.semantic_status;
    age_sec = none;
    reason = none;
  }

  -- _build_source_trust_map
  unfoldable pub build_source_trust_map : DeviceTrust F → String → Option (SourceTrust F)
  build_source_trust_map t source = Option.map (source_trust_of source) (lookup source t.sources)

  abbrev pub has_last_good : DeviceTrust F → String → Bool
  has_last_good t source = elim (lookup source t.last_good) [ none ↦ false | some _ ↦ true ]

  unfoldable pub source_lines : (String → Bool) → Dict (SourceRow F) → Dict (SourceLine F)
  source_lines have_last_good [] = []
  source_lines have_last_good ((source, row) ∷ rows) =
      (
        source,
        record {
          trust = source_trust_of source row;
          regressed = collector_fails row.collector_status && have_last_good source;
        },
      )
      ∷ source_lines have_last_good rows

  unfoldable pub build_trust_blob : DeviceTrust F → TrustBlob F
  build_trust_blob t = record {
    domains = map (λ domain. resolve_domain_trust domain (build_source_trust_map t)) domain_names;
    sources = source_lines (has_last_good t) t.sources;
  }

  unfoldable pub evaluate_trust :
      Payload F → Dict CollectorStatus → String → String → DeviceTrust F → DeviceTrust F
  evaluate_trust payload source_health ts received_at t =
      let after = evaluate_sources payload ts received_at source_health t in
      record {
        sources = after.sources;
        last_good = after.last_good;
        trust = some (build_trust_blob after);
      }
