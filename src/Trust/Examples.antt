-- ===== src/Trust/Examples.antt =====
-- Runs of the trust model over tenths, and its theorems at inputs that meet their hypotheses.
use Prim.Native.String.{String}
use text.Mathlib.Text.{◌==◌ as str_eq}
use srp.Prelude.{if◌then◌else◌, tenths, ℕ, ◌≡◌, refl, ◌≢◌, ◌↔◌, Option, none, some, [], ◌∷◌}
use srp.Trust.States.{CollectorStatus, SemanticStatus, SourceState, SourceTrust}
use srp.Trust.Gate.{derive_state, compute_weight}
use srp.Trust.Domains.{
  domain_sources, trusted, require, require_all, conclude, resolve_domain_trust,
}
use srp.Trust.Domains.Verdict.{
  ArePassing, resolve_domain_trust-ArePassing, resolve_domain_trust-trusted_iff,
}
use srp.Trust.Staleness.{
  value, TrustRow, StaleUpdate, is_staleness_source, collector_of, semantic_of, age_sec,
  update_with, update_of,
}
use srp.Trust.Staleness.Passes.{Reading, state_now, update_of_revives}
use srp.Trust.Validators.{Item, Reading as SmartReading}

abbrev source_trust : SourceState → SourceTrust ℕ
source_trust s = record {
  source = "s";
  state = s;
  weight = 1005;
  collector_status = CollectorStatus.ok;
  semantic_status = SemanticStatus.plausible;
  age_sec = none;
  reason = none;
}

-- The SMART source is suspect, the others are fine.
abbrev reported : String → Option (SourceTrust ℕ)
reported name =
    if str_eq name "smart"
    then some (source_trust SourceState.suspect)
    else some (source_trust SourceState.degraded)

storage_resolved :
    ((resolve_domain_trust "storage" reported).contributing
      ≡ "storage_reliability" ∷ "disk_latency" ∷ [])
    × ((resolve_domain_trust "storage" reported).weight ≡ 1005)
unfolding resolve_domain_trust conclude require_all require domain_sources
storage_resolved = (refl, refl)

resolve_domain_trust-ArePassing_example :
    ArePassing reported (resolve_domain_trust "storage" reported).contributing
resolve_domain_trust-ArePassing_example = resolve_domain_trust-ArePassing reported "storage"

resolve_domain_trust-trusted_iff_example :
    ((resolve_domain_trust "storage" reported).state ≡ trusted)
    ↔ ArePassing reported ("storage_reliability" ∷ [])
unfolding domain_sources
resolve_domain_trust-trusted_iff_example =
    resolve_domain_trust-trusted_iff reported "storage" ("storage_reliability" ∷ [])
      ("disk_latency" ∷ "smart" ∷ []) refl

-- The only timestamp that is readable is 100.0 seconds old.
abbrev seconds_since : String → Option ℕ
seconds_since text = if str_eq text "t" then some 2000 else none

abbrev row : Option String → TrustRow
row state = record {
  device_id = "pc";
  source = "network";
  state = state;
  collector_status = "ok";
  semantic_status = "plausible";
  evidence_seen_at = some "t";
}

abbrev reading : (limit : ℕ) (state : Option String) → Reading seconds_since limit (row state)
unfolding is_staleness_source age_sec collector_of semantic_of
reading limit state = record {
  is_watched = refl;
  age = 2000;
  aged = refl;
  collector = CollectorStatus.ok;
  collected = refl;
  semantic = SemanticStatus.plausible;
  judged = refl;
}

abbrev went_stale : StaleUpdate ℕ
went_stale = record {
  device_id = "pc";
  source = "network";
  state = "stale";
  weight = 1000;
  age = 2000;
  threshold = 1600;
  evidence_seen_at = some "t";
}

silent : update_of seconds_since 1600 (row (some "ok")) ≡ some went_stale
unfolding update_of update_with is_staleness_source age_sec collector_of semantic_of derive_state
    compute_weight
silent = refl

update_of_revives_example :
    (u : StaleUpdate ℕ) × (update_of seconds_since 9000 (row (some "stale")) ≡ some u)
    × (u.state ≡ value (state_now seconds_since 9000 (reading 9000 (some "stale"))))
    × (u.weight ≡ compute_weight (state_now seconds_since 9000 (reading 9000 (some "stale"))))
    × (u.state ≢ "stale")
unfolding is_staleness_source age_sec collector_of semantic_of
update_of_revives_example =
    update_of_revives seconds_since 9000 (row (some "stale")) (reading 9000 (some "stale")) refl
      refl

-- 150 % of wear.
abbrev worn : Item ℕ
worn key = if str_eq key "wear_pct" then some 2500 else none

abbrev disk : String → ℕ → SmartReading ℕ
disk serial errors = record {
  num = λ key. if str_eq key "nvme_media_errors" then some errors else none;
  serial_hash = some serial;
  smart_attrs = none;
  model = "";
  firmware = "";
  quality = [];
  signal_pcts = [];
  counts = [];
}
