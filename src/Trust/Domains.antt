-- ===== src/Trust/Domains.antt =====
-- server/trust/domains.py: the sources of a scoring domain settle whether it is trusted.
pub mod Verdict
use Prim.Native.String.{String}
use text.Mathlib.Text.{◌==◌ as str_eq}
use srp.Prelude.{
  if◌then◌else◌, Floats, Bool, true, false, not, Option, none, some, List, [], ◌∷◌, ◌++◌,
}
use srp.Trust.States.{SourceState, SourceTrust, passes_gate}

-- DOMAIN_SOURCES.get(domain): the required and the optional sources
unfoldable pub domain_sources : String → Option (List String × List String)
domain_sources domain =
    if str_eq domain "storage"
    then some ("storage_reliability" ∷ [], "disk_latency" ∷ "smart" ∷ [])
    else if str_eq domain "disk_fill"
    then some ("free_space" ∷ [], [])
    else if str_eq domain "os_stability"
    then some ("reliability" ∷ [], [])
    else if str_eq domain "boot"
    then some ("boot_time" ∷ [], [])
    else if str_eq domain "thermal"
    then some ("throttle" ∷ [], [])
    else if str_eq domain "network"
    then some ("network" ∷ [], [])
    else none

pub data DomainTrustState : Type 0 where
  trusted unknown not_applicable : DomainTrustState

-- The texts of `reason`, by what they say.
pub data Reason : Type 0 where
  no_reason unknown_domain : Reason
  not_reported not_applicable_source : String → Reason
  gate_failed : String → SourceState → Reason

pub record DomainTrust (F : Type 0) : Type 0 where
  pub domain : String
  pub state : DomainTrustState
  pub weight : F
  pub contributing : List String
  pub dropped : List String
  pub reason : Reason

-- What the loop over the required sources comes to: an early return, or the weights and names.
pub data Required (F : Type 0) : Type 0 where
  stop : DomainTrustState → Reason → Required F
  pass : List F → List String → Required F

abbrev pub is_not_applicable : SourceState → Bool
is_not_applicable SourceState.not_applicable = true
is_not_applicable _ = false

module _ {F : Type 0} where
  abbrev pub add_required : F → String → Required F → Required F
  add_required w name (stop s r) = stop s r
  add_required w name (pass ws names) = pass (w ∷ ws) (name ∷ names)

  -- one round of the loop over the required sources
  unfoldable pub require : String → Option (SourceTrust F) → Required F → Required F
  require name none rest = stop unknown (not_reported name)
  require name (some st) rest =
      if is_not_applicable st.state
      then stop not_applicable (not_applicable_source name)
      else if not (passes_gate st)
      then stop unknown (gate_failed name st.state)
      else add_required st.weight name rest

  unfoldable pub require_all : List String → (String → Option (SourceTrust F)) → Required F
  require_all [] sources = pass [] []
  require_all (name ∷ names) sources = require name (sources name) (require_all names sources)

  -- `for name in spec["optional"]`: those that contribute, and those that are dropped
  abbrev pub sort_one :
      String → Option (SourceTrust F) → List String × List String → List String × List String
  sort_one name none (good, bad) = (good, bad)
  sort_one name (some st) (good, bad) =
      if passes_gate st then (name ∷ good, bad) else (good, name ∷ bad)

  unfoldable pub sort_optional :
      List String → (String → Option (SourceTrust F)) → List String × List String
  sort_optional [] sources = ([], [])
  sort_optional (name ∷ names) sources = sort_one name (sources name) (sort_optional names sources)

module _ {F : Type 0} ⦃fl : Floats F⦄ where
  unfoldable pub min_from : F → List F → F
  min_from m [] = m
  min_from m (w ∷ ws) = min_from (if fl.lt w m then w else m) ws

  -- min(required_weights) if required_weights else 0.0
  unfoldable pub min_weight : List F → F
  unfolding min_from
  min_weight [] = fl.whole 0
  min_weight (w ∷ ws) = min_from w ws

  unfoldable pub conclude :
      String → List String → (String → Option (SourceTrust F)) → Required F → DomainTrust F
  unfolding sort_optional min_weight
  conclude domain optional sources (stop s r) = record {
    domain = domain;
    state = s;
    weight = fl.whole 0;
    contributing = [];
    dropped = [];
    reason = r;
  }
  conclude domain optional sources (pass ws names) =
      let (good, bad) = sort_optional optional sources in
      record {
        domain = domain;
        state = trusted;
        weight = min_weight ws;
        contributing = names ++ good;
        dropped = bad;
        reason = no_reason;
      }

  abbrev by_spec :
      String
      → (String → Option (SourceTrust F))
      → Option (List String × List String)
      → DomainTrust F
  by_spec domain sources none = record {
    domain = domain;
    state = unknown;
    weight = fl.whole 0;
    contributing = [];
    dropped = [];
    reason = unknown_domain;
  }
  by_spec domain sources (some (required, optional)) =
      conclude domain optional sources (require_all required sources)

  unfoldable pub resolve_domain_trust : String → (String → Option (SourceTrust F)) → DomainTrust F
  resolve_domain_trust domain sources = by_spec domain sources (domain_sources domain)
