-- ===== src/Ingest/Evaluate/Evidence.antt =====
-- server/pipeline.py: evidence is stamped only for what was collected, and nothing collected is never
-- trusted; but a reading that fails its checks becomes the last good one all the same.
use Prim.Native.String.{String}
use mathlib.Core.Option as Option
use srp.Texts.{Dict, lookup, AreUnique}
use srp.Netdisco.Sets.{contains}
use srp.Trust.States.{CollectorStatus, in_gate_pass}
use srp.Trust.Gate.{collector_fails, is_suspicious, in_gate_pass-derive_state}
use srp.Trust.Domains.{domain_sources, trusted, resolve_domain_trust}
use srp.Trust.Domains.Verdict.{resolve_domain_trust-trusted_iff}
use srp.Trust.Validators.{validate_source}
use srp.Ingest.Sources.{
  first_disk, known_trust_sources, empty_coercible_sources, Payload, Extracted, extract_reading,
  reading_is_empty, is_given, as_reading,
}
use srp.Ingest.Evaluate.{
  coalesce_evidence, stamp_if, SourceRow, DeviceTrust, merged, source_trust_of, is_ok, old_evidence,
  coerce, evaluated_row, evaluate_sources, build_source_trust_map, evaluate_trust,
}
use srp.Ingest.Evaluate.Rows.{collector_after, row_after, good_after, evaluate_sources_lem}
use srp.Prelude.{
  if◌then◌else◌, Bool-cases, Floats, ◌≡◌, refl, ap, ◌∙◌, ◌≢◌, ◌↔◌, inl, inr, Bool, true, false, not,
  ◌&&◌, sym, Option, none, some, List, [], ◌∷◌, arith,
}

module _ {F : Type 0} where
  given_of : (r : Extracted F) → reading_is_empty r ≡ false → is_given r ≡ true
  given_of Extracted.nothing h = cc h
  given_of (Extracted.scalar v) h = refl
  given_of (Extracted.slice r) h = refl

  abbrev pub evidence_of : DeviceTrust F → String → Option String
  evidence_of t source = old_evidence (lookup source t.sources)

stamped :
    (b : Bool) (received_at : String) (old : Option String)
    → coalesce_evidence (stamp_if b received_at) old ≡ (if b then some received_at else old)
stamped true received_at old = refl
stamped false received_at old = refl

known_of_coercible :
    (source : String)
    → contains empty_coercible_sources source ≡ true
    → contains known_trust_sources source ≡ true
unfolding contains
known_of_coercible source h = ground arith

module _ {F : Type 0} ⦃fl : Floats F⦄ where
  -- The source is known and was reported as "ok", and it is not one of the coercible sources with a
  -- reading that counts as empty. (That of "smart" or "network" never counts so.)
  abbrev pub is_evidence : Payload F → String → Option CollectorStatus → Bool
  is_evidence payload source none = false
  is_evidence payload source (some status) =
      contains known_trust_sources source
      && (is_ok status
          && not (
              contains empty_coercible_sources source
              && reading_is_empty (extract_reading source payload)))

  ok_after :
      (payload : Payload F) (source : String) (status : CollectorStatus)
      → is_ok (collector_after payload source status) ≡ (
          is_ok status
          && not (
              contains empty_coercible_sources source
              && reading_is_empty (extract_reading source payload)))
  unfolding coerce
  ok_after payload source status = elim (Bool-cases (is_ok status)) [
    | inr bad ↦ rw bad bad
    | inl fine ↦ elim (Bool-cases (reading_is_empty (extract_reading source payload))) [
      | inr full ↦ ground (arith, fine, full)
      | inl empty ↦ elim (Bool-cases (contains empty_coercible_sources source)) [
        | inr kept ↦ rw (fine, empty, kept) fine
        | inl coerced ↦ rw (fine, empty, coerced) refl
      ]
    ]
  ]

  module _ (payload : Payload F) (health : Dict CollectorStatus) (ts received_at : String)
      (t : DeviceTrust F) where
    evidence_after :
        (source : String) (o : Option CollectorStatus)
        → old_evidence (row_after payload ts received_at source o t)
          ≡ (if is_evidence payload source o then some received_at else evidence_of t source)
    unfolding evaluated_row
    evidence_after source none = refl
    evidence_after source (some status) = elim (Bool-cases (contains known_trust_sources source)) [
      | inr unknown ↦ rw unknown refl
      | inl known ↦
          rw (known, sym (ok_after payload source status))
            (stamped (is_ok (collector_after payload source status)) received_at
              (evidence_of t source))
    ]

    -- After an envelope in which no source is reported twice, the time of the last evidence of a source
    -- is the moment of receipt, if the source is a known one that is reported as "ok" and is not a
    -- coercible one whose reading counts as empty; in every other case it is what it was before.
    pub evaluate_trust-evidence :
        (source : String)
        → AreUnique health
        → evidence_of (evaluate_trust payload health ts received_at t) source ≡ (
            if is_evidence payload source (lookup source health)
            then some received_at
            else evidence_of t source)
    unfolding evaluate_trust
    evaluate_trust-evidence source unique =
        ap old_evidence (evaluate_sources_lem payload ts received_at health source t unique).0
        ∙ evidence_after source (lookup source health)

    abbrev after : DeviceTrust F
    after = evaluate_sources payload ts received_at health t

    abbrev pub row_written : String → CollectorStatus → SourceRow F
    row_written source status =
        merged
          (evaluated_row source (extract_reading source payload) (lookup source t.last_good)
            (collector_after payload source status) ts received_at)
          (lookup source t.sources)

    pub written :
        (source : String) (status : CollectorStatus)
        → AreUnique health
        → lookup source health ≡ some status
        → contains known_trust_sources source ≡ true
        → lookup source after.sources ≡ some (row_written source status)
    written source status unique reported known =
        (evaluate_sources_lem payload ts received_at health source t unique).0
        ∙ (ap (λ o. row_after payload ts received_at source o t) reported ∙ rw known refl)

    -- The gate, for the row that was written.
    written_gate :
        (source : String) (status : CollectorStatus)
        → AreUnique health
        → lookup source health ≡ some status
        → contains known_trust_sources source ≡ true
        → (row : SourceRow F) × (lookup source after.sources ≡ some row)
          × ((in_gate_pass row.state ≡ true) ↔ (
              (is_suspicious (
                  validate_source source
                    (as_reading (extract_reading source payload))
                    (Option.map as_reading (lookup source t.last_good)))
                ≡ false)
              × (collector_fails (collector_after payload source status) ≡ false)))
    unfolding evaluated_row
    written_gate source status unique reported known =
        let collector = collector_after payload source status in
        let semantic =
          validate_source source (as_reading (extract_reading source payload))
            (Option.map as_reading (lookup source t.last_good)) in
        let gate = in_gate_pass-derive_state {F = F} collector semantic none none true in
        (
          row_written source status,
          written source status unique reported known,
          (
            λ passes. ((gate.0 passes).1, (gate.0 passes).2),
            λ both. gate.1 (refl, both.0, both.1, refl),
          ),
        )

    coerced_fails :
        (source : String)
        → contains empty_coercible_sources source ≡ true
        → reading_is_empty (extract_reading source payload) ≡ true
        → ¬ (collector_fails (collector_after payload source CollectorStatus.ok) ≡ false)
    unfolding coerce
    coerced_fails source must empty low = cc (rw (empty, must) at low)

    good_kept :
        (source : String)
        → contains known_trust_sources source ≡ true
        → reading_is_empty (extract_reading source payload) ≡ false
        → good_after payload source (some CollectorStatus.ok) t
          ≡ some (extract_reading source payload)
    unfolding coerce
    good_kept source known full =
        rw (known, full, given_of (extract_reading source payload) full) refl

    empty_untrusted :
        (domain source : String) (optional : List String)
        → AreUnique health
        → domain_sources domain ≡ some (source ∷ [], optional)
        → lookup source health ≡ some CollectorStatus.ok
        → contains empty_coercible_sources source ≡ true
        → reading_is_empty (extract_reading source payload) ≡ true
        → (resolve_domain_trust domain
            (build_source_trust_map (evaluate_trust payload health ts received_at t))).state
          ≢ trusted
    unfolding evaluate_trust build_source_trust_map
    empty_untrusted domain source optional unique spec reported must empty h =
        let known = known_of_coercible source must in
        let (row, found, gate) = written_gate source CollectorStatus.ok unique reported known in
        let (st, e, passes) =
          ((resolve_domain_trust-trusted_iff
              (build_source_trust_map (evaluate_trust payload health ts received_at t)) domain
              (source ∷ []) optional spec).0
            h).0 in
        let same : source_trust_of source row ≡ st = cc (rw found at e) in
        let low = (gate.0 (ap (λ x. in_gate_pass x.state) same ∙ passes)).1 in
        coerced_fails source must empty low

    -- The payload has nothing for the source that the domain requires: no first disk, or no number.
    pub data IsMissing : String → String → Type 0 where
      no_disk : first_disk payload.storage ≡ none → IsMissing "storage" "storage_reliability"
      no_space : payload.free_space_pct ≡ none → IsMissing "disk_fill" "free_space"
      no_index : payload.reliability_stability_index ≡ none → IsMissing "os_stability" "reliability"
      no_boot : payload.avg_boot_ms ≡ none → IsMissing "boot" "boot_time"
      no_throttle : payload.cpu_perf_pct ≡ none → IsMissing "thermal" "throttle"

    -- In the domains of storage, disk fill, stability, boot and heat: if the source that the domain
    -- requires is reported as "ok" and the payload has nothing for it, the domain is not trusted after
    -- the envelope, whatever was stored before. No source is reported twice. The network is not among
    -- them: its reading never counts as empty.
    pub evaluate_trust-empty :
        (domain source : String)
        → IsMissing domain source
        → AreUnique health
        → lookup source health ≡ some CollectorStatus.ok
        → (resolve_domain_trust domain
            (build_source_trust_map (evaluate_trust payload health ts received_at t))).state
          ≢ trusted
    unfolding domain_sources extract_reading contains
    evaluate_trust-empty domain source (no_disk h) unique reported =
        empty_untrusted "storage" "storage_reliability" _ unique refl reported refl (rw h refl)
    evaluate_trust-empty domain source (no_space h) unique reported =
        empty_untrusted "disk_fill" "free_space" _ unique refl reported refl (rw h refl)
    evaluate_trust-empty domain source (no_index h) unique reported =
        empty_untrusted "os_stability" "reliability" _ unique refl reported refl (rw h refl)
    evaluate_trust-empty domain source (no_boot h) unique reported =
        empty_untrusted "boot" "boot_time" _ unique refl reported refl (rw h refl)
    evaluate_trust-empty domain source (no_throttle h) unique reported =
        empty_untrusted "thermal" "throttle" _ unique refl reported refl (rw h refl)

    -- The reading of a known source with an "ok" and a reading is kept as its last good one, whether
    -- or not it failed its checks.
    pub evaluate_trust-last_good :
        (source : String)
        → AreUnique health
        → contains known_trust_sources source ≡ true
        → lookup source health ≡ some CollectorStatus.ok
        → reading_is_empty (extract_reading source payload) ≡ false
        → lookup source (evaluate_trust payload health ts received_at t).last_good
          ≡ some (extract_reading source payload)
    unfolding evaluate_trust
    evaluate_trust-last_good source unique known reported full =
        (evaluate_sources_lem payload ts received_at health source t unique).1
        ∙ (ap (λ o. good_after payload source o t) reported ∙ good_kept source known full)
