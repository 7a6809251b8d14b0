-- ===== src/Trust/Gate.antt =====
-- server/trust/gate.py: the state of a source, and its weight.
use srp.Prelude.{
  if◌then◌else◌, Floats, ◌≡◌, refl, ◌↔◌, ◌⊎◌, Bool, true, false, not, Option, some, arith,
}
use srp.Trust.States.{CollectorStatus, SemanticStatus, SourceState, in_gate_pass}

-- collector_status in _COLLECTOR_FAIL
abbrev pub collector_fails : CollectorStatus → Bool
collector_fails CollectorStatus.ok = false
collector_fails CollectorStatus.partial = false
collector_fails _ = true

-- semantic_status in _SEMANTIC_SUSPECT
abbrev pub is_suspicious : SemanticStatus → Bool
is_suspicious SemanticStatus.plausible = false
is_suspicious SemanticStatus.unchecked = false
is_suspicious _ = true

abbrev pub is_partial : CollectorStatus → Bool
is_partial CollectorStatus.partial = true
is_partial _ = false

module _ {F : Type 0} ⦃fl : Floats F⦄ where
  -- stale_after_sec is not None and age_sec is not None and age_sec > stale_after_sec
  abbrev pub is_too_old : Option F → Option F → Bool
  is_too_old (some age) (some limit) = fl.lt limit age
  is_too_old _ _ = false

  unfoldable pub derive_state :
      CollectorStatus → SemanticStatus → Option F → Option F → Bool → SourceState
  derive_state collector semantic age_sec stale_after_sec applicable =
      if not applicable
      then SourceState.not_applicable
      else if is_suspicious semantic
      then SourceState.suspect
      else if collector_fails collector
      then SourceState.unavailable
      else if is_too_old age_sec stale_after_sec
      then SourceState.stale
      else if is_partial collector
      then SourceState.degraded
      else SourceState.ok

  unfoldable pub compute_weight : SourceState → F
  compute_weight SourceState.ok = fl.whole 1
  compute_weight SourceState.degraded = fl.half
  compute_weight _ = fl.whole 0

  -- A source passes the gate exactly when it is applicable, its data are believable, the collector
  -- got at least a part of them, and they are not too old.
  pub in_gate_pass-derive_state :
      (collector : CollectorStatus) (semantic : SemanticStatus) (age limit : Option F)
      (applicable : Bool)
      → (in_gate_pass (derive_state collector semantic age limit applicable) ≡ true) ↔ (
          (applicable ≡ true)
          × (is_suspicious semantic ≡ false)
          × (collector_fails collector ≡ false)
          × (is_too_old age limit ≡ false))
  unfolding derive_state
  in_gate_pass-derive_state collector semantic age limit applicable = ground arith

  -- With time alone a source goes only one way: where there is a limit and the age is known, at a
  -- greater age its state is what it was, or it is stale.
  pub derive_state-older :
      (collector : CollectorStatus) (semantic : SemanticStatus) (a b limit : F) (applicable : Bool)
      → fl.lt a b ≡ true
      → (derive_state collector semantic (some b) (some limit) applicable
          ≡ derive_state collector semantic (some a) (some limit) applicable)
        ⊎ (derive_state collector semantic (some b) (some limit) applicable ≡ SourceState.stale)
  unfolding derive_state
  derive_state-older collector semantic a b limit applicable h =
      ground (arith, fl.lt_trans limit a b)

module _ {F : Type 0} (fl : Floats F) where
  no_weight : {A : Type 0} → fl.lt (fl.whole 0) (fl.whole 0) ≡ true → A
  no_weight h = cc (fl.lt_irrefl (fl.whole 0))

  -- The weight of a source is above 0 exactly when the source passes the gate.
  pub compute_weight-pos_iff :
      (s : SourceState)
      → (fl.lt (fl.whole 0) (compute_weight ⦃fl = fl⦄ s) ≡ true) ↔ (in_gate_pass s ≡ true)
  unfolding compute_weight
  compute_weight-pos_iff SourceState.ok =
      (λ _. refl, λ _. fl.lt_trans _ _ _ fl.zero_lt_half fl.half_lt_one)
  compute_weight-pos_iff SourceState.degraded = (λ _. refl, λ _. fl.zero_lt_half)
  compute_weight-pos_iff _ = (no_weight, λ h. cc)
