-- ===== src/Trust/States.antt =====
-- server/trust/states.py
use srp.Prelude.{Bool, true, false, Option}
use Prim.Native.String.{String}

pub data CollectorStatus : Type 0 where
  ok partial empty timeout blocked absent : CollectorStatus

pub data SemanticStatus : Type 0 where
  plausible implausible inconsistent frozen known_bad unchecked : SemanticStatus

pub data SourceState : Type 0 where
  ok degraded stale unavailable suspect not_applicable : SourceState

-- state in GATE_PASS
abbrev pub in_gate_pass : SourceState → Bool
in_gate_pass SourceState.ok = true
in_gate_pass SourceState.degraded = true
in_gate_pass _ = false

pub record SourceTrust (F : Type 0) : Type 0 where
  pub source : String
  pub state : SourceState
  pub weight : F
  pub collector_status : CollectorStatus
  pub semantic_status : SemanticStatus
  pub age_sec : Option F
  pub reason : Option String

abbrev pub passes_gate : {F : Type 0} → SourceTrust F → Bool
passes_gate st = in_gate_pass st.state

abbrev pub same_state : SourceState → SourceState → Bool
same_state SourceState.ok SourceState.ok = true
same_state SourceState.degraded SourceState.degraded = true
same_state SourceState.stale SourceState.stale = true
same_state SourceState.unavailable SourceState.unavailable = true
same_state SourceState.suspect SourceState.suspect = true
same_state SourceState.not_applicable SourceState.not_applicable = true
same_state _ _ = false
