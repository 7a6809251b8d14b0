-- ===== src/Trust/Staleness/Passes.antt =====
-- What a pass over the rows changes, and what it leaves.
use Prim.Native.String.{String}
use text.Mathlib.Text.{◌==◌ as str_eq}
use text.Mathlib.TextEquality.{eq_iff}
use text.Mathlib.TextPositions.{eq_refl}
use srp.Prelude.{
  Bool-cases, Option-cases, Floats, tenths, ◌≡◌, refl, sym, ap, ◌∙◌, ◌≢◌, inl, inr, true, false,
  Option, none, some, arith,
}
use srp.Trust.States.{CollectorStatus, SemanticStatus, SourceState}
use srp.Trust.Gate.{derive_state, derive_state-older, compute_weight}
use srp.Trust.Staleness.{
  TrustRow, StaleUpdate, value, says, is_staleness_source, collector_of, semantic_of, age_sec,
  update_with, update_of,
}

value-stale : (s : SourceState) → s ≢ SourceState.stale → str_eq (value s) "stale" ≡ false
value-stale SourceState.stale h = absurd (h refl)
value-stale SourceState.ok h = refl
value-stale _ h = refl

value-ne_stale : (s : SourceState) → s ≢ SourceState.stale → value s ≢ "stale"
value-ne_stale s h e = cc (sym (value-stale s h) ∙ (eq_iff _ _).1 e)

module _ {F : Type 0} ⦃fl : Floats F⦄ (seconds_since : String → Option F) (limit : F) where
  -- What a row that is updated is known to be: its age and its statuses are readable.
  pub record Reading (row : TrustRow) : Type 0 where
    pub is_watched : is_staleness_source row.source ≡ true
    pub age : F
    pub aged : age_sec seconds_since row.evidence_seen_at ≡ some age
    pub collector : CollectorStatus
    pub collected : collector_of row.collector_status ≡ some collector
    pub semantic : SemanticStatus
    pub judged : semantic_of row.semantic_status ≡ some semantic

  -- the state that the gate gives the row now
  abbrev pub state_now : {row : TrustRow} → Reading row → SourceState
  state_now r = derive_state r.collector r.semantic (some r.age) (some limit) true

  not_stale :
      (c : CollectorStatus) (s : SemanticStatus) (age : F)
      → fl.lt limit age ≡ false
      → derive_state c s (some age) (some limit) true ≢ SourceState.stale
  unfolding derive_state
  not_stale c s age h = ground arith

  update_with-eq-some :
      (row : TrustRow) (r : Reading row) {u : StaleUpdate F}
      → update_with seconds_since row limit r.age r.collector r.semantic ≡ some u
      → (u.state ≡ value (state_now r))
        × (says u.state row.state ≡ false)
        × (u.weight ≡ compute_weight (state_now r))
        × (u.evidence_seen_at ≡ row.evidence_seen_at)
  unfolding update_with
  update_with-eq-some row r h = ground arith

  update_with-other :
      (row : TrustRow) (r : Reading row)
      → says (value (state_now r)) row.state ≡ false
      → (u : StaleUpdate F) × (update_with seconds_since row limit r.age r.collector r.semantic
          ≡ some u)
        × (u.state ≡ value (state_now r))
  unfolding update_with
  update_with-other row r other = (
    record {
      device_id = row.device_id;
      source = row.source;
      state = value (state_now r);
      weight = compute_weight (state_now r);
      age = r.age;
      threshold = limit;
      evidence_seen_at = row.evidence_seen_at;
    },
    rw other,
    refl,
  )

  update_with-same :
      (row : TrustRow) (r : Reading row)
      → says (value (state_now r)) row.state ≡ true
      → update_with seconds_since row limit r.age r.collector r.semantic ≡ none
  unfolding update_with
  update_with-same row r same = rw same

  update_of-Reading :
      (row : TrustRow) {u : StaleUpdate F}
      → update_of seconds_since limit row ≡ some u
      → (r : Reading row) × (update_with seconds_since row limit r.age r.collector r.semantic
          ≡ some u)
  unfolding update_of
  update_of-Reading row h = elim (Bool-cases (is_staleness_source row.source)) [
    | inr other ↦ absurd (cc (rw other at h))
    | inl watched ↦ elim (Option-cases (age_sec seconds_since row.evidence_seen_at)) [
      | inl unaged ↦ absurd (cc (rw (watched, unaged) at h))
      | inr (age, ea) ↦ elim (Option-cases (collector_of row.collector_status)) [
        | inl bad ↦ absurd (cc (rw (watched, ea, bad) at h))
        | inr (c, ec) ↦ elim (Option-cases (semantic_of row.semantic_status)) [
          | inl bad ↦ absurd (cc (rw (watched, ea, ec, bad) at h))
          | inr (s, es) ↦ (
            record {
              is_watched = watched;
              age = age;
              aged = ea;
              collector = c;
              collected = ec;
              semantic = s;
              judged = es;
            },
            rw (watched, ea, ec, es) at h,
          )
        ]
      ]
    ]
  ]

  -- and the other way round
  Reading-update_of :
      (row : TrustRow) (r : Reading row)
      → update_of seconds_since limit row
        ≡ update_with seconds_since row limit r.age r.collector r.semantic
  unfolding update_of
  Reading-update_of row r = rw (r.is_watched, r.aged, r.collected, r.judged)

  -- An update carries the state and the weight that the gate gives the row now, which is not the
  -- state that is stored, and the timestamp that it was computed from.
  pub update_of-eq-some :
      (row : TrustRow) {u : StaleUpdate F}
      → update_of seconds_since limit row ≡ some u
      → (r : Reading row) × (u.state ≡ value (state_now r))
        × (says u.state row.state ≡ false)
        × (u.weight ≡ compute_weight (state_now r))
        × (u.evidence_seen_at ≡ row.evidence_seen_at)
  update_of-eq-some row {u} h =
      let (r, e) = update_of-Reading row h in
      let (a, b, c, d) = update_with-eq-some row r e in (r, a, b, c, d)

  -- A pass settles: where an update was written to its row, the next pass at the same time and with
  -- the same limit leaves the row alone.
  pub update_of_settled :
      (row : TrustRow) {u : StaleUpdate F}
      → update_of seconds_since limit row ≡ some u
      → update_of seconds_since limit (record row { state = some u.state }) ≡ none
  update_of_settled row {u} h =
      let (r, same, _, _, _) = update_of-eq-some row h in
      let r' : Reading (record row { state = some u.state }) = record {
        is_watched = r.is_watched;
        age = r.age;
        aged = r.aged;
        collector = r.collector;
        collected = r.collected;
        semantic = r.semantic;
        judged = r.judged;
      } in
      Reading-update_of (record row { state = some u.state }) r'
      ∙ update_with-same (record row { state = some u.state }) r' (rw same (eq_refl _))

  -- Silence only takes trust away: a row whose stored state the gate gave it at a smaller age, with
  -- the same limit, is left alone or becomes stale, with the weight 0.
  pub update_of_degrades :
      (row : TrustRow) {u : StaleUpdate F}
      → update_of seconds_since limit row ≡ some u
      → (before : F) (r : Reading row) → fl.lt before r.age ≡ true
      → row.state
        ≡ some (value (derive_state r.collector r.semantic (some before) (some limit) true))
      → (u.state ≡ "stale") × (u.weight ≡ fl.whole 0)
  update_of_degrades row {u} h before r older stored =
      let known = Reading-update_of row r in
      let (now, differs, weight, _) = update_with-eq-some row r (sym known ∙ h) in
      elim (derive_state-older r.collector r.semantic before r.age limit true older) [
        | inl same ↦
            let again : says u.state row.state ≡ true = rw (stored, now, same) (eq_refl _) in
            absurd (cc (sym again ∙ differs))
        | inr stale ↦ (
          now ∙ ap value stale,
          weight ∙ ap compute_weight stale ∙ (unfold compute_weight in refl),
        )
      ]

  -- A limit that was raised revives: a watched row that is stored as stale and is within the limit
  -- now is updated to the state that its statuses and its age have, with the weight of that state, and
  -- the state is not stale.
  pub update_of_revives :
      (row : TrustRow) (r : Reading row)
      → row.state ≡ some "stale"
      → fl.lt limit r.age ≡ false
      → (u : StaleUpdate F) × (update_of seconds_since limit row ≡ some u)
        × (u.state ≡ value (state_now r))
        × (u.weight ≡ compute_weight (state_now r))
        × (u.state ≢ "stale")
  update_of_revives row r stored young =
      let fresh : state_now r ≢ SourceState.stale = not_stale r.collector r.semantic r.age young in
      let (u, e, now) = update_with-other row r (rw stored (value-stale (state_now r) fresh)) in
      (
        u,
        Reading-update_of row r ∙ e,
        now,
        (update_with-eq-some row r e).2,
        λ is_stale. value-ne_stale (state_now r) fresh (sym now ∙ is_stale),
      )
