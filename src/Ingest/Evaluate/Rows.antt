-- ===== src/Ingest/Evaluate/Rows.antt =====
-- server/pipeline.py: what the loop over source_health leaves in the rows of a device.
use Prim.Native.String.{String}
use text.Mathlib.Text.{◌==◌ as str_eq}
use text.Mathlib.TextEquality.{eq_iff}
use text.Mathlib.TextPositions.{eq_refl}
use mathlib.Core.Path.{subst}
use srp.Texts.{Dict, lookup, AreUnique, lookup-put}
use srp.Netdisco.Sets.{contains}
use srp.Trust.States.{CollectorStatus}
use srp.Ingest.Sources.{known_trust_sources, Payload, Extracted, extract_reading, is_given}
use srp.Ingest.Evaluate.{
  SourceRow, DeviceTrust, is_ok, merged, upsert_source_trust, set_last_good, coerce, evaluated_row,
  evaluate_source, evaluate_sources,
}
use srp.Prelude.{
  if◌then◌else◌, Bool-cases, Floats, tenths, ◌≡◌, refl, sym, ap, ◌∙◌, inl, inr, Bool, true, false,
  not, ◌&&◌, Option, none, some, [], ◌∷◌,
}

module _ {F : Type 0} ⦃fl : Floats F⦄ where
  -- The status after the coercion.
  abbrev pub collector_after : Payload F → String → CollectorStatus → CollectorStatus
  collector_after payload source status = coerce source (extract_reading source payload) status

  -- The row of a source after the loop, by what was reported of it.
  abbrev pub row_after :
      Payload F
      → String
      → String
      → String
      → Option CollectorStatus
      → DeviceTrust F
      → Option (SourceRow F)
  row_after payload ts received_at source none t = lookup source t.sources
  row_after payload ts received_at source (some status) t =
      if contains known_trust_sources source
      then some (
          merged
            (evaluated_row source (extract_reading source payload) (lookup source t.last_good)
              (collector_after payload source status) ts received_at)
            (lookup source t.sources))
      else lookup source t.sources

  -- The last good reading of a source after the loop.
  abbrev pub good_after :
      Payload F → String → Option CollectorStatus → DeviceTrust F → Option (Extracted F)
  good_after payload source none t = lookup source t.last_good
  good_after payload source (some status) t =
      if contains known_trust_sources source
        && (is_ok (collector_after payload source status)
            && is_given (extract_reading source payload))
      then some (extract_reading source payload)
      else lookup source t.last_good

module _ {V : Type 0} where
  lookup_head :
      (j k : String) (v : V) (d : Dict V) → str_eq j k ≡ true → lookup k ((j, v) ∷ d) ≡ some v
  unfolding lookup
  lookup_head j k v d same = rw same refl

  lookup_later :
      (j k : String) (v : V) (d : Dict V) → str_eq j k ≡ false → lookup k ((j, v) ∷ d) ≡ lookup k d
  unfolding lookup
  lookup_later j k v d apart = rw apart refl

-- A turn of the loop, by the two tests that it makes.
module _ {F : Type 0} where
  abbrev turn : Bool → Bool → String → SourceRow F → Extracted F → DeviceTrust F → DeviceTrust F
  turn known good source row reading t =
      if not known
      then t
      else if good
      then set_last_good source reading (upsert_source_trust source row t)
      else upsert_source_trust source row t

  turn_other :
      (known good : Bool) (source s : String) (row : SourceRow F) (reading : Extracted F)
      (t : DeviceTrust F)
      → str_eq source s ≡ false
      → (lookup s (turn known good source row reading t).sources ≡ lookup s t.sources)
        × (lookup s (turn known good source row reading t).last_good ≡ lookup s t.last_good)
  unfolding upsert_source_trust set_last_good
  turn_other false good source s row reading t apart = (refl, refl)
  turn_other true true source s row reading t apart = (
    rw (lookup-put source s (merged row (lookup source t.sources)) t.sources, apart) refl,
    rw (lookup-put source s reading t.last_good, apart) refl,
  )
  turn_other true false source s row reading t apart =
      (rw (lookup-put source s (merged row (lookup source t.sources)) t.sources, apart) refl, refl)

  turn_own :
      (known good : Bool) (s : String) (row : SourceRow F) (reading : Extracted F)
      (t : DeviceTrust F)
      → (lookup s (turn known good s row reading t).sources
          ≡ (if known then some (merged row (lookup s t.sources)) else lookup s t.sources))
        × (lookup s (turn known good s row reading t).last_good
            ≡ (if known && good then some reading else lookup s t.last_good))
  unfolding upsert_source_trust set_last_good
  turn_own false good s row reading t = (refl, refl)
  turn_own true true s row reading t = (
    rw (lookup-put s s (merged row (lookup s t.sources)) t.sources, eq_refl s) refl,
    rw (lookup-put s s reading t.last_good, eq_refl s) refl,
  )
  turn_own true false s row reading t =
      (rw (lookup-put s s (merged row (lookup s t.sources)) t.sources, eq_refl s) refl, refl)

module _ {F : Type 0} ⦃fl : Floats F⦄ where
  module _ (payload : Payload F) (ts received_at : String) where
    abbrev step : String → CollectorStatus → DeviceTrust F → DeviceTrust F
    step source status t = evaluate_source payload ts received_at source status t

    step_other :
        (source s : String) (status : CollectorStatus) (t : DeviceTrust F)
        → str_eq source s ≡ false
        → (lookup s (step source status t).sources ≡ lookup s t.sources)
          × (lookup s (step source status t).last_good ≡ lookup s t.last_good)
    unfolding evaluate_source
    step_other source s status t apart =
        let reading = extract_reading source payload in
        let collector = coerce source reading status in
        turn_other (contains known_trust_sources source) (is_ok collector && is_given reading)
          source s
          (evaluated_row source reading (lookup source t.last_good) collector ts received_at)
          reading t apart

    step_own :
        (s : String) (status : CollectorStatus) (t : DeviceTrust F)
        → (lookup s (step s status t).sources ≡ row_after payload ts received_at s (some status) t)
          × (lookup s (step s status t).last_good ≡ good_after payload s (some status) t)
    unfolding evaluate_source
    step_own s status t =
        let reading = extract_reading s payload in
        let collector = coerce s reading status in
        turn_own (contains known_trust_sources s) (is_ok collector && is_given reading) s
          (evaluated_row s reading (lookup s t.last_good) collector ts received_at) reading t

    after_local :
        (s : String) (o : Option CollectorStatus) (u t : DeviceTrust F)
        → lookup s u.sources ≡ lookup s t.sources
        → lookup s u.last_good ≡ lookup s t.last_good
        → (row_after payload ts received_at s o u ≡ row_after payload ts received_at s o t)
          × (good_after payload s o u ≡ good_after payload s o t)
    after_local s none u t h k = (h, k)
    after_local s (some status) u t h k = (rw (h, k) refl, rw k refl)

    -- The loop over source_health leaves the row and the last good reading of every source as
    -- `row_after` and `good_after` say, from what stood there before.
    pub evaluate_sources_lem :
        (health : Dict CollectorStatus) (s : String) (t : DeviceTrust F)
        → AreUnique health
        → (lookup s (evaluate_sources payload ts received_at health t).sources
            ≡ row_after payload ts received_at s (lookup s health) t)
          × (lookup s (evaluate_sources payload ts received_at health t).last_good
              ≡ good_after payload s (lookup s health) t)
    unfolding evaluate_sources
    evaluate_sources_lem [] s t unique = unfold lookup in (refl, refl)
    evaluate_sources_lem ((source, status) ∷ health) s t unique =
        let rest = evaluate_sources_lem health s (step source status t) unique.1 in
        elim (Bool-cases (str_eq source s)) [
          | inl same ↦
              let e = (eq_iff source s).0 same in
              let gone : lookup s health ≡ none = subst (λ k. lookup k health ≡ none) e unique.0 in
              let found = lookup_head source s status health same in
              let own =
                subst
                  (λ k.
                    (lookup s (step k status t).sources
                      ≡ row_after payload ts received_at s (some status) t)
                    × (lookup s (step k status t).last_good ≡ good_after payload s (some status) t))
                  (sym e) (step_own s status t) in
              let u = step source status t in
              (
                rest.0
                    ∙ (ap (λ o. row_after payload ts received_at s o u) gone
                        ∙ (own.0 ∙ ap (λ o. row_after payload ts received_at s o t) (sym found))),
                rest.1
                    ∙ (ap (λ o. good_after payload s o u) gone
                        ∙ (own.1 ∙ ap (λ o. good_after payload s o t) (sym found))),
              )
          | inr apart ↦
              let other = step_other source s status t apart in
              let local =
                after_local s (lookup s health) (step source status t) t other.0 other.1 in
              let found = lookup_later source s status health apart in
              (
                rest.0 ∙ (local.0 ∙ ap (λ o. row_after payload ts received_at s o t) (sym found)),
                rest.1 ∙ (local.1 ∙ ap (λ o. good_after payload s o t) (sym found)),
              )
        ]
