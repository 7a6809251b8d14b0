-- ===== src/Errchain/Stages.antt =====
-- The stage of the chain as events come in.
use Prim.Native.String.{String}
use srp.Prelude.{
  ltb, ◌==◌, if◌then◌else◌, tenths, ℕ, ◌+◌, ◌≤◌, ◌≡◌, refl, Bool, true, false, ◌&&◌, ◌||◌, Option,
  none, some, List, [], ◌∷◌, ◌++◌, arith,
}
use srp.Errchain.{
  Event, Sorted, nothing, sort_id, sort_at, sort_event, sort_all, any_follows, has_chain,
  stage_from, stage_of, analyze_events, is_crash, is_early, is_damage, is_storage_source,
  app_hang_id, window,
}

any_follows-append :
    (d : ℕ) (xs ys : List ℕ) → any_follows d (xs ++ ys) ≡ any_follows d xs || any_follows d ys
unfolding any_follows
any_follows-append d [] ys = refl
any_follows-append d (x ∷ xs) ys = ground (arith, any_follows-append d xs ys)

has_chain-crash :
    (ds xs : List ℕ) (c : ℕ) → has_chain ds xs ≡ true → has_chain ds (xs ++ c ∷ []) ≡ true
unfolding has_chain
has_chain-crash [] xs c h = cc h
has_chain-crash (d ∷ ds) xs c h =
    ground (arith, any_follows-append d xs (c ∷ []), has_chain-crash ds xs c)

has_chain-damage :
    (ds xs : List ℕ) (d : ℕ) → has_chain ds xs ≡ true → has_chain (ds ++ d ∷ []) xs ≡ true
unfolding has_chain
has_chain-damage [] xs d h = cc h
has_chain-damage (e ∷ ds) xs d h = ground (arith, has_chain-damage ds xs d)

stage_from-damage :
    (b c : Bool) (ds es : List ℕ) (d : ℕ)
    → (b ≡ true → c ≡ true)
    → stage_from b ds es ≤ stage_from c (ds ++ d ∷ []) es
stage_from-damage true true ds es d h = omega arith
stage_from-damage true false ds es d h = absurd (cc (h refl))
stage_from-damage false true [] [] d h = omega arith
stage_from-damage false true [] (e ∷ es) d h = omega arith
stage_from-damage false true (x ∷ ds) es d h = omega arith
stage_from-damage false false [] [] d h = omega arith
stage_from-damage false false [] (e ∷ es) d h = omega arith
stage_from-damage false false (x ∷ ds) es d h = omega arith

stage_from-early :
    (b : Bool) (ds es : List ℕ) (e : ℕ) → stage_from b ds es ≤ stage_from b ds (es ++ e ∷ [])
stage_from-early true ds es e = omega arith
stage_from-early false (d ∷ ds) es e = omega arith
stage_from-early false [] [] e = omega arith
stage_from-early false [] (x ∷ es) e = omega arith

stage_from-crash :
    (b c : Bool) (ds es : List ℕ) → (b ≡ true → c ≡ true) → stage_from b ds es ≤ stage_from c ds es
stage_from-crash true true ds es h = omega arith
stage_from-crash true false ds es h = absurd (cc (h refl))
stage_from-crash false true [] [] h = omega arith
stage_from-crash false true [] (e ∷ es) h = omega arith
stage_from-crash false true (d ∷ ds) es h = omega arith
stage_from-crash false false ds es h = omega arith

abbrev Grows : Sorted → Sorted → Type 0
Grows s t = stage_of s ≤ stage_of t

if-Grows :
    (s : Sorted) (b : Bool) (x y : Sorted) → Grows s x → Grows s y → Grows s (if b then x else y)
if-Grows s true x y f g = f
if-Grows s false x y f g = g

Grows-refl : (s : Sorted) → Grows s s
Grows-refl s = omega arith

sort_id-Grows : (id : ℕ) (source : String) (ts : ℕ) (s : Sorted) → Grows s (sort_id id source ts s)
unfolding sort_id stage_of
sort_id-Grows id source ts s =
    if-Grows s (is_crash id) _ _
      (stage_from-crash (has_chain s.damage s.crash) (has_chain s.damage (s.crash ++ ts ∷ []))
        s.damage s.early (has_chain-crash s.damage s.crash ts))
      (if-Grows s (id == app_hang_id) _ _ (Grows-refl s) (
        if-Grows s (is_storage_source source && is_early id) _ _
          (stage_from-early (has_chain s.damage s.crash) s.damage s.early ts)
          (if-Grows s (is_storage_source source && is_damage id) _ _
            (stage_from-damage (has_chain s.damage s.crash)
              (has_chain (s.damage ++ ts ∷ []) s.crash) s.damage s.early ts
              (has_chain-damage s.damage s.crash ts))
            (Grows-refl s))))

sort_at-Grows :
    (now : ℕ) (at id : Option ℕ) (source : String) (s : Sorted)
    → Grows s (sort_at now at id source s)
sort_at-Grows now none id source s = Grows-refl s
sort_at-Grows now (some ts) none source s = Grows-refl s
sort_at-Grows now (some ts) (some id) source s =
    if-Grows s (ltb (ts + window) now) _ _ (Grows-refl s) (sort_id-Grows id source ts s)

sort_all-Grows : (now : ℕ) (events : List Event) (s : Sorted) → Grows s (sort_all now events s)
unfolding sort_all sort_event
sort_all-Grows now [] s = Grows-refl s
sort_all-Grows now (e ∷ events) s = omega (
  arith,
  sort_at-Grows now e.received_at e.event_id e.source s,
  sort_all-Grows now events (sort_at now e.received_at e.event_id e.source s),
)

sort_all-append :
    (now : ℕ) (xs ys : List Event) (s : Sorted)
    → sort_all now (xs ++ ys) s ≡ sort_all now ys (sort_all now xs s)
unfolding sort_all
sort_all-append now [] ys s = refl
sort_all-append now (x ∷ xs) ys s = sort_all-append now xs ys (sort_event now x s)

-- More events never lower the stage, whatever they are: what an evaluation has found, damage or a
-- crash after it, is found again with any further events, at the same moment.
pub analyze_events-grows :
    {F : Type 0} (burst : List ℕ → Option F) (week : ℕ → ℕ) (events more : List Event) (now : ℕ)
    (rollups : List ℕ)
    → (analyze_events burst week events now rollups).stage
      ≤ (analyze_events burst week (events ++ more) now rollups).stage
unfolding analyze_events
analyze_events-grows burst week events more now rollups =
    rw (sort_all-append now events more nothing)
      (sort_all-Grows now more (sort_all now events nothing))
