-- ===== src/Identity/Merging.antt =====
-- The id of a device through any number of observations.
use srp.Prelude.{ltb, tenths, ℕ, ◌≤◌, ◌≡◌, refl, false, List, [], ◌∷◌, arith}
use srp.Identity.{Nid, strength, merge_identity}

-- what is left of an id after some observations
unfoldable pub observe : Nid → List Nid → Nid
observe nid [] = nid
observe nid (n ∷ seen) = observe (merge_identity nid n) seen

abbrev pub AreWeaker : ℕ → List Nid → Type 0
AreWeaker s [] = Unit
AreWeaker s (n ∷ seen) = (strength n ≤ s) × AreWeaker s seen

merge_identity-strength :
    (old new : Nid)
    → (strength old ≤ strength (merge_identity old new))
      × (strength new ≤ strength (merge_identity old new))
unfolding merge_identity
merge_identity-strength old new = ground arith

observe-grows : (nid : Nid) (seen : List Nid) → strength nid ≤ strength (observe nid seen)
unfolding observe
observe-grows nid [] = omega arith
observe-grows nid (n ∷ seen) =
    omega (arith, (merge_identity-strength nid n).0, observe-grows (merge_identity nid n) seen)

observe-strongest : (nid : Nid) (seen : List Nid) → AreWeaker (strength (observe nid seen)) seen
unfolding observe
observe-strongest nid [] = tt
observe-strongest nid (n ∷ seen) = (
  omega (arith, (merge_identity-strength nid n).1, observe-grows (merge_identity nid n) seen),
  observe-strongest (merge_identity nid n) seen,
)

observe-kept :
    (nid : Nid) (seen : List Nid) → AreWeaker (strength nid) seen → observe nid seen ≡ nid
unfolding observe merge_identity
observe-kept nid [] h = refl
observe-kept nid (n ∷ seen) (weak, rest) =
    let no_stronger : ltb (strength nid) (strength n) ≡ false = ground arith in
    rw no_stronger (observe-kept nid seen rest)

-- Whatever identifiers a device shows and in whatever order, its id ends as strong as the strongest of
-- them, and from then on no observation of equal or less strength changes it.
pub observe_lem :
    (nid : Nid) (seen later : List Nid)
    → AreWeaker (strength (observe nid seen)) later
    → AreWeaker (strength (observe nid seen)) seen
      × (strength nid ≤ strength (observe nid seen))
      × (observe (observe nid seen) later ≡ observe nid seen)
observe_lem nid seen later weak =
    (observe-strongest nid seen, observe-grows nid seen, observe-kept (observe nid seen) later weak)
