-- ===== src/Texts.antt =====
-- Python's dict with text keys, in the order of insertion.
use Prim.Native.String.{String}
use text.Mathlib.Text.{◌==◌ as str_eq}
use text.Mathlib.TextEquality.{eq_iff}
use mathlib.Core.Path.{subst}
use srp.Prelude.{
  if◌then◌else◌, Bool-cases, tenths, ◌≡◌, refl, inl, inr, Bool, Option, none, some, List, [], ◌∷◌,
  arith,
}

abbrev pub Dict : Type 0 → Type 0
Dict V = List (String × V)

module _ {V : Type 0} where
  -- d.get(k)
  unfoldable pub lookup : String → Dict V → Option V
  lookup k [] = none
  lookup k ((j, v) ∷ d) = let later = lookup k d in if str_eq j k then some v else later

  -- d[k] = v
  unfoldable pub put : String → V → Dict V → Dict V
  put k v [] = (k, v) ∷ []
  put k v ((j, w) ∷ d) = let later = put k v d in if str_eq j k then (j, v) ∷ d else (j, w) ∷ later

  -- `del d[k]` for each key whose value fails the test
  unfoldable pub keep_if : (V → Bool) → Dict V → Dict V
  keep_if test [] = []
  keep_if test ((j, v) ∷ d) = let later = keep_if test d in if test v then (j, v) ∷ later else later

  -- No key stands twice.
  abbrev pub AreUnique : Dict V → Type 0
  AreUnique [] = Unit
  AreUnique ((k, v) ∷ d) = (lookup k d ≡ none) × AreUnique d

  pub lookup-put :
      (k j : String) (v : V) (d : Dict V)
      → lookup j (put k v d) ≡ (if str_eq k j then some v else lookup j d)
  unfolding lookup put
  lookup-put k j v [] = refl
  lookup-put k j v ((i, w) ∷ d) =
      ground (arith, eq_iff i k, eq_iff i j, eq_iff k j, lookup-put k j v d)

  pub lookup-keep_if-none :
      (test : V → Bool) (k : String) (d : Dict V)
      → lookup k d ≡ none
      → lookup k (keep_if test d) ≡ none
  unfolding lookup keep_if
  lookup-keep_if-none test k [] h = refl
  lookup-keep_if-none test k ((j, v) ∷ d) h = ground (arith, lookup-keep_if-none test k d)

  -- A key survives with its value if the value passes the test, and is gone otherwise.
  pub lookup-keep_if :
      (test : V → Bool) (k : String) (d : Dict V) {v : V}
      → AreUnique d
      → lookup k d ≡ some v
      → lookup k (keep_if test d) ≡ (if test v then some v else none)
  unfolding lookup keep_if
  lookup-keep_if test k [] u h = cc
  lookup-keep_if test k ((j, w) ∷ d) {v} u h = elim (Bool-cases (str_eq j k)) [
    | inl same ↦
        let value : w ≡ v = cc (rw same at h) in
        let unique : lookup k d ≡ none = subst (λ i. lookup i d ≡ none) ((eq_iff j k).0 same) u.0 in
        rw (← value) (elim (Bool-cases (test w)) [
          | inl kept ↦ rw (kept, same)
          | inr dropped ↦ rw dropped (lookup-keep_if-none test k d unique)
        ])
    | inr other ↦ ground (arith, lookup-keep_if test k d u.1 (rw other at h))
  ]

  pub AreUnique-keep_if : (test : V → Bool) (d : Dict V) → AreUnique d → AreUnique (keep_if test d)
  unfolding keep_if
  AreUnique-keep_if test [] u = tt
  AreUnique-keep_if test ((k, v) ∷ d) u =
      ground (arith, lookup-keep_if-none test k d, AreUnique-keep_if test d)

  pub AreUnique-put : (k : String) (v : V) (d : Dict V) → AreUnique d → AreUnique (put k v d)
  unfolding put
  AreUnique-put k v [] u = unfold lookup in (refl, tt)
  AreUnique-put k v ((j, w) ∷ d) u =
      ground (arith, lookup-put k j v d, eq_iff j k, eq_iff k j, AreUnique-put k v d)
