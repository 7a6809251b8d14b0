-- ===== src/Snmp/Dict.antt =====
-- Python's dict with OIDs as keys: an association list in the order of insertion.
use srp.Prelude.{
  ◌==◌, if◌then◌else◌, length, ℕ, ◌+◌, ◌≡◌, refl, ◌↔◌, Bool, true, false, ◌&&◌, ◌||◌, Option, none,
  some, List, [], ◌∷◌, arith,
}

abbrev pub Oid : Type 0
Oid = List ℕ

pub same_oid : Oid → Oid → Bool
same_oid [] [] = true
same_oid [] (b ∷ bs) = false
same_oid (a ∷ as') [] = false
same_oid (a ∷ as') (b ∷ bs) = a == b && same_oid as' bs

pub same_oid_iff : (a b : Oid) → (same_oid a b ≡ true) ↔ (a ≡ b)
unfolding same_oid
same_oid_iff [] [] = (λ _. refl, λ _. refl)
same_oid_iff [] (b ∷ bs) = (λ h. cc, λ h. cc)
same_oid_iff (a ∷ as') [] = (λ h. cc, λ h. cc)
same_oid_iff (a ∷ as') (b ∷ bs) = ground (arith, same_oid_iff as' bs)

module _ {ℓ} {V : Type ℓ} where
  -- d.get(k)
  unfoldable pub lookup : Oid → List (Oid × V) → Option V
  unfolding same_oid
  lookup k [] = none
  lookup k ((j, v) ∷ d) = if same_oid j k then some v else lookup k d

  -- d[k] = v
  unfoldable pub put : Oid → V → List (Oid × V) → List (Oid × V)
  unfolding same_oid
  put k v [] = (k, v) ∷ []
  put k v ((j, w) ∷ d) = if same_oid j k then (j, v) ∷ d else (j, w) ∷ put k v d

  -- k in d
  unfoldable pub has : Oid → List (Oid × V) → Bool
  unfolding same_oid
  has k [] = false
  has k ((j, v) ∷ d) = same_oid j k || has k d

  -- A write with a new key makes the dictionary one entry longer; with an old key it does not.
  pub length-put :
      (k : Oid) (v : V) (d : List (Oid × V))
      → length (put k v d) ≡ (if has k d then length d else length d + 1)
  unfolding put has
  length-put k v [] = refl
  length-put k v ((j, w) ∷ d) = ground (arith, length-put k v d)

  pub lookup-put :
      (k j : Oid) (v : V) (d : List (Oid × V))
      → lookup j (put k v d) ≡ (if same_oid k j then some v else lookup j d)
  unfolding lookup put
  lookup-put k j v [] = refl
  lookup-put k j v ((i, w) ∷ d) =
      ground (arith, same_oid_iff i k, same_oid_iff i j, same_oid_iff k j, lookup-put k j v d)
