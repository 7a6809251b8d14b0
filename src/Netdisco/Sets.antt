-- ===== src/Netdisco/Sets.antt =====
-- Sets of texts, as lists. Python leaves the order of a set open: nothing here depends on it but the
-- order in which a loop visits the members, and the theorems hold for every order.
use Prim.Native.String.{String}
use text.Mathlib.Text.{◌==◌ as str_eq}
use text.Mathlib.TextEquality.{eq_iff}
use srp.Prelude.{
  if◌then◌else◌, Bool-cases, tenths, ◌≡◌, refl, sym, ap, ◌∙◌, ◌↔◌, ◌⊎◌, inl, inr, Bool, true, false,
  ◌||◌, List, [], ◌∷◌, ◌++◌, arith,
}

-- `x in s`
unfoldable pub contains : List String → String → Bool
contains [] x = false
contains (y ∷ s) x = str_eq y x || contains s x

-- s.add(x)
unfoldable pub insert : String → List String → List String
insert x s = if contains s x then s else s ++ x ∷ []

-- set(xs)
unfoldable pub to_set : List String → List String
to_set [] = []
to_set (x ∷ xs) = let rest = to_set xs in if contains rest x then rest else x ∷ rest

-- any(x in s for x in xs)
unfoldable pub meets : List String → List String → Bool
meets [] s = false
meets (x ∷ xs) s = contains s x || meets xs s

pub contains-append :
    (s t : List String) (x : String) → contains (s ++ t) x ≡ (contains s x || contains t x)
unfolding contains
contains-append [] t x = refl
contains-append (y ∷ s) t x = ground (arith, contains-append s t x)

pub contains-insert :
    (x : String) (s : List String) (y : String)
    → (contains (insert x s) y ≡ true) ↔ ((contains s y ≡ true) ⊎ (x ≡ y))
unfolding insert contains
contains-insert x s y = elim (Bool-cases (contains s x)) [
  | inl old ↦ rw old (inl, λ c. elim c [ inl h ↦ h | inr e ↦ ap (contains s) (sym e) ∙ old ])
  | inr new ↦ ground (arith, contains-append s (x ∷ []) y, eq_iff x y)
]

-- Equal texts are in the same sets.
pub contains_cong :
    (s : List String) (x y : String) → str_eq x y ≡ true → contains s x ≡ contains s y
contains_cong s x y same = ap (contains s) ((eq_iff x y).0 same)

pub contains-to_set : (xs : List String) (y : String) → contains (to_set xs) y ≡ contains xs y
unfolding to_set contains
contains-to_set [] y = refl
contains-to_set (x ∷ xs) y =
    ground (arith, contains-to_set xs y, contains_cong (to_set xs) x y, Bool-cases (str_eq x y))

pub meets-contains :
    (xs s : List String) (x : String)
    → contains xs x ≡ true
    → contains s x ≡ true
    → meets xs s ≡ true
unfolding meets contains
meets-contains [] s x h k = cc
meets-contains (y ∷ xs) s x h k =
    ground (arith, meets-contains xs s x, contains_cong s y x, Bool-cases (str_eq y x))

pub meets_witness :
    (xs s : List String)
    → meets xs s ≡ true
    → (x : String) × (contains xs x ≡ true) × (contains s x ≡ true)
unfolding meets contains
meets_witness [] s h = cc
meets_witness (y ∷ xs) s h = elim (Bool-cases (contains s y)) [
  | inl here ↦ (y, ground (arith, eq_iff y y), here)
  | inr other ↦ let (x, member, also) = meets_witness xs s (ground arith) in (x, ground arith, also)
]
