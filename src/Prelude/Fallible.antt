-- ===== src/Prelude/Fallible.antt =====
-- Python's exceptions as values. `out_of_fuel` is no exception of the program: it is what a bounded
-- loop of a model returns when its bound is too small, and a theorem excludes it.
use mathlib.Core.Path.{◌≡◌, refl, ap}
use mathlib.Core.Logic.{◌⊎◌, inl, inr}
use mathlib.Core.Option.{Option, none, some}

pub data Error : Type 0 where
  index_error value_error struct_error protocol_error out_of_fuel : Error

pub data Result {ℓ} (A : Type ℓ) : Type ℓ where
  ok : A → Result A
  err : Error → Result A

pub Result-cases {ℓ} :
    {A : Type ℓ} (m : Result A) → ((a : A) × (m ≡ ok a)) ⊎ ((e : Error) × (m ≡ err e))
Result-cases (err e) = inr (e, refl)
Result-cases (ok a) = inl (a, refl)

-- `xs[i]` after a look at `get_elem? xs i`
abbrev pub or_index_error {ℓ} : {A : Type ℓ} → Option A → Result A
or_index_error none = err index_error
or_index_error (some a) = ok a

infixl 5 ◌>>=◌
abbrev pub ◌>>=◌ {ℓ κ} : {A : Type ℓ} {B : Type κ} → Result A → (A → Result B) → Result B
err e >>= next = err e
ok a >>= next = next a

pub ok-injective {ℓ} : {A : Type ℓ} {a b : A} → ok a ≡ ok b → a ≡ b
ok-injective h = cc

pub err-injective {ℓ} : {A : Type ℓ} {x y : Error} → ◌≡◌ {A = Result A} (err x) (err y) → x ≡ y
err-injective h = cc

-- A chain that succeeds has a first step that does.
pub >>=-eq-ok {ℓ κ} :
    {A : Type ℓ} {B : Type κ} (m : Result A) (next : A → Result B) {b : B}
    → (m >>= next) ≡ ok b
    → (a : A) × (m ≡ ok a) × (next a ≡ ok b)
>>=-eq-ok (err e) next succeeds = cc
>>=-eq-ok (ok a) next succeeds = (a, refl, succeeds)

pub or_index_error-eq-ok {ℓ} :
    {A : Type ℓ} (o : Option A) {a : A} → or_index_error o ≡ ok a → o ≡ some a
or_index_error-eq-ok none h = cc
or_index_error-eq-ok (some b) h = ap some (ok-injective h)
