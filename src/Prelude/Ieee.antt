-- ===== src/Prelude/Ieee.antt =====
-- Floats, which the kernel lacks: a type with the comparison and the constants that the program
-- uses, and of IEEE 754 what its claims rest on. `tenths` meets all of it.
use Prim.Native.Nat.{ℕ, ◌*◌, ◌+◌, ◌-◌}
use mathlib.Core.Path.{◌≡◌, refl}
use mathlib.Core.Bool.{Bool, true, false}
use native.Mathlib.Omega.{arith}
use srp.Prelude.Tests.{ltb, ◌==◌}

pub record Floats (F : Type 0) : Type 0 where
  -- a < b
  pub lt : F → F → Bool
  -- a == b
  pub eq : F → F → Bool
  -- the whole number n as a float
  pub whole : ℕ → F
  -- minus the whole number n
  pub minus : ℕ → F
  -- 0.5
  pub half : F
  pub lt_trans : (a b c : F) → lt a b ≡ true → lt b c ≡ true → lt a c ≡ true
  pub lt_irrefl : (a : F) → lt a a ≡ false
  pub zero_lt_half : lt (whole 0) half ≡ true
  pub half_lt_one : lt half (whole 1) ≡ true

pub ltb_trans : (a b c : ℕ) → ltb a b ≡ true → ltb b c ≡ true → ltb a c ≡ true
ltb_trans a b c p q = ground arith

pub ltb_irrefl : (a : ℕ) → ltb a a ≡ false
ltb_irrefl a = ground arith

-- Numbers of tenths, from -100.0 up.
instance abbrev pub tenths : Floats ℕ
tenths = record {
  lt = ltb;
  eq = ◌==◌;
  whole = λ n. 1000 + 10 * n;
  minus = λ n. 1000 - 10 * n;
  half = 1005;
  lt_trans = ltb_trans;
  lt_irrefl = ltb_irrefl;
  zero_lt_half = refl;
  half_lt_one = refl;
}
