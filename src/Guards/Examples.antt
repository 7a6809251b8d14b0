-- ===== src/Guards/Examples.antt =====
-- Calls of the guards, and their theorems at inputs that meet the hypotheses.
use Prim.Native.String.{String}
use srp.Prelude.{tenths, length, ℕ, zero, suc, ◌*◌, ◌≤◌, ◌≡◌, refl, false, List, [], ◌∷◌, arith}
use srp.Texts.{lookup, put}
use srp.Guards.{Guards, second, recent, check_rate_limit, retry_after_sec, trim_windows, min_time}
use srp.Guards.Runs.{Calls, run, fresh, no_history, run-bounded}
use srp.Guards.Retry.{retry_after_sec_too_early}

abbrev three_calls : Calls
three_calls = ("pc1", 5) ∷ ("pc2", 6) ∷ ("pc1", 9) ∷ []

run-bounded_example : length (recent 10 ((run three_calls fresh no_history).1 "pc1")) ≤ 30
run-bounded_example =
    run-bounded three_calls (omega arith, (omega arith, (omega arith, tt))) 10 (omega arith) "pc1"

two_passed :
    (run three_calls fresh no_history).0.device_windows ≡ ("pc1", 5 ∷ 9 ∷ []) ∷ ("pc2", 6 ∷ []) ∷ []
unfolding run check_rate_limit trim_windows recent lookup put
two_passed = refl

abbrev key_a : String
key_a = "a"

-- A window that thirty requests of one moment fill.
abbrev repeat : ℕ → ℕ → List ℕ
repeat zero t = []
repeat (suc n) t = t ∷ repeat n t

abbrev full_window : Guards
full_window = record {
  seen_keys = [];
  device_windows = ("pc1", repeat 30 (5 * second)) ∷ [];
  reject_counts = [];
}

retry_after_sec_too_early_example : (check_rate_limit "pc1" (65 * second) full_window).0 ≡ false
unfolding retry_after_sec recent lookup min_time
retry_after_sec_too_early_example =
    retry_after_sec_too_early "pc1" (6 * second) (65 * second) full_window (refl, tt) 58 refl refl
      refl
