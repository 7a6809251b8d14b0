-- ===== src/Guards/Runs.antt =====
-- The rate limit over any run of calls, by any devices.
use Prim.Native.String.{String}
use srp.Prelude.{length, ℕ, ◌≤◌, ◌≡◌, refl, ◌↔◌, false, List, [], ◌∷◌, arith}
use srp.Texts.{lookup}
use srp.Guards.{Guards, rate_max_per_window, recent, check_rate_limit}
use srp.Guards.Window.{
  History, let_through, Tracks, Tracks-later, check_rate_limit-Tracks, check_rate_limit-refused_iff,
}

-- A run of calls: the history that it leaves.
abbrev pub Calls : Type 0
Calls = List (String × ℕ)

unfoldable pub run : Calls → Guards → History → Guards × History
run [] g h = (g, h)
run ((device, now) ∷ calls) g h =
    let (passed, g') = check_rate_limit device now g in
    run calls g' (let_through passed device now h)

-- The clock does not go back.
abbrev pub IsMonotonic : ℕ → Calls → Type 0
IsMonotonic start [] = Unit
IsMonotonic start ((device, now) ∷ calls) = (start ≤ now) × IsMonotonic now calls

abbrev pub latest : ℕ → Calls → ℕ
latest start [] = start
latest start ((device, now) ∷ calls) = latest now calls

run-Tracks :
    (start : ℕ) (calls : Calls) (g : Guards) (h : History)
    → IsMonotonic start calls
    → Tracks start h g
    → Tracks (latest start calls) (run calls g h).1 (run calls g h).0
unfolding run
run-Tracks start [] g h m t = t
run-Tracks start ((device, now) ∷ calls) g h m t =
    run-Tracks now calls (check_rate_limit device now g).1
      (let_through (check_rate_limit device now g).0 device now h) m.1
      (check_rate_limit-Tracks device now h g (Tracks-later m.0 t))

abbrev pub no_history : History
no_history d = []

abbrev pub fresh : Guards
fresh = record { seen_keys = []; device_windows = []; reject_counts = [] }

Tracks-fresh : Tracks 0 no_history fresh
Tracks-fresh = record {
  unique = tt;
  agree = λ d. unfold lookup in refl;
  bounded = λ d. unfold recent in omega arith;
}

module _ (calls : Calls) (m : IsMonotonic 0 calls) (now : ℕ) (after : latest 0 calls ≤ now)
    (device : String) where
  tracked : Tracks now (run calls fresh no_history).1 (run calls fresh no_history).0
  tracked = Tracks-later after (run-Tracks 0 calls fresh no_history m Tracks-fresh)

  -- Whatever calls of check_rate_limit were made from empty guards on, by whatever devices, with a
  -- clock that does not go back: in the last sixty seconds no device was let through more than thirty
  -- times.
  pub run-bounded :
      length (recent now ((run calls fresh no_history).1 device)) ≤ rate_max_per_window
  run-bounded = tracked.bounded device

  -- After any calls of check_rate_limit that start from empty guards, with a clock that does not go
  -- back, the next call refuses a device exactly when the device was let through thirty times in the
  -- last sixty seconds.
  pub run-refused_iff :
      ((check_rate_limit device now (run calls fresh no_history).0).0 ≡ false)
      ↔ (length (recent now ((run calls fresh no_history).1 device)) ≡ rate_max_per_window)
  run-refused_iff =
      check_rate_limit-refused_iff device now (run calls fresh no_history).1
        (run calls fresh no_history).0 tracked
