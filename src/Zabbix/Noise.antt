-- ===== src/Zabbix/Noise.antt =====
-- How often a lasting error gets into the log, and what is known of an outage when it ends.
use Prim.Native.String.{String}
use text.Mathlib.TextPositions.{eq_refl}
use srp.Prelude.{
  if◌then◌else◌, tenths, ℕ, ◌+◌, ◌*◌, ◌≤◌, ◌≡◌, refl, sym, ap, ◌∙◌, Bool, true, false, not, ◌||◌,
  Option, none, some, List, [], ◌∷◌, arith,
}
use srp.Zabbix.Status.{
  StatusStore, repeat_log_interval, same_kind, is_due, start_outage, failed_once, should_log_error,
}

-- Attempts that fail, each with its kind of error and its moment, and how many of them are logged.
abbrev pub Failures : Type 0
Failures = List (String × ℕ)

abbrev pub one_if : Bool → ℕ
one_if true = 1
one_if false = 0

unfoldable pub run : String → Failures → StatusStore → ℕ × StatusStore
run iso [] s = (0, s)
run iso ((kind, now) ∷ failures) s =
    let (logs, s') = should_log_error kind now iso s in
    let (more, last) = run iso failures s' in (one_if logs + more, last)

-- One kind of error, at moments that do not go back.
abbrev pub AreRepeats : String → ℕ → Failures → Type 0
AreRepeats kind start [] = Unit
AreRepeats kind start ((k, now) ∷ failures) =
    (k ≡ kind) × (start ≤ now) × AreRepeats kind now failures

abbrev pub latest : ℕ → Failures → ℕ
latest start [] = start
latest start ((k, now) ∷ failures) = latest now failures

start_outage-logged :
    (now : ℕ) (iso : String) (o : Option ℕ) (s : StatusStore)
    → ((start_outage now iso o s).last_logged_kind ≡ s.last_logged_kind)
      × ((start_outage now iso o s).last_logged_at ≡ s.last_logged_at)
      × ((start_outage now iso o s).failed_attempts ≡ s.failed_attempts)
start_outage-logged now iso none s = (refl, refl, refl)
start_outage-logged now iso (some t) s = (refl, refl, refl)

-- One more failure of the kind that was logged last.
abbrev Repeated : String → ℕ → StatusStore → Bool × StatusStore → Type 0
Repeated kind now s r =
    (r.1.last_logged_kind ≡ some kind)
    × (r.1.last_logged_at ≤ now)
    × (one_if r.0 * repeat_log_interval + s.last_logged_at ≤ r.1.last_logged_at)

repeated :
    (kind : String) (now : ℕ) (iso : String) (s : StatusStore)
    → s.last_logged_kind ≡ some kind
    → s.last_logged_at ≤ now
    → Repeated kind now s (should_log_error kind now iso s)
unfolding should_log_error
repeated kind now iso s known before =
    go (not (same_kind kind s.last_logged_kind) || is_due s.last_logged_at now) refl
  where
    unchanged :
        ((failed_once now iso s).last_logged_kind ≡ s.last_logged_kind)
        × ((failed_once now iso s).last_logged_at ≡ s.last_logged_at)
        × ((start_outage now iso s.failing_since_mono s).failed_attempts ≡ s.failed_attempts)
    unchanged = start_outage-logged now iso s.failing_since_mono s

    same : same_kind kind s.last_logged_kind ≡ true
    same = ap (same_kind kind) known ∙ eq_refl kind

    go :
        (b : Bool)
        → (not (same_kind kind s.last_logged_kind) || is_due s.last_logged_at now) ≡ b
        → Repeated kind now s (
            if b
            then (
              true,
              record (failed_once now iso s) { last_logged_kind = some kind; last_logged_at = now },
            )
            else (false, failed_once now iso s))
    go true h = (refl, omega arith, ground (arith, same))
    go false h =
        (unchanged.0 ∙ known, omega (arith, unchanged.1, before), omega (arith, unchanged.1))

run-rare_from :
    (kind iso : String) (start : ℕ) (failures : Failures) (s : StatusStore)
    → s.last_logged_kind ≡ some kind
    → s.last_logged_at ≤ start
    → AreRepeats kind start failures
    → (run iso failures s).0 * repeat_log_interval + s.last_logged_at ≤ latest start failures
unfolding run
run-rare_from kind iso start [] s known before repeats = omega (arith, before)
run-rare_from kind iso start ((k, now) ∷ failures) s known before (same, later, rest) =
    let r = should_log_error k now iso s in
    let step = repeated k now iso s (known ∙ ap some (sym same)) (omega (arith, before, later)) in
    let more = run-rare_from kind iso now failures r.1 (step.0 ∙ ap some same) step.1 rest in
    omega (arith, step.2, more)

-- While one kind of error lasts, of which the log has an entry, the number of further entries is at
-- most the hours since that entry: at most one line in an hour. The clock does not go back.
pub run-rare :
    (kind iso : String) (failures : Failures) (s : StatusStore)
    → s.last_logged_kind ≡ some kind
    → AreRepeats kind s.last_logged_at failures
    → (run iso failures s).0 * repeat_log_interval + s.last_logged_at
      ≤ latest s.last_logged_at failures
run-rare kind iso failures s known repeats =
    run-rare_from kind iso s.last_logged_at failures s known (omega arith) repeats
