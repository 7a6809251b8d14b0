-- ===== src/Guards.antt =====
-- server/ingest_guards.py: the memory of idempotency keys and the rate limit by device. A moment of
-- the monotonic clock is a number of nanoseconds; `t >= now - w` is written `now <= t + w`.
pub mod Window
pub mod Runs
pub mod Keys
pub mod Retry
mod Examples
use Prim.Native.String.{String}
use text.Mathlib.Text.{◌==◌ as str_eq}
use srp.Prelude.{
  ltb, leb, if◌then◌else◌, length, ℕ, ◌+◌, ◌-◌, ◌*◌, ◌/◌, Bool, true, false, not, ◌||◌, Option,
  none, some, List, [], ◌∷◌, ◌++◌,
}
use srp.Texts.{Dict, lookup, put, keep_if}

abbrev pub second : ℕ
second = 1000000000

abbrev pub trim_threshold : ℕ
trim_threshold = 50000

abbrev pub dedup_ttl : ℕ
dedup_ttl = 300 * second

abbrev pub rate_window : ℕ
rate_window = 60 * second

abbrev pub rate_max_per_window : ℕ
rate_max_per_window = 30

-- the module's three dictionaries
pub record Guards : Type 0 where
  pub seen_keys : Dict ℕ
  pub device_windows : Dict (List ℕ)
  pub reject_counts : Dict ℕ

abbrev pub or_zero : Option ℕ → ℕ
or_zero none = 0
or_zero (some n) = n

unfoldable pub count_reject : String → Guards → Guards
unfolding lookup put
count_reject reason g = record g {
  reject_counts = put reason (or_zero (lookup reason g.reject_counts) + 1) g.reject_counts;
}

abbrev pub is_known : Option ℕ → Bool
is_known none = false
is_known (some t) = true

unfoldable pub has_seen : Option String → Guards → Bool
has_seen none g = false
has_seen (some key) g = if str_eq key "" then false else is_known (lookup key g.seen_keys)

abbrev pub is_fresh : ℕ → ℕ → Bool
is_fresh now t = not (ltb (t + dedup_ttl) now)

unfoldable pub trim_keys : ℕ → Dict ℕ → Dict ℕ
trim_keys now seen = if ltb trim_threshold (length seen) then keep_if (is_fresh now) seen else seen

unfoldable pub mark_seen : Option String → ℕ → Guards → Guards
mark_seen none now g = g
mark_seen (some key) now g =
    if str_eq key "" then g else record g { seen_keys = put key now (trim_keys now g.seen_keys) }

-- t >= now - _RATE_WINDOW_SEC
abbrev pub is_recent : ℕ → ℕ → Bool
is_recent now t = leb now (t + rate_window)

-- [t for t in times if t >= cutoff]
unfoldable pub recent : ℕ → List ℕ → List ℕ
recent now [] = []
recent now (t ∷ times) =
    let later = recent now times in if is_recent now t then t ∷ later else later

-- any(t >= cutoff for t in times)
unfoldable pub any_recent : ℕ → List ℕ → Bool
any_recent now [] = false
any_recent now (t ∷ times) = is_recent now t || any_recent now times

unfoldable pub trim_windows : ℕ → Dict (List ℕ) → Dict (List ℕ)
trim_windows now windows =
    if ltb trim_threshold (length windows) then keep_if (any_recent now) windows else windows

abbrev pub or_empty : Option (List ℕ) → List ℕ
or_empty none = []
or_empty (some times) = times

-- _device_windows.get(device_id, [])
abbrev pub times_of : String → Dict (List ℕ) → List ℕ
times_of device windows = or_empty (lookup device windows)

-- True: within the limit
unfoldable pub check_rate_limit : String → ℕ → Guards → Bool × Guards
check_rate_limit device now g =
    let windows = trim_windows now g.device_windows in
    let times = recent now (times_of device windows) in
    if leb rate_max_per_window (length times)
    then (false, record g { device_windows = put device times windows })
    else (true, record g { device_windows = put device (times ++ now ∷ []) windows })

abbrev pub min_ℕ : ℕ → ℕ → ℕ
min_ℕ a b = if ltb b a then b else a

-- min(times); an empty list has none, and the code asks for none
unfoldable pub min_time : List ℕ → ℕ
min_time [] = 0
min_time (t ∷ []) = t
min_time (t ∷ u ∷ times) = min_ℕ t (min_time (u ∷ times))

-- math.ceil of a number of nanoseconds, in seconds
abbrev pub ceil_seconds : ℕ → ℕ
ceil_seconds ns = (ns + (second - 1)) / second

unfoldable pub retry_after_sec : String → ℕ → Guards → ℕ
unfolding min_time
retry_after_sec device now g =
    let times = recent now (times_of device g.device_windows) in
    if ltb (length times) rate_max_per_window
    then 1
    else let wait = ceil_seconds (min_time times + rate_window - now) in
      if ltb 1 wait then wait else 1

-- `for k in REJECT_COUNTS: REJECT_COUNTS[k] = 0`
unfoldable pub zeros : Dict ℕ → Dict ℕ
zeros [] = []
zeros ((k, n) ∷ d) = (k, 0) ∷ zeros d

unfoldable pub reset_guards : Guards → Guards
unfolding zeros
reset_guards g = record {
  seen_keys = [];
  device_windows = [];
  reject_counts = zeros g.reject_counts;
}
