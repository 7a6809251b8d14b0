-- ===== src/Guards/Retry.antt =====
-- What Retry-After promises to a device that was refused.
use Prim.Native.String.{String}
use srp.Prelude.{
  ltb, if◌then◌else◌, Bool-cases, tenths, length, ℕ, ◌+◌, ◌-◌, ◌*◌, ◌≤◌, ◌<◌, ◌≡◌, refl, ◌∙◌, inl,
  inr, true, false, List, [], ◌∷◌, arith,
}
use srp.Texts.{AreUnique}
use srp.Guards.{
  Guards, second, rate_window, rate_max_per_window, is_recent, recent, times_of, min_time,
  ceil_seconds, check_rate_limit, retry_after_sec,
}
use srp.Guards.Window.{recent-trim_windows, recent-recent}

recent-cons :
    (later t : ℕ) (times : List ℕ)
    → recent later (t ∷ times)
      ≡ (if is_recent later t then t ∷ recent later times else recent later times)
unfolding recent
recent-cons later t times = refl

recent-nil : (later : ℕ) → recent later [] ≡ []
unfolding recent
recent-nil later = refl

length-recent_le : (later : ℕ) (times : List ℕ) → length (recent later times) ≤ length times
length-recent_le later [] = rw (recent-nil later) (omega arith)
length-recent_le later (t ∷ times) =
    ground (arith, recent-cons later t times, length-recent_le later times)

-- Once the oldest of some requests is out of the window there are fewer of them.
length-recent_lt :
    (later t : ℕ) (times : List ℕ)
    → min_time (t ∷ times) + rate_window < later
    → length (recent later (t ∷ times)) < length (t ∷ times)
unfolding min_time
length-recent_lt later t [] h = ground (arith, recent-cons later t [], recent-nil later)
length-recent_lt later t (u ∷ times) h = ground (
  arith,
  recent-cons later t (u ∷ times),
  length-recent_lt later u times,
  length-recent_le later (u ∷ times),
)

-- Until then there are all of them.
recent_all :
    (later t : ℕ) (times : List ℕ)
    → later ≤ min_time (t ∷ times) + rate_window
    → recent later (t ∷ times) ≡ t ∷ times
unfolding min_time
recent_all later t [] h = ground (arith, recent-cons later t [], recent-nil later)
recent_all later t (u ∷ times) h =
    ground (arith, recent-cons later t (u ∷ times), recent_all later u times)

-- The seconds announced for some recent requests.
abbrev announced : ℕ → List ℕ → ℕ
announced now times =
    if ltb (length times) rate_max_per_window
    then 1
    else let wait = ceil_seconds (min_time times + rate_window - now) in
      if ltb 1 wait then wait else 1

announced_covers :
    (now : ℕ) (times : List ℕ)
    → rate_max_per_window ≤ length times
    → min_time times + rate_window ≤ now + announced now times * second
announced_covers now times h = ground arith

announced_whole :
    (now w : ℕ) (times : List ℕ)
    → length times ≡ rate_max_per_window
    → min_time times + rate_window ≡ now + (w + 1) * second
    → now + announced now times * second ≡ min_time times + rate_window
announced_whole now w times full whole = ground arith

few_left :
    (now later : ℕ) (times : List ℕ)
    → length times ≤ rate_max_per_window
    → now + announced now times * second < later
    → length (recent later times) < rate_max_per_window
few_left now later [] small after = rw (recent-nil later) (omega arith)
few_left now later (t ∷ times) small after =
    elim (Bool-cases (ltb (length (t ∷ times)) rate_max_per_window)) [
      | inl few ↦ ground (arith, length-recent_le later (t ∷ times))
      | inr full ↦ ground (arith, announced_covers now (t ∷ times), length-recent_lt later t times)
    ]

all_left :
    (later : ℕ) (times : List ℕ)
    → length times ≡ rate_max_per_window
    → later ≡ min_time times + rate_window
    → recent later times ≡ times
all_left later [] full at = absurd (omega (arith, full))
all_left later (t ∷ times) full at = recent_all later t times (omega (arith, at))

module _ (device : String) (now later : ℕ) (g : Guards) (unique : AreUnique g.device_windows) where
  -- what counts later is what counts now, filtered once more
  abbrev counted : List ℕ
  counted = recent now (times_of device g.device_windows)

  passes_later :
      now ≤ later
      → length (recent later counted) < rate_max_per_window
      → (check_rate_limit device later g).0 ≡ true
  unfolding check_rate_limit
  passes_later le h =
      rw
        (
          recent-trim_windows later device g.device_windows unique,
          ← recent-recent now later (times_of device g.device_windows) le,
        )
        (ground arith)

  fails_later :
      now ≤ later
      → rate_max_per_window ≤ length (recent later counted)
      → (check_rate_limit device later g).0 ≡ false
  unfolding check_rate_limit
  fails_later le h =
      rw
        (
          recent-trim_windows later device g.device_windows unique,
          ← recent-recent now later (times_of device g.device_windows) le,
        )
        (ground arith)

  -- A device that asks again after the seconds that retry_after_sec announces, by however little, is
  -- let through, if nothing was asked of its window in between. A window holds at most thirty requests.
  pub retry_after_sec_suffices :
      length counted ≤ rate_max_per_window
      → now + retry_after_sec device now g * second < later
      → (check_rate_limit device later g).0 ≡ true
  unfolding retry_after_sec
  retry_after_sec_suffices small after =
      passes_later (omega (arith, after)) (few_left now later counted small after)

  -- At the very moment that it announces, a device is still refused, if its window is full and the
  -- oldest request of it has a whole number of seconds to wait, one at least: the window counts its
  -- own edge.
  pub retry_after_sec_too_early :
      (w : ℕ)
      → length counted ≡ rate_max_per_window
      → min_time counted + rate_window ≡ now + (w + 1) * second
      → later ≡ now + retry_after_sec device now g * second
      → (check_rate_limit device later g).0 ≡ false
  unfolding retry_after_sec
  retry_after_sec_too_early w full whole at =
      let edge = announced_whole now w counted full whole in
      fails_later (omega (arith, at))
        (rw (all_left later counted full (at ∙ edge)) (omega (arith, full)))
