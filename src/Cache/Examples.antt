-- ===== src/Cache/Examples.antt =====
-- A cache that is built, invalidated while a load runs, and read.
use srp.Prelude.{tenths, ℕ, ◌<◌, ◌≡◌, refl, some}
use srp.Cache.{
  GraphCache, look, cold, new_cache, acquire, begin_load, publish, release, invalidate, Steps,
  none_yet, then_one, invalidates, acquires, begins, publishes, releases,
}
use srp.Cache.Stamps.{stamp-identifies, invalidate-holds}

abbrev first_load : GraphCache ℕ
first_load = begin_load cold (acquire cold new_cache)

abbrev built : GraphCache ℕ
built = release (publish cold (some 7) 5 first_load)

abbrev start : GraphCache ℕ
start = new_cache

way_to_built : Steps 45 start built
unfolding acquire begin_load publish release
way_to_built =
    then_one
      (then_one (then_one (then_one none_yet (acquires cold refl)) (begins cold refl (λ _. refl)))
        (publishes cold (some 7) 5 refl tt))
      (releases cold refl)

stamp-identifies_example : (invalidate built).value ≡ built.value
unfolding publish release invalidate
stamp-identifies_example =
    stamp-identifies 45 built (invalidate built) (then_one none_yet invalidates) refl refl

-- The new cache is invalidated, then built: the first load is later than that.
way_after_mark :
    Steps 45
      (invalidate start)
      (release (publish cold (some 7) 5 (begin_load cold (acquire cold (invalidate start)))))
unfolding acquire begin_load publish release invalidate
way_after_mark =
    then_one
      (then_one (then_one (then_one none_yet (acquires cold refl)) (begins cold refl (λ _. refl)))
        (publishes cold (some 7) 5 refl tt))
      (releases cold refl)

invalidate-holds_example :
    start.loads
    < (release (publish cold (some 7) 5 (begin_load cold (acquire cold (invalidate start))))).loads
unfolding acquire begin_load publish release invalidate look
invalidate-holds_example =
    invalidate-holds 45 start
      (release (publish cold (some 7) 5 (begin_load cold (acquire cold (invalidate start))))) 9
      way_after_mark refl
