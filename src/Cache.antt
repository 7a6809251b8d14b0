-- ===== src/Cache.antt =====
-- server/netdisco/cache.py: the cached graph, and the steps of the threads that read, rebuild,
-- invalidate and refresh it. A step is a section under `_lock`, or the start or end of a load; the
-- threads may take them in any order. `_rebuild_lock` is the phase of its one holder.
pub mod Stamps
mod Examples
use srp.Prelude.{
  ltb, if◌then◌else◌, ℕ, ◌+◌, ◌<◌, ◌≡◌, Bool, true, false, not, ◌&&◌, Option, none, some,
}

-- whose turn the rebuild is: the thread of a stale read, a read of a cold cache, or refresh
pub data Holder : Type 0 where
  background cold refresher : Holder

pub data Rebuild : Type 0 where
  idle : Rebuild
  holding loading ended : Holder → Rebuild

pub record GraphCache (G : Type 0) : Type 0 where
  pub loaded_at : Option ℕ
  pub forced_stale : Bool
  pub value : Option G
  pub rebuild : Rebuild
  -- how many loads have begun
  pub loads : ℕ

-- what get_with_stamp does with what it reads: it returns a fresh or a stale pair, or must build
pub data Look (G : Type 0) : Type 0 where
  fresh stale : Option G × Option ℕ → Look G
  must_build : Look G

abbrev pub within_ttl : ℕ → ℕ → Option ℕ → Bool
within_ttl ttl now none = false
within_ttl ttl now (some t) = ltb now (t + ttl)

-- The clock has moved on since the last publication.
abbrev pub IsLater : ℕ → Option ℕ → Type 0
IsLater now none = Unit
IsLater now (some t) = t < now

module _ {G : Type 0} where
  abbrev pub new_cache : GraphCache G
  new_cache = record {
    loaded_at = none;
    forced_stale = false;
    value = none;
    rebuild = idle;
    loads = 0;
  }

  abbrev pub stale_or_build : Option G → Option ℕ → Look G
  stale_or_build none stamp = must_build
  stale_or_build (some v) stamp = stale (some v, stamp)

  unfoldable pub look : ℕ → ℕ → GraphCache G → Look G
  look ttl now c =
      if within_ttl ttl now c.loaded_at && not c.forced_stale
      then fresh (c.value, c.loaded_at)
      else stale_or_build c.value c.loaded_at

  unfoldable pub acquire : Holder → GraphCache G → GraphCache G
  acquire k c = record c { rebuild = holding k }

  -- the flag is cleared before the load
  unfoldable pub begin_load : Holder → GraphCache G → GraphCache G
  begin_load k c = record c { forced_stale = false; rebuild = loading k; loads = c.loads + 1 }

  unfoldable pub publish : Holder → Option G → ℕ → GraphCache G → GraphCache G
  publish k v now c = record c { value = v; loaded_at = some now; rebuild = ended k }

  -- the loader raised
  unfoldable pub fail : Holder → GraphCache G → GraphCache G
  fail k c = record c { rebuild = ended k }

  unfoldable pub release : GraphCache G → GraphCache G
  release c = record c { rebuild = idle }

  -- also the first step of refresh, and its last after a failure
  unfoldable pub invalidate : GraphCache G → GraphCache G
  invalidate c = record c { forced_stale = true }

  pub data Step (ttl : ℕ) : GraphCache G → GraphCache G → Type 0 where
    invalidates : {c : GraphCache G} → Step ttl c (invalidate c)
    -- a read that found a stale pair or none, or refresh, and that has got the lock since
    acquires : {c : GraphCache G} → (k : Holder) → c.rebuild ≡ idle → Step ttl c (acquire k c)
    -- another cold read was first
    reuses :
        {c : GraphCache G} {v : G}
        → c.rebuild ≡ holding cold
        → c.value ≡ some v
        → Step ttl c (release c)
    begins :
        {c : GraphCache G}
        → (k : Holder) → c.rebuild ≡ holding k
        → (k ≡ cold → c.value ≡ none)
        → Step ttl c (begin_load k c)
    publishes :
        {c : GraphCache G}
        → (k : Holder) (v : Option G) (now : ℕ) → c.rebuild ≡ loading k
        → IsLater now c.loaded_at
        → Step ttl c (publish k v now c)
    fails : {c : GraphCache G} → (k : Holder) → c.rebuild ≡ loading k → Step ttl c (fail k c)
    releases : {c : GraphCache G} → (k : Holder) → c.rebuild ≡ ended k → Step ttl c (release c)

  pub data Steps (ttl : ℕ) (c : GraphCache G) : GraphCache G → Type 0 where
    none_yet : Steps ttl c c
    then_one : {d e : GraphCache G} → Steps ttl c d → Step ttl d e → Steps ttl c e
