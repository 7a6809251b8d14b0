-- ===== src/Errchain.antt =====
-- server/analytics/errchain.py: the chain from retries over damage to a crash in the events of a
-- machine. A moment is a number of seconds, none where received_at is no date; an id is none where it
-- is no natural number. The burstiness of some moments, which sorts them, and the ISO week of one are
-- given; the labels of factors are left out.
pub mod Stages
mod Examples
use Prim.Native.String.{String}
use text.Mathlib.Text.{◌==◌ as str_eq}
use srp.Prelude.{
  ltb, leb, ◌==◌, if◌then◌else◌, length, ℕ, ◌+◌, ◌*◌, Bool, true, false, ◌&&◌, ◌||◌, Option, none,
  some, List, [], ◌∷◌, ◌++◌,
}

abbrev pub app_hang_id : ℕ
app_hang_id = 1002

abbrev pub window : ℕ
window = 30 * 86400

abbrev pub recurrence_max_gap : ℕ
recurrence_max_gap = 7 * 86400

abbrev pub min_burstiness_events : ℕ
min_burstiness_events = 4

-- STORAGE_EARLY, STORAGE_DAMAGE, CRASH and _STORAGE_SOURCES
abbrev pub is_early : ℕ → Bool
is_early id = id == 153 || id == 129

abbrev pub is_damage : ℕ → Bool
is_damage id = id == 55 || id == 7 || id == 51

abbrev pub is_crash : ℕ → Bool
is_crash id = id == 41 || id == 1001 || id == 6008

abbrev pub is_storage_source : String → Bool
is_storage_source s =
    str_eq s "disk" || str_eq s "storahci" || str_eq s "stornvme" || str_eq s "Ntfs"

pub record Event : Type 0 where
  pub received_at : Option ℕ
  pub event_id : Option ℕ
  pub source : String

-- the four lists and the count that the loop fills
pub record Sorted : Type 0 where
  pub early : List ℕ
  pub damage : List ℕ
  pub crash : List ℕ
  pub app_hang : ℕ

abbrev pub nothing : Sorted
nothing = record { early = []; damage = []; crash = []; app_hang = 0 }

unfoldable pub sort_id : ℕ → String → ℕ → Sorted → Sorted
sort_id id source ts s =
    if is_crash id
    then record s { crash = s.crash ++ ts ∷ [] }
    else if id == app_hang_id
    then record s { app_hang = s.app_hang + 1 }
    else if is_storage_source source && is_early id
    then record s { early = s.early ++ ts ∷ [] }
    else if is_storage_source source && is_damage id
    then record s { damage = s.damage ++ ts ∷ [] }
    else s

-- ts < now - 30 days is passed over
abbrev pub sort_at : ℕ → Option ℕ → Option ℕ → String → Sorted → Sorted
sort_at now none id source s = s
sort_at now (some ts) none source s = s
sort_at now (some ts) (some id) source s =
    if ltb (ts + window) now then s else sort_id id source ts s

unfoldable pub sort_event : ℕ → Event → Sorted → Sorted
sort_event now e s = sort_at now e.received_at e.event_id e.source s

unfoldable pub sort_all : ℕ → List Event → Sorted → Sorted
sort_all now [] s = s
sort_all now (e ∷ events) s = sort_all now events (sort_event now e s)

-- 0 <= c - d <= 7 days
abbrev pub follows : ℕ → ℕ → Bool
follows d c = leb d c && leb c (d + recurrence_max_gap)

unfoldable pub any_follows : ℕ → List ℕ → Bool
any_follows d [] = false
any_follows d (c ∷ crashes) = follows d c || any_follows d crashes

unfoldable pub has_chain : List ℕ → List ℕ → Bool
has_chain [] crashes = false
has_chain (d ∷ damages) crashes = any_follows d crashes || has_chain damages crashes

abbrev pub stage_from : Bool → List ℕ → List ℕ → ℕ
stage_from true damages earlies = 3
stage_from false (d ∷ damages) earlies = 2
stage_from false [] (e ∷ earlies) = 1
stage_from false [] [] = 0

unfoldable pub stage_of : Sorted → ℕ
stage_of s = stage_from (has_chain s.damage s.crash) s.damage s.early

unfoldable pub is_in : ℕ → List ℕ → Bool
is_in n [] = false
is_in n (m ∷ ms) = n == m || is_in n ms

-- the size of a set of weeks
unfoldable pub count_distinct : List ℕ → ℕ
count_distinct [] = 0
count_distinct (n ∷ ns) = let rest = count_distinct ns in if is_in n ns then rest else rest + 1

unfoldable pub weeks_of : (ℕ → ℕ) → List ℕ → List ℕ
weeks_of week [] = []
weeks_of week (t ∷ ts) = week t ∷ weeks_of week ts

pub record ErrChain (F : Type 0) : Type 0 where
  pub stage : ℕ
  pub burstiness : Option F
  pub recurrent_weeks : ℕ
  pub early_count : ℕ
  pub damage_count : ℕ
  pub crash_count : ℕ
  pub app_hang_count : ℕ

-- `rollup_weeks` are the weeks of _iso_weeks_from_rollups
unfoldable pub analyze_events :
    {F : Type 0} → (List ℕ → Option F) → (ℕ → ℕ) → List Event → ℕ → List ℕ → ErrChain F
analyze_events burst week events now rollup_weeks =
    let s = sort_all now events nothing in
    let storage_ts = s.early ++ s.damage in
    record {
      stage = stage_of s;
      burstiness = if leb min_burstiness_events (length storage_ts) then burst storage_ts else none;
      recurrent_weeks = count_distinct (weeks_of week storage_ts ++ rollup_weeks);
      early_count = length s.early;
      damage_count = length s.damage;
      crash_count = length s.crash;
      app_hang_count = s.app_hang;
    }
