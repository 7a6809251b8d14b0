-- ===== src/Trust/Validators.antt =====
-- server/trust/validators.py: whether the data of a source are believable. An item is what `_num`
-- makes of its values, by key; of a reason only the status that it goes with is kept.
pub mod Ranges
use Prim.Native.String.{String}
use text.Mathlib.Text.{◌==◌ as str_eq, find?}
use srp.Prelude.{
  if◌then◌else◌, Floats, ℕ, Bool, true, false, ◌&&◌, ◌||◌, Option, none, some, List, [], ◌∷◌,
}
use srp.Trust.States.{
  SemanticStatus, plausible, implausible, inconsistent, frozen, known_bad, unchecked,
}

-- `_num(item.get(key))`
abbrev pub Item : Type 0 → Type 0
Item F = String → Option F

-- What a source reads, as far as a validator looks at it.
pub record Reading (F : Type 0) : Type 0 where
  pub num : Item F
  pub serial_hash : Option String
  pub smart_attrs : Option (Item F)
  pub model : String
  pub firmware : String
  pub quality : List (Option (Item F))
  pub signal_pcts : List (Option F)
  pub counts : List (Option F)

abbrev pub is_some : Option ℕ → Bool
is_some none = false
is_some (some _) = true

abbrev pub is_plausible : SemanticStatus → Bool
is_plausible plausible = true
is_plausible _ = false

-- `if status is not PLAUSIBLE: return status`, and the checks after it
infixr 20 ◌or_else◌
abbrev pub ◌or_else◌ : SemanticStatus → SemanticStatus → SemanticStatus
plausible or_else later = later
s or_else later = s

abbrev pub storage_counters : List String
storage_counters =
    "reallocated_sectors" ∷ "power_on_hours" ∷ "read_errors_total" ∷ "write_errors_total" ∷ []

abbrev pub smart_counters : List String
smart_counters = "nvme_media_errors" ∷ "nvme_unsafe_shutdowns" ∷ "power_on_hours" ∷ []

-- same_disk: the serial is known, and the last reading has the same one
abbrev pub same_serial : Option String → Option String → Bool
same_serial (some a) (some b) = str_eq b a
same_serial _ _ = false

module _ {F : Type 0} ⦃fl : Floats F⦄ where
  unfoldable pub validate_scalar_range : Option F → F → F → SemanticStatus
  validate_scalar_range none lo hi = plausible
  validate_scalar_range (some v) lo hi = if fl.lt v lo || fl.lt hi v then implausible else plausible

  -- cur is not None and cur < 0
  unfoldable pub check_negative : Option F → SemanticStatus
  check_negative none = plausible
  check_negative (some cur) = if fl.lt cur (fl.whole 0) then implausible else plausible

  -- cur is not None and prev is not None and cur < prev
  unfoldable pub check_drop : Option F → Option F → SemanticStatus
  check_drop (some cur) (some prev) = if fl.lt cur prev then inconsistent else plausible
  check_drop _ _ = plausible

  abbrev pub last_num : Option (Item F) → Item F
  last_num none key = none
  last_num (some last) key = last key

  -- `for key in (…)` of validate_storage_item: both checks of a counter before the next counter
  unfoldable pub check_counters : List String → Item F → Option (Item F) → SemanticStatus
  check_counters [] item last = plausible
  check_counters (key ∷ keys) item last =
      check_negative (item key)
      or_else (check_drop (item key) (last_num last key) or_else check_counters keys item last)

  unfoldable pub validate_storage_item : Item F → Option (Item F) → SemanticStatus
  validate_storage_item item last =
      validate_scalar_range (item "wear_pct") (fl.whole 0) (fl.whole 100)
      or_else check_counters storage_counters item last

  unfoldable pub check_ranges : List String → Item F → F → F → SemanticStatus
  check_ranges [] item lo hi = plausible
  check_ranges (key ∷ keys) item lo hi =
      validate_scalar_range (item key) lo hi or_else check_ranges keys item lo hi

  unfoldable pub check_negatives : List String → Item F → SemanticStatus
  check_negatives [] item = plausible
  check_negatives (key ∷ keys) item = check_negative (item key) or_else check_negatives keys item

  unfoldable pub check_drops : List String → Item F → Item F → SemanticStatus
  check_drops [] item last = plausible
  check_drops (key ∷ keys) item last =
      check_drop (item key) (last key) or_else check_drops keys item last

  abbrev pub check_attrs : Option (Item F) → Option (Item F) → SemanticStatus
  check_attrs (some attrs) (some last) = check_drops ("5" ∷ "197" ∷ "198" ∷ []) attrs last
  check_attrs _ _ = plausible

  -- the part of validate_smart_item that wants a last reading of the same disk
  unfoldable pub check_rollback : Reading F → Option (Reading F) → SemanticStatus
  check_rollback item none = plausible
  check_rollback item (some last) =
      if same_serial item.serial_hash last.serial_hash
      then check_drops smart_counters item.num last.num
        or_else check_attrs item.smart_attrs last.smart_attrs
      else plausible

  unfoldable pub validate_smart_item : Reading F → Option (Reading F) → SemanticStatus
  validate_smart_item item last =
      check_ranges ("nvme_spare_pct" ∷ "nvme_spare_threshold_pct" ∷ "nvme_percentage_used" ∷ [])
        item.num (fl.whole 0) (fl.whole 100)
      or_else (validate_scalar_range (item.num "temperature_c") (fl.minus 10) (fl.whole 100)
          or_else (check_negatives smart_counters item.num or_else check_rollback item last))

  unfoldable pub validate_frozen_constant : Option F → Option F → SemanticStatus
  validate_frozen_constant (some cur) (some prev) = if fl.eq cur prev then frozen else plausible
  validate_frozen_constant _ _ = plausible

  -- the two checks of one entry of reading["quality"]; an entry that is no dict is passed over
  unfoldable pub check_quality : List (Option (Item F)) → SemanticStatus
  check_quality [] = plausible
  check_quality (none ∷ qs) = check_quality qs
  check_quality (some q ∷ qs) =
      validate_scalar_range (q "loss_pct") (fl.whole 0) (fl.whole 100)
      or_else (validate_scalar_range (q "latency_ms") (fl.whole 0) (fl.whole 60000)
          or_else check_quality qs)

  unfoldable pub check_each : List (Option F) → F → F → SemanticStatus
  check_each [] lo hi = plausible
  check_each (v ∷ vs) lo hi = validate_scalar_range v lo hi or_else check_each vs lo hi

  unfoldable pub validate_network : Reading F → SemanticStatus
  validate_network reading =
      check_quality reading.quality
      or_else check_each reading.signal_pcts (fl.whole 0) (fl.whole 100)

  -- the one entry of _KNOWN_BAD_FIRMWARE
  unfoldable pub check_known_bad : Reading F → SemanticStatus
  check_known_bad item =
      if is_some (find? item.model "BadSSD X1") && str_eq "EVIL01" item.firmware
      then known_bad
      else plausible

  abbrev pub last_item : Option (Reading F) → Option (Item F)
  last_item none = none
  last_item (some last) = some last.num

  unfoldable pub validate_source : String → Reading F → Option (Reading F) → SemanticStatus
  validate_source source reading last =
      if str_eq source "network"
      then validate_network reading
      else if str_eq source "storage_reliability"
      then check_known_bad reading or_else validate_storage_item reading.num (last_item last)
      else if str_eq source "smart"
      then validate_smart_item reading last
      else if str_eq source "free_space"
      then validate_scalar_range (reading.num "value") (fl.whole 0) (fl.whole 100)
      else if str_eq source "reliability"
      then validate_scalar_range (reading.num "value") (fl.whole 0) (fl.whole 10)
      else if str_eq source "boot_time"
      then validate_scalar_range (reading.num "value") (fl.whole 0) (fl.whole 600000)
      else if str_eq source "throttle"
      then validate_frozen_constant (reading.num "value") (last_num (last_item last) "value")
      else if str_eq source "event_counts"
      then check_each reading.counts (fl.whole 0) (fl.whole 1000000)
      else unchecked
