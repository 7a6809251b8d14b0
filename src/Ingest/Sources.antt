-- ===== src/Ingest/Sources.antt =====
-- server/pipeline.py: what each source reads in a payload. A payload is the part of it that the sources
-- read; a disk or a reading that is an empty dict is told apart from one that is not.
-- A payload of another shape, as with a disk that is no dict, makes the reading raise: that it does is
-- given with the step that evaluates the trust (Faults of Pipeline).
use Prim.Native.String.{String}
use text.Mathlib.Text.{◌==◌ as str_eq}
use srp.Netdisco.Sets.{contains}
use srp.Trust.Validators.{Item, Reading}
use srp.Prelude.{if◌then◌else◌, tenths, Bool, true, false, Option, none, some, List, [], ◌∷◌}

abbrev pub known_trust_sources : List String
known_trust_sources =
    "storage_reliability" ∷ "disk_latency" ∷ "smart" ∷ "free_space" ∷ "reliability" ∷ "boot_time"
    ∷ "throttle" ∷ "network" ∷ "event_counts" ∷ "identity" ∷ "events" ∷ "certificates"
    ∷ "print_jobs" ∷ []

abbrev pub empty_coercible_sources : List String
empty_coercible_sources =
    "storage_reliability" ∷ "smart" ∷ "free_space" ∷ "reliability" ∷ "boot_time" ∷ "throttle"
    ∷ "network" ∷ []

abbrev pub smart_fields : List String
smart_fields =
    "temperature_c" ∷ "power_on_hours" ∷ "nvme_spare_pct" ∷ "nvme_spare_threshold_pct"
    ∷ "nvme_percentage_used" ∷ "nvme_media_errors" ∷ "nvme_unsafe_shutdowns" ∷ []

module _ {F : Type 0} where
  abbrev pub no_item : Item F
  no_item key = none

  abbrev pub blank : Reading F
  blank = record {
    num = no_item;
    serial_hash = none;
    smart_attrs = none;
    model = "";
    firmware = "";
    quality = [];
    signal_pcts = [];
    counts = [];
  }

-- The disks of payload["storage"], the numbers, and of each adapter its signal_pct.
pub record Payload (F : Type 0) : Type 0 where
  pub storage : List (Option (Reading F))
  pub free_space_pct : Option F
  pub cpu_perf_pct : Option F
  pub reliability_stability_index : Option F
  pub avg_boot_ms : Option F
  pub network_quality : List (Option (Item F))
  pub adapter_signals : List (Option F)

-- {}, {"value": …}, or a dict with other keys
pub data Extracted (F : Type 0) : Type 0 where
  nothing : Extracted F
  scalar : Option F → Extracted F
  slice : Reading F → Extracted F

module _ {F : Type 0} where
  abbrev pub first_disk : List (Option (Reading F)) → Option (Reading F)
  first_disk [] = none
  first_disk (disk ∷ disks) = disk

  abbrev pub row_of : Option (Reading F) → Extracted F
  row_of none = nothing
  row_of (some disk) = slice disk

  abbrev pub or_blank : Option (Reading F) → Reading F
  or_blank none = blank
  or_blank (some disk) = disk

  -- item.get("smart_attrs") or {}
  abbrev pub attrs_or_empty : Option (Item F) → Option (Item F)
  attrs_or_empty none = some no_item
  attrs_or_empty (some attrs) = some attrs

  unfoldable pub smart_slice : Reading F → Reading F
  smart_slice item = record {
    num = λ key. if contains smart_fields key then item.num key else none;
    serial_hash = item.serial_hash;
    smart_attrs = attrs_or_empty item.smart_attrs;
    model = "";
    firmware = "";
    quality = [];
    signal_pcts = [];
    counts = [];
  }

  -- [a.get("signal_pct") for a in adapters if … is not None]
  unfoldable pub known_signals : List (Option F) → List (Option F)
  known_signals [] = []
  known_signals (none ∷ signals) = known_signals signals
  known_signals (some pct ∷ signals) = some pct ∷ known_signals signals

  unfoldable pub network_slice : Payload F → Reading F
  network_slice payload = record {
    num = no_item;
    serial_hash = none;
    smart_attrs = none;
    model = "";
    firmware = "";
    quality = payload.network_quality;
    signal_pcts = known_signals payload.adapter_signals;
    counts = [];
  }

  unfoldable pub extract_reading : String → Payload F → Extracted F
  extract_reading source payload =
      if str_eq source "storage_reliability"
      then row_of (first_disk payload.storage)
      else if str_eq source "smart"
      then slice (smart_slice (or_blank (first_disk payload.storage)))
      else if str_eq source "free_space"
      then scalar payload.free_space_pct
      else if str_eq source "throttle"
      then scalar payload.cpu_perf_pct
      else if str_eq source "reliability"
      then scalar payload.reliability_stability_index
      else if str_eq source "boot_time"
      then scalar payload.avg_boot_ms
      else if str_eq source "network"
      then slice (network_slice payload)
      else nothing

  abbrev pub reading_is_empty : Extracted F → Bool
  reading_is_empty nothing = true
  reading_is_empty (scalar none) = true
  reading_is_empty (scalar (some v)) = false
  reading_is_empty (slice r) = false

  -- The truth of the dict.
  abbrev pub is_given : Extracted F → Bool
  is_given nothing = false
  is_given (scalar v) = true
  is_given (slice r) = true

  -- What a validator finds under the keys that it looks up.
  abbrev pub as_reading : Extracted F → Reading F
  as_reading nothing = blank
  as_reading (scalar v) = record {
    num = λ key. if str_eq key "value" then v else none;
    serial_hash = none;
    smart_attrs = none;
    model = "";
    firmware = "";
    quality = [];
    signal_pcts = [];
    counts = [];
  }
  as_reading (slice r) = r
