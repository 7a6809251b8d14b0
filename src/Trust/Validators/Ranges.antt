-- ===== src/Trust/Validators/Ranges.antt =====
-- What a plausible reading of a disk is known to be, and what a replaced disk is allowed.
use Prim.Native.String.{String}
use srp.Prelude.{Floats, tenths, ◌≡◌, refl, ◌↔◌, false, Option, none, some, List, [], ◌∷◌, arith}
use srp.Trust.States.{SemanticStatus, plausible}
use srp.Trust.Validators.{
  Item, Reading, ◌or_else◌, validate_scalar_range, check_negative, check_drop, last_num,
  check_counters, storage_counters, validate_storage_item, same_serial, check_rollback,
  validate_smart_item,
}

or_else-plausible_iff :
    (a b : SemanticStatus) → ((a or_else b) ≡ plausible) ↔ ((a ≡ plausible) × (b ≡ plausible))
or_else-plausible_iff a b = ground arith

module _ {F : Type 0} ⦃fl : Floats F⦄ where
  -- A value that is there is neither below `lo` nor above `hi`.
  abbrev pub IsWithin : Option F → F → F → Type 0
  IsWithin none lo hi = Unit
  IsWithin (some v) lo hi = (fl.lt v lo ≡ false) × (fl.lt hi v ≡ false)

  -- A counter that is there is not negative, and not below the one of the last reading.
  abbrev pub IsCounter : Option F → Option F → Type 0
  IsCounter none prev = Unit
  IsCounter (some cur) none = fl.lt cur (fl.whole 0) ≡ false
  IsCounter (some cur) (some prev) = (fl.lt cur (fl.whole 0) ≡ false) × (fl.lt cur prev ≡ false)

  abbrev pub AreCounters : List String → Item F → Option (Item F) → Type 0
  AreCounters [] item last = Unit
  AreCounters (key ∷ keys) item last =
      IsCounter (item key) (last_num last key) × AreCounters keys item last

  validate_scalar_range-IsWithin :
      (v : Option F) (lo hi : F) → (validate_scalar_range v lo hi ≡ plausible) ↔ IsWithin v lo hi
  unfolding validate_scalar_range
  validate_scalar_range-IsWithin none lo hi = (λ _. tt, λ _. refl)
  validate_scalar_range-IsWithin (some v) lo hi = ground arith

  check_drop-IsCounter :
      (cur prev : Option F)
      → ((check_negative cur ≡ plausible) × (check_drop cur prev ≡ plausible)) ↔ IsCounter cur prev
  unfolding check_negative check_drop
  check_drop-IsCounter none prev = (λ _. tt, λ _. (refl, refl))
  check_drop-IsCounter (some cur) none = ground arith
  check_drop-IsCounter (some cur) (some prev) = ground arith

  check_counters-AreCounters :
      (keys : List String) (item : Item F) (last : Option (Item F))
      → (check_counters keys item last ≡ plausible) ↔ AreCounters keys item last
  unfolding check_counters
  check_counters-AreCounters [] item last = (λ _. tt, λ _. refl)
  check_counters-AreCounters (key ∷ keys) item last =
      let one = check_drop-IsCounter (item key) (last_num last key) in
      let rest = check_counters-AreCounters keys item last in
      let all =
        or_else-plausible_iff (check_negative (item key))
          (check_drop (item key) (last_num last key) or_else check_counters keys item last) in
      let tail =
        or_else-plausible_iff (check_drop (item key) (last_num last key))
          (check_counters keys item last) in
      (
        λ h. let (n, r) = all.0 h in let (d, c) = tail.0 r in (one.0 (n, d), rest.0 c),
        λ (i, c). let (n, d) = one.1 i in all.1 (n, tail.1 (d, rest.1 c)),
      )

  -- A reading of a disk is believable exactly when its wear, if it is there, lies between 0 and 100,
  -- and each of its four counters that is there is not negative and has not fallen since the last
  -- reading.
  pub validate_storage_item-plausible_iff :
      (item : Item F) (last : Option (Item F))
      → (validate_storage_item item last ≡ plausible) ↔ (
          IsWithin (item "wear_pct") (fl.whole 0) (fl.whole 100)
          × AreCounters storage_counters item last)
  unfolding validate_storage_item
  validate_storage_item-plausible_iff item last =
      let wear = validate_scalar_range-IsWithin (item "wear_pct") (fl.whole 0) (fl.whole 100) in
      let counters = check_counters-AreCounters storage_counters item last in
      let both =
        or_else-plausible_iff (validate_scalar_range (item "wear_pct") (fl.whole 0) (fl.whole 100))
          (check_counters storage_counters item last) in
      (
        λ h. let (w, c) = both.0 h in (wear.0 w, counters.0 c),
        λ (w, c). both.1 (wear.1 w, counters.1 c),
      )

  -- The last reading of another disk, or of one with no serial, plays no part in judging a disk.
  pub validate_smart_item_replaced :
      (item last : Reading F)
      → same_serial item.serial_hash last.serial_hash ≡ false
      → validate_smart_item item (some last) ≡ validate_smart_item item none
  unfolding validate_smart_item check_rollback
  validate_smart_item_replaced item last h = rw h
