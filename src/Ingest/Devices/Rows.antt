-- ===== src/Ingest/Devices/Rows.antt =====
-- server/db.py: what one message does to the rows of devices, in number and to those of others.
use Prim.Native.String.{String}
use text.Mathlib.Text.{◌==◌ as str_eq}
use text.Mathlib.TextPositions.{eq_refl}
use srp.Texts.{Dict, lookup, put, lookup-put}
use srp.Ingest.Devices.{
  DeviceRow, Touch, UpdateStatus, parse_iso, is_replay, row_after, upsert_device, status_row,
  set_update_status, device_known,
}
use srp.Prelude.{
  Bool-cases, Option-cases, tenths, length, ℕ, ◌+◌, ◌≤◌, ◌≡◌, refl, sym, ◌∙◌, ◌≢◌, inl, inr, true,
  false, Option, none, [], ◌∷◌, arith,
}

module _ {V : Type 0} where
  pub length-put_known :
      (k : String) (v : V) (d : Dict V) → lookup k d ≢ none → length (put k v d) ≡ length d
  unfolding lookup put
  length-put_known k v [] h = absurd (h refl)
  length-put_known k v ((j, w) ∷ d) h = ground (arith, length-put_known k v d)

  pub length-put_le : (k : String) (v : V) (d : Dict V) → length (put k v d) ≤ length d + 1
  unfolding put
  length-put_le k v [] = omega arith
  length-put_le k v ((j, w) ∷ d) = ground (arith, length-put_le k v d)

  pub lookup-put_known : (k : String) (v : V) (d : Dict V) → lookup k (put k v d) ≢ none
  lookup-put_known k v d h = cc (rw (lookup-put k k v d, eq_refl k) at h)

-- A table after one more message of a device: not longer where the device is known, else by one row.
abbrev pub Grows : String → Dict DeviceRow → Dict DeviceRow → Type 0
Grows device before after =
    (lookup device before ≢ none → length after ≡ length before)
    × (length after ≤ length before + 1)

module _ (from_iso : String → Option ℕ) where
  pub upsert_device-Grows :
      (device : String) (t : Touch) (devices : Dict DeviceRow)
      → Grows device devices (upsert_device from_iso device t devices)
  unfolding upsert_device
  upsert_device-Grows device t devices =
      let row = row_after from_iso t (lookup device devices) in
      (length-put_known device row devices, length-put_le device row devices)

  pub length-set_update_status :
      (now : ℕ) (device : String) (u : UpdateStatus) (devices : Dict DeviceRow)
      → length (set_update_status from_iso now device u devices) ≡ length devices
  unfolding set_update_status
  length-set_update_status now device u devices = elim (Option-cases (lookup device devices)) [
    | inl absent ↦ rw (set_update_status, absent) refl
    | inr (row, present) ↦
        elim (Bool-cases (
          is_replay now (parse_iso from_iso row.update_checked_at)
            (parse_iso from_iso u.checked_at))) [
              | inl replay ↦ rw (set_update_status, present, replay) refl
              | inr newer ↦
                  rw (set_update_status, present, newer)
                    (length-put_known device (status_row u row) devices (λ e. cc (sym present ∙ e)))
            ]
  ]

  pub status_found :
      (now : ℕ) (device : String) (u : UpdateStatus) (devices : Dict DeviceRow)
      → lookup device devices ≢ none
      → lookup device (set_update_status from_iso now device u devices) ≢ none
  unfolding set_update_status
  status_found now device u devices known = elim (Option-cases (lookup device devices)) [
    | inl absent ↦ absurd (known absent)
    | inr (row, present) ↦
        elim (Bool-cases (
          is_replay now (parse_iso from_iso row.update_checked_at)
            (parse_iso from_iso u.checked_at))) [
              | inl replay ↦ rw (set_update_status, present, replay) known
              | inr newer ↦
                  rw (set_update_status, present, newer)
                    (lookup-put_known device (status_row u row) devices)
            ]
  ]

pub not_known :
    (device : String) (devices : Dict DeviceRow)
    → device_known device devices ≡ true
    → lookup device devices ≢ none
unfolding device_known
not_known device devices h e = cc (rw (device_known, e) at h)

pub known_of_found :
    (device : String) (devices : Dict DeviceRow)
    → lookup device devices ≢ none
    → device_known device devices ≡ true
unfolding device_known
known_of_found device devices h = elim (Option-cases (lookup device devices)) [
  | inl absent ↦ absurd (h absent)
  | inr (row, found) ↦ rw (device_known, found) refl
]

module _ (from_iso : String → Option ℕ) where
  pub upsert_other :
      (device d : String) (t : Touch) (devices : Dict DeviceRow)
      → str_eq device d ≡ false
      → lookup d (upsert_device from_iso device t devices) ≡ lookup d devices
  unfolding upsert_device
  upsert_other device d t devices apart =
      rw (lookup-put device d (row_after from_iso t (lookup device devices)) devices, apart) refl

  pub status_other :
      (now : ℕ) (device d : String) (u : UpdateStatus) (devices : Dict DeviceRow)
      → str_eq device d ≡ false
      → lookup d (set_update_status from_iso now device u devices) ≡ lookup d devices
  unfolding set_update_status
  status_other now device d u devices apart = elim (Option-cases (lookup device devices)) [
    | inl absent ↦ rw (set_update_status, absent) refl
    | inr (row, present) ↦
        elim (Bool-cases (
          is_replay now (parse_iso from_iso row.update_checked_at)
            (parse_iso from_iso u.checked_at))) [
              | inl replay ↦ rw (set_update_status, present, replay) refl
              | inr newer ↦
                  rw
                    (
                      set_update_status,
                      present,
                      newer,
                      lookup-put device d (status_row u row) devices,
                      apart,
                    )
                    refl
            ]
  ]
