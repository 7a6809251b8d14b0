-- ===== src/Ingest/Devices/Replays.antt =====
-- server/db.py: an envelope that was sent late does not take back what a later one said.
use Prim.Native.String.{String}
use text.Mathlib.Text.{◌==◌ as str_eq}
use text.Mathlib.TextEquality.{eq_iff}
use text.Mathlib.TextPositions.{eq_refl}
use srp.Texts.{Dict, lookup, put, lookup-put}
use srp.Ingest.Versions.{Version, parse_version, version_lt}
use srp.Ingest.Devices.{
  DeviceRow, Touch, UpdateStatus, five_minutes, coalesce, only, touch_columns, parse_iso, is_after,
  is_long_ago, is_replay, resolve_known, resolve_agent_version, updated_row, row_after,
  upsert_device, touch_device, status_row, set_update_status,
}
use srp.Prelude.{
  ltb, Bool-cases, Option-cases, tenths, ℕ, ◌+◌, ◌≤◌, ◌≡◌, refl, ap, ◌≢◌, ◌⊎◌, inl, inr, true,
  false, Option, none, some, arith,
}

module _ (from_iso : String → Option ℕ) where
  -- The version of the envelope is not below the one stored, or the envelope was made after the last
  -- change of version, or that change is more than an hour old.
  abbrev pub IsGenuine : Touch → DeviceRow → Version → Type 0
  IsGenuine t row stored =
      (incoming : Version) × (parse_version (some t.agent_version) ≡ some incoming)
      × ((version_lt incoming stored ≡ false)
          ⊎ (is_after (parse_iso from_iso t.envelope_ts) (parse_iso from_iso row.version_changed_at)
              ≡ true)
          ⊎ (is_long_ago t.now (parse_iso from_iso row.version_changed_at) ≡ true))

  resolve-IsGenuine :
      (t : Touch) (row : DeviceRow) (text : String) (stored : Version)
      → parse_version (some text) ≡ some stored
      → (resolve_agent_version from_iso t.now
            (some text)
            row.version_changed_at
            t.agent_version
            t.envelope_ts
          ≡ text)
        ⊎ ((resolve_agent_version from_iso t.now
                (some text)
                row.version_changed_at
                t.agent_version
                t.envelope_ts
              ≡ t.agent_version)
            × IsGenuine t row stored)
  unfolding resolve_agent_version resolve_known
  resolve-IsGenuine t row text stored known =
      elim (Option-cases (parse_version (some t.agent_version))) [
        | inl malformed ↦ inl (rw (resolve_agent_version, malformed) refl)
        | inr (incoming, read) ↦ elim (Bool-cases (version_lt incoming stored)) [
          | inr high ↦ inr (
            rw (resolve_agent_version, resolve_known, read, known, high) refl,
            (incoming, read, inl high),
          )
          | inl low ↦
              elim (Bool-cases (
                is_after (parse_iso from_iso t.envelope_ts)
                  (parse_iso from_iso row.version_changed_at))) [
                    | inl newer ↦ inr (
                      rw (resolve_agent_version, resolve_known, read, known, low, newer) refl,
                      (incoming, read, inr (inl newer)),
                    )
                    | inr older ↦
                        elim (Bool-cases
                          (is_long_ago t.now (parse_iso from_iso row.version_changed_at))) [
                            | inl settled ↦ inr (
                              rw
                                  (
                                    resolve_agent_version, resolve_known, read, known, low, older,
                                    settled,
                                  )
                                  refl,
                              (incoming, read, inr (inr settled)),
                            )
                            | inr fresh ↦ inl (
                                rw
                                  (
                                    resolve_agent_version, resolve_known, read, known, low, older,
                                    fresh,
                                  )
                                  refl)
                          ]
                  ]
        ]
      ]

  -- Where the stored version can be read, an envelope leaves it and the time of its change as they
  -- are, or writes its own version, and then its version is not below the stored one, or the
  -- envelope was made after the last change, or that change is more than an hour old.
  pub touch_device-IsGenuine :
      (device : String) (t : Touch) (devices : Dict DeviceRow) (row : DeviceRow) (text : String)
      (stored : Version)
      → lookup device devices ≡ some row
      → row.agent_version ≡ some text
      → parse_version (some text) ≡ some stored
      → (new : DeviceRow) × (lookup device (touch_device from_iso device t devices) ≡ some new)
        × (((new.agent_version ≡ some text) × (new.version_changed_at ≡ row.version_changed_at))
            ⊎ ((new.agent_version ≡ some t.agent_version) × IsGenuine t row stored))
  unfolding touch_device upsert_device updated_row
  touch_device-IsGenuine device t devices row text stored found held known =
      let sent = record t { profile = only touch_columns t.profile } in
      let new = updated_row from_iso sent row in
      let at : lookup device (put device (row_after from_iso sent (lookup device devices)) devices)
          ≡ some new =
        rw
          (
            lookup-put device device (row_after from_iso sent (lookup device devices)) devices,
            eq_refl device,
            found,
          )
          refl in
      (
        new,
        at,
        elim (resolve-IsGenuine t row text stored known) [
          | inl kept ↦ inl (rw held (ap some kept), rw (held, kept, eq_refl text) refl)
          | inr (taken, genuine) ↦ inr (rw held (ap some taken), genuine)
        ],
      )

  -- A status whose time is known never replaces a later one: after it the stored time is the later of
  -- the two, where the stored time is no more than five minutes ahead of the server's clock.
  pub set_update_status-later :
      (now : ℕ) (device : String) (u : UpdateStatus) (devices : Dict DeviceRow) (row : DeviceRow)
      (s i : ℕ)
      → lookup device devices ≡ some row
      → parse_iso from_iso row.update_checked_at ≡ some s
      → parse_iso from_iso u.checked_at ≡ some i
      → s ≤ now + five_minutes
      → (new : DeviceRow) × (m : ℕ) × (lookup device
            (set_update_status from_iso now device u devices)
          ≡ some new)
        × (parse_iso from_iso new.update_checked_at ≡ some m)
        × (s ≤ m)
        × (i ≤ m)
  unfolding set_update_status status_row
  set_update_status-later now device u devices row s i found stored incoming near =
      elim (Bool-cases (ltb i s)) [
        | inl replay ↦
            let skip : is_replay now (parse_iso from_iso row.update_checked_at)
                  (parse_iso from_iso u.checked_at)
                ≡ true =
              rw (stored, incoming) (ground arith) in
            (row, s, rw (set_update_status, found, skip) found, stored, omega arith, ground arith)
        | inr newer ↦
            let apply : is_replay now (parse_iso from_iso row.update_checked_at)
                  (parse_iso from_iso u.checked_at)
                ≡ false =
              rw (stored, incoming) (ground arith) in
            (
              status_row u row,
              i,
              rw
                  (
                    set_update_status,
                    found,
                    apply,
                    lookup-put device device (status_row u row) devices,
                    eq_refl device,
                  )
                  refl,
              incoming,
              ground arith,
              omega arith,
            )
      ]

  left_out :
      (column : String) (t : Touch) (row : DeviceRow)
      → t.profile column ≡ none
      → coalesce (only touch_columns t.profile column) (row.profile column) ≡ row.profile column
  unfolding only
  left_out column t row e = ground arith

  -- An envelope touches its own device only, keeps the time of the first one, and loses no column
  -- that it leaves out.
  pub touch_device-lookup :
      (device other : String) (t : Touch) (devices : Dict DeviceRow) (row : DeviceRow)
      → lookup other devices ≡ some row
      → (new : DeviceRow) × (lookup other (touch_device from_iso device t devices) ≡ some new)
        × (new.first_seen ≡ row.first_seen)
        × ((device ≢ other) → new ≡ row)
        × ((column : String) → t.profile column ≡ none → new.profile column ≡ row.profile column)
  unfolding touch_device upsert_device updated_row only
  touch_device-lookup device other t devices row found =
      let sent = record t { profile = only touch_columns t.profile } in
      elim (Bool-cases (str_eq device other)) [
        | inr apart ↦ (
          row,
          rw
              (
                lookup-put device other (row_after from_iso sent (lookup device devices)) devices,
                apart,
              )
              found,
          refl,
          λ _. refl,
          λ _ _. refl,
        )
        | inl same ↦
            let here : lookup device devices ≡ some row = rw ((eq_iff device other).0 same) found in
            (
              updated_row from_iso sent row,
              rw
                  (
                    lookup-put device other (row_after from_iso sent (lookup device devices))
                        devices,
                    same,
                    here,
                  )
                  refl,
              refl,
              λ apart. absurd (apart ((eq_iff device other).0 same)),
              λ column none_sent. left_out column t row none_sent,
            )
      ]
