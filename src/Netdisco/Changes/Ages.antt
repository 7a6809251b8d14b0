-- ===== src/Netdisco/Changes/Ages.antt =====
-- server/netdisco/changes.py: which devices `stale_lifecycle` gives a new status.
use Prim.Native.String.{String}
use text.Mathlib.Text.{◌==◌ as str_eq}
use mathlib.Core.Option as Option
use mathlib.Core.Path.{subst}
use mathlib.Core.List.{Memᴰ}
use mathlib.Core.List.Memᴰ
use srp.Netdisco.Sorting.{Mem-sort}
use srp.Netdisco.Changes.{
  transition_leb, Presence, missing, eligible_purge, Seen, add_transition, next_status, aged,
  transition, transition_of, transitions, stale_lifecycle,
}
use srp.Prelude.{
  Bool-cases, Floats, tenths, ◌≡◌, refl, sym, ap, ◌∙◌, ◌≢◌, ◌↔◌, ◌⊎◌, inl, inr, true, false, ◌||◌,
  Option, none, some, List, [], ◌∷◌, arith,
}

module _ {F : Type 0} ⦃fl : Floats F⦄ (seconds_since : String → Option F)
    (stale_after_sec purge_after_sec : F) where
  -- The status that is due to a device of that id, moment and status: `eligible_purge` from the longer
  -- limit on, unless it has it, and `missing` between the limits, unless it has one of the two.
  pub data IsDue
      : Option String → Option String → Option Presence → String × Presence → Type 0 where
    purged :
        {nid last_seen : String} {status : Option Presence} {age : F}
        → (str_eq nid "" || str_eq last_seen "") ≡ false
        → seconds_since last_seen ≡ some age
        → fl.lt age purge_after_sec ≡ false
        → status ≢ some eligible_purge
        → IsDue (some nid) (some last_seen) status (nid, eligible_purge)
    missed :
        {nid last_seen : String} {age : F}
        → (str_eq nid "" || str_eq last_seen "") ≡ false
        → seconds_since last_seen ≡ some age
        → fl.lt age purge_after_sec ≡ true
        → fl.lt age stale_after_sec ≡ false
        → IsDue (some nid) (some last_seen) none (nid, missing)

  next_status-cases :
      (status : Option Presence) (age : F) (p : Presence)
      → (next_status seconds_since stale_after_sec purge_after_sec status age ≡ some p) ↔ (
          ((fl.lt age purge_after_sec ≡ false)
            × (status ≢ some eligible_purge)
            × (eligible_purge ≡ p))
          ⊎ ((fl.lt age purge_after_sec ≡ true)
              × (fl.lt age stale_after_sec ≡ false)
              × (status ≡ none)
              × (missing ≡ p)))
  unfolding next_status
  next_status-cases none age p = ground arith
  next_status-cases (some missing) age p = ground arith
  next_status-cases (some eligible_purge) age p = ground arith

  due-transition :
      (nid last_seen : Option String) (status : Option Presence) (t : String × Presence)
      → IsDue nid last_seen status t
      → transition seconds_since stale_after_sec purge_after_sec nid last_seen status ≡ some t
  unfolding transition
  due-transition none last_seen status t due = elim due [ ]
  due-transition (some nid) none status t due = elim due [ ]
  due-transition (some nid) (some last_seen) status t (purged {age} own at old fresh) =
      rw (own, at, (next_status-cases status age eligible_purge).1 (inl (old, fresh, refl))) refl
  due-transition (some nid) (some last_seen) none t (missed {age} own at young old) =
      rw (own, at, (next_status-cases none age missing).1 (inr (young, old, refl, refl))) refl

  next_status-IsDue :
      (nid last_seen : String) (status : Option Presence) (age : F) (p : Presence)
      → (str_eq nid "" || str_eq last_seen "") ≡ false
      → seconds_since last_seen ≡ some age
      → next_status seconds_since stale_after_sec purge_after_sec status age ≡ some p
      → IsDue (some nid) (some last_seen) status (nid, p)
  next_status-IsDue nid last_seen status age p own at h =
      elim ((next_status-cases status age p).0 h) [
        | inl (old, fresh, e) ↦
            subst (λ z. IsDue (some nid) (some last_seen) status (nid, z)) e
              (purged own at old fresh)
        | inr (young, old, unmarked, e) ↦ rw unmarked (
            subst (λ z. IsDue (some nid) (some last_seen) none (nid, z)) e
              (missed own at young old))
      ]

  map-IsDue :
      (nid last_seen : String) (status : Option Presence) (age : F) (o : Option Presence)
      (t : String × Presence)
      → (str_eq nid "" || str_eq last_seen "") ≡ false
      → seconds_since last_seen ≡ some age
      → next_status seconds_since stale_after_sec purge_after_sec status age ≡ o
      → Option.map (λ p. (nid, p)) o ≡ some t
      → IsDue (some nid) (some last_seen) status t
  map-IsDue nid last_seen status age none t own at h q = cc q
  map-IsDue nid last_seen status age (some p) t own at h q =
      subst (IsDue (some nid) (some last_seen) status) (cc q)
        (next_status-IsDue nid last_seen status age p own at h)

  aged-IsDue :
      (nid last_seen : String) (status : Option Presence) (o : Option F) (t : String × Presence)
      → (str_eq nid "" || str_eq last_seen "") ≡ false
      → seconds_since last_seen ≡ o
      → Option.map (λ p. (nid, p)) (aged seconds_since stale_after_sec purge_after_sec o status)
        ≡ some t
      → IsDue (some nid) (some last_seen) status t
  aged-IsDue nid last_seen status none t own at h = cc h
  aged-IsDue nid last_seen status (some age) t own at h =
      map-IsDue nid last_seen status age
        (next_status seconds_since stale_after_sec purge_after_sec status age) t own at refl h

  transition_own :
      (nid last_seen : String) (status : Option Presence)
      → (str_eq nid "" || str_eq last_seen "") ≡ false
      → transition seconds_since stale_after_sec purge_after_sec (some nid) (some last_seen) status
        ≡ Option.map
            (λ p. (nid, p))
            (aged seconds_since stale_after_sec purge_after_sec (seconds_since last_seen) status)
  unfolding transition
  transition_own nid last_seen status own = rw own refl

  transition_bad :
      (nid last_seen : String) (status : Option Presence)
      → (str_eq nid "" || str_eq last_seen "") ≡ true
      → transition seconds_since stale_after_sec purge_after_sec (some nid) (some last_seen) status
        ≡ none
  unfolding transition
  transition_bad nid last_seen status bad = rw bad refl

  transition-IsDue :
      (nid last_seen : Option String) (status : Option Presence) (t : String × Presence)
      → transition seconds_since stale_after_sec purge_after_sec nid last_seen status ≡ some t
      → IsDue nid last_seen status t
  unfolding transition
  transition-IsDue none last_seen status t h = cc h
  transition-IsDue (some nid) none status t h = cc h
  transition-IsDue (some nid) (some last_seen) status t h =
      elim (Bool-cases (str_eq nid "" || str_eq last_seen "")) [
        | inl bad ↦ cc (transition_bad nid last_seen status bad, h)
        | inr own ↦
            aged-IsDue nid last_seen status (seconds_since last_seen) t own refl
              (sym (transition_own nid last_seen status own) ∙ h)
      ]

  Mem-add_transition :
      (o : Option (String × Presence)) (t : String × Presence) (ts : List (String × Presence))
      → Memᴰ t (add_transition o ts) ↔ ((o ≡ some t) ⊎ Memᴰ t ts)
  Mem-add_transition none t ts = (inr, λ c. elim c [ inl h ↦ cc h | inr m ↦ m ])
  Mem-add_transition (some x) t ts = (
    λ m. elim (Memᴰ.cases_cons m) [ inl q ↦ inl (ap some (sym q)) | inr n ↦ inr n ],
    λ c. elim c [ inl h ↦ Memᴰ.head (cc h) | inr m ↦ Memᴰ.tail m ],
  )

  Mem-transitions :
      (devices : List Seen) (t : String × Presence)
      → Memᴰ t (transitions seconds_since stale_after_sec purge_after_sec devices)
        ↔ ((dev : Seen) × Memᴰ dev devices × IsDue dev.device_nid dev.last_seen dev.status t)
  unfolding transitions
  Mem-transitions [] t = (λ m. absurd (Memᴰ.not-nil m), λ (dev, m, due). absurd (Memᴰ.not-nil m))
  Mem-transitions (dev ∷ devices) t =
      let rest = Mem-transitions devices t in
      let here =
        Mem-add_transition (transition_of seconds_since stale_after_sec purge_after_sec dev) t
          (transitions seconds_since stale_after_sec purge_after_sec devices) in
      (
        λ m. elim (here.0 m) [
          | inl h ↦
              (dev, Memᴰ.head refl, transition-IsDue dev.device_nid dev.last_seen dev.status t h)
          | inr n ↦ let (other_dev, k, due) = rest.0 n in (other_dev, Memᴰ.tail k, due)
        ],
        λ (other_dev, m, due). elim (Memᴰ.cases_cons m) [
          | inl q ↦ here.1 (
              inl (
                due-transition dev.device_nid dev.last_seen dev.status t
                  (subst (λ (z : Seen). IsDue z.device_nid z.last_seen z.status t) q due)))
          | inr n ↦ here.1 (inr (rest.1 (other_dev, n, due)))
        ],
      )

module _ {F : Type 0} ⦃fl : Floats F⦄ (seconds_since : String → Option F)
    (stale_after_sec purge_after_sec : F) where
  -- A new status is given if and only if it is due to one of the devices: nothing is given to a device
  -- that has no id or no moment, whose moment cannot be read, or which was seen within the shorter limit.
  pub stale_lifecycle-IsDue :
      (devices : List Seen) (t : String × Presence)
      → Memᴰ t (stale_lifecycle seconds_since stale_after_sec purge_after_sec devices) ↔ (
          (dev : Seen) × Memᴰ dev devices
          × IsDue seconds_since stale_after_sec purge_after_sec dev.device_nid dev.last_seen
              dev.status t)
  unfolding stale_lifecycle
  stale_lifecycle-IsDue devices t =
      let sorted =
        Mem-sort transition_leb t
          (transitions seconds_since stale_after_sec purge_after_sec devices) in
      let all = Mem-transitions seconds_since stale_after_sec purge_after_sec devices t in
      (λ m. all.0 (sorted.0 m), λ due. sorted.1 (all.1 due))
