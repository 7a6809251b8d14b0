-- ===== src/Guards/Keys.antt =====
-- The memory of idempotency keys: what it forgets, and what it never makes up.
use Prim.Native.String.{String}
use text.Mathlib.Text.{◌==◌ as str_eq}
use text.Mathlib.TextEquality.{eq_iff}
use text.Mathlib.TextPositions.{eq_refl}
use srp.Prelude.{
  ltb, Bool-cases, Option-cases, tenths, length, ℕ, ◌+◌, ◌≤◌, ◌≡◌, ◌⊎◌, inl, inr, true, false,
  Option, none, some, arith,
}
use srp.Texts.{
  Dict, lookup, AreUnique, lookup-put, lookup-keep_if, lookup-keep_if-none, AreUnique-keep_if,
  AreUnique-put,
}
use srp.Guards.{
  Guards, dedup_ttl, trim_threshold, is_known, has_seen, is_fresh, trim_keys, mark_seen,
}

lookup-trim_keys-none :
    (now : ℕ) (k : String) (d : Dict ℕ) → lookup k d ≡ none → lookup k (trim_keys now d) ≡ none
unfolding trim_keys
lookup-trim_keys-none now k d h = elim (Bool-cases (ltb trim_threshold (length d))) [
  | inl many ↦ rw many (lookup-keep_if-none (is_fresh now) k d h)
  | inr few ↦ rw few h
]

pub lookup-trim_keys_fresh :
    (now : ℕ) (k : String) (d : Dict ℕ) (t : ℕ)
    → AreUnique d
    → lookup k d ≡ some t
    → now ≤ t + dedup_ttl
    → lookup k (trim_keys now d) ≡ some t
unfolding trim_keys
lookup-trim_keys_fresh now k d t u h fresh = elim (Bool-cases (ltb trim_threshold (length d))) [
  | inl many ↦
      let young : is_fresh now t ≡ true = ground arith in
      rw (many, lookup-keep_if (is_fresh now) k d u h, young)
  | inr few ↦ rw few h
]

-- A key is taken for a duplicate only if it was marked, now or before.
pub has_seen-mark_seen_sound :
    (key j : String) (now : ℕ) (g : Guards)
    → has_seen (some j) (mark_seen (some key) now g) ≡ true
    → (key ≡ j) ⊎ (has_seen (some j) g ≡ true)
unfolding mark_seen has_seen
has_seen-mark_seen_sound key j now g h = elim (Bool-cases (str_eq key j)) [
  | inl same ↦ inl ((eq_iff key j).0 same)
  | inr other ↦ elim (Option-cases (lookup j g.seen_keys)) [
    | inl unknown ↦
        let gone = lookup-trim_keys-none now j g.seen_keys unknown in
        ground (arith, lookup-put key j now (trim_keys now g.seen_keys), other, gone, unknown)
    | inr (t, known) ↦ inr (ground (arith, known, h))
  ]
]

pub AreUnique-trim_keys : (now : ℕ) (d : Dict ℕ) → AreUnique d → AreUnique (trim_keys now d)
unfolding trim_keys
AreUnique-trim_keys now d u = ground (arith, AreUnique-keep_if (is_fresh now) d u)

pub lookup-mark_seen :
    (key : String) (now : ℕ) (g : Guards)
    → str_eq key "" ≡ false
    → lookup key (mark_seen (some key) now g).seen_keys ≡ some now
unfolding mark_seen
lookup-mark_seen key now g h =
    rw (h, lookup-put key key now (trim_keys now g.seen_keys), eq_refl key)

pub AreUnique-mark_seen :
    (key : Option String) (now : ℕ) (g : Guards)
    → AreUnique g.seen_keys
    → AreUnique (mark_seen key now g).seen_keys
unfolding mark_seen
AreUnique-mark_seen none now g u = u
AreUnique-mark_seen (some key) now g u = elim (Bool-cases (str_eq key "")) [
  | inl empty ↦ rw empty u
  | inr proper ↦
      rw proper
        (AreUnique-put key now (trim_keys now g.seen_keys) (AreUnique-trim_keys now g.seen_keys u))
]

has_seen-kept :
    (key : String) (other : Option String) (t later : ℕ) (g : Guards)
    → AreUnique g.seen_keys
    → lookup key g.seen_keys ≡ some t
    → later ≤ t + dedup_ttl
    → is_known (lookup key (mark_seen other later g).seen_keys) ≡ true
unfolding mark_seen
has_seen-kept key none t later g u h fresh = rw h
has_seen-kept key (some o) t later g u h fresh = ground (
  arith,
  lookup-put o key later (trim_keys later g.seen_keys),
  lookup-trim_keys_fresh later key g.seen_keys t u h fresh,
  h,
)

-- A key that was marked stays known through the next mark, of any key, and the trimming that goes
-- with it, if that is made within five minutes. The empty key is none, and no key stands twice.
pub has_seen-mark_seen :
    (key : String) (other : Option String) (now later : ℕ) (g : Guards)
    → str_eq key "" ≡ false
    → AreUnique g.seen_keys
    → later ≤ now + dedup_ttl
    → has_seen (some key) (mark_seen other later (mark_seen (some key) now g)) ≡ true
unfolding has_seen
has_seen-mark_seen key other now later g h u fresh = rw h (
    has_seen-kept key other now later (mark_seen (some key) now g)
      (AreUnique-mark_seen (some key) now g u) (lookup-mark_seen key now g h) fresh)
