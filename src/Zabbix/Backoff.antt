-- ===== src/Zabbix/Backoff.antt =====
-- How long a host that was rejected is held back.
use Prim.Native.String.{String}
use text.Mathlib.Text.{◌==◌ as str_eq}
use srp.Prelude.{
  ltb, if◌then◌else◌, Bool-cases, Option-cases, tenths, ℕ, ◌+◌, ◌≡◌, refl, sym, ◌∙◌, inl, inr, Bool,
  true, false, ◌||◌, Option, none, some, List, [], ◌∷◌, arith,
}
use srp.Texts.{
  Dict, lookup, put, keep_if, AreUnique, lookup-put, lookup-keep_if, lookup-keep_if-none,
  AreUnique-put, AreUnique-keep_if,
}
use srp.Zabbix.Status.{BackoffStore, keys, active, put_all, add}

abbrev pub is_one_of : String → List String → Bool
is_one_of h [] = false
is_one_of h (x ∷ xs) = str_eq x h || is_one_of h xs

abbrev pub is_held : Option ℕ → ℕ → Bool
is_held none now = false
is_held (some t) now = ltb now t

abbrev stands : Option ℕ → Bool
stands none = false
stands (some t) = true

lookup-put_all :
    (h : String) (hosts : List String) (deadline : ℕ) (d : Dict ℕ)
    → lookup h (put_all hosts deadline d)
      ≡ (if is_one_of h hosts then some deadline else lookup h d)
unfolding put_all
lookup-put_all h [] deadline d = refl
lookup-put_all h (x ∷ hosts) deadline d =
    ground (arith, lookup-put_all h hosts deadline (put x deadline d), lookup-put x h deadline d)

AreUnique-put_all :
    (hosts : List String) (deadline : ℕ) (d : Dict ℕ)
    → AreUnique d
    → AreUnique (put_all hosts deadline d)
unfolding put_all
AreUnique-put_all [] deadline d u = u
AreUnique-put_all (x ∷ hosts) deadline d u =
    AreUnique-put_all hosts deadline (put x deadline d) (AreUnique-put x deadline d u)

is_one_of-keys : (h : String) (d : Dict ℕ) → is_one_of h (keys d) ≡ stands (lookup h d)
unfolding lookup
is_one_of-keys h [] = refl
is_one_of-keys h ((k, t) ∷ d) = ground (arith, is_one_of-keys h d)

-- The hosts that are not sent to are those whose deadline is still ahead.
active_lem :
    (h : String) (now : ℕ) (b : BackoffStore)
    → AreUnique b.until
    → is_one_of h (active now b).0 ≡ is_held (lookup h b.until) now
unfolding active
active_lem h now b u =
    is_one_of-keys h (keep_if (ltb now) b.until) ∙ elim (Option-cases (lookup h b.until)) [
      | inl unknown ↦ rw (lookup-keep_if-none (ltb now) h b.until unknown, unknown)
      | inr (t, known) ↦ rw (lookup-keep_if (ltb now) h b.until u known, known) (ground arith)
    ]

-- A host that was rejected is held back from then on for the time of the store, and no longer; the
-- other hosts are held back as before. No host stands twice in the store, which the store keeps.
pub active-add :
    (h : String) (hosts : List String) (then' now : ℕ) (b : BackoffStore)
    → AreUnique b.until
    → (is_one_of h (active now (add hosts then' b)).0
        ≡ (if is_one_of h hosts then ltb now (then' + b.ttl) else is_one_of h (active now b).0))
      × AreUnique (add hosts then' b).until
      × AreUnique (active now b).1.until
unfolding add
active-add h hosts then' now b u = (
  active_lem h now (add hosts then' b) (AreUnique-put_all hosts (then' + b.ttl) b.until u) ∙ rest,
  AreUnique-put_all hosts (then' + b.ttl) b.until u,
  unfold active in AreUnique-keep_if (ltb now) b.until u,
)
  where
    rest :
        is_held (lookup h (put_all hosts (then' + b.ttl) b.until)) now
        ≡ (if is_one_of h hosts then ltb now (then' + b.ttl) else is_one_of h (active now b).0)
    rest = elim (Bool-cases (is_one_of h hosts)) [
      | inl held ↦ rw (lookup-put_all h hosts (then' + b.ttl) b.until, held)
      | inr other ↦
          rw (lookup-put_all h hosts (then' + b.ttl) b.until, other) (sym (active_lem h now b u))
    ]
