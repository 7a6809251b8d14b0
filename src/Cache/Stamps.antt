-- ===== src/Cache/Stamps.antt =====
-- What the readers can rely on: a stamp names one graph, and an invalidation is not lost.
use mathlib.Core.Path.{subst}
use srp.Prelude.{
  if◌then◌else◌, tenths, ℕ, ◌≤◌, ◌<◌, ◌≡◌, refl, sym, ◌∙◌, ◌≢◌, ◌⊎◌, inl, inr, Bool, true, false,
  not, ◌&&◌, Option, none, some, arith,
}
use srp.Cache.{
  GraphCache, fresh, look, within_ttl, stale_or_build, acquire, begin_load, publish, fail, release,
  invalidate, IsLater, Step, invalidates, acquires, reuses, begins, publishes, fails, releases,
  Steps, none_yet, then_one,
}

IsLater-trans : (t u : ℕ) (o : Option ℕ) → t < u → IsLater t o → IsLater u o
IsLater-trans t u none h later = tt
IsLater-trans t u (some s) h later = omega (arith, h, later)

module _ {G : Type 0} (ttl : ℕ) where
  -- The cached pair is the same, or it has a later stamp.
  abbrev Moves : GraphCache G → GraphCache G → Type 0
  Moves c d =
      ((d.value ≡ c.value) × (d.loaded_at ≡ c.loaded_at))
      ⊎ ((t : ℕ) × (d.loaded_at ≡ some t) × IsLater t c.loaded_at)

  Step-Moves : (c d : GraphCache G) → Step ttl c d → Moves c d
  unfolding acquire begin_load publish fail release invalidate
  Step-Moves c d invalidates = inl (refl, refl)
  Step-Moves c d (acquires k free) = inl (refl, refl)
  Step-Moves c d (reuses held known) = inl (refl, refl)
  Step-Moves c d (begins k held missing) = inl (refl, refl)
  Step-Moves c d (publishes k v now loads later) = inr (now, refl, later)
  Step-Moves c d (fails k loads) = inl (refl, refl)
  Step-Moves c d (releases k over) = inl (refl, refl)

  Moves-trans : (c d e : GraphCache G) → Moves c d → Moves d e → Moves c e
  Moves-trans c d e (inl (v, s)) (inl (v', s')) = inl (v' ∙ v, s' ∙ s)
  Moves-trans c d e (inr (t, s, later)) (inl (v', s')) = inr (t, s' ∙ s, later)
  Moves-trans c d e (inl (v, s)) (inr (u, s', later)) = inr (u, s', subst (IsLater u) s later)
  Moves-trans c d e (inr (t, s, later)) (inr (u, s', later')) =
      inr (u, s', IsLater-trans t u c.loaded_at (subst (IsLater u) s later') later)

  Steps-Moves : (c d : GraphCache G) → Steps ttl c d → Moves c d
  Steps-Moves c d none_yet = inl (refl, refl)
  Steps-Moves c e (then_one {d} steps step) =
      Moves-trans c d e (Steps-Moves c d steps) (Step-Moves d e step)

  -- Whatever the threads do between two reads: if both give the same stamp, the number itself and not a
  -- rounded one, they give the same graph. The clock moves on between publications.
  pub stamp-identifies :
      (c d : GraphCache G) {t : ℕ}
      → Steps ttl c d
      → c.loaded_at ≡ some t
      → d.loaded_at ≡ some t
      → d.value ≡ c.value
  stamp-identifies c d {t} steps before after = elim (Steps-Moves c d steps) [
    | inl (same, _) ↦ same
    | inr (u, s, later) ↦
        let t<u : t < u = subst (IsLater u) before later in
        let both : some u ≡ some t = sym s ∙ after in
        let eq : u ≡ t = cc both in absurd (omega (arith, t<u, eq))
  ]

  -- The flag is up, or a load has begun since.
  abbrev Remembers : ℕ → GraphCache G → Type 0
  Remembers n d = (n ≤ d.loads) × ((d.forced_stale ≡ true) ⊎ (n < d.loads))

  Step-Remembers : (n : ℕ) (c d : GraphCache G) → Step ttl c d → Remembers n c → Remembers n d
  unfolding acquire begin_load publish fail release invalidate
  Step-Remembers n c d invalidates h = (h.0, inl refl)
  Step-Remembers n c d (acquires k free) h = h
  Step-Remembers n c d (reuses held known) h = h
  Step-Remembers n c d (begins k held missing) h = (omega (arith, h.0), inr (omega (arith, h.0)))
  Step-Remembers n c d (publishes k v now loads later) h = h
  Step-Remembers n c d (fails k loads) h = h
  Step-Remembers n c d (releases k over) h = h

  Steps-Remembers : (n : ℕ) (c d : GraphCache G) → Steps ttl c d → Remembers n c → Remembers n d
  Steps-Remembers n c d none_yet h = h
  Steps-Remembers n c e (then_one {d} steps step) h =
      Step-Remembers n d e step (Steps-Remembers n c d steps h)

  not-fresh :
      (w : Bool) (o : Option G) (s : Option ℕ) (p : Option G × Option ℕ) {a : Option G × Option ℕ}
      → (if w && not true then fresh p else stale_or_build o s) ≢ fresh a
  not-fresh true none s p h = cc h
  not-fresh true (some v) s p h = cc h
  not-fresh false none s p h = cc h
  not-fresh false (some v) s p h = cc h

  -- After an invalidation, also one that comes while a load runs, no read is answered as fresh before
  -- a load has begun that is later than it.
  pub invalidate-holds :
      (c d : GraphCache G) (now : ℕ) {a : Option G × Option ℕ}
      → Steps ttl (invalidate c) d
      → look ttl now d ≡ fresh a
      → c.loads < d.loads
  unfolding invalidate look
  invalidate-holds c d now {a} steps seen =
      elim (Steps-Remembers c.loads (invalidate c) d steps (omega arith, inl refl)).1 [
        | inr begun ↦ begun
        | inl flag ↦ absurd (
            not-fresh (within_ttl ttl now d.loaded_at) d.value d.loaded_at (d.value, d.loaded_at)
              (subst
                (λ b.
                  (if within_ttl ttl now d.loaded_at && not b
                    then fresh (d.value, d.loaded_at)
                    else stale_or_build d.value d.loaded_at)
                  ≡ fresh a)
                flag seen))
      ]
