-- ===== src/Netdisco/Fusion/Groups.antt =====
-- server/netdisco/fusion.py: which evidence stands in which group.
use mathlib.Core.Path.{subst}
use mathlib.Core.List.{Memᴰ}
use mathlib.Core.List.Memᴰ
use srp.Netdisco.Fusion.{LinkEvidence, Group, group_in}
use srp.Prelude.{
  Bool-cases, tenths, ◌≡◌, refl, sym, ap, ◌∙◌, ◌⊎◌, inl, inr, Bool, true, false, ◌||◌, List, [],
  ◌∷◌, ◌++◌, arith,
}

first_of_neither : (p q : Bool) → (p || q) ≡ false → p ≡ false
first_of_neither p q h = ground arith

module _ {K : Type 0} (same : K → K → Bool) (key_of : LinkEvidence → K) where
  -- Each key is the key of its evidence.
  pub data AreKeyed (Valid : LinkEvidence → Type 0) : List (Group K) → Type 0 where
    no_groups : AreKeyed Valid []
    one_group :
        {k : K} {first : LinkEvidence} {rest : List LinkEvidence} {groups : List (Group K)}
        → ((e : LinkEvidence) → Memᴰ e (first ∷ rest) → Valid e × (same k (key_of e) ≡ true))
        → AreKeyed Valid groups
        → AreKeyed Valid ((k, first, rest) ∷ groups)

  -- A group has that key.
  unfoldable pub has_key : List (Group K) → K → Bool
  has_key [] x = false
  has_key ((k, first, rest) ∷ groups) x = same k x || has_key groups x

  -- Each group has all the evidence of its key that was seen, and no two groups share a key.
  pub data AreGathered (Seen : LinkEvidence → Type 0) : List (Group K) → Type 0 where
    none_gathered : AreGathered Seen []
    one_gathered :
        {k : K} {first : LinkEvidence} {rest : List LinkEvidence} {groups : List (Group K)}
        → ((e : LinkEvidence) → Seen e → same k (key_of e) ≡ true → Memᴰ e (first ∷ rest))
        → ((x : K) → same k x ≡ true → has_key groups x ≡ false)
        → AreGathered Seen groups
        → AreGathered Seen ((k, first, rest) ∷ groups)

  grown :
      {Valid : LinkEvidence → Type 0} (e : LinkEvidence) {j : K} {first : LinkEvidence}
      {rest : List LinkEvidence}
      → Valid e
      → same j (key_of e) ≡ true
      → ((d : LinkEvidence) → Memᴰ d (first ∷ rest) → Valid d × (same j (key_of d) ≡ true))
      → (d : LinkEvidence) → Memᴰ d (first ∷ (rest ++ e ∷ []))
      → Valid d × (same j (key_of d) ≡ true)
  grown {Valid} e {j} {first} {rest} valid hit all d m = elim (Memᴰ.append_cases (first ∷ rest) m) [
    | inl old ↦ all d old
    | inr new ↦ elim (Memᴰ.cases_cons new) [
      | inl q ↦ subst (λ z. Valid z × (same j (key_of z) ≡ true)) (sym q) (valid, hit)
      | inr n ↦ absurd (Memᴰ.not-nil n)
    ]
  ]

  pub has_key-group_in :
      (k : K) (e : LinkEvidence) (groups : List (Group K)) (x : K)
      → has_key groups x ≡ true
      → has_key (group_in same k e groups) x ≡ true
  unfolding has_key group_in
  has_key-group_in k e [] x h = cc h
  has_key-group_in k e ((j, first, rest) ∷ groups) x h = elim (Bool-cases (same j k)) [
    | inl hit ↦ rw hit h
    | inr miss ↦ rw miss ground (arith, h, has_key-group_in k e groups x)
  ]

  no_key-group_in :
      (k : K) (e : LinkEvidence) (groups : List (Group K)) (x : K)
      → has_key groups x ≡ false
      → same k x ≡ false
      → has_key (group_in same k e groups) x ≡ false
  unfolding has_key group_in
  no_key-group_in k e [] x h other = rw other refl
  no_key-group_in k e ((j, first, rest) ∷ groups) x h other = elim (Bool-cases (same j k)) [
    | inl hit ↦ rw hit h
    | inr miss ↦ rw miss ground (arith, h, no_key-group_in k e groups x)
  ]

  pub own_key-group_in :
      (k : K) (e : LinkEvidence) (groups : List (Group K))
      → same k k ≡ true
      → has_key (group_in same k e groups) k ≡ true
  unfolding has_key group_in
  own_key-group_in k e [] own = rw own refl
  own_key-group_in k e ((j, first, rest) ∷ groups) own = elim (Bool-cases (same j k)) [
    | inl hit ↦ rw hit ground (arith, hit)
    | inr miss ↦ rw miss ground (arith, own_key-group_in k e groups own)
  ]

  -- Nothing is lost when less was seen.
  pub gathered_of_fewer :
      {Seen Fewer : LinkEvidence → Type 0} {groups : List (Group K)}
      → ((e : LinkEvidence) → Fewer e → Seen e)
      → AreGathered Seen groups
      → AreGathered Fewer groups
  gathered_of_fewer fewer none_gathered = none_gathered
  gathered_of_fewer fewer (one_gathered all apart gathered) =
      one_gathered (λ e h q. all e (fewer e h) q) apart (gathered_of_fewer fewer gathered)

  gathered_still :
      {Seen : LinkEvidence → Type 0} {groups : List (Group K)} (e : LinkEvidence)
      → AreGathered Seen groups
      → has_key groups (key_of e) ≡ false
      → AreGathered (λ d. Seen d ⊎ (d ≡ e)) groups
  unfolding has_key
  gathered_still e none_gathered h = none_gathered
  gathered_still e (one_gathered {k} {first} {rest} {groups} all apart gathered) h =
      one_gathered
        (λ d seen q. elim seen [
          | inl old ↦ all d old q
          | inr q' ↦ cc (
            first_of_neither (same k (key_of e)) (has_key groups (key_of e)) h,
            sym (ap (λ z. same k (key_of z)) q') ∙ q,
          )
        ])
        apart (gathered_still e gathered (ground (arith, h)))

  pub group_in-AreKeyed :
      {Valid : LinkEvidence → Type 0} (same_refl : (k : K) → same k k ≡ true) (e : LinkEvidence)
      (groups : List (Group K))
      → Valid e
      → AreKeyed Valid groups
      → AreKeyed Valid (group_in same (key_of e) e groups)
  unfolding group_in
  group_in-AreKeyed {Valid} same_refl e [] valid keyed =
      one_group
        (λ d m. elim (Memᴰ.cases_cons m) [
          | inl q ↦
              subst (λ z. Valid z × (same (key_of e) (key_of z) ≡ true)) (sym q)
                (valid, same_refl (key_of e))
          | inr n ↦ absurd (Memᴰ.not-nil n)
        ])
        no_groups
  group_in-AreKeyed same_refl e ((j, first, rest) ∷ groups) valid (one_group all keyed) =
      elim (Bool-cases (same j (key_of e))) [
        | inl hit ↦ rw hit (one_group (grown e valid hit all) keyed)
        | inr miss ↦ rw miss (one_group all (group_in-AreKeyed same_refl e groups valid keyed))
      ]

  -- What a further piece of evidence leaves gathered.
  pub group_in-AreGathered :
      {Seen : LinkEvidence → Type 0}
      (same_both : (j k x : K) → same j x ≡ true → same k x ≡ true → same j k ≡ true)
      (e : LinkEvidence) (groups : List (Group K))
      → ((d : LinkEvidence)
          → Seen d
          → same (key_of e) (key_of d) ≡ true
          → has_key groups (key_of d) ≡ true)
      → AreGathered Seen groups
      → AreGathered (λ d. Seen d ⊎ (d ≡ e)) (group_in same (key_of e) e groups)
  unfolding group_in has_key
  group_in-AreGathered same_both e [] known gathered =
      one_gathered (λ d seen q. elim seen [ inl h ↦ cc (known d h q) | inr q' ↦ Memᴰ.head q' ])
        (λ x q. refl) none_gathered
  group_in-AreGathered same_both e ((j, first, rest) ∷ groups) known
        (one_gathered all apart gathered) =
      elim (Bool-cases (same j (key_of e))) [
        | inl hit ↦ rw hit (
            one_gathered
              (λ d seen q. elim seen [
                | inl h ↦ Memᴰ.append_left (e ∷ []) (all d h q)
                | inr q' ↦ Memᴰ.append_right (first ∷ rest) (Memᴰ.head q')
              ])
              apart (gathered_still e gathered (apart (key_of e) hit)))
        | inr miss ↦ rw miss (
            one_gathered
              (λ d seen q. elim seen [
                | inl h ↦ all d h q
                | inr q' ↦ cc (miss, sym (ap (λ z. same j (key_of z)) q') ∙ q)
              ])
              (λ x q.
                no_key-group_in (key_of e) e groups x (apart x q)
                  (ground (arith, q, miss, same_both j (key_of e) x)))
              (group_in-AreGathered same_both e groups
                (λ d h q. ground (arith, known d h q, q, miss, same_both j (key_of e) (key_of d)))
                gathered))
      ]
