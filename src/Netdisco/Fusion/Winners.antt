-- ===== src/Netdisco/Fusion/Winners.antt =====
-- server/netdisco/fusion.py: the evidence that wins is the strongest of its pair.
use Prim.Native.Nat.{Ordering}
use Prim.Native.String.{String, compare as text_compare}
use text.Mathlib.TextEquality.{eq_iff}
use mathlib.Core.List.{Memᴰ}
use mathlib.Core.List.Memᴰ
use srp.Netdisco.Fusion.{
  LinkEvidence, Group, priority, same_pair, is_weaker, winner, sort_pair, group_in, ends, is_self,
  pairs_onto,
}
use srp.Netdisco.Fusion.Groups.{AreKeyed, group_in-AreKeyed}
use srp.Prelude.{
  ltb, ◌==◌, if◌then◌else◌, ltb→lt, ltb-false→le, ==_iff, Bool-cases, tenths, ℕ, ◌≤◌, ◌≡◌, refl, ap,
  inl, inr, Bool, true, false, not, Option, List, [], ◌∷◌, arith,
}

pub same_pair_refl : (k : String × String) → same_pair k k ≡ true
same_pair_refl (a, b) = ground (arith, eq_iff a a, eq_iff b b)

pub same_pair_both :
    (j k x : String × String) → same_pair j x ≡ true → same_pair k x ≡ true → same_pair j k ≡ true
same_pair_both (a, b) (c, d) (x, y) p q = ground (
  arith,
  p,
  q,
  eq_iff a x,
  eq_iff b y,
  eq_iff a y,
  eq_iff b x,
  eq_iff c x,
  eq_iff d y,
  eq_iff c y,
  eq_iff d x,
  eq_iff a c,
  eq_iff b d,
  eq_iff a d,
  eq_iff b c,
)

pub same_pair-sort_pair : (k x : String × String) → same_pair (sort_pair k) x ≡ same_pair k x
unfolding sort_pair
same_pair-sort_pair (a, b) (x, y) = pair_either (text_compare a b)
  where
    pair_either :
        (o : Ordering)
        → same_pair (elim o [ Ordering.gt ↦ (b, a) | _ ↦ (a, b) ]) (x, y) ≡ same_pair (a, b) (x, y)
    pair_either Ordering.lt = refl
    pair_either Ordering.eq = refl
    pair_either Ordering.gt = ground arith

lexicographic :
    (p q : ℕ) (later : Bool)
    → (((if not (p == q) then ltb p q else later) ≡ true) → p ≤ q)
      × (((if not (p == q) then ltb p q else later) ≡ false) → q ≤ p)
lexicographic p q later = elim (Bool-cases (p == q)) [
  | inl same ↦ rw same (λ h. ground (arith, ==_iff p q), λ h. ground (arith, ==_iff p q))
  | inr other ↦ rw other (λ h. ground (arith, ltb→lt p q), λ h. ltb-false→le p q h)
]

-- What weighs less is of no higher priority, and what does not weigh less is of no lower one.
is_weaker-priority :
    (w e : LinkEvidence)
    → ((is_weaker w e ≡ true) → priority w.source ≤ priority e.source)
      × ((is_weaker w e ≡ false) → priority e.source ≤ priority w.source)
unfolding is_weaker
is_weaker-priority w e = lexicographic (priority w.source) (priority e.source) _

-- It is of the evidence, and nothing there is of a higher priority.
abbrev pub IsTop : List LinkEvidence → LinkEvidence → Type 0
IsTop evs v = Memᴰ v evs × ((e : LinkEvidence) → Memᴰ e evs → priority e.source ≤ priority v.source)

priority_of_same : (e d : LinkEvidence) → e ≡ d → priority e.source ≤ priority d.source
priority_of_same e d q = ground (arith, ap (λ (z : LinkEvidence). priority z.source) q)

IsTop-step :
    (stronger : Bool) (w x : LinkEvidence) (es : List LinkEvidence) (v : LinkEvidence)
    → ((stronger ≡ true) → priority w.source ≤ priority x.source)
      × ((stronger ≡ false) → priority x.source ≤ priority w.source)
    → IsTop ((if stronger then x else w) ∷ es) v
    → IsTop (w ∷ x ∷ es) v
IsTop-step true w x es v (up, down) (m, top) = (
  Memᴰ.tail m,
  λ e n. elim (Memᴰ.cases_cons n) [
    | inl q ↦ ground (arith, priority_of_same e w q, up refl, top x (Memᴰ.head refl))
    | inr k ↦ top e k
  ],
)
IsTop-step false w x es v (up, down) (m, top) = (
  elim (Memᴰ.cases_cons m) [ inl q ↦ Memᴰ.head q | inr k ↦ Memᴰ.tail (Memᴰ.tail k) ],
  λ e n. elim (Memᴰ.cases_cons n) [
    | inl q ↦ top e (Memᴰ.head q)
    | inr k ↦ elim (Memᴰ.cases_cons k) [
      | inl q ↦ ground (arith, priority_of_same e x q, down refl, top w (Memᴰ.head refl))
      | inr j ↦ top e (Memᴰ.tail j)
    ]
  ],
)

pub winner-IsTop : (w : LinkEvidence) (es : List LinkEvidence) → IsTop (w ∷ es) (winner w es)
unfolding winner
winner-IsTop w [] = (
  Memᴰ.head refl,
  λ e m. elim (Memᴰ.cases_cons m) [
    | inl q ↦ priority_of_same e w q
    | inr n ↦ absurd (Memᴰ.not-nil n)
  ],
)
winner-IsTop w (x ∷ es) =
    IsTop-step (is_weaker w x) w x es (winner (if is_weaker w x then x else w) es)
      (is_weaker-priority w x) (winner-IsTop (if is_weaker w x then x else w) es)

module _ (normalize_mac : String → Option String) (chassis_nid : String → String) where
  -- It is evidence for two different nodes.
  abbrev pub IsEdge : LinkEvidence → Type 0
  IsEdge e = is_self normalize_mac chassis_nid e ≡ false

  add_pair :
      {Valid : LinkEvidence → Type 0} (e : LinkEvidence) (groups : List (Group (String × String)))
      → (IsEdge e → Valid e)
      → AreKeyed same_pair (ends normalize_mac chassis_nid) Valid groups
      → AreKeyed same_pair (ends normalize_mac chassis_nid) Valid (
          if is_self normalize_mac chassis_nid e
          then groups
          else group_in same_pair (ends normalize_mac chassis_nid e) e groups)
  add_pair {Valid} e groups valid keyed = elim (Bool-cases (is_self normalize_mac chassis_nid e)) [
    | inl self ↦ rw self keyed
    | inr edge ↦ rw edge (
        group_in-AreKeyed same_pair (ends normalize_mac chassis_nid) same_pair_refl e groups
          (valid edge) keyed)
  ]

  pub pairs_onto-AreKeyed :
      {Valid : LinkEvidence → Type 0} (es : List LinkEvidence)
      (groups : List (Group (String × String)))
      → ((e : LinkEvidence) → Memᴰ e es → IsEdge e → Valid e)
      → AreKeyed same_pair (ends normalize_mac chassis_nid) Valid groups
      → AreKeyed same_pair
          (ends normalize_mac chassis_nid)
          Valid
          (pairs_onto normalize_mac chassis_nid es groups)
  unfolding pairs_onto
  pairs_onto-AreKeyed [] groups valid keyed = keyed
  pairs_onto-AreKeyed (e ∷ es) groups valid keyed =
      pairs_onto-AreKeyed es _ (λ d m. valid d (Memᴰ.tail m))
        (add_pair e groups (valid e (Memᴰ.head refl)) keyed)
