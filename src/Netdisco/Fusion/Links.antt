-- ===== src/Netdisco/Fusion/Links.antt =====
-- server/netdisco/fusion.py: the links that `fuse` makes of the evidence.
use Prim.Native.String.{String}
use mathlib.Core.Path.{subst}
use mathlib.Core.List.{Memᴰ}
use mathlib.Core.List.Memᴰ
use srp.Netdisco.Fusion.{
  LinkEvidence, ResolvedLink, Group, Port, priority, same_pair, winner, sort_pair, group_in, ends,
  is_self, pairs_onto, link_of,
}
use srp.Netdisco.Fusion.Groups.{
  has_key, AreGathered, has_key-group_in, own_key-group_in, gathered_of_fewer, group_in-AreGathered,
}
use srp.Netdisco.Fusion.Winners.{
  same_pair_refl, same_pair_both, same_pair-sort_pair, winner-IsTop, IsEdge,
}
use srp.Prelude.{
  if◌then◌else◌, Bool-cases, tenths, ◌≤◌, ◌≡◌, refl, sym, ap, ◌∙◌, ◌⊎◌, inl, inr, true, Option,
  List, [], ◌∷◌,
}

module _ (normalize_mac : String → Option String) (chassis_nid : String → String) where
  kept_key :
      (es : List LinkEvidence) (groups : List (Group (String × String))) (x : String × String)
      → has_key same_pair (ends normalize_mac chassis_nid) groups x ≡ true
      → has_key same_pair
          (ends normalize_mac chassis_nid)
          (pairs_onto normalize_mac chassis_nid es groups)
          x
        ≡ true
  unfolding pairs_onto
  kept_key [] groups x h = h
  kept_key (e ∷ es) groups x h = elim (Bool-cases (is_self normalize_mac chassis_nid e)) [
    | inl self ↦ rw self (kept_key es groups x h)
    | inr edge ↦ rw edge (
        kept_key es _ x (
          has_key-group_in same_pair (ends normalize_mac chassis_nid)
            (ends normalize_mac chassis_nid e) e groups x h))
  ]

  first_key :
      (e : LinkEvidence) (es : List LinkEvidence) (groups : List (Group (String × String)))
      → IsEdge normalize_mac chassis_nid e
      → has_key same_pair
          (ends normalize_mac chassis_nid)
          (pairs_onto normalize_mac chassis_nid (e ∷ es) groups)
          (ends normalize_mac chassis_nid e)
        ≡ true
  unfolding pairs_onto
  first_key e es groups edge = rw edge (
      kept_key es _ (ends normalize_mac chassis_nid e) (
        own_key-group_in same_pair (ends normalize_mac chassis_nid)
          (ends normalize_mac chassis_nid e) e groups
          (same_pair_refl (ends normalize_mac chassis_nid e))))

  pub new_key :
      (es : List LinkEvidence) (groups : List (Group (String × String))) (d : LinkEvidence)
      → Memᴰ d es
      → IsEdge normalize_mac chassis_nid d
      → has_key same_pair
          (ends normalize_mac chassis_nid)
          (pairs_onto normalize_mac chassis_nid es groups)
          (ends normalize_mac chassis_nid d)
        ≡ true
  unfolding pairs_onto
  new_key [] groups d m edge = absurd (Memᴰ.not-nil m)
  new_key (e ∷ es) groups d m edge = elim (Memᴰ.cases_cons m) [
    | inl q ↦
        subst
          (λ z.
            has_key same_pair (ends normalize_mac chassis_nid)
              (pairs_onto normalize_mac chassis_nid (e ∷ es) groups)
              (ends normalize_mac chassis_nid z)
            ≡ true)
          (sym q) (first_key e es groups (sym (ap (is_self normalize_mac chassis_nid) q) ∙ edge))
    | inr n ↦ new_key es _ d n edge
  ]

  pub pairs_onto-AreGathered :
      {Seen : LinkEvidence → Type 0} (es : List LinkEvidence)
      (groups : List (Group (String × String)))
      → ((d : LinkEvidence)
          → Seen d
          → has_key same_pair
              (ends normalize_mac chassis_nid)
              groups
              (ends normalize_mac chassis_nid d)
            ≡ true)
      → AreGathered same_pair (ends normalize_mac chassis_nid) Seen groups
      → AreGathered same_pair
          (ends normalize_mac chassis_nid)
          (λ d. Seen d ⊎ (Memᴰ d es × IsEdge normalize_mac chassis_nid d))
          (pairs_onto normalize_mac chassis_nid es groups)
  unfolding pairs_onto
  pairs_onto-AreGathered [] groups known gathered =
      gathered_of_fewer same_pair (ends normalize_mac chassis_nid)
        (λ e c. elim c [ inl h ↦ h | inr h ↦ absurd (Memᴰ.not-nil h.0) ]) gathered
  pairs_onto-AreGathered {Seen} (e ∷ es) groups known gathered =
      elim (Bool-cases (is_self normalize_mac chassis_nid e)) [
        | inl self ↦ rw self (
            gathered_of_fewer same_pair (ends normalize_mac chassis_nid)
              (λ d c. elim c [
                | inl h ↦ inl h
                | inr (m, edge) ↦ elim (Memᴰ.cases_cons m) [
                  | inl q ↦ cc (self, sym (ap (is_self normalize_mac chassis_nid) q) ∙ edge)
                  | inr n ↦ inr (n, edge)
                ]
              ])
              (pairs_onto-AreGathered es groups known gathered))
        | inr edge ↦ rw edge (
            gathered_of_fewer same_pair (ends normalize_mac chassis_nid)
              (λ d c. elim c [
                | inl h ↦ inl (inl h)
                | inr (m, own) ↦ elim (Memᴰ.cases_cons m) [
                  | inl q ↦ inl (inr q)
                  | inr n ↦ inr (n, own)
                ]
              ])
              (pairs_onto-AreGathered {Seen = λ d. Seen d ⊎ (d ≡ e)} es
                (group_in same_pair (ends normalize_mac chassis_nid e) e groups)
                (λ d c. elim c [
                  | inl h ↦
                      has_key-group_in same_pair (ends normalize_mac chassis_nid)
                        (ends normalize_mac chassis_nid e) e groups
                        (ends normalize_mac chassis_nid d) (known d h)
                  | inr q ↦
                      subst
                        (λ z.
                          has_key same_pair (ends normalize_mac chassis_nid)
                            (group_in same_pair (ends normalize_mac chassis_nid e) e groups)
                            (ends normalize_mac chassis_nid z)
                          ≡ true)
                        (sym q)
                        (own_key-group_in same_pair (ends normalize_mac chassis_nid)
                          (ends normalize_mac chassis_nid e) e groups
                          (same_pair_refl (ends normalize_mac chassis_nid e)))
                ])
                (group_in-AreGathered same_pair (ends normalize_mac chassis_nid) same_pair_both e
                  groups (λ d h q. known d h) gathered)))
      ]

  -- The link of a pair of nodes is that of a piece of evidence for the two, and no evidence for them is
  -- of a higher priority. Its confidence is low where it is ambiguous.
  pub record IsResolved (evidence : List LinkEvidence) (l : ResolvedLink) : Type 0 where
    pub by : LinkEvidence
    pub is_given : Memᴰ by evidence
    pub is_edge : IsEdge normalize_mac chassis_nid by
    pub joins : same_pair (l.a, l.b) (ends normalize_mac chassis_nid by) ≡ true
    pub same_source : l.via_source ≡ by.source
    pub same_medium : l.medium ≡ by.medium
    pub sureness : l.confidence ≡ (if l.ambiguous then "low" else by.confidence)
    pub is_top :
        (e : LinkEvidence)
        → Memᴰ e evidence
        → IsEdge normalize_mac chassis_nid e
        → same_pair (l.a, l.b) (ends normalize_mac chassis_nid e) ≡ true
        → priority e.source ≤ priority l.via_source

  abbrev pub IsOwn : List LinkEvidence → LinkEvidence → Type 0
  IsOwn evidence e = Memᴰ e evidence × IsEdge normalize_mac chassis_nid e

  -- The link of one group.
  pub link_of-IsResolved :
      (evidence : List LinkEvidence) (conflicted : List Port) (pair : String × String)
      (first : LinkEvidence) (es : List LinkEvidence)
      → ((e : LinkEvidence)
          → Memᴰ e (first ∷ es)
          → IsOwn evidence e × (same_pair pair (ends normalize_mac chassis_nid e) ≡ true))
      → ((e : LinkEvidence)
          → IsOwn evidence e
          → same_pair pair (ends normalize_mac chassis_nid e) ≡ true
          → Memᴰ e (first ∷ es))
      → IsResolved evidence (
          link_of normalize_mac chassis_nid conflicted
            (winner first es)
            (first ∷ es)
            (sort_pair pair))
  link_of-IsResolved evidence conflicted pair first es keyed all =
      let (m, top) = winner-IsTop first es in
      let ((given, edge), joined) = keyed (winner first es) m in
      record {
        by = winner first es;
        is_given = given;
        is_edge = edge;
        joins =
            same_pair-sort_pair pair (ends normalize_mac chassis_nid (winner first es)) ∙ joined;
        same_source = refl;
        same_medium = refl;
        sureness = refl;
        is_top = λ e n own h. top e (
            all e (n, own) (sym (same_pair-sort_pair pair (ends normalize_mac chassis_nid e)) ∙ h));
      }
