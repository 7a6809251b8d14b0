-- ===== src/Netdisco/Fusion/Fused.antt =====
-- server/netdisco/fusion.py: `fuse` gives each pair of nodes its link.
use Prim.Native.String.{String}
use mathlib.Core.List.{Memᴰ}
use mathlib.Core.List.Memᴰ
use mathlib.Core.Path.{subst}
use srp.Netdisco.Sorting.{Mem-sort, sort, sort_in}
use srp.Netdisco.Fusion.{
  group_in, first_vlan, LinkEvidence, ResolvedLink, Group, Port, same_pair, winner, sort_pair, ends,
  pairs_onto, link_of, links_of, conflicted_ports, link_leb, fuse,
}
use srp.Netdisco.Fusion.Groups.{
  AreKeyed, no_groups, one_group, has_key, AreGathered, none_gathered, one_gathered,
  gathered_of_fewer,
}
use srp.Netdisco.Fusion.Winners.{
  same_pair_refl, same_pair_both, same_pair-sort_pair, IsEdge, pairs_onto-AreKeyed,
}
use srp.Netdisco.Fusion.Links.{
  new_key, pairs_onto-AreGathered, IsResolved, IsOwn, link_of-IsResolved,
}
use srp.Prelude.{
  Bool-cases, tenths, ℕ, ◌≡◌, refl, sym, ◌∙◌, inl, inr, true, Option, some, List, [], ◌∷◌, arith,
}

module _ (normalize_mac : String → Option String) (chassis_nid : String → String) where
  links_of-IsResolved :
      (evidence : List LinkEvidence) (conflicted : List Port)
      (groups : List (Group (String × String)))
      → AreKeyed same_pair
          (ends normalize_mac chassis_nid)
          (IsOwn normalize_mac chassis_nid evidence)
          groups
      → AreGathered same_pair
          (ends normalize_mac chassis_nid)
          (IsOwn normalize_mac chassis_nid evidence)
          groups
      → (l : ResolvedLink) → Memᴰ l (links_of normalize_mac chassis_nid conflicted groups)
      → IsResolved normalize_mac chassis_nid evidence l
  unfolding links_of
  links_of-IsResolved evidence conflicted [] keyed gathered l m = absurd (Memᴰ.not-nil m)
  links_of-IsResolved evidence conflicted ((pair, first, es) ∷ groups) (one_group keys keyed)
        (one_gathered all apart gathered) l m =
      elim (Memᴰ.cases_cons m) [
        | inl q ↦ subst (IsResolved normalize_mac chassis_nid evidence) (sym q) (
            link_of-IsResolved normalize_mac chassis_nid evidence conflicted pair first es keys all)
        | inr n ↦ links_of-IsResolved evidence conflicted groups keyed gathered l n
      ]

  links_of-has_key :
      (conflicted : List Port) (groups : List (Group (String × String))) (x : String × String)
      → has_key same_pair (ends normalize_mac chassis_nid) groups x ≡ true
      → (l : ResolvedLink) × Memᴰ l (links_of normalize_mac chassis_nid conflicted groups)
        × (same_pair (l.a, l.b) x ≡ true)
  unfolding links_of has_key
  links_of-has_key conflicted [] x h = cc h
  links_of-has_key conflicted ((pair, first, es) ∷ groups) x h =
      elim (Bool-cases (same_pair pair x)) [
        | inl hit ↦ (
          link_of normalize_mac chassis_nid conflicted (winner first es) (first ∷ es)
              (sort_pair pair),
          Memᴰ.head refl,
          same_pair-sort_pair pair x ∙ hit,
        )
        | inr miss ↦
            let (l, m, joined) = links_of-has_key conflicted groups x (ground (arith, h, miss)) in
            (l, Memᴰ.tail m, joined)
      ]

  -- Each link of the result is that of the evidence for its pair of nodes that is of the highest priority,
  -- with the medium of it and, unless the link is ambiguous, its confidence.
  pub fuse-IsResolved :
      (evidence : List LinkEvidence) (l : ResolvedLink)
      → Memᴰ l (fuse normalize_mac chassis_nid evidence)
      → IsResolved normalize_mac chassis_nid evidence l
  unfolding fuse
  fuse-IsResolved evidence l m =
      let groups = pairs_onto normalize_mac chassis_nid evidence [] in
      let conflicted = conflicted_ports normalize_mac chassis_nid evidence in
      let keyed =
        pairs_onto-AreKeyed normalize_mac chassis_nid
          {Valid = IsOwn normalize_mac chassis_nid evidence} evidence [] (λ e n edge. (n, edge))
          no_groups in
      let gathered =
        gathered_of_fewer same_pair (ends normalize_mac chassis_nid)
          {Fewer = IsOwn normalize_mac chassis_nid evidence} (λ e h. inr h)
          (pairs_onto-AreGathered normalize_mac chassis_nid {Seen = λ d. ⊥} evidence []
            (λ d h. absurd h) none_gathered) in
      links_of-IsResolved evidence conflicted groups keyed gathered l
        ((Mem-sort link_leb l (links_of normalize_mac chassis_nid conflicted groups)).0 m)

  -- A piece of evidence for two different nodes has a link of the two in the result.
  pub fuse_joins :
      (evidence : List LinkEvidence) (e : LinkEvidence)
      → Memᴰ e evidence
      → IsEdge normalize_mac chassis_nid e
      → (l : ResolvedLink) × Memᴰ l (fuse normalize_mac chassis_nid evidence)
        × (same_pair (l.a, l.b) (ends normalize_mac chassis_nid e) ≡ true)
  unfolding fuse
  fuse_joins evidence e m edge =
      let groups = pairs_onto normalize_mac chassis_nid evidence [] in
      let conflicted = conflicted_ports normalize_mac chassis_nid evidence in
      let (l, n, joined) =
        links_of-has_key conflicted groups (ends normalize_mac chassis_nid e)
          (new_key normalize_mac chassis_nid evidence [] e m edge) in
      (l, (Mem-sort link_leb l (links_of normalize_mac chassis_nid conflicted groups)).1 n, joined)

  -- Two pieces of evidence for the same two nodes give one link, with the VLAN of the first.
  fuse_two :
      (e d : LinkEvidence) (v : ℕ)
      → IsEdge normalize_mac chassis_nid e
      → IsEdge normalize_mac chassis_nid d
      → same_pair (ends normalize_mac chassis_nid e) (ends normalize_mac chassis_nid d) ≡ true
      → e.vlan ≡ some v
      → (l : ResolvedLink) × (fuse normalize_mac chassis_nid (e ∷ d ∷ []) ≡ l ∷ [])
        × (l.vlan ≡ some v)
  unfolding fuse pairs_onto group_in links_of sort sort_in first_vlan
  fuse_two e d v edge other both vlan = rw (edge, other, both) (_, refl, rw vlan refl)

  -- The order of the evidence counts: two pieces of evidence for the same two different nodes, with a VLAN
  -- each, give one link, which has the VLAN of the piece that comes first.
  pub fuse_reordered :
      (e d : LinkEvidence) (v u : ℕ)
      → IsEdge normalize_mac chassis_nid e
      → IsEdge normalize_mac chassis_nid d
      → same_pair (ends normalize_mac chassis_nid e) (ends normalize_mac chassis_nid d) ≡ true
      → e.vlan ≡ some v
      → d.vlan ≡ some u
      → ((l : ResolvedLink) × (fuse normalize_mac chassis_nid (e ∷ d ∷ []) ≡ l ∷ [])
          × (l.vlan ≡ some v))
        × ((l : ResolvedLink) × (fuse normalize_mac chassis_nid (d ∷ e ∷ []) ≡ l ∷ [])
            × (l.vlan ≡ some u))
  fuse_reordered e d v u edge other both first second = (
    fuse_two e d v edge other both first,
    fuse_two d e u other edge
        (same_pair_both (ends normalize_mac chassis_nid d) (ends normalize_mac chassis_nid e)
          (ends normalize_mac chassis_nid d) (same_pair_refl (ends normalize_mac chassis_nid d))
          both)
        second,
  )
