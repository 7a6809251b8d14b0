-- ===== src/Netdisco/Fusion/Examples.antt =====
-- server/netdisco/fusion.py: a switch port that the neighbour protocol and the forwarding table describe.
use Prim.Native.String.{String}
use mathlib.Core.Path.{subst}
use mathlib.Core.List.{Memᴰ}
use srp.Netdisco.Sets.{contains, insert}
use srp.Netdisco.Sorting.{sort, sort_in}
use srp.Netdisco.Fusion.{
  LinkEvidence, ResolvedLink, priority, link_kind_of, same_pair, group_in, top_priority, is_weaker,
  winner, latest, first_vlan, has_port, sort_pair, node_id, ends, ports_onto, remotes, conflicts,
  conflicted_ports, pairs_onto, is_ambiguous, links_of, fuse,
}
use srp.Netdisco.Fusion.Links.{IsResolved}
use srp.Netdisco.Fusion.Fused.{fuse-IsResolved, fuse_joins, fuse_reordered}
use srp.Prelude.{tenths, ◌≡◌, refl, sym, true, false, Option, none, some, [], ◌∷◌}

abbrev no_mac : String → Option String
no_mac hint = none

abbrev chassis_nid : String → String
chassis_nid hint = "nd-unknown"

abbrev by_lldp : LinkEvidence
by_lldp = record {
  a = "nd-switch";
  b = "nd-pc";
  source = "lldp";
  confidence = "high";
  local_if = some 3;
  observed_at = some "2026-01-01";
  a_port = some "Gi0/3";
  b_port = some "eth0";
  medium = some "wired";
  vlan = some 7;
  port_space = "lldp";
}

abbrev by_table : LinkEvidence
by_table = record {
  a = "nd-switch";
  b = "nd-pc";
  source = "fdb_edge";
  confidence = "medium";
  local_if = some 103;
  observed_at = some "2026-01-02";
  a_port = none;
  b_port = none;
  medium = none;
  vlan = some 20;
  port_space = "ifindex";
}

abbrev link : ResolvedLink
link = record {
  a = "nd-pc";
  b = "nd-switch";
  via_source = "lldp";
  confidence = "high";
  link_kind = "l2-edge";
  ambiguous = false;
  observed_at = some "2026-01-02";
  medium = some "wired";
  vlan = some 20;
  a_port = some "eth0";
  b_port = some "Gi0/3";
  a_if = none;
  b_if = none;
}

fuse_test : fuse no_mac chassis_nid (by_table ∷ by_lldp ∷ []) ≡ link ∷ []
unfolding fuse priority link_kind_of group_in top_priority is_weaker winner latest first_vlan
    has_port sort_pair node_id ports_onto remotes conflicts conflicted_ports pairs_onto is_ambiguous
    links_of sort sort_in insert contains
fuse_test = refl

fuse-IsResolved_example : IsResolved no_mac chassis_nid (by_table ∷ by_lldp ∷ []) link
fuse-IsResolved_example =
    fuse-IsResolved no_mac chassis_nid (by_table ∷ by_lldp ∷ []) link
      (subst (Memᴰ link) (sym fuse_test) (Memᴰ.head refl))

fuse_joins_example :
    (l : ResolvedLink) × Memᴰ l (fuse no_mac chassis_nid (by_table ∷ by_lldp ∷ []))
    × (same_pair (l.a, l.b) (ends no_mac chassis_nid by_lldp) ≡ true)
unfolding node_id
fuse_joins_example =
    fuse_joins no_mac chassis_nid (by_table ∷ by_lldp ∷ []) by_lldp (Memᴰ.tail (Memᴰ.head refl))
      refl

fuse_reordered_example :
    ((l : ResolvedLink) × (fuse no_mac chassis_nid (by_lldp ∷ by_table ∷ []) ≡ l ∷ [])
      × (l.vlan ≡ some 7))
    × ((l : ResolvedLink) × (fuse no_mac chassis_nid (by_table ∷ by_lldp ∷ []) ≡ l ∷ [])
        × (l.vlan ≡ some 20))
unfolding node_id
fuse_reordered_example =
    fuse_reordered no_mac chassis_nid by_lldp by_table 7 20 refl refl refl refl refl
