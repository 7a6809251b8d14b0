-- ===== src/Netdisco/Examples.antt =====
-- server/netdisco/: runs on a small map. The gateway leads to a switch, the switch to an access point
-- and that to a computer; a camera has no link. The switch, the access point and the camera are down.
use Prim.Native.String.{String}
use mathlib.Core.Path.{subst}
use srp.Texts.{Dict, lookup, put}
use srp.Netdisco.Sets.{contains, insert, to_set, meets}
use srp.Netdisco.Graph.{
  Graph, Device, Link, path_of, touch, join, register, connect, add_device, add_link, add_devices,
  add_links, build_graph, neighbors, is_known, enter, offer_all, offer_roots, search_up, all_nodes,
  reachable_from, sort_in, sorted, keys, trace, follow, climb, path_to_root, causes_among,
  find_root_cause,
}
use srp.Netdisco.Graph.Build.{Joins, build_graph-Joins, IsUndirected, build_graph-IsUndirected}
use srp.Netdisco.Graph.Reach.{Reach, reachable_from-Reach}
use srp.Netdisco.Graph.Trace.{Walk}
use srp.Netdisco.Graph.Paths.{IsAnswer, path_to_root-IsAnswer}
use srp.Netdisco.Correlation.{
  Verdict, down, unreachable, first_in, upstream_cause, classify, classify_all, correlate,
}
use srp.Netdisco.Correlation.Causes.{IsTopmost, find_root_cause-IsTopmost}
use srp.Netdisco.Correlation.Verdicts.{IsRight, correlate-IsRight}
use srp.Netdisco.Correlation.Upstream.{correlate_stranded}
use srp.Prelude.{tenths, ◌≡◌, refl, ◌↔◌, true, false, none, some, List, [], ◌∷◌}

abbrev devices : List Device
devices =
    (record { device_nid = some "gateway" })
    ∷ (record { device_nid = some "switch" })
    ∷ (record { device_nid = some "camera" })
    ∷ (record { device_nid = none })
    ∷ []

abbrev links : List Link
links =
    (record { a_nid = some "gateway"; b_nid = some "switch" })
    ∷ (record { a_nid = some "ap"; b_nid = some "switch" })
    ∷ (record { a_nid = some "ap"; b_nid = some "ap" })
    ∷ (record { a_nid = some "pc"; b_nid = some "ap" })
    ∷ (record { a_nid = none; b_nid = some "pc" })
    ∷ []

abbrev office : Graph
office = record {
  adjacency =
      ("gateway", "switch" ∷ [])
      ∷ ("switch", "gateway" ∷ "ap" ∷ [])
      ∷ ("camera", [])
      ∷ ("ap", "switch" ∷ "pc" ∷ [])
      ∷ ("pc", "ap" ∷ [])
      ∷ [];
}

abbrev roots : List String
roots = "gateway" ∷ []

abbrev fallen : List String
fallen = "ap" ∷ "switch" ∷ "camera" ∷ []

abbrev verdicts : Dict Verdict
verdicts =
    ("ap", record { status = unreachable; root_cause = some "switch"; suppressed = true })
    ∷ ("switch", record { status = down; root_cause = some "switch"; suppressed = false })
    ∷ ("camera", record { status = unreachable; root_cause = none; suppressed = true })
    ∷ []

office_built : build_graph devices links ≡ office
unfolding build_graph add_devices add_links add_device register touch join add_link connect lookup
    put insert contains
office_built = refl

path_found : path_to_root office "pc" roots ≡ path_of ("pc" ∷ "ap" ∷ "switch" ∷ "gateway" ∷ [])
unfolding path_to_root climb follow trace neighbors sorted sort_in keys lookup put to_set contains
    all_nodes
path_found = refl

verdicts_given : correlate office fallen roots ≡ some verdicts
unfolding correlate classify_all classify upstream_cause first_in find_root_cause causes_among meets
    reachable_from search_up offer_all offer_roots enter is_known all_nodes path_to_root climb
    follow trace neighbors sorted sort_in keys lookup put to_set contains
verdicts_given = refl

build_graph-Joins_example :
    (contains (neighbors (build_graph devices links) "pc") "ap" ≡ true) ↔ Joins links "pc" "ap"
build_graph-Joins_example = build_graph-Joins devices links "pc" "ap"

reachable_from-Reach_example :
    (found : List String) × (reachable_from office roots fallen ≡ some found)
    × ((v : String) → (contains found v ≡ true) ↔ Reach office roots fallen v)
reachable_from-Reach_example = reachable_from-Reach office fallen roots

path_to_root-IsAnswer_example : IsAnswer office roots "pc" (path_to_root office "pc" roots)
path_to_root-IsAnswer_example = path_to_root-IsAnswer office "pc" roots

find_root_cause-IsTopmost_example :
    (causes : List String) × (find_root_cause office fallen roots ≡ some causes)
    × ((v : String)
        → (contains causes v ≡ true)
          ↔ ((contains fallen v ≡ true) × IsTopmost office fallen roots v))
find_root_cause-IsTopmost_example = find_root_cause-IsTopmost office fallen roots

correlate-IsRight_example :
    (result : Dict Verdict) × (correlate office fallen roots ≡ some result)
    × ((v : String) → IsRight office fallen roots v (lookup v result))
correlate-IsRight_example = correlate-IsRight office fallen roots

correlate_stranded_example : ¬ Walk office "camera" "gateway" ("camera" ∷ "gateway" ∷ [])
unfolding lookup contains
correlate_stranded_example =
    correlate_stranded office fallen roots verdicts "camera"
      (subst IsUndirected office_built (build_graph-IsUndirected devices links)) verdicts_given refl
      "gateway" ("camera" ∷ "gateway" ∷ []) refl
