-- ===== src/Netdisco/Changes.antt =====
-- server/netdisco/changes.py: what differs between two snapshots of the map, and which devices have
-- been away for long. `seconds_since` gives the age of a moment, `none` where it cannot be read.
pub mod Maps
pub mod Deltas
pub mod Diff
pub mod Ages
mod Examples
use Prim.Native.Nat.{Ordering}
use Prim.Native.String.{String, compare as text_compare}
use text.Mathlib.Text.{◌==◌ as str_eq}
use mathlib.Core.Option as Option
use srp.Texts.{Dict, lookup, put}
use srp.Netdisco.Sets.{contains}
use srp.Netdisco.Graph.{keys}
use srp.Netdisco.Sorting.{sort}
use srp.Prelude.{
  if◌then◌else◌, Floats, Bool, true, false, not, ◌&&◌, ◌||◌, Option, none, some, List, [], ◌∷◌,
  ◌++◌,
}

pub record Node : Type 0 where
  pub nid : Option String
  pub dev_type : Option String
  pub ip : Option String

pub record Edge : Type 0 where
  pub a : Option String
  pub b : Option String

pub record Snapshot : Type 0 where
  pub nodes : List Node
  pub links : List Edge

-- class TopologyDelta, by its kind
pub data Delta : Type 0 where
  appeared disappeared : String → Delta
  reclassified ip_changed : String → Option String → Option String → Delta
  link_added link_removed : String → String → Delta

abbrev pub add_node : Node → Option String → Dict Node → Dict Node
add_node n none d = d
add_node n (some nid) d = if str_eq nid "" then d else put nid n d

-- the dict that grows node by node, so that a later node takes the place of an earlier one
unfoldable pub nodes_onto : List Node → Dict Node → Dict Node
nodes_onto [] d = d
nodes_onto (n ∷ nodes) d = nodes_onto nodes (add_node n n.nid d)

unfoldable pub nodes_by_nid : Snapshot → Dict Node
nodes_by_nid s = nodes_onto s.nodes []

abbrev text_leb : String → String → Bool
text_leb a b = elim (text_compare a b) [ Ordering.gt ↦ false | _ ↦ true ]

-- (a, b) in keys
unfoldable pub has_pair : List (String × String) → String → String → Bool
has_pair [] a b = false
has_pair ((x, y) ∷ pairs) a b = (str_eq x a && str_eq y b) || has_pair pairs a b

unfoldable pub add_pair : String → String → List (String × String) → List (String × String)
add_pair a b pairs = if has_pair pairs a b then pairs else (a, b) ∷ pairs

unfoldable pub add_edge :
    Option String → Option String → List (String × String) → List (String × String)
add_edge (some a) (some b) pairs =
    if str_eq a "" || str_eq b "" || str_eq a b
    then pairs
    else if text_leb a b
    then add_pair a b pairs
    else add_pair b a pairs
add_edge _ _ pairs = pairs

unfoldable pub edges_onto : List Edge → List (String × String) → List (String × String)
edges_onto [] pairs = pairs
edges_onto (e ∷ edges) pairs = edges_onto edges (add_edge e.a e.b pairs)

unfoldable pub link_keys : Snapshot → List (String × String)
link_keys s = edges_onto s.links []

-- before.get(…) != after.get(…)
abbrev pub differ : Option String → Option String → Bool
differ none none = false
differ (some a) (some b) = not (str_eq a b)
differ _ _ = true

-- for nid in the keys of one, less those of the other
unfoldable pub missing_from : (String → Delta) → Dict Node → List String → List Delta
missing_from delta other [] = []
missing_from delta other (nid ∷ nids) =
    let rest = missing_from delta other nids in
    if contains (keys other) nid then rest else delta nid ∷ rest

abbrev pub node_deltas : String → Node → Node → List Delta
node_deltas nid before after =
    let moved = if differ before.ip after.ip then ip_changed nid before.ip after.ip ∷ [] else [] in
    if differ before.dev_type after.dev_type
    then reclassified nid before.dev_type after.dev_type ∷ moved
    else moved

abbrev pub both_deltas : String → Option Node → Option Node → List Delta
both_deltas nid (some before) (some after) = node_deltas nid before after
both_deltas nid _ _ = []

-- for nid in the keys of both
unfoldable pub changed_nodes : Dict Node → Dict Node → List String → List Delta
changed_nodes prev curr [] = []
changed_nodes prev curr (nid ∷ nids) =
    both_deltas nid (lookup nid prev) (lookup nid curr) ++ changed_nodes prev curr nids

-- for a, b in the pairs of one, less those of the other
unfoldable pub missing_pairs :
    (String → String → Delta) → List (String × String) → List (String × String) → List Delta
missing_pairs delta other [] = []
missing_pairs delta other ((a, b) ∷ pairs) =
    let rest = missing_pairs delta other pairs in
    if has_pair other a b then rest else delta a b ∷ rest

-- str(v)
abbrev pub shown : Option String → String
shown none = "None"
shown (some v) = v

-- (d.kind, d.device_nid or "", _detail_key(d.detail))
abbrev pub sort_key : Delta → List String
sort_key (appeared nid) = "appeared" ∷ nid ∷ []
sort_key (disappeared nid) = "disappeared" ∷ nid ∷ []
sort_key (reclassified nid f t) = "reclassified" ∷ nid ∷ "from" ∷ shown f ∷ "to" ∷ shown t ∷ []
sort_key (ip_changed nid f t) = "ip_changed" ∷ nid ∷ "from" ∷ shown f ∷ "to" ∷ shown t ∷ []
sort_key (link_added a b) = "link_added" ∷ "" ∷ "a" ∷ a ∷ "b" ∷ b ∷ []
sort_key (link_removed a b) = "link_removed" ∷ "" ∷ "a" ∷ a ∷ "b" ∷ b ∷ []

unfoldable pub key_leb : List String → List String → Bool
key_leb [] ys = true
key_leb (x ∷ xs) [] = false
key_leb (x ∷ xs) (y ∷ ys) = let later = key_leb xs ys in if str_eq x y then later else text_leb x y

-- the key of one delta is not greater than that of the other
abbrev pub delta_leb : Delta → Delta → Bool
delta_leb d e = key_leb (sort_key d) (sort_key e)

unfoldable pub diff : Snapshot → Snapshot → List Delta
diff prev curr =
    let before = nodes_by_nid prev in
    let after = nodes_by_nid curr in
    let old_links = link_keys prev in
    let new_links = link_keys curr in
    sort delta_leb (
      missing_from appeared before (keys after)
      ++ (missing_from disappeared after (keys before)
          ++ (changed_nodes before after (keys after)
              ++ (missing_pairs link_added old_links new_links
                  ++ missing_pairs link_removed new_links old_links))))

-- the status that a device has, or is given
pub data Presence : Type 0 where
  missing eligible_purge : Presence

pub record Seen : Type 0 where
  pub device_nid : Option String
  pub last_seen : Option String
  pub status : Option Presence

abbrev pub is_purge : Option Presence → Bool
is_purge (some eligible_purge) = true
is_purge _ = false

abbrev pub is_aged : Option Presence → Bool
is_aged none = false
is_aged (some p) = true

abbrev pub add_transition :
    Option (String × Presence) → List (String × Presence) → List (String × Presence)
add_transition none out = out
add_transition (some t) out = t ∷ out

module _ {F : Type 0} ⦃fl : Floats F⦄ (seconds_since : String → Option F)
    (stale_after_sec purge_after_sec : F) where
  -- the new status, if there is one
  unfoldable pub next_status : Option Presence → F → Option Presence
  next_status status age =
      if not (fl.lt age purge_after_sec)
      then (if is_purge status then none else some eligible_purge)
      else if not (fl.lt age stale_after_sec) && not (is_aged status)
      then some missing
      else none

  abbrev pub aged : Option F → Option Presence → Option Presence
  aged none status = none
  aged (some age) status = next_status status age

  unfoldable pub transition :
      Option String → Option String → Option Presence → Option (String × Presence)
  transition (some nid) (some last_seen) status =
      if str_eq nid "" || str_eq last_seen ""
      then none
      else Option.map (λ p. (nid, p)) (aged (seconds_since last_seen) status)
  transition _ _ status = none

  abbrev pub transition_of : Seen → Option (String × Presence)
  transition_of dev = transition dev.device_nid dev.last_seen dev.status

  unfoldable pub transitions : List Seen → List (String × Presence)
  transitions [] = []
  transitions (dev ∷ devices) = add_transition (transition_of dev) (transitions devices)

abbrev pub status_leb : Presence → Presence → Bool
status_leb missing eligible_purge = false
status_leb _ _ = true

-- the order of two pairs of an id and a status
abbrev pub transition_leb : String × Presence → String × Presence → Bool
transition_leb (nid, status) (other, known) =
    if str_eq nid other then status_leb status known else text_leb nid other

module _ {F : Type 0} ⦃fl : Floats F⦄ where
  unfoldable pub stale_lifecycle :
      (String → Option F) → F → F → List Seen → List (String × Presence)
  stale_lifecycle seconds_since stale_after_sec purge_after_sec devices =
      sort transition_leb (transitions seconds_since stale_after_sec purge_after_sec devices)
