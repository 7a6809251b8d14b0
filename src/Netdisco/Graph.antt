-- ===== src/Netdisco/Graph.antt =====
-- server/netdisco/graph.py: the undirected graph of the devices, and the searches on it. A row is
-- the part of it that is read; a search that ran out of its fuel would return `none`.
use Prim.Native.Nat.{Ordering}
use Prim.Native.String.{String, compare as text_compare}
use mathlib.Core.Option as Option
use text.Mathlib.Text.{◌==◌ as str_eq}
use srp.Texts.{Dict, lookup, put}
pub mod Build
pub mod Unseen
pub mod Trace
pub mod Paths
pub mod Reach
use srp.Netdisco.Sets.{contains, insert, to_set, meets}
use srp.Prelude.{
  if◌then◌else◌, length, ℕ, zero, suc, Bool, true, false, not, ◌||◌, Option, none, some, List, [],
  ◌∷◌, ◌++◌,
}

-- class Graph
pub record Graph : Type 0 where
  pub adjacency : Dict (List String)

pub record Device : Type 0 where
  pub device_nid : Option String

pub record Link : Type 0 where
  pub a_nid : Option String
  pub b_nid : Option String

abbrev pub row_or : Option (List String) → List String
row_or none = []
row_or (some s) = s

-- adj.setdefault(k, set())
unfoldable pub touch : String → Dict (List String) → Dict (List String)
touch k adj = elim (lookup k adj) [ none ↦ put k [] adj | some _ ↦ adj ]

-- adj.setdefault(k, set()).add(x)
unfoldable pub join : String → String → Dict (List String) → Dict (List String)
join k x adj = put k (insert x (row_or (lookup k adj))) adj

unfoldable pub register : Dict (List String) → Option String → Dict (List String)
register adj none = adj
register adj (some nid) = if str_eq nid "" then adj else touch nid adj

unfoldable pub add_device : Dict (List String) → Device → Dict (List String)
add_device adj dev = register adj dev.device_nid

unfoldable pub connect : Dict (List String) → Option String → Option String → Dict (List String)
connect adj (some a) (some b) =
    if str_eq a "" || str_eq b "" || str_eq a b then adj else join b a (join a b adj)
connect adj _ _ = adj

unfoldable pub add_link : Dict (List String) → Link → Dict (List String)
add_link adj link = connect adj link.a_nid link.b_nid

unfoldable pub add_devices : Dict (List String) → List Device → Dict (List String)
add_devices adj [] = adj
add_devices adj (dev ∷ devices) = add_devices (add_device adj dev) devices

unfoldable pub add_links : Dict (List String) → List Link → Dict (List String)
add_links adj [] = adj
add_links adj (link ∷ links) = add_links (add_link adj link) links

unfoldable pub build_graph : List Device → List Link → Graph
build_graph devices links = record { adjacency = add_links (add_devices [] devices) links }

unfoldable pub neighbors : Graph → String → List String
neighbors g node = row_or (lookup node g.adjacency)

unfoldable pub is_known : Graph → String → Bool
is_known g node = elim (lookup node g.adjacency) [ none ↦ false | some _ ↦ true ]

-- `seen` and `queue` of `reachable_from`
pub record Search : Type 0 where
  pub seen : List String
  pub queue : List String

unfoldable pub enter : String → Search → Search
enter node s = record { seen = s.seen ++ node ∷ []; queue = s.queue ++ node ∷ [] }

-- for nbr in ...
unfoldable pub offer_all : List String → List String → Search → Search
offer_all blocked [] s = s
offer_all blocked (nbr ∷ nbrs) s =
    let next = if contains s.seen nbr || contains blocked nbr then s else enter nbr s in
    offer_all blocked nbrs next

-- for root in roots
unfoldable pub offer_roots : Graph → List String → List String → Search → Search
offer_roots g blocked [] s = s
offer_roots g blocked (root ∷ roots) s =
    let next =
      if not (is_known g root) || contains blocked root || contains s.seen root
      then s
      else enter root s in
    offer_roots g blocked roots next

-- while queue
unfoldable pub search_up : Graph → List String → ℕ → Search → Option (List String)
search_up g blocked zero s = elim s.queue [ [] ↦ some s.seen | _ ∷ _ ↦ none ]
search_up g blocked (suc fuel) s = elim s.queue [
  | [] ↦ some s.seen
  | node ∷ queue ↦
      search_up g blocked fuel
        (offer_all blocked (neighbors g node) (record { seen = s.seen; queue = queue }))
]

-- Every text that stands in the graph.
unfoldable pub all_nodes : Dict (List String) → List String
all_nodes [] = []
all_nodes ((node, nbrs) ∷ adj) = node ∷ nbrs ++ all_nodes adj

unfoldable pub reachable_from : Graph → List String → List String → Option (List String)
reachable_from g roots blocked =
    search_up g blocked (length (all_nodes g.adjacency))
      (offer_roots g blocked roots (record { seen = []; queue = [] }))

-- The order of texts in Python, by code points.
abbrev text_leb : String → String → Bool
text_leb a b = elim (text_compare a b) [ Ordering.gt ↦ false | _ ↦ true ]

unfoldable pub sort_in : String → List String → List String
sort_in x [] = x ∷ []
sort_in x (y ∷ ys) = let rest = sort_in x ys in if text_leb x y then x ∷ y ∷ ys else y ∷ rest

-- sorted(xs)
unfoldable pub sorted : List String → List String
sorted [] = []
sorted (x ∷ xs) = sort_in x (sorted xs)

-- What `path_to_root` gives; `broken` stands for a missing key and for fuel that ran out.
pub data Found : Type 0 where
  path_of : List String → Found
  no_path broken : Found

-- `prev` and `queue` of `path_to_root`
pub record Trail : Type 0 where
  pub prev : Dict (Option String)
  pub queue : List String

unfoldable pub keys : {V : Type 0} → Dict V → List String
keys [] = []
keys ((k, v) ∷ d) = k ∷ keys d

abbrev pub reverse : List String → List String
reverse [] = []
reverse (x ∷ xs) = reverse xs ++ x ∷ []

-- while step is not None
unfoldable pub trace : ℕ → Dict (Option String) → String → Option (List String)
trace zero prev step = none
trace (suc fuel) prev step = elim (lookup step prev) [
  | none ↦ none
  | some none ↦ some (step ∷ [])
  | some (some above) ↦ Option.map (λ chain. step ∷ chain) (trace fuel prev above)
]

-- for nbr in sorted(...)
unfoldable pub follow : String → List String → Trail → Trail
follow cur [] t = t
follow cur (nbr ∷ nbrs) t =
    let next =
      if contains (keys t.prev) nbr
      then t
      else record { prev = put nbr (some cur) t.prev; queue = t.queue ++ nbr ∷ [] } in
    follow cur nbrs next

abbrev pub chain_of : Option (List String) → Found
chain_of none = broken
chain_of (some chain) = path_of (reverse chain)

-- while queue
unfoldable pub climb : Graph → List String → ℕ → Trail → Found
climb g roots zero t = elim t.queue [ [] ↦ no_path | _ ∷ _ ↦ broken ]
climb g roots (suc fuel) t = elim t.queue [
  | [] ↦ no_path
  | cur ∷ queue ↦
      let later =
        climb g roots fuel
          (follow cur (sorted (neighbors g cur)) (record { prev = t.prev; queue = queue })) in
      if contains roots cur then chain_of (trace (length t.prev) t.prev cur) else later
]

unfoldable pub path_to_root : Graph → String → List String → Found
path_to_root g node roots =
    let root_set = to_set roots in
    if contains root_set node
    then path_of (node ∷ [])
    else climb g root_set (suc (length (all_nodes g.adjacency)))
        (record { prev = (node, none) ∷ []; queue = node ∷ [] })

-- The loop over the down nodes; `up` is what the roots reach.
unfoldable pub causes_among : Graph → List String → List String → List String → List String
causes_among g root_set up [] = []
causes_among g root_set up (node ∷ downs) =
    let causes = causes_among g root_set up downs in
    if contains root_set node || meets (neighbors g node) up then node ∷ causes else causes

unfoldable pub find_root_cause : Graph → List String → List String → Option (List String)
find_root_cause g down_set roots =
    let downs = to_set down_set in
    let root_set = to_set roots in
    Option.map (λ up. causes_among g root_set up downs) (reachable_from g root_set downs)
