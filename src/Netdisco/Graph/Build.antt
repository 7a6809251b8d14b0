-- ===== src/Netdisco/Graph/Build.antt =====
-- server/netdisco/graph.py: which graph `build_graph` builds.
use Prim.Native.String.{String}
use text.Mathlib.Text.{◌==◌ as str_eq}
use text.Mathlib.TextEquality.{eq_iff}
use srp.Texts.{Dict, lookup, lookup-put}
use srp.Netdisco.Sets.{contains, insert, contains-insert}
use srp.Netdisco.Graph.{
  Graph, Device, register, connect, Link, row_or, touch, join, add_device, add_devices, add_link,
  add_links, build_graph, neighbors, is_known,
}
use srp.Prelude.{
  Bool-cases, Option-cases, tenths, ◌≡◌, refl, ap, ◌∙◌, ◌≢◌, ◌↔◌, ◌⊎◌, inl, inr, true, false, ◌||◌,
  Option, none, some, List, [], ◌∷◌, arith,
}

-- The link has these two ends, in this order, and is not passed over.
abbrev pub Ends : Link → String → String → Type 0
Ends link u v =
    (link.a_nid ≡ some u)
    × (link.b_nid ≡ some v)
    × (str_eq u "" ≡ false)
    × (str_eq v "" ≡ false)
    × (str_eq u v ≡ false)

-- Some link joins the two, in one direction or the other.
abbrev pub Joins : List Link → String → String → Type 0
Joins [] u v = ⊥
Joins (link ∷ links) u v = (Ends link u v ⊎ Ends link v u) ⊎ Joins links u v

abbrev row : String → Dict (List String) → List String
row u adj = row_or (lookup u adj)

row-join :
    (k x u v : String) (adj : Dict (List String))
    → (contains (row u (join k x adj)) v ≡ true)
      ↔ ((contains (row u adj) v ≡ true) ⊎ (k ≡ u) × (x ≡ v))
unfolding join
row-join k x u v adj =
    rw (lookup-put k u (insert x (row k adj)) adj) (elim (Bool-cases (str_eq k u)) [
      | inl same ↦
          let e = (eq_iff k u).0 same in
          rw same
            (ground (arith, contains-insert x (row k adj) v, ap (λ w. contains (row w adj) v) e))
      | inr other ↦ rw other (ground (arith, eq_iff k u))
    ])

row-touch : (k u : String) (adj : Dict (List String)) → row u (touch k adj) ≡ row u adj
unfolding touch
row-touch k u adj = elim (Option-cases (lookup k adj)) [
  | inl missing ↦
      rw (touch, missing, lookup-put k u [] adj) (ground (arith, eq_iff k u, ap (λ w. row w adj)))
  | inr (s, found) ↦ rw (touch, found) refl
]

Ends-some :
    (a b u v : String)
    → Ends (record { a_nid = some a; b_nid = some b }) u v
      ↔ ((a ≡ u) × (b ≡ v) × (str_eq a "" || str_eq b "" || str_eq a b ≡ false))
Ends-some a b u v = (λ h. go (cc h.0) (cc h.1) h.2 h.3 h.4, λ h. back h.0 h.1 h.2)
  where
    go :
        a ≡ u
        → b ≡ v
        → str_eq u "" ≡ false
        → str_eq v "" ≡ false
        → str_eq u v ≡ false
        → (a ≡ u) × (b ≡ v) × (str_eq a "" || str_eq b "" || str_eq a b ≡ false)
    go p q r s t = (p, q, rw (p, q) (ground arith))

    back :
        a ≡ u
        → b ≡ v
        → str_eq a "" || str_eq b "" || str_eq a b ≡ false
        → Ends (record { a_nid = some a; b_nid = some b }) u v
    back p q r = (
      ap some p,
      ap some q,
      rw (← p) (ground arith),
      rw (← q) (ground arith),
      rw (← p, ← q) (ground arith),
    )

row-connect :
    (o p : Option String) (u v : String) (adj : Dict (List String))
    → (contains (row u (connect adj o p)) v ≡ true) ↔ (
        (contains (row u adj) v ≡ true)
        ⊎ (Ends (record { a_nid = o; b_nid = p }) u v ⊎ Ends (record { a_nid = o; b_nid = p }) v u))
unfolding connect
row-connect none p u v adj = ground arith
row-connect (some a) none u v adj = ground arith
row-connect (some a) (some b) u v adj =
    elim (Bool-cases (str_eq a "" || str_eq b "" || str_eq a b)) [
      | inl skipped ↦ rw skipped (ground (arith, Ends-some a b u v, Ends-some a b v u))
      | inr joined ↦ rw joined (
          ground (
            arith,
            row-join b a u v (join a b adj),
            row-join a b u v adj,
            Ends-some a b u v,
            Ends-some a b v u,
          ))
    ]

row-register :
    (o : Option String) (u : String) (adj : Dict (List String)) → row u (register adj o) ≡ row u adj
unfolding register
row-register none u adj = refl
row-register (some nid) u adj = ground (arith, row-touch nid u adj)

row-add_link :
    (link : Link) (u v : String) (adj : Dict (List String))
    → (contains (row u (add_link adj link)) v ≡ true)
      ↔ ((contains (row u adj) v ≡ true) ⊎ (Ends link u v ⊎ Ends link v u))
unfolding add_link
row-add_link link u v adj = row-connect link.a_nid link.b_nid u v adj

row-add_links :
    (links : List Link) (u v : String) (adj : Dict (List String))
    → (contains (row u (add_links adj links)) v ≡ true)
      ↔ ((contains (row u adj) v ≡ true) ⊎ Joins links u v)
unfolding add_links
row-add_links [] u v adj = ground arith
row-add_links (link ∷ links) u v adj =
    ground (arith, row-add_links links u v (add_link adj link), row-add_link link u v adj)

row-add_devices :
    (devices : List Device) (u : String) (adj : Dict (List String))
    → row u (add_devices adj devices) ≡ row u adj
unfolding add_devices add_device
row-add_devices [] u adj = refl
row-add_devices (dev ∷ devices) u adj =
    row-add_devices devices u (add_device adj dev) ∙ row-register dev.device_nid u adj

-- Two nodes are neighbours in the graph that is built exactly if some link has them as its two
-- ends, neither of them empty and the two not equal.
pub build_graph-Joins :
    (devices : List Device) (links : List Link) (u v : String)
    → (contains (neighbors (build_graph devices links) u) v ≡ true) ↔ Joins links u v
unfolding build_graph neighbors lookup contains
build_graph-Joins devices links u v =
    let step = row-add_links links u v (add_devices [] devices) in
    ground (arith, step, ap (λ s. contains s v) (row-add_devices devices u []))

lookup-join :
    (k x u : String) (adj : Dict (List String))
    → lookup u adj ≢ none
    → lookup u (join k x adj) ≢ none
unfolding join
lookup-join k x u adj h = ground (arith, lookup-put k u (insert x (row k adj)) adj)

lookup-join_key : (k x : String) (adj : Dict (List String)) → lookup k (join k x adj) ≢ none
unfolding join
lookup-join_key k x adj = ground (arith, lookup-put k k (insert x (row k adj)) adj, eq_iff k k)

lookup-connect :
    (o p : Option String) (u : String) (adj : Dict (List String))
    → lookup u adj ≢ none
    → lookup u (connect adj o p) ≢ none
unfolding connect
lookup-connect none p u adj h = h
lookup-connect (some a) none u adj h = h
lookup-connect (some a) (some b) u adj h =
    ground (arith, lookup-join b a u (join a b adj), lookup-join a b u adj)

lookup-connect-Ends :
    (o p : Option String) (u v : String) (adj : Dict (List String))
    → Ends (record { a_nid = o; b_nid = p }) u v
    → (lookup u (connect adj o p) ≢ none) × (lookup v (connect adj o p) ≢ none)
unfolding connect
lookup-connect-Ends none p u v adj h = cc h.0
lookup-connect-Ends (some a) none u v adj h = cc h.1
lookup-connect-Ends (some a) (some b) u v adj h =
    let e = (Ends-some a b u v).0 h in
    rw (← e.0, ← e.1, e.2)
      (
        lookup-join b a a (join a b adj) (lookup-join_key a b adj),
        lookup-join_key b a (join a b adj),
      )

lookup-add_links :
    (links : List Link) (u : String) (adj : Dict (List String))
    → lookup u adj ≢ none
    → lookup u (add_links adj links) ≢ none
unfolding add_links add_link
lookup-add_links [] u adj h = h
lookup-add_links (link ∷ links) u adj h =
    lookup-add_links links u (add_link adj link) (lookup-connect link.a_nid link.b_nid u adj h)

lookup-add_links_joined :
    (links : List Link) (u v : String) (adj : Dict (List String))
    → Joins links u v
    → lookup v (add_links adj links) ≢ none
unfolding add_links add_link
lookup-add_links_joined [] u v adj h = absurd h
lookup-add_links_joined (link ∷ links) u v adj (inl (inl e)) =
    lookup-add_links links v (add_link adj link)
      (lookup-connect-Ends link.a_nid link.b_nid u v adj e).1
lookup-add_links_joined (link ∷ links) u v adj (inl (inr e)) =
    lookup-add_links links v (add_link adj link)
      (lookup-connect-Ends link.a_nid link.b_nid v u adj e).0
lookup-add_links_joined (link ∷ links) u v adj (inr later) =
    lookup-add_links_joined links u v (add_link adj link) later

Joins-sym : (links : List Link) (u v : String) → Joins links u v → Joins links v u
Joins-sym [] u v h = h
Joins-sym (link ∷ links) u v (inl e) = inl (ground arith)
Joins-sym (link ∷ links) u v (inr later) = inr (Joins-sym links u v later)

Joins-irreflexive : (links : List Link) (u : String) → ¬ Joins links u u
Joins-irreflexive [] u h = h
Joins-irreflexive (link ∷ links) u (inl e) = ground (arith, eq_iff u u)
Joins-irreflexive (link ∷ links) u (inr later) = Joins-irreflexive links u later

-- The neighbours stand on both sides, are nodes of the graph, and nothing is its own neighbour.
pub record IsUndirected (g : Graph) : Type 0 where
  pub symmetric :
      (u v : String) → contains (neighbors g u) v ≡ true → contains (neighbors g v) u ≡ true
  pub known : (u v : String) → contains (neighbors g u) v ≡ true → is_known g v ≡ true
  pub loopless : (u : String) → contains (neighbors g u) u ≡ false

-- Every graph that is built is undirected and without loops, and has a row for each neighbour.
pub build_graph-IsUndirected :
    (devices : List Device) (links : List Link) → IsUndirected (build_graph devices links)
unfolding build_graph is_known
build_graph-IsUndirected devices links =
    let joined = build_graph-Joins devices links in
    record {
      symmetric = λ u v h. (joined v u).1 (Joins-sym links u v ((joined u v).0 h));
      known = λ u v h.
          let row = lookup-add_links_joined links u v (add_devices [] devices) ((joined u v).0 h) in
          ground arith;
      loopless = λ u. ground (arith, joined u u, Joins-irreflexive links u);
    }
