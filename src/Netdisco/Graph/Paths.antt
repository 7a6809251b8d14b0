-- ===== src/Netdisco/Graph/Paths.antt =====
-- server/netdisco/graph.py: what `path_to_root` finds.
use Prim.Native.String.{String}
use text.Mathlib.Text.{◌==◌ as str_eq}
use text.Mathlib.TextEquality.{eq_iff}
use srp.Texts.{Dict, lookup, put, lookup-put}
use srp.Netdisco.Sets.{contains, contains-append, to_set, contains-to_set}
use srp.Netdisco.Graph.{
  Graph, Trail, Found, path_of, no_path, broken, sorted, keys, trace, follow, chain_of, climb,
  path_to_root, neighbors, all_nodes,
}
use srp.Netdisco.Graph.Unseen.{
  unseen, IsPart, contains-singleton, unseen-append, unseen-le, all_nodes-rows,
}
use srp.Netdisco.Graph.Trace.{
  contains-sorted, keys-put, length-put, Chain, start, above, Chain-put, trace-Chain, Walk, here,
  next, Walk-Chain,
}
use srp.Prelude.{
  Bool-cases, tenths, length, length-append, ℕ, zero, suc, ◌+◌, ◌≤◌, ◌≡◌, sym, ap, ◌∙◌, ◌↔◌, ◌⊎◌,
  inl, inr, Bool, true, false, Option, none, some, List, [], ◌∷◌, ◌++◌, arith,
}

abbrev has : Dict (Option String) → String → Bool
has prev k = contains (keys prev) k

-- One turn of the loop on a new neighbour.
link : String → String → Trail → Trail
link cur nbr t = record { prev = put nbr (some cur) t.prev; queue = t.queue ++ nbr ∷ [] }

abbrev work : List String → Trail → ℕ
work all t = unseen (keys t.prev) all + length t.queue

work-follow :
    (all : List String) (cur : String) (nbrs : List String) (t : Trail)
    → IsPart nbrs all
    → work all (follow cur nbrs t) ≤ work all t
unfolding follow contains link
work-follow all cur [] t part = omega arith
work-follow all cur (nbr ∷ nbrs) t part = elim (Bool-cases (has t.prev nbr)) [
  | inl old ↦ rw (follow, old) (work-follow all cur nbrs t later)
  | inr new ↦
      rw (follow, new)
        (omega (
          arith,
          work-follow all cur nbrs (link cur nbr t) later,
          ap (λ ks. unseen ks all) (keys-put nbr (some cur) t.prev new),
          unseen-append (keys t.prev) nbr all new (part nbr (ground (arith, eq_iff nbr nbr))),
          length-append t.queue (nbr ∷ []),
        ))
]
  where
    later : IsPart nbrs all
    later v h = part v (ground arith)

has-put :
    (k : String) (o : Option String) (prev : Dict (Option String)) (w : String)
    → has prev k ≡ false
    → (has (put k o prev) w ≡ true) ↔ ((has prev w ≡ true) ⊎ (k ≡ w))
has-put k o prev w new =
    rw (keys-put k o prev new)
      (ground (arith, contains-append (keys prev) (k ∷ []) w, contains-singleton k w))

has-follow :
    (cur : String) (nbrs : List String) (t : Trail) (w : String)
    → (has (follow cur nbrs t).prev w ≡ true) ↔ ((has t.prev w ≡ true) ⊎ (contains nbrs w ≡ true))
unfolding follow contains link
has-follow cur [] t w = ground arith
has-follow cur (nbr ∷ nbrs) t w = elim (Bool-cases (has t.prev nbr)) [
  | inl old ↦
      rw (follow, old) (ground (arith, has-follow cur nbrs t w, eq_iff nbr w, ap (has t.prev)))
  | inr new ↦
      rw (follow, new)
        (ground (
          arith,
          has-follow cur nbrs (link cur nbr t) w,
          has-put nbr (some cur) t.prev w,
          eq_iff nbr w,
        ))
]

queue-follow :
    (cur : String) (nbrs : List String) (t : Trail) (w : String)
    → (contains (follow cur nbrs t).queue w ≡ true) ↔ (
        (contains t.queue w ≡ true)
        ⊎ (has t.prev w ≡ false) × (has (follow cur nbrs t).prev w ≡ true))
unfolding follow link
queue-follow cur [] t w = ground arith
queue-follow cur (nbr ∷ nbrs) t w = elim (Bool-cases (has t.prev nbr)) [
  | inl old ↦ rw (follow, old) (queue-follow cur nbrs t w)
  | inr new ↦
      rw (follow, new)
        (ground (
          arith,
          queue-follow cur nbrs (link cur nbr t) w,
          has-follow cur nbrs (link cur nbr t) w,
          has-put nbr (some cur) t.prev w,
          contains-append t.queue (nbr ∷ []) w,
          contains-singleton nbr w,
          ap (has t.prev),
        ))
]

module _ (g : Graph) (first : String) where
  abbrev AreTied : Dict (Option String) → Type 0
  AreTied prev =
      (k : String)
      → has prev k ≡ true
      → (chain : List String) × Chain prev first k chain × (length chain ≤ length prev)

  abbrev AreEdges : Dict (Option String) → Type 0
  AreEdges prev = (k p : String) → lookup k prev ≡ some (some p) → contains (neighbors g p) k ≡ true

  AreTied-put :
      (cur nbr : String) (prev : Dict (Option String))
      → has prev nbr ≡ false
      → has prev cur ≡ true
      → AreTied prev
      → AreTied (put nbr (some cur) prev)
  AreTied-put cur nbr prev new known tied k h = elim ((has-put nbr (some cur) prev k new).0 h) [
    | inl old ↦
        let (chain, c, short) = tied k old in
        (
          chain,
          Chain-put prev first nbr (some cur) new c,
          omega (arith, length-put nbr (some cur) prev new),
        )
    | inr same ↦
        let (chain, c, short) = tied cur known in
        let found : lookup k (put nbr (some cur) prev) ≡ some (some cur) =
          ground (arith, lookup-put nbr k (some cur) prev, eq_iff nbr k) in
        (
          k ∷ chain,
          above found (Chain-put prev first nbr (some cur) new c),
          omega (arith, length-put nbr (some cur) prev new),
        )
  ]

  AreEdges-put :
      (cur nbr : String) (prev : Dict (Option String))
      → has prev nbr ≡ false
      → contains (neighbors g cur) nbr ≡ true
      → AreEdges prev
      → AreEdges (put nbr (some cur) prev)
  AreEdges-put cur nbr prev new near edges k p h = elim (Bool-cases (str_eq nbr k)) [
    | inl same ↦
        let parent : cur ≡ p = ground (arith, lookup-put nbr k (some cur) prev) in
        rw (← parent, ← ((eq_iff nbr k).0 same)) near
    | inr other ↦ edges k p (ground (arith, lookup-put nbr k (some cur) prev))
  ]

  kept-follow :
      (cur : String) (nbrs : List String) (t : Trail)
      → has t.prev cur ≡ true
      → IsPart nbrs (neighbors g cur)
      → AreTied t.prev × AreEdges t.prev
      → AreTied (follow cur nbrs t).prev × AreEdges (follow cur nbrs t).prev
  unfolding follow contains link
  kept-follow cur [] t known part h = h
  kept-follow cur (nbr ∷ nbrs) t known part h = elim (Bool-cases (has t.prev nbr)) [
    | inl old ↦ rw (follow, old) (kept-follow cur nbrs t known later h)
    | inr new ↦
        rw (follow, new)
          (kept-follow cur nbrs (link cur nbr t) (ground (arith, has-put nbr (some cur) t.prev cur))
            later
            (
              AreTied-put cur nbr t.prev new known h.0,
              AreEdges-put cur nbr t.prev new (part nbr (ground (arith, eq_iff nbr nbr))) h.1,
            ))
  ]
    where
      later : IsPart nbrs (neighbors g cur)
      later v m = part v (ground arith)

-- What a right answer is: a walk from the node to a root, or that there is none.
abbrev pub IsAnswer : Graph → List String → String → Found → Type 0
IsAnswer g roots first (path_of path) =
    (root : String) × (contains roots root ≡ true) × Walk g first root path
IsAnswer g roots first no_path =
    (root : String) (path : List String) → contains roots root ≡ true → ¬ Walk g first root path
IsAnswer g roots first broken = ⊥

module _ (g : Graph) (roots : List String) (first : String) where
  record Inv (prev : Dict (Option String)) (queue : List String) : Type 0 where
    begun : has prev first ≡ true
    tied : AreTied g first prev
    edges : AreEdges g first prev
    queued : IsPart queue (keys prev)
    closed :
        (u v : String)
        → has prev u ≡ true
        → contains (neighbors g u) v ≡ true
        → (contains queue u ≡ true) ⊎ (has prev v ≡ true)
    climbed : (u : String) → has prev u ≡ true → contains roots u ≡ true → contains queue u ≡ true

  Inv-follow :
      (cur : String) (prev : Dict (Option String)) (queue : List String)
      → contains roots cur ≡ false
      → Inv prev (cur ∷ queue)
      → Inv
          (follow cur (sorted (neighbors g cur)) (record { prev = prev; queue = queue })).prev
          (follow cur (sorted (neighbors g cur)) (record { prev = prev; queue = queue })).queue
  unfolding contains
  Inv-follow cur prev queue other h =
      let t : Trail = record { prev = prev; queue = queue } in
      let nbrs = sorted (neighbors g cur) in
      let near = contains-sorted (neighbors g cur) in
      let has_iff = has-follow cur nbrs t in
      let queue_iff = queue-follow cur nbrs t in
      let known = h.queued cur (ground (arith, eq_iff cur cur)) in
      let kept =
        kept-follow g first cur nbrs t known (λ v m. ground (arith, near v)) (h.tied, h.edges) in
      record {
        begun = ground (arith, has_iff first, h.begun);
        tied = kept.0;
        edges = kept.1;
        queued = λ v m. ground (arith, queue_iff v, has_iff v, h.queued v);
        closed = λ u v m n.
            ground (arith, has_iff u, has_iff v, queue_iff u, h.closed u v, near v, eq_iff cur u);
        climbed = λ u m r.
            ground (arith, has_iff u, queue_iff u, h.climbed u, eq_iff cur u, ap (contains roots));
      }

  complete :
      (prev : Dict (Option String))
      → Inv prev []
      → {v : String} {path : List String} → Walk g first v path
      → has prev v ≡ true
  complete prev h here = h.begun
  complete prev h (next {u} {v} w n) = elim (h.closed u v (complete prev h w) n) [
    | inl waiting ↦ unfold contains in cc
    | inr m ↦ m
  ]

  no_path_right : (prev : Dict (Option String)) → Inv prev [] → IsAnswer g roots first no_path
  no_path_right prev h root path r w = unfold contains in cc (h.climbed root (complete prev h w) r)

  path_right :
      (cur : String) (prev : Dict (Option String)) (queue : List String)
      → contains roots cur ≡ true
      → Inv prev (cur ∷ queue)
      → IsAnswer g roots first (chain_of (trace (length prev) prev cur))
  unfolding contains
  path_right cur prev queue r h =
      let (chain, c, short) = h.tied cur (h.queued cur (ground (arith, eq_iff cur cur))) in
      rw (trace-Chain prev first (length prev) c short) (cur, r, Walk-Chain g prev first h.edges c)

  neighbors-nodes : (cur : String) → IsPart (sorted (neighbors g cur)) (all_nodes g.adjacency)
  unfolding neighbors
  neighbors-nodes cur v m =
      all_nodes-rows g.adjacency cur v (sym (contains-sorted (neighbors g cur) v) ∙ m)

  climb-IsAnswer :
      (fuel : ℕ) (prev : Dict (Option String)) (queue : List String)
      → Inv prev queue
      → work (all_nodes g.adjacency) (record { prev = prev; queue = queue }) ≤ fuel
      → IsAnswer g roots first (climb g roots fuel (record { prev = prev; queue = queue }))
  unfolding climb
  climb-IsAnswer zero prev [] h w = no_path_right prev h
  climb-IsAnswer zero prev (cur ∷ queue) h w = absurd (omega arith)
  climb-IsAnswer (suc fuel) prev [] h w = no_path_right prev h
  climb-IsAnswer (suc fuel) prev (cur ∷ queue) h w = elim (Bool-cases (contains roots cur)) [
    | inl found ↦ rw (climb, found) (path_right cur prev queue found h)
    | inr other ↦
        let t : Trail = record { prev = prev; queue = queue } in
        let nbrs = sorted (neighbors g cur) in
        let less = work-follow (all_nodes g.adjacency) cur nbrs t (neighbors-nodes cur) in
        rw (climb, other)
          (climb-IsAnswer fuel (follow cur nbrs t).prev (follow cur nbrs t).queue
            (Inv-follow cur prev queue other h) (omega (arith, less)))
  ]

  Inv-begin : Inv ((first, none) ∷ []) (first ∷ [])
  unfolding contains keys lookup
  Inv-begin =
      let found : lookup {V = Option String} first ((first, none) ∷ []) ≡ some none =
        ground (arith, eq_iff first first) in
      record {
        begun = ground (arith, eq_iff first first);
        tied = λ k m.
            let e : first ≡ k = ground (arith, eq_iff first k) in
            (first ∷ [], rw (← e) (start found), omega arith);
        edges = λ k p e. ground arith;
        queued = λ v m. m;
        closed = λ u v m n. inl m;
        climbed = λ u m r. m;
      }

IsAnswer-cong :
    (g : Graph) (r s : List String) (first : String) (found : Found)
    → ((x : String) → contains r x ≡ contains s x)
    → IsAnswer g r first found
    → IsAnswer g s first found
IsAnswer-cong g r s first (path_of path) e (root, m, w) = (root, sym (e root) ∙ m, w)
IsAnswer-cong g r s first no_path e a = λ root path m w. a root path (e root ∙ m) w
IsAnswer-cong g r s first broken e a = a

work-begin :
    (g : Graph) (node : String)
    → work (all_nodes g.adjacency) (record { prev = (node, none) ∷ []; queue = node ∷ [] })
      ≤ suc (length (all_nodes g.adjacency))
unfolding keys
work-begin g node = omega (arith, unseen-le (node ∷ []) (all_nodes g.adjacency))

-- For every graph the search ends, finds no key missing, and gives a right answer: a walk of
-- edges from the node to one of the roots, or that no root is at the end of any walk from it.
pub path_to_root-IsAnswer :
    (g : Graph) (node : String) (roots : List String)
    → IsAnswer g roots node (path_to_root g node roots)
unfolding path_to_root
path_to_root-IsAnswer g node roots =
    IsAnswer-cong g (to_set roots) roots node _ (contains-to_set roots)
      (elim (Bool-cases (contains (to_set roots) node)) [
        | inl at_root ↦ rw at_root (node, at_root, here)
        | inr other ↦ rw other (
            climb-IsAnswer g (to_set roots) node (suc (length (all_nodes g.adjacency)))
              ((node, none) ∷ []) (node ∷ []) (Inv-begin g (to_set roots) node) (work-begin g node))
      ])
