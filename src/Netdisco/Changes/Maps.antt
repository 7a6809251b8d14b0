-- ===== src/Netdisco/Changes/Maps.antt =====
-- server/netdisco/changes.py: what the node dict and the link set of a snapshot hold.
use Prim.Native.String.{String}
use text.Mathlib.Text.{◌==◌ as str_eq}
use text.Mathlib.TextEquality.{eq_iff}
use mathlib.Core.Path.{subst}
use mathlib.Core.List.{Memᴰ}
use mathlib.Core.List.Memᴰ
use srp.Texts.{Dict, lookup, lookup-put}
use srp.Netdisco.Sets.{contains}
use srp.Netdisco.Graph.{keys}
use srp.Netdisco.Graph.Trace.{contains-keys}
use srp.Netdisco.Changes.{
  Node, Edge, Snapshot, add_node, nodes_onto, nodes_by_nid, text_leb, has_pair, add_pair, add_edge,
  edges_onto, link_keys,
}
use srp.Prelude.{
  if◌then◌else◌, Bool-cases, tenths, ◌≡◌, refl, sym, ap, ◌∙◌, ◌≢◌, ◌↔◌, ◌⊎◌, inl, inr, Bool, true,
  false, not, ◌&&◌, ◌||◌, Option, none, some, List, [], ◌∷◌, arith,
}

-- The node has that id, which is not empty.
abbrev pub is_id : String → Option String → Bool
is_id nid none = false
is_id nid (some k) = not (str_eq k "") && str_eq k nid

abbrev first_of : Option Node → Option Node → Option Node
first_of none o = o
first_of (some m) o = some m

-- The last node of that id.
unfoldable pub last_node : String → List Node → Option Node
last_node nid [] = none
last_node nid (n ∷ nodes) =
    first_of (last_node nid nodes) (if is_id nid n.nid then some n else none)

-- The pair of two ends of a link that are not empty and not the same, in order.
pub data Ends : Option String → Option String → String → String → Type 0 where
  straight :
      {a b : String}
      → (str_eq a "" || str_eq b "" || str_eq a b) ≡ false
      → text_leb a b ≡ true
      → Ends (some a) (some b) a b
  crossed :
      {a b : String}
      → (str_eq b "" || str_eq a "" || str_eq b a) ≡ false
      → text_leb b a ≡ false
      → Ends (some b) (some a) a b

-- The two nodes are linked in the snapshot.
unfoldable pub AreLinked : Snapshot → String → String → Type 0
AreLinked s a b = (e : Edge) × Memᴰ e s.links × Ends e.a e.b a b

pub ends_cong {ℓ} :
    {A : Type ℓ} (f : String → String → A) (a b x y : String)
    → (str_eq a x && str_eq b y) ≡ true
    → f a b ≡ f x y
ends_cong f a b x y same =
    ap (λ z. f z b) ((eq_iff a x).0 (ground (arith, same)))
    ∙ ap (f x) ((eq_iff b y).0 (ground (arith, same)))

has_pair-add_pair :
    (x y : String) (pairs : List (String × String)) (a b : String)
    → has_pair (add_pair x y pairs) a b ≡ ((str_eq x a && str_eq y b) || has_pair pairs a b)
unfolding add_pair has_pair
has_pair-add_pair x y pairs a b = elim (Bool-cases (has_pair pairs x y)) [
  | inl old ↦ rw old ground (arith, old, ends_cong (has_pair pairs) x y a b)
  | inr new ↦ rw new refl
]

Ends-cases :
    (x y a b : String)
    → Ends (some x) (some y) a b
    → ((str_eq x "" || str_eq y "" || str_eq x y) ≡ false)
      × (((text_leb x y ≡ true) × (x ≡ a) × (y ≡ b)) ⊎ ((text_leb x y ≡ false) × (y ≡ a) × (x ≡ b)))
Ends-cases x y a b (straight own first) = (own, inl (first, refl, refl))
Ends-cases x y a b (crossed own second) = (own, inr (second, refl, refl))

Ends-straight :
    (x y a b : String)
    → (str_eq x "" || str_eq y "" || str_eq x y) ≡ false
    → text_leb x y ≡ true
    → (str_eq x a && str_eq y b) ≡ true
    → Ends (some x) (some y) a b
Ends-straight x y a b own first same =
    subst (λ f. f) (ends_cong (Ends (some x) (some y)) x y a b same) (straight own first)

Ends-crossed :
    (x y a b : String)
    → (str_eq x "" || str_eq y "" || str_eq x y) ≡ false
    → text_leb x y ≡ false
    → (str_eq y a && str_eq x b) ≡ true
    → Ends (some x) (some y) a b
Ends-crossed x y a b own second same =
    subst (λ f. f) (ends_cong (Ends (some x) (some y)) y x a b same) (crossed own second)

Ends-none : (eb : Option String) (a b : String) → ¬ (Ends none eb a b)
Ends-none eb a b e = elim e [ ]

Ends-none_end : (x a b : String) → ¬ (Ends (some x) none a b)
Ends-none_end x a b e = elim e [ ]

has_pair-add_edge :
    (ea eb : Option String) (pairs : List (String × String)) (a b : String)
    → (has_pair (add_edge ea eb pairs) a b ≡ true) ↔ (Ends ea eb a b ⊎ (has_pair pairs a b ≡ true))
unfolding add_edge
has_pair-add_edge none eb pairs a b =
    (inr, λ c. elim c [ inl e ↦ absurd (Ends-none eb a b e) | inr h ↦ h ])
has_pair-add_edge (some x) none pairs a b =
    (inr, λ c. elim c [ inl e ↦ absurd (Ends-none_end x a b e) | inr h ↦ h ])
has_pair-add_edge (some x) (some y) pairs a b =
    elim (Bool-cases (str_eq x "" || str_eq y "" || str_eq x y)) [
      | inl bad ↦
          rw bad (inr, λ c. elim c [ inl e ↦ cc (bad, (Ends-cases x y a b e).0) | inr h ↦ h ])
      | inr own ↦ elim (Bool-cases (text_leb x y)) [
        | inl first ↦
            rw (own, first, has_pair-add_pair x y pairs a b)
              (
                λ h. elim (Bool-cases (str_eq x a && str_eq y b)) [
                  | inl same ↦ inl (Ends-straight x y a b own first same)
                  | inr other_one ↦ inr (ground (arith, h, other_one))
                ],
                λ c. elim c [
                  | inl e ↦ elim (Ends-cases x y a b e).1 [
                    | inl h ↦ ground (arith, h.1, h.2, eq_iff x a, eq_iff y b)
                    | inr h ↦ cc (first, h.0)
                  ]
                  | inr h ↦ ground (arith, h)
                ],
              )
        | inr second ↦
            rw (own, second, has_pair-add_pair y x pairs a b)
              (
                λ h. elim (Bool-cases (str_eq y a && str_eq x b)) [
                  | inl same ↦ inl (Ends-crossed x y a b own second same)
                  | inr other_one ↦ inr (ground (arith, h, other_one))
                ],
                λ c. elim c [
                  | inl e ↦ elim (Ends-cases x y a b e).1 [
                    | inl h ↦ cc (second, h.0)
                    | inr h ↦ ground (arith, h.1, h.2, eq_iff y a, eq_iff x b)
                  ]
                  | inr h ↦ ground (arith, h)
                ],
              )
      ]
    ]

has_pair-edges_onto :
    (links : List Edge) (pairs : List (String × String)) (a b : String)
    → (has_pair (edges_onto links pairs) a b ≡ true)
      ↔ (((e : Edge) × Memᴰ e links × Ends e.a e.b a b) ⊎ (has_pair pairs a b ≡ true))
unfolding edges_onto
has_pair-edges_onto [] pairs a b =
    (inr, λ c. elim c [ inl (e, m, ends) ↦ absurd (Memᴰ.not-nil m) | inr h ↦ h ])
has_pair-edges_onto (x ∷ links) pairs a b =
    let rest = has_pair-edges_onto links (add_edge x.a x.b pairs) a b in
    let here = has_pair-add_edge x.a x.b pairs a b in
    (
      λ h. elim (rest.0 h) [
        | inl (e, m, ends) ↦ inl (e, Memᴰ.tail m, ends)
        | inr k ↦ elim (here.0 k) [ inl ends ↦ inl (x, Memᴰ.head refl, ends) | inr old ↦ inr old ]
      ],
      λ c. elim c [
        | inl (e, m, ends) ↦ elim (Memᴰ.cases_cons m) [
          | inl q ↦ rest.1 (inr (here.1 (inl (subst (λ z. Ends z.a z.b a b) q ends))))
          | inr n ↦ rest.1 (inl (e, n, ends))
        ]
        | inr old ↦ rest.1 (inr (here.1 (inr old)))
      ],
    )

pub link_keys-AreLinked :
    (s : Snapshot) (a b : String) → (has_pair (link_keys s) a b ≡ true) ↔ AreLinked s a b
unfolding link_keys AreLinked has_pair
link_keys-AreLinked s a b =
    let all = has_pair-edges_onto s.links [] a b in
    (λ h. elim (all.0 h) [ inl linked ↦ linked | inr bad ↦ cc bad ], λ linked. all.1 (inl linked))

lookup-add_node :
    (n : Node) (o : Option String) (d : Dict Node) (nid : String)
    → lookup nid (add_node n o d) ≡ (if is_id nid o then some n else lookup nid d)
lookup-add_node n none d nid = refl
lookup-add_node n (some k) d nid = elim (Bool-cases (str_eq k "")) [
  | inl bad ↦ rw bad refl
  | inr own ↦ rw own (lookup-put k nid n d)
]

first_of-if :
    (l : Option Node) (c : Bool) (n : Node) (o : Option Node)
    → first_of l (if c then some n else o) ≡ first_of (first_of l (if c then some n else none)) o
first_of-if none true n o = refl
first_of-if none false n o = refl
first_of-if (some m) c n o = refl

first_of-none : (l : Option Node) → first_of l none ≡ l
first_of-none none = refl
first_of-none (some m) = refl

lookup-nodes_onto :
    (nodes : List Node) (d : Dict Node) (nid : String)
    → lookup nid (nodes_onto nodes d) ≡ first_of (last_node nid nodes) (lookup nid d)
unfolding nodes_onto last_node
lookup-nodes_onto [] d nid = refl
lookup-nodes_onto (n ∷ nodes) d nid =
    lookup-nodes_onto nodes (add_node n n.nid d) nid
    ∙ ap (first_of (last_node nid nodes)) (lookup-add_node n n.nid d nid)
    ∙ first_of-if (last_node nid nodes) (is_id nid n.nid) n (lookup nid d)

pub lookup-nodes_by_nid :
    (s : Snapshot) (nid : String) → lookup nid (nodes_by_nid s) ≡ last_node nid s.nodes
unfolding nodes_by_nid lookup
lookup-nodes_by_nid s nid = lookup-nodes_onto s.nodes [] nid ∙ first_of-none (last_node nid s.nodes)

pub keys-last_node :
    (s : Snapshot) (nid : String)
    → (contains (keys (nodes_by_nid s)) nid ≡ true) ↔ (last_node nid s.nodes ≢ none)
keys-last_node s nid = rw (sym (lookup-nodes_by_nid s nid)) (contains-keys (nodes_by_nid s) nid)

pub no_keys-last_node :
    (s : Snapshot) (nid : String)
    → (contains (keys (nodes_by_nid s)) nid ≡ false) ↔ (last_node nid s.nodes ≡ none)
no_keys-last_node s nid = ground (arith, keys-last_node s nid)

pub no_link_keys-AreLinked :
    (s : Snapshot) (a b : String) → (has_pair (link_keys s) a b ≡ false) ↔ (¬ (AreLinked s a b))
no_link_keys-AreLinked s a b = ground (arith, link_keys-AreLinked s a b)
