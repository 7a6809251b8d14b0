-- ===== src/Netdisco/Graph/Unseen.antt =====
-- server/netdisco/graph.py: what a search has not seen yet, the measure by which it ends.
use Prim.Native.String.{String}
use text.Mathlib.Text.{◌==◌ as str_eq}
use text.Mathlib.TextEquality.{eq_iff}
use srp.Texts.{Dict, lookup}
use srp.Netdisco.Sets.{contains, contains-append}
use srp.Netdisco.Graph.{all_nodes, row_or}
use srp.Prelude.{
  if◌then◌else◌, Bool-cases, tenths, length, ℕ, suc, ◌+◌, ◌≤◌, ◌≡◌, refl, ap, ◌≢◌, ◌↔◌, inl, inr,
  true, false, none, List, [], ◌∷◌, ◌++◌, arith,
}

-- The nodes that are not seen yet, as often as they stand in the graph.
abbrev pub unseen : List String → List String → ℕ
unseen seen [] = 0
unseen seen (v ∷ vs) = let rest = unseen seen vs in if contains seen v then rest else suc rest

abbrev pub IsPart : List String → List String → Type 0
IsPart part all = (v : String) → contains part v ≡ true → contains all v ≡ true

pub contains-singleton : (x y : String) → (contains (x ∷ []) y ≡ true) ↔ (x ≡ y)
unfolding contains
contains-singleton x y = ground (arith, eq_iff x y)

unseen-append-le :
    (seen : List String) (v : String) (all : List String)
    → unseen (seen ++ v ∷ []) all ≤ unseen seen all
unseen-append-le seen v [] = omega arith
unseen-append-le seen v (w ∷ all) =
    ground (arith, contains-append seen (v ∷ []) w, unseen-append-le seen v all)

pub unseen-append :
    (seen : List String) (v : String) (all : List String)
    → contains seen v ≡ false
    → contains all v ≡ true
    → unseen (seen ++ v ∷ []) all + 1 ≤ unseen seen all
unfolding contains
unseen-append seen v [] new known = cc
unseen-append seen v (w ∷ all) new known = ground (
  arith,
  contains-append seen (v ∷ []) w,
  contains-singleton v w,
  eq_iff w v,
  unseen-append-le seen v all,
  unseen-append seen v all,
)

pub unseen-le : (seen all : List String) → unseen seen all ≤ length all
unseen-le seen [] = omega arith
unseen-le seen (v ∷ all) = ground (arith, unseen-le seen all)

pub unseen-nil : (all : List String) → unseen [] all ≡ length all
unfolding contains
unseen-nil [] = refl
unseen-nil (v ∷ all) = ap suc (unseen-nil all)

-- A key of the graph, and each neighbour of one, stands among all its nodes.
pub all_nodes-keys :
    (adj : Dict (List String)) (v : String)
    → lookup v adj ≢ none
    → contains (all_nodes adj) v ≡ true
unfolding all_nodes lookup contains
all_nodes-keys [] v h = absurd (h refl)
all_nodes-keys ((u, nbrs) ∷ adj) v h =
    ground (arith, contains-append nbrs (all_nodes adj) v, all_nodes-keys adj v)

pub all_nodes-rows :
    (adj : Dict (List String)) (u : String) → IsPart (row_or (lookup u adj)) (all_nodes adj)
unfolding all_nodes lookup contains
all_nodes-rows [] u v h = h
all_nodes-rows ((w, nbrs) ∷ adj) u v h = elim (Bool-cases (str_eq w u)) [
  | inl same ↦ ground (arith, contains-append nbrs (all_nodes adj) v, rw same at h)
  | inr other ↦
      ground (arith, contains-append nbrs (all_nodes adj) v, all_nodes-rows adj u v (rw other at h))
]
