-- ===== src/Netdisco/Graph/Trace.antt =====
-- server/netdisco/graph.py: the chains that `prev` holds, and reading one back.
use Prim.Native.String.{String}
use text.Mathlib.Text.{◌==◌ as str_eq}
use text.Mathlib.TextEquality.{eq_iff}
use srp.Texts.{Dict, lookup, put, lookup-put}
use srp.Netdisco.Sets.{contains}
use srp.Netdisco.Graph.{Graph, sort_in, sorted, keys, reverse, trace, neighbors}
use srp.Prelude.{
  tenths, length, ℕ, zero, suc, ◌≤◌, ◌≡◌, refl, ap, ◌≢◌, ◌↔◌, true, false, ◌||◌, Option, none, some,
  List, [], ◌∷◌, ◌++◌, arith,
}

contains-sort_in :
    (x : String) (ys : List String) (v : String)
    → contains (sort_in x ys) v ≡ (str_eq x v || contains ys v)
unfolding sort_in contains
contains-sort_in x [] v = refl
contains-sort_in x (y ∷ ys) v = ground (arith, contains-sort_in x ys v)

pub contains-sorted : (xs : List String) (v : String) → contains (sorted xs) v ≡ contains xs v
unfolding sorted contains
contains-sorted [] v = refl
contains-sorted (x ∷ xs) v = ground (arith, contains-sorted xs v, contains-sort_in x (sorted xs) v)

module _ {V : Type 0} where
  pub contains-keys : (d : Dict V) (k : String) → (contains (keys d) k ≡ true) ↔ (lookup k d ≢ none)
  unfolding contains keys lookup
  contains-keys [] k = ground arith
  contains-keys ((j, v) ∷ d) k = ground (arith, contains-keys d k)

  pub keys-put :
      (k : String) (v : V) (d : Dict V)
      → contains (keys d) k ≡ false
      → keys (put k v d) ≡ keys d ++ k ∷ []
  unfolding contains keys put
  keys-put k v [] h = refl
  keys-put k v ((j, w) ∷ d) h = ground (arith, keys-put k v d)

  pub length-put :
      (k : String) (v : V) (d : Dict V)
      → contains (keys d) k ≡ false
      → length (put k v d) ≡ suc (length d)
  unfolding contains keys put
  length-put k v [] h = refl
  length-put k v ((j, w) ∷ d) h = ground (arith, length-put k v d)

-- The chain from a node down to the first one, as `prev` holds it.
pub data Chain (prev : Dict (Option String)) (first : String) : String → List String → Type 0 where
  start : lookup first prev ≡ some none → Chain prev first first (first ∷ [])
  above :
      {k p : String} {chain : List String}
      → lookup k prev ≡ some (some p)
      → Chain prev first p chain
      → Chain prev first k (k ∷ chain)

lookup-put_old :
    (prev : Dict (Option String)) (j : String) (o : Option String) (k : String) (p : Option String)
    → contains (keys prev) j ≡ false
    → lookup k prev ≡ some p
    → lookup k (put j o prev) ≡ some p
lookup-put_old prev j o k p new e =
    ground (arith, lookup-put j k o prev, eq_iff j k, contains-keys prev j, ap (λ i. lookup i prev))

-- A new key breaks no chain.
pub Chain-put :
    (prev : Dict (Option String)) (first j : String) (o : Option String)
    → contains (keys prev) j ≡ false
    → {k : String} {chain : List String} → Chain prev first k chain
    → Chain (put j o prev) first k chain
Chain-put prev first j o new (start e) = start (lookup-put_old prev j o first none new e)
Chain-put prev first j o new (above {k} {p} e c) =
    above (lookup-put_old prev j o k (some p) new e) (Chain-put prev first j o new c)

-- With enough fuel the chain is read back.
pub trace-Chain :
    (prev : Dict (Option String)) (first : String) (fuel : ℕ) {k : String} {chain : List String}
    → Chain prev first k chain
    → length chain ≤ fuel
    → trace fuel prev k ≡ some chain
unfolding trace
trace-Chain prev first zero (start e) h = absurd (omega arith)
trace-Chain prev first zero (above e c) h = absurd (omega arith)
trace-Chain prev first (suc fuel) (start e) h = rw (trace, e) refl
trace-Chain prev first (suc fuel) (above e c) h =
    rw (trace, e, trace-Chain prev first fuel c (omega arith)) refl

-- The walks of the graph, with the nodes that they pass.
pub data Walk (g : Graph) (first : String) : String → List String → Type 0 where
  here : Walk g first first (first ∷ [])
  next :
      {u v : String} {path : List String}
      → Walk g first u path
      → contains (neighbors g u) v ≡ true
      → Walk g first v (path ++ v ∷ [])

-- Read backwards, a chain whose every link is an edge is a walk.
pub Walk-Chain :
    (g : Graph) (prev : Dict (Option String)) (first : String)
    → ((k p : String) → lookup k prev ≡ some (some p) → contains (neighbors g p) k ≡ true)
    → {k : String} {chain : List String} → Chain prev first k chain
    → Walk g first k (reverse chain)
Walk-Chain g prev first edge (start e) = here
Walk-Chain g prev first edge (above {k} {p} e c) =
    next (Walk-Chain g prev first edge c) (edge k p e)
