-- ===== src/Netdisco/Correlation/Causes.antt =====
-- server/netdisco/graph.py: which nodes `find_root_cause` finds.
use Prim.Native.String.{String}
use text.Mathlib.TextEquality.{eq_iff}
use srp.Netdisco.Sets.{contains, to_set, meets, contains-to_set, meets-contains, meets_witness}
use srp.Netdisco.Graph.{Graph, causes_among, find_root_cause, neighbors}
use srp.Netdisco.Graph.Reach.{Reach, from, hop, reachable_from-Reach}
use srp.Prelude.{
  tenths, ◌≡◌, refl, sym, ap, ◌∙◌, ◌↔◌, ◌⊎◌, inl, inr, Bool, true, ◌&&◌, ◌||◌, some, List, [], ◌∷◌,
  arith,
}

-- A root, or next to a node that a root reaches past no node that is down.
abbrev pub IsTopmost : Graph → List String → List String → String → Type 0
IsTopmost g down_set roots node =
    (contains roots node ≡ true)
    ⊎ ((nbr : String) × (contains (neighbors g node) nbr ≡ true) × Reach g roots down_set nbr)

and_elim : (a b : Bool) → (a && b) ≡ true → (a ≡ true) × (b ≡ true)
and_elim a b h = ground arith

or_elim : (a b : Bool) → (a || b) ≡ true → (a ≡ true) ⊎ (b ≡ true)
or_elim a b h = ground arith

and_intro : {a b : Bool} → a ≡ true → b ≡ true → (a && b) ≡ true
and_intro h k = rw (h, k) refl

or_left : {a : Bool} (b : Bool) → a ≡ true → (a || b) ≡ true
or_left b h = rw h refl

or_right : (a : Bool) {b : Bool} → b ≡ true → (a || b) ≡ true
or_right a h = ground arith

contains-causes_among :
    (g : Graph) (root_set up downs : List String) (v : String)
    → contains (causes_among g root_set up downs) v
      ≡ (contains downs v && (contains root_set v || meets (neighbors g v) up))
unfolding causes_among contains
contains-causes_among g root_set up [] v = refl
contains-causes_among g root_set up (node ∷ downs) v = ground (
  arith,
  contains-causes_among g root_set up downs v,
  eq_iff node v,
  ap (λ w. contains root_set w || meets (neighbors g w) up),
)

pub Reach-cong :
    (g : Graph) (r s b c : List String)
    → ((x : String) → contains r x ≡ contains s x)
    → ((x : String) → contains b x ≡ contains c x)
    → {v : String} → Reach g r b v
    → Reach g s c v
Reach-cong g r s b c e f (from {v} m k o) = from (sym (e v) ∙ m) k (sym (f v) ∙ o)
Reach-cong g r s b c e f (hop {u} {v} p n o) = hop (Reach-cong g r s b c e f p) n (sym (f v) ∙ o)

pub IsTopmost-to_set :
    (g : Graph) (down_set roots : List String) (v : String)
    → IsTopmost g (to_set down_set) (to_set roots) v ↔ IsTopmost g down_set roots v
IsTopmost-to_set g down_set roots v =
    let r = contains-to_set roots in
    let d = contains-to_set down_set in
    (
      λ h. elim h [
        | inl at_root ↦ inl (sym (r v) ∙ at_root)
        | inr (nbr, beside, p) ↦
            inr (nbr, beside, Reach-cong g (to_set roots) roots (to_set down_set) down_set r d p)
      ],
      λ h. elim h [
        | inl at_root ↦ inl (r v ∙ at_root)
        | inr (nbr, beside, p) ↦ inr (
          nbr,
          beside,
          Reach-cong g roots (to_set roots) down_set (to_set down_set) (λ x. sym (r x))
              (λ x. sym (d x)) p,
        )
      ],
    )

-- For every graph the search returns, and it finds exactly the nodes that are down and topmost.
pub find_root_cause-IsTopmost :
    (g : Graph) (down_set roots : List String)
    → (causes : List String) × (find_root_cause g down_set roots ≡ some causes)
      × ((v : String)
          → (contains causes v ≡ true)
            ↔ ((contains down_set v ≡ true) × IsTopmost g down_set roots v))
unfolding find_root_cause
find_root_cause-IsTopmost g down_set roots =
    let downs = to_set down_set in
    let root_set = to_set roots in
    let (up, found, exact) = reachable_from-Reach g downs root_set in
    let alike_downs = contains-to_set down_set in
    let member = contains-causes_among g root_set up downs in
    (
      causes_among g root_set up downs,
      rw found refl,
      λ v.
          let top = IsTopmost-to_set g down_set roots v in
          (
            λ m.
                let both = and_elim (contains downs v) _ (sym (member v) ∙ m) in
                (
                  sym (alike_downs v) ∙ both.0,
                  top.0 (elim (or_elim (contains root_set v) _ both.1) [
                    | inl at_root ↦ inl at_root
                    | inr near ↦
                        let (nbr, beside, reached) = meets_witness (neighbors g v) up near in
                        inr (nbr, beside, (exact nbr).0 reached)
                  ]),
                ),
            λ h.
                member v
                ∙ and_intro (alike_downs v ∙ h.0) (elim (top.1 h.1) [
                  | inl at_root ↦ or_left _ at_root
                  | inr near ↦
                      or_right (contains root_set v)
                        (meets-contains (neighbors g v) up near.0 near.1 ((exact near.0).1 near.2))
                ]),
          ),
    )
