-- ===== src/Netdisco/Correlation/Verdicts.antt =====
-- server/netdisco/correlation.py: which verdict every node gets.
use Prim.Native.String.{String}
use text.Mathlib.TextEquality.{eq_iff}
use srp.Texts.{Dict, lookup, put, lookup-put}
use srp.Netdisco.Sets.{contains, to_set, contains-to_set}
use srp.Netdisco.Graph.{Graph, Found, path_of, no_path, broken, path_to_root, find_root_cause}
use srp.Netdisco.Graph.Trace.{Walk}
use srp.Netdisco.Graph.Paths.{IsAnswer, path_to_root-IsAnswer}
use srp.Netdisco.Correlation.{
  Verdict, down, unreachable, first_in, cause_on, upstream_cause, classify, classify_all, correlate,
}
use srp.Netdisco.Correlation.Causes.{IsTopmost, IsTopmost-to_set, find_root_cause-IsTopmost}
use srp.Prelude.{
  if◌then◌else◌, Bool-cases, drop, ◌≡◌, refl, sym, ap, ◌∙◌, ◌↔◌, ◌⊎◌, inl, inr, true, false, Option,
  none, some, List, [], ◌∷◌, arith,
}

pub not_both : ¬ (false ≡ true)
not_both h = cc h

pub first_in-none :
    (causes hops : List String) (c : String)
    → first_in causes hops ≡ none
    → contains hops c ≡ true
    → contains causes c ≡ false
unfolding first_in contains
first_in-none causes [] c h m = cc
first_in-none causes (n ∷ hops) c h m =
    ground (arith, first_in-none causes hops c, eq_iff n c, ap (contains causes))

-- The first node of a path that is a cause, if there is one.
pub data IsFirst (IsCause : String → Type 0) : List String → Option String → Type 0 where
  no_hop : IsFirst IsCause [] none
  this_hop :
      {hop : String} {hops : List String} → IsCause hop → IsFirst IsCause (hop ∷ hops) (some hop)
  later_hop :
      {hop : String} {hops : List String} {o : Option String}
      → ¬ (IsCause hop)
      → IsFirst IsCause hops o
      → IsFirst IsCause (hop ∷ hops) o

first_in-IsFirst :
    (IsCause : String → Type 0) (causes hops : List String)
    → ((v : String) → (contains causes v ≡ true) ↔ IsCause v)
    → IsFirst IsCause hops (first_in causes hops)
unfolding first_in
first_in-IsFirst IsCause causes [] exact = no_hop
first_in-IsFirst IsCause causes (n ∷ hops) exact = elim (Bool-cases (contains causes n)) [
  | inl hit ↦ rw hit (this_hop ((exact n).0 hit))
  | inr miss ↦ rw miss (
      later_hop (λ c. not_both (sym miss ∙ (exact n).1 c))
        (first_in-IsFirst IsCause causes hops exact))
]

lookup-classify_all :
    (g : Graph) (root_set causes downs : List String) (result : Dict Verdict) (v : String)
    → lookup v (classify_all g root_set causes downs result)
      ≡ (if contains downs v then some (classify g root_set causes v) else lookup v result)
unfolding classify_all contains
lookup-classify_all g root_set causes [] result v = refl
lookup-classify_all g root_set causes (node ∷ downs) result v = ground (
  arith,
  lookup-classify_all g root_set causes downs (put node (classify g root_set causes node) result) v,
  lookup-put node v (classify g root_set causes node) result,
  eq_iff node v,
  ap (classify g root_set causes),
)

-- The cause that is found upstream of a node: the first topmost node that is down on a walk from it to
-- a root, if there is one on it, or none, where no walk leads to a root.
abbrev pub IsUpstream : Graph → List String → List String → String → Option String → Type 0
IsUpstream g down_set roots v cause =
    ((root : String) × (path : List String) × (contains roots root ≡ true)
      × Walk g v root path
      × IsFirst (λ c. (contains down_set c ≡ true) × IsTopmost g down_set roots c) (drop 1 path)
          cause)
    ⊎ (((root : String) (path : List String) → contains roots root ≡ true → ¬ Walk g v root path)
        × (cause ≡ none))

-- The verdict that a node gets: none if it is not down; DOWN with itself as the cause if it is topmost;
-- else UNREACHABLE and suppressed, with the cause that is found upstream.
abbrev pub IsRight : Graph → List String → List String → String → Option Verdict → Type 0
IsRight g down_set roots v o =
    ((contains down_set v ≡ false) × (o ≡ none))
    ⊎ ((contains down_set v ≡ true)
        × IsTopmost g down_set roots v
        × (o ≡ some (record { status = down; root_cause = some v; suppressed = false })))
    ⊎ ((contains down_set v ≡ true)
        × (¬ IsTopmost g down_set roots v)
        × (cause : Option String) × (o
            ≡ some (record { status = unreachable; root_cause = cause; suppressed = true }))
        × IsUpstream g down_set roots v cause)

module _ (g : Graph) (down_set roots : List String) where
  abbrev pub AreCauses : List String → Type 0
  AreCauses causes =
      (v : String)
      → (contains causes v ≡ true) ↔ ((contains down_set v ≡ true) × IsTopmost g down_set roots v)

  found_causes :
      (causes : List String) × (find_root_cause g (to_set down_set) (to_set roots) ≡ some causes)
      × AreCauses causes
  found_causes =
      let (causes, found, exact) = find_root_cause-IsTopmost g (to_set down_set) (to_set roots) in
      (
        causes,
        found,
        λ v.
            ground
              (arith, exact v, contains-to_set down_set v, IsTopmost-to_set g down_set roots v),
      )

  cause_on-IsUpstream :
      (causes : List String) (v : String) (found : Found)
      → AreCauses causes
      → IsAnswer g (to_set roots) v found
      → IsUpstream g down_set roots v (cause_on causes found)
  cause_on-IsUpstream causes v (path_of path) exact (root, m, w) = inl (
    root,
    path,
    sym (contains-to_set roots root) ∙ m,
    w,
    first_in-IsFirst _ causes (drop 1 path) exact,
  )
  cause_on-IsUpstream causes v no_path exact none_there =
      inr (λ root path r w. none_there root path (contains-to_set roots root ∙ r) w, refl)
  cause_on-IsUpstream causes v broken exact a = absurd a

  IsRight-classify :
      (causes : List String) (v : String)
      → AreCauses causes
      → IsRight g down_set roots v
          (if contains (to_set down_set) v then some (classify g (to_set roots) causes v) else none)
  unfolding classify upstream_cause
  IsRight-classify causes v exact = elim (Bool-cases (contains (to_set down_set) v)) [
    | inr up ↦ rw up (inl (sym (contains-to_set down_set v) ∙ up, refl))
    | inl fallen ↦ elim (Bool-cases (contains causes v)) [
      | inl top ↦ rw (fallen, top) (inr (inl (((exact v).0 top).0, ((exact v).0 top).1, refl)))
      | inr behind ↦
          let at : contains down_set v ≡ true = sym (contains-to_set down_set v) ∙ fallen in
          let cause = upstream_cause g v (to_set roots) causes in
          rw (fallen, behind)
            (inr (
              inr (
                at,
                λ top. not_both (sym behind ∙ (exact v).1 (at, top)),
                cause,
                refl,
                cause_on-IsUpstream causes v (path_to_root g v (to_set roots)) exact
                    (path_to_root-IsAnswer g v (to_set roots)),
              )))
    ]
  ]

  pub lookup-correlate :
      (result : Dict Verdict) × (causes : List String) × (correlate g down_set roots ≡ some result)
      × AreCauses causes
      × ((v : String)
          → lookup v result ≡ (
              if contains (to_set down_set) v
              then some (classify g (to_set roots) causes v)
              else none))
  unfolding correlate lookup
  lookup-correlate =
      let (causes, found, exact) = found_causes in
      (
        classify_all g (to_set roots) causes (to_set down_set) [],
        causes,
        rw found refl,
        exact,
        lookup-classify_all g (to_set roots) causes (to_set down_set) [],
      )

  -- For every graph `correlate` returns. A node that is not down gets no entry; a topmost one is DOWN
  -- and its own cause; every other one is UNREACHABLE and suppressed, and its cause is the first topmost
  -- node after it on a walk from it to a root (none if the walk has none), or none if no walk from it
  -- leads to a root.
  pub correlate-IsRight :
      (result : Dict Verdict) × (correlate g down_set roots ≡ some result)
      × ((v : String) → IsRight g down_set roots v (lookup v result))
  correlate-IsRight =
      let (result, causes, e, exact, entry) = lookup-correlate in
      (result, e, λ v. rw (entry v) (IsRight-classify causes v exact))
