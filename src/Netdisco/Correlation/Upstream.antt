-- ===== src/Netdisco/Correlation/Upstream.antt =====
-- server/netdisco/correlation.py: when a cause is found upstream.
use Prim.Native.String.{String}
use text.Mathlib.TextEquality.{eq_iff}
use mathlib.Core.Path.{subst}
use srp.Texts.{Dict, lookup}
use srp.Netdisco.Sets.{contains, to_set, contains-append, contains-to_set}
use srp.Netdisco.Graph.{Graph, Found, path_of, no_path, broken, path_to_root}
use srp.Netdisco.Graph.Reach.{Reach, from, hop}
use srp.Netdisco.Graph.Build.{IsUndirected}
use srp.Netdisco.Graph.Trace.{Walk, here, next}
use srp.Netdisco.Graph.Paths.{IsAnswer, path_to_root-IsAnswer}
use srp.Netdisco.Correlation.{
  Verdict, down, unreachable, cause_on, upstream_cause, classify, correlate,
}
use srp.Netdisco.Correlation.Causes.{IsTopmost}
use srp.Netdisco.Correlation.Verdicts.{first_in-none, lookup-correlate, AreCauses, not_both}
use srp.Prelude.{
  if◌then◌else◌, Bool-cases, tenths, drop, ◌≡◌, refl, sym, ap, ◌∙◌, ◌⊎◌, inl, inr, Bool, true,
  false, Option, none, some, List, [], ◌∷◌, ◌++◌, arith,
}

-- The entry of a node that is called UNREACHABLE without a cause.
entry_open :
    (fallen top : Bool) (x : String) (cause : Option String)
    → (if fallen
        then some (
            if◌then◌else◌ {A = Verdict} top
              (record { status = down; root_cause = some x; suppressed = false })
              (record { status = unreachable; root_cause = cause; suppressed = true }))
        else none)
      ≡ some (record { status = unreachable; root_cause = none; suppressed = true })
    → (fallen ≡ true) × (top ≡ false) × (cause ≡ none)
entry_open true true x cause h = cc h
entry_open true false x cause h = (refl, refl, cc h)
entry_open false top x cause h = cc h

contains-cons :
    (x : String) (xs : List String) (c : String)
    → contains (x ∷ xs) c ≡ true
    → (x ≡ c) ⊎ (contains xs c ≡ true)
unfolding contains
contains-cons x xs c h = ground (arith, eq_iff x c)

module _ (g : Graph) (down_set roots : List String) where
  Reach-clear : {v : String} → Reach g roots down_set v → contains down_set v ≡ false
  Reach-clear (from m k o) = o
  Reach-clear (hop p n o) = o

  -- A walk ends at its last node.
  contains-Walk : {x v : String} {path : List String} → Walk g x v path → contains path v ≡ true
  unfolding contains
  contains-Walk {x} here = ground (arith, eq_iff x x)
  contains-Walk (next {u} {v} {path} w n) =
      ground (arith, contains-append path (v ∷ []) v, eq_iff v v)

  Walk-first : {x v : String} {path : List String} → Walk g x v path → path ≡ x ∷ drop 1 path
  Walk-first here = refl
  Walk-first (next {u} {v} {path} w n) = rw (Walk-first w) refl

  earlier :
      (path : List String) (v w : String)
      → contains path w ≡ true
      → contains (path ++ v ∷ []) w ≡ true
  earlier path v w m = ground (arith, contains-append path (v ∷ []) w)

  abbrev HasCause : List String → Type 0
  HasCause path =
      (c : String) × (contains path c ≡ true)
      × (contains down_set c ≡ true)
      × IsTopmost g down_set roots c

  -- From a node that a root reaches, back along a walk: all of it is reached, or a cause is passed.
  Walk-HasCause :
      IsUndirected g
      → {x v : String} {path : List String} → Walk g x v path
      → Reach g roots down_set v
      → Reach g roots down_set x ⊎ HasCause path
  Walk-HasCause un here r = inl r
  Walk-HasCause un (next {u} {v} {path} w n) r = elim (Bool-cases (contains down_set u)) [
    | inl fallen ↦ inr (u, earlier path v u (contains-Walk w), fallen, inr (v, n, r))
    | inr up ↦ elim (Walk-HasCause un w (hop r (un.symmetric u v n) up)) [
      | inl reached ↦ inl reached
      | inr (c, m, fallen, top) ↦ inr (c, earlier path v c m, fallen, top)
    ]
  ]

  -- The start of the walk from a root's side: a root that is down is a cause itself.
  root-HasCause :
      IsUndirected g
      → {x v : String} {path : List String} → Walk g x v path
      → contains roots v ≡ true
      → contains down_set x ≡ true
      → ¬ IsTopmost g down_set roots x
      → HasCause path
  root-HasCause un here r fallen low = absurd (low (inl r))
  root-HasCause un (next {u} {v} {path} w n) r fallen low =
      elim (Bool-cases (contains down_set v)) [
        | inl down_root ↦ (v, contains-Walk (next w n), down_root, inl r)
        | inr up ↦ elim (Walk-HasCause un (next w n) (from r (un.known u v n) up)) [
          | inl reached ↦ absurd (not_both (sym (Reach-clear reached) ∙ fallen))
          | inr cause ↦ cause
        ]
      ]

  no_cause_on :
      IsUndirected g
      → (causes : List String) (x : String) (found : Found) → AreCauses g down_set roots causes
      → contains down_set x ≡ true
      → contains causes x ≡ false
      → IsAnswer g (to_set roots) x found
      → cause_on causes found ≡ none
      → (root : String) (path : List String) → contains roots root ≡ true
      → ¬ Walk g x root path
  no_cause_on un causes x (path_of way) exact fallen behind (root, m, w) none_on _ _ _ _ =
      let (c, on, c_fallen, top) =
        root-HasCause un w (sym (contains-to_set roots root) ∙ m) fallen
          (λ top. not_both (sym behind ∙ (exact x).1 (fallen, top))) in
      let is_cause = (exact c).1 (c_fallen, top) in
      behind_it c is_cause (subst (λ p. contains p c ≡ true) (Walk-first w) on)
    where
      behind_it : (c : String) → contains causes c ≡ true → contains (x ∷ drop 1 way) c ≡ true → ⊥
      behind_it c is_cause on = elim (contains-cons x (drop 1 way) c on) [
        | inl same ↦ not_both (sym behind ∙ (ap (contains causes) same ∙ is_cause))
        | inr later ↦ not_both (sym (first_in-none causes (drop 1 way) c none_on later) ∙ is_cause)
      ]
  no_cause_on un causes x no_path exact fallen behind a none_on root path r w =
      a root path (contains-to_set roots root ∙ r) w
  no_cause_on un causes x broken exact fallen behind a none_on root path r w = a

  -- On a graph whose edges stand on both sides, a node is called UNREACHABLE without a cause only if
  -- no walk leads from it to a root.
  pub correlate_stranded :
      (result : Dict Verdict) (x : String)
      → IsUndirected g
      → correlate g down_set roots ≡ some result
      → lookup x result
        ≡ some (record { status = unreachable; root_cause = none; suppressed = true })
      → (root : String) (path : List String) → contains roots root ≡ true
      → ¬ Walk g x root path
  unfolding classify upstream_cause
  correlate_stranded result x un h e =
      let (other, causes, returned, exact, entry) = lookup-correlate g down_set roots in
      let same : result ≡ other = cc (sym h ∙ returned) in
      let shown = sym (entry x) ∙ (sym (ap (lookup x) same) ∙ e) in
      let (fallen, behind, none_on) =
        entry_open (contains (to_set down_set) x) (contains causes x) x
          (upstream_cause g x (to_set roots) causes) shown in
      no_cause_on un causes x (path_to_root g x (to_set roots)) exact
        (sym (contains-to_set down_set x) ∙ fallen) behind
        (path_to_root-IsAnswer g x (to_set roots)) none_on
