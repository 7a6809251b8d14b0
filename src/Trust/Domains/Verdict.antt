-- ===== src/Trust/Domains/Verdict.antt =====
-- When a domain is trusted, and on what its trust rests.
use Prim.Native.String.{String}
use mathlib.Core.Path.{subst}
use srp.Prelude.{
  Bool-cases, Floats, tenths, ◌≡◌, refl, sym, ap, ◌∙◌, ◌≢◌, ◌↔◌, inl, inr, true, Option, none, some,
  List, [], ◌∷◌, ◌++◌, arith,
}
use srp.Trust.States.{SourceTrust, passes_gate}
use srp.Trust.Domains.{
  domain_sources, DomainTrustState, trusted, Reason, Required, stop, pass, require, require_all,
  add_required, sort_one, sort_optional, conclude, by_spec, resolve_domain_trust,
}

module _ {F : Type 0} where
  require-pass :
      (name : String) (st : SourceTrust F) (rest : Required F)
      → passes_gate st ≡ true
      → require name (some st) rest ≡ add_required st.weight name rest
  unfolding require
  require-pass name st rest p = ground arith

  require-eq-pass :
      (name : String) (o : Option (SourceTrust F)) (rest : Required F) {ws : List F}
      {cs : List String}
      → require name o rest ≡ pass ws cs
      → (st : SourceTrust F) × (ws' : List F) × (cs' : List String) × (o ≡ some st)
        × (passes_gate st ≡ true)
        × (rest ≡ pass ws' cs')
        × (cs ≡ name ∷ cs')
  unfolding require
  require-eq-pass name none rest h = cc
  require-eq-pass name (some st) (stop s r) h =
      let impossible : ⊥ = ground arith in absurd impossible
  require-eq-pass name (some st) (pass ws' cs') h =
      (st, ws', cs', refl, ground arith, refl, ground arith)

  -- The loop stops with `trusted` nowhere.
  require-stop :
      (name : String) (o : Option (SourceTrust F)) (rest : Required F)
      → ((s : DomainTrustState) (r : Reason) → rest ≡ stop s r → s ≢ trusted)
      → (s : DomainTrustState) (r : Reason) → require name o rest ≡ stop s r
      → s ≢ trusted
  unfolding require
  require-stop name none rest h s r e = ground arith
  require-stop name (some st) (stop s' r') h s r e = ground (arith, h s' r' refl)
  require-stop name (some st) (pass ws cs) h s r e = ground arith

module _ {F : Type 0} (sources : String → Option (SourceTrust F)) where
  -- The source is reported, and passes the gate.
  abbrev pub IsPassing : String → Type 0
  IsPassing name = (st : SourceTrust F) × (sources name ≡ some st) × (passes_gate st ≡ true)

  abbrev pub ArePassing : List String → Type 0
  ArePassing [] = Unit
  ArePassing (name ∷ names) = IsPassing name × ArePassing names

  ArePassing-append : (xs ys : List String) → ArePassing xs → ArePassing ys → ArePassing (xs ++ ys)
  ArePassing-append [] ys h k = k
  ArePassing-append (x ∷ xs) ys h k = (h.0, ArePassing-append xs ys h.1 k)

  require_all-pass :
      (names : List String)
      → ArePassing names
      → (ws : List F) × (require_all names sources ≡ pass ws names)
  unfolding require_all
  require_all-pass [] h = ([], refl)
  require_all-pass (name ∷ names) ((st, e, p), h) =
      let (ws, r) = require_all-pass names h in
      (st.weight ∷ ws, rw (e, require-pass name st (require_all names sources) p, r))

  require_all-ArePassing :
      (names : List String) {ws : List F} {cs : List String}
      → require_all names sources ≡ pass ws cs
      → (cs ≡ names) × ArePassing names
  unfolding require_all
  require_all-ArePassing [] h = (cc, tt)
  require_all-ArePassing (name ∷ names) h =
      let (st, ws, cs, e, p, r, shape) =
        require-eq-pass name (sources name) (require_all names sources) h in
      let (same, all) = require_all-ArePassing names r in
      (shape ∙ ap (λ l. name ∷ l) same, ((st, e, p), all))

  require_all-stop :
      (names : List String) (s : DomainTrustState) (r : Reason)
      → require_all names sources ≡ stop s r
      → s ≢ trusted
  unfolding require_all
  require_all-stop [] s r e = ground arith
  require_all-stop (name ∷ names) s r e =
      require-stop name (sources name) (require_all names sources) (require_all-stop names) s r e

  sort_one-ArePassing :
      (name : String) (o : Option (SourceTrust F))
      → sources name ≡ o
      → (rest : List String × List String) → ArePassing rest.0
      → ArePassing (sort_one name o rest).0
  sort_one-ArePassing name none e rest h = h
  sort_one-ArePassing name (some st) e rest h = elim (Bool-cases (passes_gate st)) [
    | inl good ↦ rw good ((st, e, good), h)
    | inr bad ↦ rw bad h
  ]

  sort_optional-ArePassing : (names : List String) → ArePassing (sort_optional names sources).0
  unfolding sort_optional
  sort_optional-ArePassing [] = tt
  sort_optional-ArePassing (name ∷ names) =
      sort_one-ArePassing name (sources name) refl (sort_optional names sources)
        (sort_optional-ArePassing names)

module _ {F : Type 0} ⦃fl : Floats F⦄ (sources : String → Option (SourceTrust F))
    (domain : String) where
  conclude-ArePassing :
      (required optional : List String) (r : Required F)
      → require_all required sources ≡ r
      → ArePassing sources (conclude domain optional sources r).contributing
  unfolding conclude
  conclude-ArePassing required optional (stop s r) e = tt
  conclude-ArePassing required optional (pass ws names) e =
      let (same, all) = require_all-ArePassing sources required e in
      ArePassing-append sources names _ (subst (ArePassing sources) (sym same) all)
        (sort_optional-ArePassing sources optional)

  by_spec-ArePassing :
      (spec : Option (List String × List String))
      → ArePassing sources (by_spec domain sources spec).contributing
  by_spec-ArePassing none = tt
  by_spec-ArePassing (some (required, optional)) = conclude-ArePassing required optional _ refl

  -- Whatever is reported, the sources that a domain's trust lists as contributing are all reported
  -- and pass the gate.
  pub resolve_domain_trust-ArePassing :
      ArePassing sources (resolve_domain_trust domain sources).contributing
  unfolding resolve_domain_trust
  resolve_domain_trust-ArePassing = by_spec-ArePassing (domain_sources domain)

  conclude-trusted :
      (required optional : List String) (r : Required F)
      → require_all required sources ≡ r
      → (conclude domain optional sources r).state ≡ trusted
      → ArePassing sources required
  unfolding conclude
  conclude-trusted required optional (stop s r) e h =
      absurd (require_all-stop sources required s r e h)
  conclude-trusted required optional (pass ws names) e h =
      (require_all-ArePassing sources required e).1

  -- A domain is trusted exactly when every source that it requires is reported and passes the gate.
  pub resolve_domain_trust-trusted_iff :
      (required optional : List String)
      → domain_sources domain ≡ some (required, optional)
      → ((resolve_domain_trust domain sources).state ≡ trusted) ↔ ArePassing sources required
  unfolding resolve_domain_trust
  resolve_domain_trust-trusted_iff required optional e = (
    λ h. conclude-trusted required optional _ refl (rw e at h),
    λ all.
        let (ws, r) = require_all-pass sources required all in rw (e, r) (unfold conclude in refl),
  )
