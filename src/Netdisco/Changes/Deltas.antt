-- ===== src/Netdisco/Changes/Deltas.antt =====
-- server/netdisco/changes.py: what each of the loops of `diff` reports.
use Prim.Native.String.{String}
use text.Mathlib.Text.{◌==◌ as str_eq}
use text.Mathlib.TextEquality.{eq_iff}
use mathlib.Core.Path.{subst}
use mathlib.Core.List.{Memᴰ}
use mathlib.Core.List.Memᴰ
use srp.Texts.{Dict, lookup}
use srp.Netdisco.Sets.{contains, contains_cong}
use srp.Netdisco.Graph.{keys}
use srp.Netdisco.Changes.Maps.{ends_cong}
use srp.Netdisco.Changes.{
  Node, Delta, reclassified, ip_changed, has_pair, differ, missing_from, node_deltas, both_deltas,
  changed_nodes, missing_pairs,
}
use srp.Prelude.{
  if◌then◌else◌, Bool-cases, tenths, ◌≡◌, refl, sym, ap, ◌∙◌, ◌↔◌, ◌⊎◌, inl, inr, Bool, true, false,
  ◌&&◌, Option, none, some, List, [], ◌∷◌, arith,
}

pub Mem-missing_from :
    (delta : String → Delta) (other : Dict Node) (nids : List String) (d : Delta)
    → Memᴰ d (missing_from delta other nids) ↔ (
        (nid : String) × (contains nids nid ≡ true)
        × (contains (keys other) nid ≡ false)
        × (d ≡ delta nid))
unfolding missing_from contains
Mem-missing_from delta other [] d = (λ m. absurd (Memᴰ.not-nil m), λ (k, is_in, out, q). cc is_in)
Mem-missing_from delta other (nid ∷ nids) d =
    let rest = Mem-missing_from delta other nids d in
    elim (Bool-cases (contains (keys other) nid)) [
      | inl known ↦ rw known (
        λ m. let (k, is_in, out, q) = rest.0 m in (k, ground (arith, is_in), out, q),
        λ (k, is_in, out, q).
            rest.1 (k, ground (arith, is_in, out, known, contains_cong (keys other) nid k), out, q),
      )
      | inr unknown ↦ rw unknown (
        λ m. elim (Memᴰ.cases_cons m) [
          | inl q ↦ (nid, ground (arith, eq_iff nid nid), unknown, q)
          | inr n ↦ let (k, is_in, out, q) = rest.0 n in (k, ground (arith, is_in), out, q)
        ],
        λ (k, is_in, out, q). elim (Bool-cases (str_eq nid k)) [
          | inl same ↦ Memᴰ.head (q ∙ ap delta (sym ((eq_iff nid k).0 same)))
          | inr other_one ↦ Memᴰ.tail (rest.1 (k, ground (arith, is_in, other_one), out, q))
        ],
      )
    ]

pub Mem-missing_pairs :
    (delta : String → String → Delta) (other pairs : List (String × String)) (d : Delta)
    → Memᴰ d (missing_pairs delta other pairs) ↔ (
        (a b : String) × (has_pair pairs a b ≡ true)
        × (has_pair other a b ≡ false)
        × (d ≡ delta a b))
unfolding missing_pairs has_pair
Mem-missing_pairs delta other [] d =
    (λ m. absurd (Memᴰ.not-nil m), λ (x, y, is_in, out, q). cc is_in)
Mem-missing_pairs delta other ((a, b) ∷ pairs) d =
    let rest = Mem-missing_pairs delta other pairs d in
    elim (Bool-cases (has_pair other a b)) [
      | inl known ↦ rw known (
        λ m. let (x, y, is_in, out, q) = rest.0 m in (x, y, ground (arith, is_in), out, q),
        λ (x, y, is_in, out, q).
            rest.1
              (x, y, ground (arith, is_in, out, known, ends_cong (has_pair other) a b x y), out, q),
      )
      | inr unknown ↦ rw unknown (
        λ m. elim (Memᴰ.cases_cons m) [
          | inl q ↦ (a, b, ground (arith, eq_iff a a, eq_iff b b), unknown, q)
          | inr n ↦ let (x, y, is_in, out, q) = rest.0 n in (x, y, ground (arith, is_in), out, q)
        ],
        λ (x, y, is_in, out, q). elim (Bool-cases (str_eq a x && str_eq b y)) [
          | inl same ↦ Memᴰ.head (q ∙ sym (ends_cong delta a b x y same))
          | inr another ↦ Memᴰ.tail (rest.1 (x, y, ground (arith, is_in, another), out, q))
        ],
      )
    ]

Mem-if :
    (c : Bool) (x d : Delta) (rest : List Delta)
    → Memᴰ d (if c then x ∷ rest else rest) ↔ (((c ≡ true) × (d ≡ x)) ⊎ Memᴰ d rest)
Mem-if true x d rest = (
  λ m. elim (Memᴰ.cases_cons m) [ inl q ↦ inl (refl, q) | inr n ↦ inr n ],
  λ c. elim c [ inl h ↦ Memᴰ.head h.1 | inr n ↦ Memᴰ.tail n ],
)
Mem-if false x d rest = (inr, λ c. elim c [ inl h ↦ cc h.0 | inr n ↦ n ])

pub Mem-node_deltas :
    (nid : String) (before after : Node) (d : Delta)
    → Memᴰ d (node_deltas nid before after) ↔ (
        ((differ before.dev_type after.dev_type ≡ true)
          × (d ≡ reclassified nid before.dev_type after.dev_type))
        ⊎ ((differ before.ip after.ip ≡ true) × (d ≡ ip_changed nid before.ip after.ip)))
Mem-node_deltas nid before after d =
    let moved = if differ before.ip after.ip then ip_changed nid before.ip after.ip ∷ [] else [] in
    let turn =
      Mem-if (differ before.dev_type after.dev_type)
        (reclassified nid before.dev_type after.dev_type) d moved in
    let move = Mem-if (differ before.ip after.ip) (ip_changed nid before.ip after.ip) d [] in
    (
      λ m. elim (turn.0 m) [
        | inl h ↦ inl h
        | inr n ↦ elim (move.0 n) [ inl h ↦ inr h | inr k ↦ absurd (Memᴰ.not-nil k) ]
      ],
      λ c. elim c [ inl h ↦ turn.1 (inl h) | inr h ↦ turn.1 (inr (move.1 (inl h))) ],
    )

both_deltas_of :
    (nid : String) (ob oa : Option Node) (d : Delta) (before after : Node)
    → ob ≡ some before
    → oa ≡ some after
    → Memᴰ d (node_deltas nid before after)
    → Memᴰ d (both_deltas nid ob oa)
both_deltas_of nid ob oa d before after p q m = rw (p, q) m

Mem-both_deltas :
    (nid : String) (ob oa : Option Node) (d : Delta)
    → Memᴰ d (both_deltas nid ob oa) ↔ (
        (before after : Node) × (ob ≡ some before)
        × (oa ≡ some after)
        × Memᴰ d (node_deltas nid before after))
Mem-both_deltas nid none oa d = (λ m. absurd (Memᴰ.not-nil m), λ (before, after, p, q, m). cc p)
Mem-both_deltas nid (some x) none d =
    (λ m. absurd (Memᴰ.not-nil m), λ (before, after, p, q, m). cc q)
Mem-both_deltas nid (some x) (some y) d = (
  λ m. (x, y, refl, refl, m),
  λ (before, after, p, q, m). both_deltas_of nid (some x) (some y) d before after p q m,
)

pub Mem-changed_nodes :
    (prev curr : Dict Node) (nids : List String) (d : Delta)
    → Memᴰ d (changed_nodes prev curr nids) ↔ (
        (nid : String) × (before after : Node) × (contains nids nid ≡ true)
        × (lookup nid prev ≡ some before)
        × (lookup nid curr ≡ some after)
        × Memᴰ d (node_deltas nid before after))
unfolding changed_nodes contains
Mem-changed_nodes prev curr [] d =
    (λ m. absurd (Memᴰ.not-nil m), λ (nid, before, after, is_in, p, q, m). cc is_in)
Mem-changed_nodes prev curr (nid ∷ nids) d =
    let rest = Mem-changed_nodes prev curr nids d in
    let here = Mem-both_deltas nid (lookup nid prev) (lookup nid curr) d in
    (
      λ m. elim (Memᴰ.append_cases (both_deltas nid (lookup nid prev) (lookup nid curr)) m) [
        | inl n ↦
            let (before, after, p, q, k) = here.0 n in
            (nid, before, after, ground (arith, eq_iff nid nid), p, q, k)
        | inr n ↦
            let (j, before, after, is_in, p, q, k) = rest.0 n in
            (j, before, after, ground (arith, is_in), p, q, k)
      ],
      λ (j, before, after, is_in, p, q, k). elim (Bool-cases (str_eq nid j)) [
        | inl same ↦ Memᴰ.append_left (changed_nodes prev curr nids) (
            subst (λ z. Memᴰ d (both_deltas z (lookup z prev) (lookup z curr)))
              (sym ((eq_iff nid j).0 same))
              (both_deltas_of j (lookup j prev) (lookup j curr) d before after p q k))
        | inr another ↦
            Memᴰ.append_right (both_deltas nid (lookup nid prev) (lookup nid curr))
              (rest.1 (j, before, after, ground (arith, is_in, another), p, q, k))
      ],
    )
