-- ===== src/Netdisco/Changes/Diff.antt =====
-- server/netdisco/changes.py: `diff` reports what differs, and nothing else.
use Prim.Native.String.{String}
use mathlib.Core.List.{Memᴰ}
use mathlib.Core.List.Memᴰ
use srp.Netdisco.Graph.{keys}
use srp.Netdisco.Changes.Maps.{
  last_node, AreLinked, link_keys-AreLinked, lookup-nodes_by_nid, keys-last_node, no_keys-last_node,
  no_link_keys-AreLinked,
}
use srp.Netdisco.Sorting.{Mem-sort}
use srp.Netdisco.Changes.Deltas.{
  Mem-missing_from, Mem-missing_pairs, Mem-node_deltas, Mem-changed_nodes,
}
use srp.Netdisco.Changes.{
  delta_leb, Node, Snapshot, Delta, appeared, disappeared, reclassified, ip_changed, link_added,
  link_removed, nodes_by_nid, link_keys, differ, missing_from, node_deltas, changed_nodes,
  missing_pairs, diff,
}
use srp.Prelude.{tenths, ◌≡◌, refl, sym, ◌∙◌, ◌≢◌, ◌↔◌, inl, inr, true, none, some, List, ◌++◌}

-- What is to be reported of two snapshots, read off their nodes and links.
pub data IsChange (prev curr : Snapshot) : Delta → Type 0 where
  appears :
      {nid : String}
      → last_node nid curr.nodes ≢ none
      → last_node nid prev.nodes ≡ none
      → IsChange prev curr (appeared nid)
  disappears :
      {nid : String}
      → last_node nid prev.nodes ≢ none
      → last_node nid curr.nodes ≡ none
      → IsChange prev curr (disappeared nid)
  turns :
      {nid : String} {before after : Node}
      → last_node nid prev.nodes ≡ some before
      → last_node nid curr.nodes ≡ some after
      → differ before.dev_type after.dev_type ≡ true
      → IsChange prev curr (reclassified nid before.dev_type after.dev_type)
  moves :
      {nid : String} {before after : Node}
      → last_node nid prev.nodes ≡ some before
      → last_node nid curr.nodes ≡ some after
      → differ before.ip after.ip ≡ true
      → IsChange prev curr (ip_changed nid before.ip after.ip)
  links :
      {a b : String}
      → AreLinked curr a b
      → ¬ (AreLinked prev a b)
      → IsChange prev curr (link_added a b)
  parts :
      {a b : String}
      → AreLinked prev a b
      → ¬ (AreLinked curr a b)
      → IsChange prev curr (link_removed a b)

-- What the five loops report, before the sort.
abbrev found : Snapshot → Snapshot → List Delta
found prev curr =
    missing_from appeared (nodes_by_nid prev) (keys (nodes_by_nid curr))
    ++ (missing_from disappeared (nodes_by_nid curr) (keys (nodes_by_nid prev))
        ++ (changed_nodes (nodes_by_nid prev) (nodes_by_nid curr) (keys (nodes_by_nid curr))
            ++ (missing_pairs link_added (link_keys prev) (link_keys curr)
                ++ missing_pairs link_removed (link_keys curr) (link_keys prev))))

new_node :
    (prev curr : Snapshot) (d : Delta)
    → Memᴰ d (missing_from appeared (nodes_by_nid prev) (keys (nodes_by_nid curr)))
    → IsChange prev curr d
new_node prev curr d m =
    let (nid, is_in, out, q) =
      (Mem-missing_from appeared (nodes_by_nid prev) (keys (nodes_by_nid curr)) d).0 m in
    rw q (appears ((keys-last_node curr nid).0 is_in) ((no_keys-last_node prev nid).0 out))

old_node :
    (prev curr : Snapshot) (d : Delta)
    → Memᴰ d (missing_from disappeared (nodes_by_nid curr) (keys (nodes_by_nid prev)))
    → IsChange prev curr d
old_node prev curr d m =
    let (nid, is_in, out, q) =
      (Mem-missing_from disappeared (nodes_by_nid curr) (keys (nodes_by_nid prev)) d).0 m in
    rw q (disappears ((keys-last_node prev nid).0 is_in) ((no_keys-last_node curr nid).0 out))

new_link :
    (prev curr : Snapshot) (d : Delta)
    → Memᴰ d (missing_pairs link_added (link_keys prev) (link_keys curr))
    → IsChange prev curr d
new_link prev curr d m =
    let (a, b, is_in, out, q) =
      (Mem-missing_pairs link_added (link_keys prev) (link_keys curr) d).0 m in
    rw q (links ((link_keys-AreLinked curr a b).0 is_in) ((no_link_keys-AreLinked prev a b).0 out))

old_link :
    (prev curr : Snapshot) (d : Delta)
    → Memᴰ d (missing_pairs link_removed (link_keys curr) (link_keys prev))
    → IsChange prev curr d
old_link prev curr d m =
    let (a, b, is_in, out, q) =
      (Mem-missing_pairs link_removed (link_keys curr) (link_keys prev) d).0 m in
    rw q (parts ((link_keys-AreLinked prev a b).0 is_in) ((no_link_keys-AreLinked curr a b).0 out))

changed_node :
    (prev curr : Snapshot) (d : Delta)
    → Memᴰ d (changed_nodes (nodes_by_nid prev) (nodes_by_nid curr) (keys (nodes_by_nid curr)))
    → IsChange prev curr d
changed_node prev curr d m =
    let (nid, before, after, is_in, p, q, k) =
      (Mem-changed_nodes (nodes_by_nid prev) (nodes_by_nid curr) (keys (nodes_by_nid curr)) d).0
        m in
    let was = sym (lookup-nodes_by_nid prev nid) ∙ p in
    let is = sym (lookup-nodes_by_nid curr nid) ∙ q in
    elim ((Mem-node_deltas nid before after d).0 k) [
      | inl h ↦ rw h.1 (turns was is h.0)
      | inr h ↦ rw h.1 (moves was is h.0)
    ]

found-sound : (prev curr : Snapshot) (d : Delta) → Memᴰ d (found prev curr) → IsChange prev curr d
found-sound prev curr d m =
    let before = nodes_by_nid prev in
    let after = nodes_by_nid curr in
    elim (Memᴰ.append_cases (missing_from appeared before (keys after)) m) [
      | inl n ↦ new_node prev curr d n
      | inr n ↦ elim (Memᴰ.append_cases (missing_from disappeared after (keys before)) n) [
        | inl k ↦ old_node prev curr d k
        | inr k ↦ elim (Memᴰ.append_cases (changed_nodes before after (keys after)) k) [
          | inl j ↦ changed_node prev curr d j
          | inr j ↦
              elim (Memᴰ.append_cases (missing_pairs link_added (link_keys prev) (link_keys curr))
                j) [ inl i ↦ new_link prev curr d i | inr i ↦ old_link prev curr d i ]
        ]
      ]
    ]

in_second {ℓ} :
    {A : Type ℓ} {x : A} (xs : List A) {bs : List A} (cs : List A)
    → Memᴰ x bs
    → Memᴰ x (xs ++ (bs ++ cs))
in_second xs cs m = Memᴰ.append_right xs (Memᴰ.append_left cs m)

found-changed :
    (prev curr : Snapshot) (d : Delta)
    → Memᴰ d (changed_nodes (nodes_by_nid prev) (nodes_by_nid curr) (keys (nodes_by_nid curr)))
    → Memᴰ d (found prev curr)
found-changed prev curr d m =
    Memᴰ.append_right (missing_from appeared (nodes_by_nid prev) (keys (nodes_by_nid curr))) (
      Memᴰ.append_right (missing_from disappeared (nodes_by_nid curr) (keys (nodes_by_nid prev)))
        (Memᴰ.append_left _ m))

found-links :
    (prev curr : Snapshot) (d : Delta)
    → Memᴰ d (
        missing_pairs link_added (link_keys prev) (link_keys curr)
        ++ missing_pairs link_removed (link_keys curr) (link_keys prev))
    → Memᴰ d (found prev curr)
found-links prev curr d m =
    Memᴰ.append_right (missing_from appeared (nodes_by_nid prev) (keys (nodes_by_nid curr))) (
      Memᴰ.append_right (missing_from disappeared (nodes_by_nid curr) (keys (nodes_by_nid prev))) (
        Memᴰ.append_right
          (changed_nodes (nodes_by_nid prev) (nodes_by_nid curr) (keys (nodes_by_nid curr))) m))

-- A node of both snapshots, and what differs of it.
both_nodes :
    (prev curr : Snapshot) (nid : String) (before after : Node) (d : Delta)
    → last_node nid prev.nodes ≡ some before
    → last_node nid curr.nodes ≡ some after
    → Memᴰ d (node_deltas nid before after)
    → Memᴰ d (found prev curr)
both_nodes prev curr nid before after d p q m = found-changed prev curr d (
    (Mem-changed_nodes (nodes_by_nid prev) (nodes_by_nid curr) (keys (nodes_by_nid curr)) d).1 (
      nid,
      before,
      after,
      (keys-last_node curr nid).1 (λ e. cc (q, e)),
      lookup-nodes_by_nid prev nid ∙ p,
      lookup-nodes_by_nid curr nid ∙ q,
      m,
    ))

found-complete :
    (prev curr : Snapshot) (d : Delta) → IsChange prev curr d → Memᴰ d (found prev curr)
found-complete prev curr d (appears {nid} is was) = Memᴰ.append_left _ (
    (Mem-missing_from appeared (nodes_by_nid prev) (keys (nodes_by_nid curr)) d).1
      (nid, (keys-last_node curr nid).1 is, (no_keys-last_node prev nid).1 was, refl))
found-complete prev curr d (disappears {nid} was is) =
    in_second (missing_from appeared (nodes_by_nid prev) (keys (nodes_by_nid curr))) _ (
      (Mem-missing_from disappeared (nodes_by_nid curr) (keys (nodes_by_nid prev)) d).1
        (nid, (keys-last_node prev nid).1 was, (no_keys-last_node curr nid).1 is, refl))
found-complete prev curr d (turns {nid} {before} {after} was is differs) =
    both_nodes prev curr nid before after d was is
      ((Mem-node_deltas nid before after d).1 (inl (differs, refl)))
found-complete prev curr d (moves {nid} {before} {after} was is differs) =
    both_nodes prev curr nid before after d was is
      ((Mem-node_deltas nid before after d).1 (inr (differs, refl)))
found-complete prev curr d (links {a} {b} is was) = found-links prev curr d (
    Memᴰ.append_left _ (
      (Mem-missing_pairs link_added (link_keys prev) (link_keys curr) d).1
        (a, b, (link_keys-AreLinked curr a b).1 is, (no_link_keys-AreLinked prev a b).1 was, refl)))
found-complete prev curr d (parts {a} {b} was is) = found-links prev curr d (
    Memᴰ.append_right (missing_pairs link_added (link_keys prev) (link_keys curr)) (
      (Mem-missing_pairs link_removed (link_keys curr) (link_keys prev) d).1
        (a, b, (link_keys-AreLinked prev a b).1 was, (no_link_keys-AreLinked curr a b).1 is, refl)))

-- A delta is reported of two snapshots if and only if it is a change between them: a device that is the
-- last of its id in one and whose id is not in the other, one whose last nodes differ in type or in
-- address, and a pair of devices that are linked in one and not in the other.
pub diff-IsChange :
    (prev curr : Snapshot) (d : Delta) → Memᴰ d (diff prev curr) ↔ IsChange prev curr d
unfolding diff
diff-IsChange prev curr d =
    let sorted = Mem-sort delta_leb d (found prev curr) in
    (
      λ m. found-sound prev curr d (sorted.0 m),
      λ change. sorted.1 (found-complete prev curr d change),
    )

appears-none :
    (prev curr : Snapshot) (nid : String)
    → IsChange prev curr (appeared nid)
    → last_node nid prev.nodes ≡ none
appears-none prev curr nid (appears is was) = was

disappears-none :
    (prev curr : Snapshot) (nid : String)
    → IsChange prev curr (disappeared nid)
    → last_node nid curr.nodes ≡ none
disappears-none prev curr nid (disappears was is) = is

-- A change of address is never reported as a device that has gone and one that has come: no delta of
-- either kind is about a device that is in both snapshots.
pub diff-both :
    (prev curr : Snapshot) (nid : String)
    → last_node nid prev.nodes ≢ none
    → last_node nid curr.nodes ≢ none
    → (¬ (Memᴰ (appeared nid) (diff prev curr))) × (¬ (Memᴰ (disappeared nid) (diff prev curr)))
diff-both prev curr nid was is = (
  λ m. was (appears-none prev curr nid ((diff-IsChange prev curr (appeared nid)).0 m)),
  λ m. is (disappears-none prev curr nid ((diff-IsChange prev curr (disappeared nid)).0 m)),
)
