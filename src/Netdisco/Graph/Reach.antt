-- ===== src/Netdisco/Graph/Reach.antt =====
-- server/netdisco/graph.py: what `reachable_from` finds.
use Prim.Native.String.{String}
use text.Mathlib.TextEquality.{eq_iff}
use srp.Netdisco.Sets.{contains, contains-append}
use srp.Netdisco.Graph.{
  Graph, Search, enter, offer_all, offer_roots, search_up, all_nodes, reachable_from, neighbors,
  is_known,
}
use srp.Netdisco.Graph.Unseen.{
  unseen, IsPart, contains-singleton, unseen-append, unseen-nil, all_nodes-keys, all_nodes-rows,
}
use srp.Prelude.{
  Bool-cases, tenths, length, length-append, ℕ, zero, suc, ◌+◌, ◌≤◌, ◌≡◌, refl, ap, ◌↔◌, ◌⊎◌, inl,
  inr, true, false, not, ◌||◌, some, List, [], ◌∷◌, arith,
}

-- The walks from a root that enter no blocked node.
pub data Reach (g : Graph) (roots : List String) (blocked : List String) : String → Type 0 where
  from :
      {v : String}
      → contains roots v ≡ true
      → is_known g v ≡ true
      → contains blocked v ≡ false
      → Reach g roots blocked v
  hop :
      {u v : String}
      → Reach g roots blocked u
      → contains (neighbors g u) v ≡ true
      → contains blocked v ≡ false
      → Reach g roots blocked v

abbrev work : List String → Search → ℕ
work all s = unseen s.seen all + length s.queue

work-enter :
    (all : List String) (v : String) (s : Search)
    → contains s.seen v ≡ false
    → contains all v ≡ true
    → work all (enter v s) ≤ work all s
unfolding enter
work-enter all v s new known =
    omega (arith, unseen-append s.seen v all new known, length-append s.queue (v ∷ []))

work-offer_all :
    (all blocked nbrs : List String) (s : Search)
    → IsPart nbrs all
    → work all (offer_all blocked nbrs s) ≤ work all s
unfolding offer_all contains
work-offer_all all blocked [] s part = omega arith
work-offer_all all blocked (nbr ∷ nbrs) s part =
    elim (Bool-cases (contains s.seen nbr || contains blocked nbr)) [
      | inl skipped ↦ rw (offer_all, skipped) (work-offer_all all blocked nbrs s later)
      | inr entered ↦
          rw (offer_all, entered)
            (omega (
              arith,
              work-offer_all all blocked nbrs (enter nbr s) later,
              work-enter all nbr s (ground arith) (part nbr (ground (arith, eq_iff nbr nbr))),
            ))
    ]
  where
    later : IsPart nbrs all
    later v h = part v (ground arith)

-- The members of the set after the loop over `nbrs`, and what it queues.
seen-offer_all :
    (blocked nbrs : List String) (s : Search) (w : String)
    → (contains (offer_all blocked nbrs s).seen w ≡ true)
      ↔ ((contains s.seen w ≡ true) ⊎ (contains nbrs w ≡ true) × (contains blocked w ≡ false))
unfolding contains offer_all enter
seen-offer_all blocked [] s w = ground arith
seen-offer_all blocked (nbr ∷ nbrs) s w =
    elim (Bool-cases (contains s.seen nbr || contains blocked nbr)) [
      | inl skipped ↦
          rw (offer_all, skipped)
            (ground (
              arith,
              seen-offer_all blocked nbrs s w,
              eq_iff nbr w,
              ap (contains s.seen),
              ap (contains blocked),
            ))
      | inr entered ↦
          rw (offer_all, entered)
            (ground (
              arith,
              seen-offer_all blocked nbrs (enter nbr s) w,
              contains-append s.seen (nbr ∷ []) w,
              contains-singleton nbr w,
              eq_iff nbr w,
              ap (contains blocked),
            ))
    ]

queue-offer_all :
    (blocked nbrs : List String) (s : Search) (w : String)
    → (contains (offer_all blocked nbrs s).queue w ≡ true) ↔ (
        (contains s.queue w ≡ true)
        ⊎ (contains s.seen w ≡ false) × (contains (offer_all blocked nbrs s).seen w ≡ true))
unfolding contains offer_all enter
queue-offer_all blocked [] s w = ground arith
queue-offer_all blocked (nbr ∷ nbrs) s w =
    elim (Bool-cases (contains s.seen nbr || contains blocked nbr)) [
      | inl skipped ↦ rw (offer_all, skipped) (queue-offer_all blocked nbrs s w)
      | inr entered ↦
          rw (offer_all, entered)
            (ground (
              arith,
              queue-offer_all blocked nbrs (enter nbr s) w,
              seen-offer_all blocked nbrs (enter nbr s) w,
              contains-append s.seen (nbr ∷ []) w,
              contains-append s.queue (nbr ∷ []) w,
              contains-singleton nbr w,
            ))
    ]

module _ (g : Graph) (blocked : List String) where
  is_known-nodes : (v : String) → is_known g v ≡ true → contains (all_nodes g.adjacency) v ≡ true
  unfolding is_known
  is_known-nodes v h = all_nodes-keys g.adjacency v (λ e. ground arith)

  seen-offer_roots :
      (roots : List String) (s : Search) (w : String)
      → (contains (offer_roots g blocked roots s).seen w ≡ true) ↔ (
          (contains s.seen w ≡ true)
          ⊎ (contains roots w ≡ true) × (is_known g w ≡ true) × (contains blocked w ≡ false))
  unfolding offer_roots enter contains
  seen-offer_roots [] s w = ground arith
  seen-offer_roots (root ∷ roots) s w =
      elim (Bool-cases (not (is_known g root) || contains blocked root || contains s.seen root)) [
        | inl skipped ↦
            rw (offer_roots, skipped)
              (ground (
                arith,
                seen-offer_roots roots s w,
                eq_iff root w,
                ap (contains s.seen),
                ap (contains blocked),
                ap (is_known g),
              ))
        | inr entered ↦
            rw (offer_roots, entered)
              (ground (
                arith,
                seen-offer_roots roots (enter root s) w,
                contains-append s.seen (root ∷ []) w,
                contains-singleton root w,
                eq_iff root w,
                ap (contains blocked),
                ap (is_known g),
              ))
      ]

  queue-offer_roots :
      (roots : List String) (s : Search)
      → s.queue ≡ s.seen
      → (offer_roots g blocked roots s).queue ≡ (offer_roots g blocked roots s).seen
  unfolding offer_roots enter
  queue-offer_roots [] s e = e
  queue-offer_roots (root ∷ roots) s e =
      elim (Bool-cases (not (is_known g root) || contains blocked root || contains s.seen root)) [
        | inl skipped ↦ rw (offer_roots, skipped) (queue-offer_roots roots s e)
        | inr entered ↦
            rw (offer_roots, entered) (queue-offer_roots roots (enter root s) (rw e refl))
      ]

  work-offer_roots :
      (roots : List String) (s : Search)
      → work (all_nodes g.adjacency) (offer_roots g blocked roots s)
        ≤ work (all_nodes g.adjacency) s
  unfolding offer_roots
  work-offer_roots [] s = omega arith
  work-offer_roots (root ∷ roots) s =
      elim (Bool-cases (not (is_known g root) || contains blocked root || contains s.seen root)) [
        | inl skipped ↦ rw (offer_roots, skipped) (work-offer_roots roots s)
        | inr entered ↦
            rw (offer_roots, entered)
              (omega (
                arith,
                work-offer_roots roots (enter root s),
                work-enter (all_nodes g.adjacency) root s (ground arith)
                    (is_known-nodes root (ground arith)),
              ))
      ]

  module _ (roots : List String) where
    record Inv (s : Search) : Type 0 where
      queued : IsPart s.queue s.seen
      sound : (v : String) → contains s.seen v ≡ true → Reach g roots blocked v
      closed :
          (u v : String)
          → contains s.seen u ≡ true
          → contains (neighbors g u) v ≡ true
          → contains blocked v ≡ false
          → (contains s.queue u ≡ true) ⊎ (contains s.seen v ≡ true)
      rooted :
          (v : String)
          → contains roots v ≡ true
          → is_known g v ≡ true
          → contains blocked v ≡ false
          → contains s.seen v ≡ true

    start : Search
    start = offer_roots g blocked roots (record { seen = []; queue = [] })

    Inv-start : Inv start
    unfolding start contains
    Inv-start =
        let seen_iff = seen-offer_roots roots (record { seen = []; queue = [] }) in
        let same = queue-offer_roots roots (record { seen = []; queue = [] }) refl in
        record {
          queued = λ v m. rw same at m;
          sound = λ v m. elim ((seen_iff v).0 m) [
            | inl no_member ↦ cc no_member
            | inr r ↦ from r.0 r.1 r.2
          ];
          closed = λ u v m n b. inl (rw same m);
          rooted = λ v r k b. (seen_iff v).1 (inr (r, k, b));
        }

    Inv-offer_all :
        (u : String) (seen queue : List String)
        → Inv (record { seen = seen; queue = u ∷ queue })
        → Inv (offer_all blocked (neighbors g u) (record { seen = seen; queue = queue }))
    unfolding contains
    Inv-offer_all u seen queue h =
        let s : Search = record { seen = seen; queue = queue } in
        let seen_iff = seen-offer_all blocked (neighbors g u) s in
        let queue_iff = queue-offer_all blocked (neighbors g u) s in
        let to_u = h.sound u (h.queued u (ground (arith, eq_iff u u))) in
        record {
          queued = λ v m. ground (arith, queue_iff v, seen_iff v, h.queued v);
          sound = λ v m. elim ((seen_iff v).0 m) [
            | inl old ↦ h.sound v old
            | inr new ↦ hop to_u new.0 new.1
          ];
          closed = λ x v m n b.
              ground (arith, seen_iff v, seen_iff x, queue_iff x, h.closed x v, eq_iff u x);
          rooted = λ v r k b. ground (arith, seen_iff v, h.rooted v r k b);
        }

    complete :
        (seen : List String)
        → Inv (record { seen = seen; queue = [] })
        → {v : String} → Reach g roots blocked v
        → contains seen v ≡ true
    complete seen h (from r k b) = h.rooted _ r k b
    complete seen h (hop {u} {v} p n b) = elim (h.closed u v (complete seen h p) n b) [
      | inl waiting ↦ unfold contains in cc
      | inr m ↦ m
    ]

    neighbors-nodes : (u : String) → IsPart (neighbors g u) (all_nodes g.adjacency)
    unfolding neighbors
    neighbors-nodes u = all_nodes-rows g.adjacency u

    search_up_lem :
        (fuel : ℕ) (seen queue : List String)
        → Inv (record { seen = seen; queue = queue })
        → work (all_nodes g.adjacency) (record { seen = seen; queue = queue }) ≤ fuel
        → (found : List String) × (search_up g blocked fuel (record { seen = seen; queue = queue })
            ≡ some found)
          × ((v : String) → (contains found v ≡ true) ↔ Reach g roots blocked v)
    unfolding search_up
    search_up_lem zero seen [] h w = (seen, refl, λ v. (h.sound v, complete seen h))
    search_up_lem zero seen (u ∷ queue) h w = absurd (omega arith)
    search_up_lem (suc fuel) seen [] h w = (seen, refl, λ v. (h.sound v, complete seen h))
    search_up_lem (suc fuel) seen (u ∷ queue) h w =
        let all = all_nodes g.adjacency in
        let s : Search = record { seen = seen; queue = queue } in
        let t = offer_all blocked (neighbors g u) s in
        let less : work all t ≤ fuel =
          omega (arith, work-offer_all all blocked (neighbors g u) s (neighbors-nodes u)) in
        search_up_lem fuel t.seen t.queue (Inv-offer_all u seen queue h) less

    -- For every graph the search ends, and it finds exactly the nodes that a walk from a root reaches
    -- without entering a blocked node.
    pub reachable_from-Reach :
        (found : List String) × (reachable_from g roots blocked ≡ some found)
        × ((v : String) → (contains found v ≡ true) ↔ Reach g roots blocked v)
    unfolding reachable_from start
    reachable_from-Reach =
        let s = start in
        search_up_lem (length (all_nodes g.adjacency)) s.seen s.queue Inv-start (
          omega (
            arith,
            unseen-nil (all_nodes g.adjacency),
            work-offer_roots roots (record { seen = []; queue = [] }),
          ))
