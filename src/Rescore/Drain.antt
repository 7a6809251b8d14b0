-- ===== src/Rescore/Drain.antt =====
-- The worker empties the queue when nothing more is submitted.
use Prim.Native.String.{String}
use text.Mathlib.TextPositions.{eq_refl}
use mathlib.Core.Path.{subst}
use srp.Prelude.{
  ◌==◌, tenths, length, ℕ, zero, suc, ◌+◌, ◌*◌, ◌≤◌, ◌≡◌, refl, ap, ◌∙◌, ◌⊎◌, inl, inr, true, ◌&&◌,
  List, [], ◌∷◌, arith,
}
use srp.Rescore.{
  Worker, waiting, running, returned, RescoreQueue, contains, remove, is_empty, pop, finish,
  is_drained, pops, finishes, Reaches, goes,
}
use srp.Rescore.Debts.{IsSound, busy_of, HasLeft, Reaches-IsSound}

-- The next pass of _loop: it takes out a device or ends its recompute, or waits.
abbrev pub work_on : Worker → List String → RescoreQueue → RescoreQueue
work_on waiting (d ∷ ds) q = pop d q
work_on waiting [] q = q
work_on (running d) ds q = finish q
work_on returned ds q = q

unfoldable pub work : RescoreQueue → RescoreQueue
work q = work_on q.worker q.pending q

unfoldable pub works : ℕ → RescoreQueue → RescoreQueue
works zero q = q
works (suc n) q = works n (work q)

abbrev pub measure : RescoreQueue → ℕ
measure q = 2 * length q.pending + q.busy

length-remove : (d : String) (xs : List String) → length (remove d xs) ≤ length xs
unfolding remove
length-remove d [] = omega arith
length-remove d (x ∷ xs) = ground (arith, length-remove d xs)

remove-cons : (d : String) (xs : List String) → remove d (d ∷ xs) ≡ remove d xs
unfolding remove
remove-cons d xs = rw (eq_refl d)

contains-cons : (d : String) (xs : List String) → contains d (d ∷ xs) ≡ true
unfolding contains
contains-cons d xs = rw (eq_refl d)

work_on-Reaches :
    (q : RescoreQueue) (k : Worker) (ps : List String)
    → q.worker ≡ k
    → q.pending ≡ ps
    → Reaches q
    → Reaches (work_on k ps q)
work_on-Reaches q waiting (d ∷ ds) e f r =
    goes r (pops d e (ap (contains d) f ∙ contains-cons d ds))
work_on-Reaches q waiting [] e f r = r
work_on-Reaches q (running d) ps e f r = goes r (finishes d e)
work_on-Reaches q returned ps e f r = r

left_nothing : (q : RescoreQueue) (k : Worker) → q.worker ≡ k → IsSound q → HasLeft q k
left_nothing q k e s = subst (HasLeft q) e s.has_left

length-is_empty : (xs : List String) → is_empty xs ≡ true → length xs ≡ 0
length-is_empty [] h = refl
length-is_empty (x ∷ xs) h = absurd (cc h)

-- A pass of the worker comes nearer to the end, or nothing is left to do.
measure-work_on :
    (q : RescoreQueue) (k : Worker) (ps : List String)
    → q.worker ≡ k
    → q.pending ≡ ps
    → IsSound q
    → (measure (work_on k ps q) + 1 ≤ measure q) ⊎ ((work_on k ps q ≡ q) × (measure q ≡ 0))
measure-work_on q waiting (d ∷ ds) e f s =
    let idle : q.busy ≡ 0 = s.counts ∙ ap busy_of e in
    let before : length q.pending ≡ 1 + length ds = ap length f ∙ omega arith in
    let after : length (remove d q.pending) ≤ length ds =
      rw (f, remove-cons d ds) (length-remove d ds) in
    inl (unfold pop in omega (arith, idle, before, after))
measure-work_on q waiting [] e f s =
    let idle : q.busy ≡ 0 = s.counts ∙ ap busy_of e in
    let before : length q.pending ≡ 0 = ap length f in inr (refl, omega (arith, idle, before))
measure-work_on q (running d) ps e f s =
    let one : q.busy ≡ 1 = s.counts ∙ ap busy_of e in inl (unfold finish in omega (arith, one))
measure-work_on q returned ps e f s =
    let idle : q.busy ≡ 0 = s.counts ∙ ap busy_of e in
    let before = length-is_empty q.pending (left_nothing q returned e s).1 in
    inr (refl, omega (arith, idle, before))

drained-zero : (ps : List String) (b : ℕ) → 2 * length ps + b ≤ 0 → is_empty ps && b == 0 ≡ true
drained-zero [] b h = ground arith
drained-zero (p ∷ ps) b h = absurd (omega (arith, h))

-- From every queue that the threads can reach, if nothing more is submitted, the worker has the queue
-- drained after two passes for each device that waits, and one for a recompute that runs.
pub works-is_drained :
    (n : ℕ) (q : RescoreQueue)
    → Reaches q
    → measure q ≤ n
    → (is_drained (works n q) ≡ true) × Reaches (works n q)
unfolding works work is_drained
works-is_drained zero q r h = (drained-zero q.pending q.busy h, r)
works-is_drained (suc n) q r h =
    works-is_drained n (work q) (work_on-Reaches q q.worker q.pending refl refl r)
      (elim (measure-work_on q q.worker q.pending refl refl (Reaches-IsSound r)) [
        | inl nearer ↦ omega (arith, nearer, h)
        | inr (same, none_left) ↦ omega (arith, ap measure same, none_left)
      ])
