-- ===== src/Rescore/Debts.antt =====
-- No submission is lost: what the queue owes is what waits in it.
use Prim.Native.String.{String}
use text.Mathlib.Text.{◌==◌ as str_eq}
use text.Mathlib.TextEquality.{eq_iff}
use text.Mathlib.TextPositions.{eq_refl}
use mathlib.Core.Path.{subst}
use srp.Prelude.{
  if◌then◌else◌, Bool-cases, tenths, ℕ, ◌≡◌, refl, sym, ap, ◌∙◌, ◌≢◌, inl, inr, Bool, true, false,
  not, ◌&&◌, ◌||◌, List, [], ◌∷◌, arith,
}
use srp.Rescore.{
  Event, accepted, started, Worker, waiting, running, returned, RescoreQueue, contains, add, remove,
  is_empty, submit, stop, pop, finish, leave, is_drained, Step, submits, stops, pops, finishes,
  leaves, Reaches, begins, goes,
}

-- Whether the device was accepted and not started since.
unfoldable pub owes : String → List Event → Bool
owes d [] = false
owes d (accepted e ∷ events) = str_eq d e || owes d events
owes d (started e ∷ events) = not (str_eq d e) && owes d events

str_eq-swap : (a b : String) → str_eq a b ≡ str_eq b a
str_eq-swap a b = elim (Bool-cases (str_eq a b)) [
  | inl same ↦ rw ((eq_iff a b).0 same, eq_refl b)
  | inr other ↦ elim (Bool-cases (str_eq b a)) [
    | inl same ↦ ap (str_eq a) ((eq_iff b a).0 same) ∙ eq_refl a ∙ sym same
    | inr other' ↦ other ∙ sym other'
  ]
]

contains-add :
    (d e : String) (xs : List String) → contains d (add e xs) ≡ str_eq d e || contains d xs
unfolding contains
contains-add d e xs = elim (Bool-cases (contains e xs)) [
  | inr absent ↦ rw absent
  | inl present ↦ elim (Bool-cases (str_eq d e)) [
    | inr other ↦ rw (present, other)
    | inl same ↦
        let here : contains d xs ≡ true = ap (λ j. contains j xs) ((eq_iff d e).0 same) ∙ present in
        rw (present, same, here)
  ]
]

contains-remove :
    (d e : String) (xs : List String) → contains d (remove e xs) ≡ not (str_eq d e) && contains d xs
unfolding contains remove
contains-remove d e [] = ground arith
contains-remove d e (x ∷ xs) = elim (Bool-cases (str_eq e x)) [
  | inl same ↦
      let here : str_eq d x ≡ str_eq d e = ap (str_eq d) (sym ((eq_iff e x).0 same)) in
      ground (arith, contains-remove d e xs, here)
  | inr other ↦ elim (Bool-cases (str_eq d e)) [
    | inl same ↦
        let here : str_eq d x ≡ str_eq e x = ap (λ j. str_eq j x) ((eq_iff d e).0 same) in
        ground (arith, contains-remove d e xs, here)
    | inr differs ↦ ground (arith, contains-remove d e xs)
  ]
]

abbrev pub busy_of : Worker → ℕ
busy_of waiting = 0
busy_of (running d) = 1
busy_of returned = 0

abbrev pub HasLeft : RescoreQueue → Worker → Type 0
HasLeft q waiting = Unit
HasLeft q (running d) = Unit
HasLeft q returned = (q.stopping ≡ true) × (is_empty q.pending ≡ true)

-- What is kept of a reachable queue.
pub record IsSound (q : RescoreQueue) : Type 0 where
  pub owed : (d : String) → contains d q.pending ≡ owes d q.events
  pub counts : q.busy ≡ busy_of q.worker
  pub has_left : HasLeft q q.worker

HasLeft-open : (q r : RescoreQueue) (k : Worker) → q.stopping ≡ false → HasLeft q k → HasLeft r k
HasLeft-open q r waiting open_still h = tt
HasLeft-open q r (running d) open_still h = tt
HasLeft-open q r returned open_still h = absurd (cc (sym h.0 ∙ open_still))

HasLeft-stop :
    (q : RescoreQueue) (k : Worker) → HasLeft q k → HasLeft (record q { stopping = true }) k
HasLeft-stop q waiting h = tt
HasLeft-stop q (running d) h = tt
HasLeft-stop q returned h = (refl, h.1)

submitted-IsSound :
    (d : String) (q : RescoreQueue)
    → IsSound q
    → q.stopping ≡ false
    → IsSound (record q { pending = add d q.pending; events = accepted d ∷ q.events })
submitted-IsSound d q s running_on = record {
  owed = λ j. unfold owes in contains-add j d q.pending ∙ ap (λ b. str_eq j d || b) (s.owed j);
  counts = s.counts;
  has_left =
      HasLeft-open q (record q { pending = add d q.pending; events = accepted d ∷ q.events })
        q.worker running_on s.has_left;
}

submit-IsSound : (d : String) (q : RescoreQueue) → IsSound q → IsSound (submit d q)
unfolding submit
submit-IsSound d q s = elim (Bool-cases q.stopping) [
  | inl closed ↦ subst (λ b. IsSound (if b then q else later)) (sym closed) s
  | inr still_on ↦
      subst (λ b. IsSound (if b then q else later)) (sym still_on)
        (submitted-IsSound d q s still_on)
]
  where
    later : RescoreQueue
    later = record q { pending = add d q.pending; events = accepted d ∷ q.events }

stop-IsSound : (q : RescoreQueue) → IsSound q → IsSound (stop q)
unfolding stop
stop-IsSound q s = record {
  owed = s.owed;
  counts = s.counts;
  has_left = HasLeft-stop q q.worker s.has_left;
}

pop-IsSound : (d : String) (q : RescoreQueue) → q.worker ≡ waiting → IsSound q → IsSound (pop d q)
unfolding pop
pop-IsSound d q idle s = record {
  owed = λ j.
      unfold owes in contains-remove j d q.pending ∙ ap (λ b. not (str_eq j d) && b) (s.owed j);
  counts = let none_busy : q.busy ≡ 0 = s.counts ∙ ap busy_of idle in omega (arith, none_busy);
  has_left = tt;
}

finish-IsSound :
    (d : String) (q : RescoreQueue) → q.worker ≡ running d → IsSound q → IsSound (finish q)
unfolding finish
finish-IsSound d q works s = record {
  owed = s.owed;
  counts = let one_busy : q.busy ≡ 1 = s.counts ∙ ap busy_of works in omega (arith, one_busy);
  has_left = tt;
}

leave-IsSound :
    (q : RescoreQueue)
    → q.worker ≡ waiting
    → q.stopping ≡ true
    → is_empty q.pending ≡ true
    → IsSound q
    → IsSound (leave q)
unfolding leave
leave-IsSound q idle stops_now none_left s = record {
  owed = s.owed;
  counts = s.counts ∙ ap busy_of idle;
  has_left = (stops_now, none_left);
}

Step-IsSound : {q r : RescoreQueue} → Step q r → IsSound q → IsSound r
Step-IsSound {q} (submits d) s = submit-IsSound d q s
Step-IsSound {q} stops s = stop-IsSound q s
Step-IsSound {q} (pops d idle there) s = pop-IsSound d q idle s
Step-IsSound {q} (finishes d works) s = finish-IsSound d q works s
Step-IsSound {q} (leaves idle stops_now none_left) s = leave-IsSound q idle stops_now none_left s

-- In every queue that the threads can reach, in whatever order they take their steps: a device waits
-- in the queue exactly when it was submitted and not started since, `_busy` counts the running
-- recompute, and the worker has left only a stopped and empty queue.
pub Reaches-IsSound : {q : RescoreQueue} → Reaches q → IsSound q
Reaches-IsSound begins = record {
  owed = λ d. unfold contains owes in refl;
  counts = refl;
  has_left = tt;
}
Reaches-IsSound (goes r step) = Step-IsSound step (Reaches-IsSound r)

contains-is_empty : (d : String) (xs : List String) → is_empty xs ≡ true → contains d xs ≡ false
unfolding contains
contains-is_empty d [] h = refl
contains-is_empty d (x ∷ xs) h = absurd (cc h)

-- When drain returns True, every device that was accepted has been started since, and no recompute
-- runs.
pub is_drained-settled :
    {q : RescoreQueue}
    → Reaches q
    → is_drained q ≡ true
    → (d : String) → (owes d q.events ≡ false) × (q.worker ≢ running d)
unfolding is_drained
is_drained-settled {q} r h d =
    let s = Reaches-IsSound r in
    let none_left : is_empty q.pending ≡ true = ground arith in
    let none_busy : q.busy ≡ 0 = ground arith in
    (
      sym (s.owed d) ∙ contains-is_empty d q.pending none_left,
      λ works. omega (arith, none_busy, s.counts ∙ ap busy_of works),
    )
