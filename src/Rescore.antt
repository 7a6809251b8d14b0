-- ===== src/Rescore.antt =====
-- server/rescore_queue.py: the set of devices that wait, the worker thread, and the steps of both.
-- A step is what runs under the condition's lock, or the end of a recompute; the threads may take
-- them in any order. What was accepted and started is kept, the newest first.
pub mod Debts
pub mod Drain
mod Examples
use Prim.Native.String.{String}
use text.Mathlib.Text.{◌==◌ as str_eq}
use srp.Prelude.{
  ◌==◌, if◌then◌else◌, ℕ, ◌+◌, ◌-◌, ◌≡◌, Bool, true, false, ◌&&◌, ◌||◌, List, [], ◌∷◌,
}

pub data Event : Type 0 where
  accepted started : String → Event

-- where the thread of _loop stands
pub data Worker : Type 0 where
  waiting : Worker
  running : String → Worker
  returned : Worker

pub record RescoreQueue : Type 0 where
  pub pending : List String
  pub busy : ℕ
  pub stopping : Bool
  pub worker : Worker
  pub events : List Event

unfoldable pub contains : String → List String → Bool
contains d [] = false
contains d (x ∷ xs) = str_eq d x || contains d xs

-- set.add and the removal by set.pop
abbrev pub add : String → List String → List String
add d xs = if contains d xs then xs else d ∷ xs

unfoldable pub remove : String → List String → List String
remove d [] = []
remove d (x ∷ xs) = let rest = remove d xs in if str_eq d x then rest else x ∷ rest

abbrev pub is_empty : List String → Bool
is_empty [] = true
is_empty (x ∷ xs) = false

unfoldable pub submit : String → RescoreQueue → RescoreQueue
submit d q =
    if q.stopping then q else record q { pending = add d q.pending; events = accepted d ∷ q.events }

unfoldable pub stop : RescoreQueue → RescoreQueue
stop q = record q { stopping = true }

-- the worker takes a device out and starts its recompute
unfoldable pub pop : String → RescoreQueue → RescoreQueue
pop d q = record q {
  pending = remove d q.pending;
  busy = q.busy + 1;
  worker = running d;
  events = started d ∷ q.events;
}

-- the recompute returned or raised
unfoldable pub finish : RescoreQueue → RescoreQueue
finish q = record q { busy = q.busy - 1; worker = waiting }

unfoldable pub leave : RescoreQueue → RescoreQueue
leave q = record q { worker = returned }

-- the test of drain
unfoldable pub is_drained : RescoreQueue → Bool
is_drained q = is_empty q.pending && q.busy == 0

abbrev pub new_queue : RescoreQueue
new_queue = record { pending = []; busy = 0; stopping = false; worker = waiting; events = [] }

-- One step of a thread.
pub data Step : RescoreQueue → RescoreQueue → Type 0 where
  submits : {q : RescoreQueue} → (d : String) → Step q (submit d q)
  stops : {q : RescoreQueue} → Step q (stop q)
  -- set.pop gives any element
  pops :
      {q : RescoreQueue}
      → (d : String) → q.worker ≡ waiting
      → contains d q.pending ≡ true
      → Step q (pop d q)
  finishes : {q : RescoreQueue} → (d : String) → q.worker ≡ running d → Step q (finish q)
  leaves :
      {q : RescoreQueue}
      → q.worker ≡ waiting
      → q.stopping ≡ true
      → is_empty q.pending ≡ true
      → Step q (leave q)

pub data Reaches : RescoreQueue → Type 0 where
  begins : Reaches new_queue
  goes : {q r : RescoreQueue} → Reaches q → Step q r → Reaches r
