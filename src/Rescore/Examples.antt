-- ===== src/Rescore/Examples.antt =====
-- A queue with two submissions of one device, and the theorems about it.
use Prim.Native.String.{String}
use srp.Prelude.{tenths, ◌≡◌, refl, ◌≢◌, true, false, [], ◌∷◌, arith}
use srp.Rescore.{
  RescoreQueue, running, contains, submit, is_drained, new_queue, submits, Reaches, begins, goes,
}
use srp.Rescore.Debts.{owes, is_drained-settled}
use srp.Rescore.Drain.{works, works-is_drained}

abbrev device : String
device = "pc1"

abbrev twice : RescoreQueue
twice = submit device (submit device new_queue)

twice_reached : Reaches twice
twice_reached = goes (goes begins (submits device)) (submits device)

-- Two submissions are one recompute.
one_waits : twice.pending ≡ device ∷ []
unfolding submit contains
one_waits = refl

abbrev done : RescoreQueue
done = works 2 twice

works-is_drained_example : (is_drained done ≡ true) × Reaches done
unfolding submit contains
works-is_drained_example = works-is_drained 2 twice twice_reached (omega arith)

done_drained : (is_drained done ≡ true) × Reaches done
unfolding submit contains
done_drained = works-is_drained 2 twice twice_reached (omega arith)

is_drained-settled_example : (owes device done.events ≡ false) × (done.worker ≢ running device)
is_drained-settled_example = is_drained-settled done_drained.1 done_drained.0 device
