-- ===== src/Errchain/Examples.antt =====
-- A bad block, and a crash three days later.
use srp.Prelude.{tenths, ℕ, ◌/◌, ◌≤◌, ◌≡◌, refl, Option, none, some, List, [], ◌∷◌}
use srp.Errchain.{
  Event, sort_id, sort_event, sort_all, any_follows, has_chain, stage_of, analyze_events,
}
use srp.Errchain.Stages.{analyze_events-grows}

abbrev bad_block : Event
bad_block = record { received_at = some 1000000; event_id = some 7; source = "disk" }

abbrev bugcheck : Event
bugcheck = record { received_at = some 1259200; event_id = some 1001; source = "System" }

abbrev no_burst : List ℕ → Option ℕ
no_burst ts = none

abbrev week : ℕ → ℕ
week t = t / 604800

damage_then_crash : (analyze_events no_burst week (bad_block ∷ bugcheck ∷ []) 1300000 []).stage ≡ 3
unfolding analyze_events sort_all sort_event sort_id any_follows has_chain stage_of
damage_then_crash = refl

analyze_events-grows_example :
    (analyze_events no_burst week (bad_block ∷ []) 1300000 []).stage
    ≤ (analyze_events no_burst week (bad_block ∷ bugcheck ∷ []) 1300000 []).stage
analyze_events-grows_example =
    analyze_events-grows no_burst week (bad_block ∷ []) (bugcheck ∷ []) 1300000 []
