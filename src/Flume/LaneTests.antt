-- ===== src/Flume/LaneTests.antt =====
-- The lanes at concrete inputs.
use artesian.Base.{◌≡◌, refl, true, none, some, List, [], ◌∷◌, find, length, arith, suc}
use artesian.Base.Maps.{map_get, map_insert, set_insert, set_remove}
use artesian.Base.Texts.{trim, trim_start, trim_end, join, decimal}
use artesian.Base.Results.{err}
use artesian.Aquifer.Reconcile.{to_ascii_lowercase}
use artesian.Flume.Lane.{
  Lane, LaneState, LaneCoordinator, LaneCall, registers, assigns, completes, takes_turn,
  duplicate_task, is_same_task, minimal_contract, new_lane, new_coordinator, canonical,
  register_lane, take_slot, assign_task, remove_owner, free_slot, complete_task, record_turn,
  after_calls,
}
use artesian.Flume.Lane.Owners.{Deduplicated, after_calls-Deduplicated}
use artesian.Flume.Lane.Counts.{owned}
use artesian.Flume.Lane.Slots.{
  RegistersOnce, is_within_cap, after_calls-is_within_cap, register_lane-owned,
}

abbrev lane : Lane
lane =
    let contract = minimal_contract "tests" in
    let limits = contract.budget in
    record {
      name = "tests";
      definition = "tester";
      contract = record contract {
        budget = record limits { max_concurrent_tasks = some 1 };
        handoff_to = some "lead";
      };
    }

program : Unit {0}
unfolding find trim trim_start trim_end join decimal map_get map_insert set_insert set_remove
    to_ascii_lowercase canonical register_lane take_slot assign_task remove_owner free_slot
    complete_task record_turn
program = tt

abbrev calls : List LaneCall
calls =
    registers lane
    ∷ assigns "tests" "t1" "Fix  it"
    ∷ assigns "tests" "t2" "Other"
    ∷ completes "t1" 7
    ∷ takes_turn "tests"
    ∷ assigns "tests" "t3" "More"
    ∷ []

abbrev busy : LaneCoordinator
busy = after_calls new_coordinator (registers lane ∷ assigns "tests" "t1" "Fix it" ∷ [])

rejects_same_title :
    (assign_task busy "tests" "t9" " FIX it ").1 ≡ err (duplicate_task "t9" "tests")
unfolding program
rejects_same_title = refl

hands_over : (complete_task busy "t1" 7).1 ≡ some ("tests", some "lead")
unfolding program
hands_over = refl

after_calls-Deduplicated_example : Deduplicated (after_calls new_coordinator calls).task_owners
after_calls-Deduplicated_example = after_calls-Deduplicated new_coordinator calls tt

abbrev worked : LaneState
worked =
    let fresh = new_lane lane in
    record fresh { turns_used = 2; tokens_used = 7; active_task_ids = "t3" ∷ [] }

calls-RegistersOnce : RegistersOnce new_coordinator calls
unfolding program
calls-RegistersOnce = (refl, tt)

calls-worked : map_get "tests" (after_calls new_coordinator calls).lanes ≡ some worked
unfolding program
calls-worked = refl

after_calls-is_within_cap_example :
    (length worked.active_task_ids ≡ owned "tests" (after_calls new_coordinator calls).task_owners)
    × (is_within_cap worked ≡ true)
after_calls-is_within_cap_example =
    after_calls-is_within_cap calls "tests" worked calls-RegistersOnce calls-worked

new_task_unowned : find (λ e. is_same_task "t2" (canonical "Other") e) busy.task_owners ≡ none
unfolding program
new_task_unowned = refl

register_lane-owned_example :
    owned "tests" (assign_task (register_lane busy lane) "tests" "t2" "Other").0.task_owners
    ≡ suc (owned "tests" busy.task_owners)
register_lane-owned_example =
    register_lane-owned busy lane "t2" "Other" 1 new_task_unowned refl (omega arith)
