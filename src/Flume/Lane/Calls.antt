-- ===== src/Flume/Lane/Calls.antt =====
-- What the calls of crates/flume/src/lane.rs do to a coordinator, branch by branch.
use artesian.Base.{
  ℕ, ◌+◌, String, true, none, some, find, ◌≡◌, refl, ◌⊎◌, inl, inr, Option-cases, Bool-cases,
  str_eq,
}
use artesian.Base.Maps.{map_get, map_insert}
use artesian.Flume.Lane.{
  LaneTaskEntry, LaneState, LaneCoordinator, canonical, is_same_task, take_slot, assign_task,
  remove_owner, free_slot, complete_task, record_turn, has_task_capacity, can_use_turn,
}

-- The lane has a free slot, and nobody has the task.
pub record Assigned (c : LaneCoordinator) (lane_name task_id title : String) (state : LaneState)
    : Type 0 where
  pub unowned : find (is_same_task task_id title) c.task_owners ≡ none
  pub found : map_get lane_name c.lanes ≡ some state
  pub free : has_task_capacity state ≡ true

pub assign_task-cases :
    (c : LaneCoordinator) (lane_name task_id task_title : String)
    → ((assign_task c lane_name task_id task_title).0 ≡ c)
      ⊎ ((state : LaneState) × Assigned c lane_name task_id (canonical task_title) state
          × ((assign_task c lane_name task_id task_title).0
              ≡ take_slot c lane_name state task_id (canonical task_title)))
unfolding assign_task
assign_task-cases c lane_name task_id task_title =
    let title = canonical task_title in
    elim (Option-cases (find (is_same_task task_id title) c.task_owners)) [
      | inr (entry, e) ↦ inl (rw (assign_task, e) refl)
      | inl unowned ↦ elim (Option-cases (map_get lane_name c.lanes)) [
        | inl e ↦ inl (rw (assign_task, unowned, e) refl)
        | inr (state, found) ↦ elim (Bool-cases (has_task_capacity state)) [
          | inl free ↦ inr (
            state,
            record { unowned = unowned; found = found; free = free },
            rw (assign_task, unowned, found, free) refl,
          )
          | inr full ↦ inl (rw (assign_task, unowned, found, full) refl)
        ]
      ]
    ]

pub complete_task-cases :
    (c : LaneCoordinator) (task_id : String) (tokens_used : ℕ)
    → ((complete_task c task_id tokens_used).0 ≡ c)
      ⊎ ((entry : LaneTaskEntry) × (find
              (λ (e : LaneTaskEntry). str_eq e.task_id task_id)
              c.task_owners
            ≡ some entry)
          × (((map_get entry.lane_name c.lanes ≡ none)
                × ((complete_task c task_id tokens_used).0
                    ≡ record c { task_owners = remove_owner task_id c.task_owners }))
              ⊎ ((state : LaneState) × (map_get entry.lane_name c.lanes ≡ some state)
                  × ((complete_task c task_id tokens_used).0 ≡ record {
                    lanes =
                        map_insert entry.lane_name (free_slot state task_id tokens_used) c.lanes;
                    task_owners = remove_owner task_id c.task_owners;
                  }))))
unfolding complete_task
complete_task-cases c task_id tokens_used =
    elim (Option-cases (find (λ (e : LaneTaskEntry). str_eq e.task_id task_id) c.task_owners)) [
      | inl e ↦ inl (rw (complete_task, e) refl)
      | inr (entry, owned) ↦ elim (Option-cases (map_get entry.lane_name c.lanes)) [
        | inl e ↦ inr (entry, owned, inl (e, rw (complete_task, owned, e) refl))
        | inr (state, found) ↦
            inr (entry, owned, inr (state, found, rw (complete_task, owned, found) refl))
      ]
    ]

pub record_turn-cases :
    (c : LaneCoordinator) (lane_name : String)
    → ((record_turn c lane_name).0 ≡ c)
      ⊎ ((state : LaneState) × (map_get lane_name c.lanes ≡ some state)
          × ((record_turn c lane_name).0 ≡ record c {
            lanes =
                map_insert lane_name (record state { turns_used = state.turns_used + 1 }) c.lanes;
          }))
unfolding record_turn
record_turn-cases c lane_name = elim (Option-cases (map_get lane_name c.lanes)) [
  | inl e ↦ inl (rw (record_turn, e) refl)
  | inr (state, found) ↦ elim (Bool-cases (can_use_turn state)) [
    | inl free ↦ inr (state, found, rw (record_turn, found, free) refl)
    | inr full ↦ inl (rw (record_turn, found, full) refl)
  ]
]

pub assign_task-take_slot :
    (c : LaneCoordinator) (lane_name task_id task_title : String) (state : LaneState)
    → Assigned c lane_name task_id (canonical task_title) state
    → (assign_task c lane_name task_id task_title).0
      ≡ take_slot c lane_name state task_id (canonical task_title)
unfolding assign_task
assign_task-take_slot c lane_name task_id task_title state how =
    rw (assign_task, how.unowned, how.found, how.free) refl
