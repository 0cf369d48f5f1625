-- ===== src/Flume/Lane.antt =====
-- The lanes of a team: crates/flume/src/lane.rs. The map of the lanes is a list in the order of
-- their names, and the set of a lane's active tasks a list in the order of their ids.
pub mod Calls
pub mod Owners
pub mod Counts
pub mod Slots
use artesian.Base.{
  ℕ, ◌+◌, String, Bool, true, false, ◌||◌, Option, none, some, List, [], ◌∷◌, ◌++◌, find, map,
  length, ltb, str_eq, if◌then◌else◌,
}
use artesian.Base.Results.{Result, ok, err}
use artesian.Base.Texts.{trim, join, decimal}
use artesian.Base.Maps.{map_get, map_insert, map_values, set_insert, set_remove}
use artesian.Aquifer.Reconcile.{to_ascii_lowercase}
use artesian.Flume.Envelope.{LaneBudget, unlimited}

pub record LaneContract : Type 0 where
  pub owned_scope : String
  pub non_goals : List String
  pub budget : LaneBudget
  pub handoff_to : Option String
  pub allowed_tools : List String
  pub agent_constraint : Option String

-- `LaneContract::minimal`.
abbrev pub minimal_contract : String → LaneContract
minimal_contract owned_scope = record {
  owned_scope = owned_scope;
  non_goals = [];
  budget = unlimited;
  handoff_to = none;
  allowed_tools = [];
  agent_constraint = none;
}

pub record Lane : Type 0 where
  pub name : String
  pub definition : String
  pub contract : LaneContract

pub data LaneError : Type 0 where
  lane_not_found : String → LaneError
  duplicate_task : (task : String) (owner : String) → LaneError
  budget_exceeded : String → LaneError

-- `Display` of an error.
abbrev pub lane_error_text : LaneError → String
lane_error_text (lane_not_found name) = join "" ("lane '" ∷ name ∷ "' not found" ∷ [])
lane_error_text (duplicate_task task owner) =
    join "" ("duplicate task: task '" ∷ task ∷ "' is already active in lane '" ∷ owner ∷ "'" ∷ [])
lane_error_text (budget_exceeded what) = join "" ("lane budget exceeded: " ∷ what ∷ [])

pub record LaneTaskEntry : Type 0 where
  pub task_id : String
  pub canonical_title : String
  pub lane_name : String

pub record LaneState : Type 0 where
  pub lane : Lane
  pub turns_used : ℕ
  pub tokens_used : ℕ
  pub active_task_ids : List String

abbrev pub new_lane : Lane → LaneState
new_lane lane = record { lane = lane; turns_used = 0; tokens_used = 0; active_task_ids = [] }

abbrev pub has_task_capacity : LaneState → Bool
has_task_capacity state = elim state.lane.contract.budget.max_concurrent_tasks [
  | some cap ↦ ltb (length state.active_task_ids) cap
  | none ↦ true
]

abbrev pub can_use_turn : LaneState → Bool
can_use_turn state = elim state.lane.contract.budget.max_turns [
  | some cap ↦ ltb state.turns_used cap
  | none ↦ true
]

pub record LaneCoordinator : Type 0 where
  pub lanes : List (String × LaneState)
  pub task_owners : List LaneTaskEntry

abbrev pub new_coordinator : LaneCoordinator
new_coordinator = record { lanes = []; task_owners = [] }

unfoldable pub canonical : String → String
unfolding trim to_ascii_lowercase
canonical title = to_ascii_lowercase (trim title)

-- `Option::unwrap_or(0)`.
abbrev pub or_zero : Option ℕ → ℕ
or_zero none = 0
or_zero (some n) = n

unfoldable pub register_lane : LaneCoordinator → Lane → LaneCoordinator
unfolding map_insert
register_lane c lane = record c { lanes = map_insert lane.name (new_lane lane) c.lanes }

-- The entry that the check for duplicates finds.
abbrev pub is_same_task : String → String → LaneTaskEntry → Bool
is_same_task task_id title e = str_eq e.task_id task_id || str_eq e.canonical_title title

-- The third step of `assign_task`, for a lane with a free slot.
unfoldable pub take_slot : LaneCoordinator → String → LaneState → String → String → LaneCoordinator
unfolding map_insert set_insert
take_slot c lane_name state task_id title = record {
  lanes =
      map_insert lane_name
        (record state { active_task_ids = set_insert task_id state.active_task_ids }) c.lanes;
  task_owners =
      c.task_owners
      ++ record { task_id = task_id; canonical_title = title; lane_name = lane_name } ∷ [];
}

unfoldable pub assign_task :
    LaneCoordinator → String → String → String → LaneCoordinator × Result LaneError (Unit {0})
unfolding find map_get take_slot canonical
assign_task c lane_name task_id task_title =
    let title = canonical task_title in
    elim (find (is_same_task task_id title) c.task_owners) [
      | some entry ↦ (c, err (duplicate_task task_id entry.lane_name))
      | none ↦ elim (map_get lane_name c.lanes) [
        | none ↦ (c, err (lane_not_found lane_name))
        | some state ↦
            if has_task_capacity state
            then (take_slot c lane_name state task_id title, ok tt)
            else (
              c,
              err (
                  budget_exceeded (
                    join "" (
                      "lane '"
                      ∷ lane_name
                      ∷ "' concurrent-task cap ("
                      ∷ decimal (or_zero state.lane.contract.budget.max_concurrent_tasks)
                      ∷ ") reached"
                      ∷ []))),
            )
      ]
    ]

-- The first entry of the task, `position`, and the entries without it, `remove`.
unfoldable pub remove_owner : String → List LaneTaskEntry → List LaneTaskEntry
remove_owner task_id [] = []
remove_owner task_id (e ∷ rest) =
    let later = remove_owner task_id rest in if str_eq e.task_id task_id then rest else e ∷ later

-- The lane after a task that is complete.
unfoldable pub free_slot : LaneState → String → ℕ → LaneState
unfolding set_remove
free_slot state task_id tokens_used = record {
  lane = state.lane;
  turns_used = state.turns_used + 1;
  tokens_used = state.tokens_used + tokens_used;
  active_task_ids = set_remove task_id state.active_task_ids;
}

unfoldable pub complete_task :
    LaneCoordinator → String → ℕ → LaneCoordinator × Option (String × Option String)
unfolding find map_get map_insert remove_owner free_slot
complete_task c task_id tokens_used =
    elim (find (λ (e : LaneTaskEntry). str_eq e.task_id task_id) c.task_owners) [
      | none ↦ (c, none)
      | some entry ↦
          let owners = remove_owner task_id c.task_owners in
          elim (map_get entry.lane_name c.lanes) [
            | none ↦ (record c { task_owners = owners }, none)
            | some state ↦ (
              record {
                lanes = map_insert entry.lane_name (free_slot state task_id tokens_used) c.lanes;
                task_owners = owners;
              },
              some (entry.lane_name, state.lane.contract.handoff_to),
            )
          ]
    ]

unfoldable pub record_turn :
    LaneCoordinator → String → LaneCoordinator × Result LaneError (Unit {0})
unfolding map_get map_insert
record_turn c lane_name = elim (map_get lane_name c.lanes) [
  | none ↦ (c, err (lane_not_found lane_name))
  | some state ↦
      if can_use_turn state
      then (
        record c {
          lanes = map_insert lane_name (record state { turns_used = state.turns_used + 1 }) c.lanes;
        },
        ok tt,
      )
      else (
        c,
        err (
            budget_exceeded (
              join "" (
                "lane '"
                ∷ lane_name
                ∷ "' turn budget ("
                ∷ decimal (or_zero state.lane.contract.budget.max_turns)
                ∷ ") exhausted"
                ∷ []))),
      )
]

pub record LaneSummary : Type 0 where
  pub name : String
  pub definition : String
  pub contract : LaneContract
  pub active_task_ids : List String
  pub turns_used : ℕ
  pub tokens_used : ℕ

-- `LaneSummary::from_state`.
abbrev pub summary_of : LaneState → LaneSummary
summary_of state = record {
  name = state.lane.name;
  definition = state.lane.definition;
  contract = state.lane.contract;
  active_task_ids = state.active_task_ids;
  turns_used = state.turns_used;
  tokens_used = state.tokens_used;
}

unfoldable pub lane_summaries : LaneCoordinator → List LaneSummary
lane_summaries c = map summary_of (map_values c.lanes)

unfoldable pub owner_of : LaneCoordinator → String → Option String
unfolding find
owner_of c task_id = elim (find (λ (e : LaneTaskEntry). str_eq e.task_id task_id) c.task_owners) [
  | none ↦ none
  | some e ↦ some e.lane_name
]

-- The calls that change a coordinator, and a coordinator after some of them.
pub data LaneCall : Type 0 where
  registers : Lane → LaneCall
  assigns : (lane_name task_id task_title : String) → LaneCall
  completes : (task_id : String) (tokens_used : ℕ) → LaneCall
  takes_turn : (lane_name : String) → LaneCall

abbrev pub after_call : LaneCoordinator → LaneCall → LaneCoordinator
after_call c (registers lane) = register_lane c lane
after_call c (assigns lane_name task_id task_title) = (assign_task c lane_name task_id task_title).0
after_call c (completes task_id tokens_used) = (complete_task c task_id tokens_used).0
after_call c (takes_turn lane_name) = (record_turn c lane_name).0

abbrev pub after_calls : LaneCoordinator → List LaneCall → LaneCoordinator
after_calls c [] = c
after_calls c (call ∷ rest) = after_calls (after_call c call) rest
