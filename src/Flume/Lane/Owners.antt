-- ===== src/Flume/Lane/Owners.antt =====
-- That no task is in two lanes: the owners of crates/flume/src/lane.rs.
use artesian.Base.{
  ℕ, String, Bool, false, none, List, [], ◌∷◌, ◌++◌, find, ◌≡◌, ◌≢◌, refl, inl, inr, All,
  All-append, All-map, str_eq, if_cases, eq_iff, arith,
}
use artesian.Flume.Lane.Calls.{assign_task-cases, complete_task-cases, record_turn-cases}
use artesian.Flume.Lane.{
  LaneTaskEntry, LaneCoordinator, LaneCall, registers, assigns, completes, takes_turn,
  register_lane, canonical, is_same_task, take_slot, assign_task, remove_owner, complete_task,
  record_turn, after_call, after_calls,
}

-- Two entries are of two tasks, under two titles.
abbrev pub Differ : LaneTaskEntry → LaneTaskEntry → Type 0
Differ e f = (e.task_id ≢ f.task_id) × (e.canonical_title ≢ f.canonical_title)

abbrev pub Deduplicated : List LaneTaskEntry → Type 0
Deduplicated [] = Unit
Deduplicated (e ∷ rest) = All (Differ e) rest × Deduplicated rest

Deduplicated-append :
    (new : LaneTaskEntry) (owners : List LaneTaskEntry)
    → All (λ e. Differ e new) owners
    → Deduplicated owners
    → Deduplicated (owners ++ new ∷ [])
Deduplicated-append new [] h d = (tt, tt)
Deduplicated-append new (e ∷ rest) h d =
    (All-append (Differ e) rest (new ∷ []) d.0 (h.0, tt), Deduplicated-append new rest h.1 d.1)

find_none-All :
    (p : LaneTaskEntry → Bool) (owners : List LaneTaskEntry)
    → find p owners ≡ none
    → All (λ e. p e ≡ false) owners
unfolding find
find_none-All p [] h = tt
find_none-All p (e ∷ rest) h = (ground arith, find_none-All p rest (ground arith))

is_same_task-Differ :
    (task_id title lane_name : String) (e : LaneTaskEntry)
    → is_same_task task_id title e ≡ false
    → Differ e (record { task_id = task_id; canonical_title = title; lane_name = lane_name })
is_same_task-Differ task_id title lane_name e h =
    let ids = eq_iff e.task_id task_id in
    let titles = eq_iff e.canonical_title title in (ground (arith, ids), ground (arith, titles))

remove_owner-All :
    (P : LaneTaskEntry → Type 0) (task_id : String) (owners : List LaneTaskEntry)
    → All P owners
    → All P (remove_owner task_id owners)
unfolding remove_owner
remove_owner-All P task_id [] h = tt
remove_owner-All P task_id (e ∷ rest) h =
    if_cases (All P) (str_eq e.task_id task_id) (λ _. h.1)
      (λ _. (h.0, remove_owner-All P task_id rest h.1))

remove_owner-Deduplicated :
    (task_id : String) (owners : List LaneTaskEntry)
    → Deduplicated owners
    → Deduplicated (remove_owner task_id owners)
unfolding remove_owner
remove_owner-Deduplicated task_id [] d = tt
remove_owner-Deduplicated task_id (e ∷ rest) d =
    if_cases Deduplicated (str_eq e.task_id task_id) (λ _. d.1)
      (λ _.
        (remove_owner-All (Differ e) task_id rest d.0, remove_owner-Deduplicated task_id rest d.1))

assign_task-Deduplicated :
    (c : LaneCoordinator) (lane_name task_id task_title : String)
    → Deduplicated c.task_owners
    → Deduplicated (assign_task c lane_name task_id task_title).0.task_owners
unfolding take_slot
assign_task-Deduplicated c lane_name task_id task_title d =
    let title = canonical task_title in
    elim (assign_task-cases c lane_name task_id task_title) [
      | inl same ↦ rw same d
      | inr (state, how, after) ↦
          let apart =
            All-map (is_same_task-Differ task_id title lane_name) c.task_owners
              (find_none-All (is_same_task task_id title) c.task_owners how.unowned) in
          rw after (
            Deduplicated-append
              (record { task_id = task_id; canonical_title = title; lane_name = lane_name })
              c.task_owners apart d)
    ]

complete_task-Deduplicated :
    (c : LaneCoordinator) (task_id : String) (tokens_used : ℕ)
    → Deduplicated c.task_owners
    → Deduplicated (complete_task c task_id tokens_used).0.task_owners
complete_task-Deduplicated c task_id tokens_used d =
    let removed = remove_owner-Deduplicated task_id c.task_owners d in
    elim (complete_task-cases c task_id tokens_used) [
      | inl same ↦ rw same d
      | inr (entry, owned, inl (missing, after)) ↦ rw after removed
      | inr (entry, owned, inr (state, found, after)) ↦ rw after removed
    ]

record_turn-task_owners :
    (c : LaneCoordinator) (lane_name : String)
    → (record_turn c lane_name).0.task_owners ≡ c.task_owners
record_turn-task_owners c lane_name = elim (record_turn-cases c lane_name) [
  | inl same ↦ rw same refl
  | inr (state, found, after) ↦ rw after refl
]

after_call-Deduplicated :
    (c : LaneCoordinator) (call : LaneCall)
    → Deduplicated c.task_owners
    → Deduplicated (after_call c call).task_owners
unfolding register_lane
after_call-Deduplicated c (registers lane) d = d
after_call-Deduplicated c (assigns lane_name task_id task_title) d =
    assign_task-Deduplicated c lane_name task_id task_title d
after_call-Deduplicated c (completes task_id tokens_used) d =
    complete_task-Deduplicated c task_id tokens_used d
after_call-Deduplicated c (takes_turn lane_name) d = rw (record_turn-task_owners c lane_name) d

-- After any calls, from any coordinator whose owners differ, no two active tasks have one id or
-- one canonical title: a task is never in two lanes, nor in one lane twice.
pub after_calls-Deduplicated :
    (c : LaneCoordinator) (calls : List LaneCall)
    → Deduplicated c.task_owners
    → Deduplicated (after_calls c calls).task_owners
after_calls-Deduplicated c [] d = d
after_calls-Deduplicated c (call ∷ rest) d =
    after_calls-Deduplicated (after_call c call) rest (after_call-Deduplicated c call d)
