-- ===== src/Flume/Lane/Slots.antt =====
-- That a lane has no more tasks than its contract allows: crates/flume/src/lane.rs.
use artesian.Base.{
  ℕ, suc, ◌+◌, ◌<◌, String, Bool, true, Option, none, some, List, [], ◌∷◌, find, length, leb, ◌≡◌,
  refl, sym, ◌∙◌, ap, inl, inr, str_eq, eq_iff, arith,
}
use artesian.Base.Maps.{map_get, map_insert, map_get-map_insert, set_insert}
use artesian.Flume.Lane.{
  LaneTaskEntry, LaneState, LaneCoordinator, Lane, LaneCall, registers, assigns, completes,
  takes_turn, is_same_task, new_lane, canonical, has_task_capacity, take_slot, free_slot,
  register_lane, assign_task, complete_task, record_turn, after_calls, new_coordinator,
}
use artesian.Flume.Lane.Calls.{
  Assigned, assign_task-cases, complete_task-cases, record_turn-cases, assign_task-take_slot,
}
use artesian.Flume.Lane.Counts.{
  occurrences, held, owned, set_insert-occurrences, set_insert-length, set_remove-occurrences,
  set_remove-length, held-append, owned-append, held-find_none, held-remove_owner,
  owned-remove_owner,
}

abbrev active_in : Option LaneState → List String
active_in none = []
active_in (some state) = state.active_task_ids

abbrev pub is_within_cap : LaneState → Bool
is_within_cap state = elim state.lane.contract.budget.max_concurrent_tasks [
  | some cap ↦ leb (length state.active_task_ids) cap
  | none ↦ true
]

-- Each lane's set has the tasks that the owners name it for, and is within its cap.
record Slotted (c : LaneCoordinator) : Type 0 where
  agree : (l t : String) → occurrences t (active_in (map_get l c.lanes)) ≡ held t l c.task_owners
  sized : (l : String) → length (active_in (map_get l c.lanes)) ≡ owned l c.task_owners
  capped :
      (l : String) (state : LaneState) → map_get l c.lanes ≡ some state → is_within_cap state ≡ true

new_coordinator-Slotted : Slotted new_coordinator
unfolding map_get
new_coordinator-Slotted = record {
  agree = λ l t. refl;
  sized = λ l. refl;
  capped = λ l state h. cc;
}

-- A lane that is written in the place of one with the same set and cap.
write_lane-Slotted :
    (c : LaneCoordinator) (name : String) (state : LaneState)
    → Slotted c
    → state.active_task_ids ≡ active_in (map_get name c.lanes)
    → is_within_cap state ≡ true
    → Slotted (record c { lanes = map_insert name state c.lanes })
write_lane-Slotted c name state h same fits = record {
  agree = λ l t.
      let law = map_get-map_insert l name state c.lanes in
      let before = h.agree l t in
      let names = eq_iff name l in rw law (ground (arith, before, names, same));
  sized = λ l.
      let law = map_get-map_insert l name state c.lanes in
      let before = h.sized l in
      let names = eq_iff name l in rw law (ground (arith, before, names, same));
  capped = λ l other found.
      let law = map_get-map_insert l name state c.lanes in
      let before = h.capped l other in ground (arith, before, found, law, fits);
}

assign_task-Slotted :
    (c : LaneCoordinator) (lane_name task_id task_title : String)
    → Slotted c
    → Slotted (assign_task c lane_name task_id task_title).0
unfolding take_slot
assign_task-Slotted c lane_name task_id task_title h =
    let title = canonical task_title in
    let entry : LaneTaskEntry = record {
      task_id = task_id;
      canonical_title = title;
      lane_name = lane_name;
    } in
    elim (assign_task-cases c lane_name task_id task_title) [
      | inl same ↦ rw same h
      | inr (state, how, after) ↦
          let taken : LaneState = record state {
            active_task_ids = set_insert task_id state.active_task_ids;
          } in
          let absent = λ (l : String). held-find_none task_id l title c.task_owners how.unowned in
          let here : active_in (map_get lane_name c.lanes) ≡ state.active_task_ids =
            rw how.found refl in
          let mine : occurrences task_id state.active_task_ids ≡ 0 =
            ap (occurrences task_id) (sym here) ∙ h.agree lane_name task_id ∙ absent lane_name in
          rw after record {
            agree = λ l t.
                let law = map_get-map_insert l lane_name taken c.lanes in
                let before = h.agree l t in
                let more = set_insert-occurrences t task_id state.active_task_ids mine in
                let added = held-append t l c.task_owners entry in
                let names = eq_iff lane_name l in
                let found = how.found in ground (arith, before, more, added, law, names, found);
            sized = λ l.
                let law = map_get-map_insert l lane_name taken c.lanes in
                let before = h.sized l in
                let more = set_insert-length task_id state.active_task_ids mine in
                let added = owned-append l c.task_owners entry in
                let names = eq_iff lane_name l in
                let found = how.found in ground (arith, before, more, added, law, names, found);
            capped = λ l other found.
                let law = map_get-map_insert l lane_name taken c.lanes in
                let before = h.capped l other in
                let more = set_insert-length task_id state.active_task_ids mine in
                let free = how.free in ground (arith, before, more, found, law, free);
          }
    ]

-- The lane that an entry names has the entry's task.
held-entry :
    (t : String) (owners : List LaneTaskEntry) (e : LaneTaskEntry)
    → find (λ (e : LaneTaskEntry). str_eq e.task_id t) owners ≡ some e
    → 0 < held t e.lane_name owners
held-entry t owners e h =
    let counted = held-remove_owner t e.lane_name t owners e h in
    let same_task = eq_iff t t in
    let same_lane = eq_iff e.lane_name e.lane_name in ground (arith, counted, same_task, same_lane)

complete_task-Slotted :
    (c : LaneCoordinator) (task_id : String) (tokens_used : ℕ)
    → Slotted c
    → Slotted (complete_task c task_id tokens_used).0
unfolding free_slot
complete_task-Slotted c task_id tokens_used h = elim (complete_task-cases c task_id tokens_used) [
  | inl same ↦ rw same h
  | inr (entry, taken, inl (missing, after)) ↦
      let some_task = held-entry task_id c.task_owners entry taken in
      let none_here : active_in (map_get entry.lane_name c.lanes) ≡ [] = rw missing refl in
      let before = ap (occurrences task_id) (sym none_here) ∙ h.agree entry.lane_name task_id in
      absurd (ground (arith, some_task, before))
  | inr (entry, taken, inr (state, found, after)) ↦
      let freed = free_slot state task_id tokens_used in
      let here : active_in (map_get entry.lane_name c.lanes) ≡ state.active_task_ids =
        rw found refl in
      let some_task = held-entry task_id c.task_owners entry taken in
      let counted = ap (occurrences task_id) (sym here) ∙ h.agree entry.lane_name task_id in
      let mine : 0 < occurrences task_id state.active_task_ids =
        ground (arith, some_task, counted) in
      rw after record {
        agree = λ l t.
            let law = map_get-map_insert l entry.lane_name freed c.lanes in
            let before = h.agree l t in
            let fewer = set_remove-occurrences t task_id state.active_task_ids mine in
            let left = held-remove_owner t l task_id c.task_owners entry taken in
            let names = eq_iff entry.lane_name l in
            ground (arith, before, fewer, left, law, names, found);
        sized = λ l.
            let law = map_get-map_insert l entry.lane_name freed c.lanes in
            let before = h.sized l in
            let fewer = set_remove-length task_id state.active_task_ids mine in
            let left = owned-remove_owner l task_id c.task_owners entry taken in
            let names = eq_iff entry.lane_name l in
            ground (arith, before, fewer, left, law, names, found);
        capped = λ l other there.
            let law = map_get-map_insert l entry.lane_name freed c.lanes in
            let before = h.capped l other in
            let within = h.capped entry.lane_name state found in
            let fewer = set_remove-length task_id state.active_task_ids mine in
            ground (arith, before, fewer, within, there, law);
      }
]

record_turn-Slotted :
    (c : LaneCoordinator) (lane_name : String) → Slotted c → Slotted (record_turn c lane_name).0
record_turn-Slotted c lane_name h = elim (record_turn-cases c lane_name) [
  | inl same ↦ rw same h
  | inr (state, found, after) ↦
      let turned : LaneState = record state { turns_used = state.turns_used + 1 } in
      rw after
        (write_lane-Slotted c lane_name turned h (rw found refl) (h.capped lane_name state found))
]

register_lane-Slotted :
    (c : LaneCoordinator) (lane : Lane)
    → map_get lane.name c.lanes ≡ none
    → Slotted c
    → Slotted (register_lane c lane)
unfolding register_lane
register_lane-Slotted c lane missing h =
    let cap_fits : is_within_cap (new_lane lane) ≡ true = ground arith in
    write_lane-Slotted c lane.name (new_lane lane) h (rw missing refl) cap_fits

-- No call registers a lane under a name that a lane has.
abbrev pub RegistersOnce : LaneCoordinator → List LaneCall → Type 0
RegistersOnce c [] = Unit
RegistersOnce c (registers lane ∷ rest) =
    (map_get lane.name c.lanes ≡ none) × RegistersOnce (register_lane c lane) rest
RegistersOnce c (assigns lane_name task_id task_title ∷ rest) =
    RegistersOnce (assign_task c lane_name task_id task_title).0 rest
RegistersOnce c (completes task_id tokens_used ∷ rest) =
    RegistersOnce (complete_task c task_id tokens_used).0 rest
RegistersOnce c (takes_turn lane_name ∷ rest) = RegistersOnce (record_turn c lane_name).0 rest

after_calls-Slotted :
    (c : LaneCoordinator) (calls : List LaneCall)
    → RegistersOnce c calls
    → Slotted c
    → Slotted (after_calls c calls)
after_calls-Slotted c [] once h = h
after_calls-Slotted c (registers lane ∷ rest) once h =
    after_calls-Slotted (register_lane c lane) rest once.1 (register_lane-Slotted c lane once.0 h)
after_calls-Slotted c (assigns lane_name task_id task_title ∷ rest) once h =
    after_calls-Slotted (assign_task c lane_name task_id task_title).0 rest once
      (assign_task-Slotted c lane_name task_id task_title h)
after_calls-Slotted c (completes task_id tokens_used ∷ rest) once h =
    after_calls-Slotted (complete_task c task_id tokens_used).0 rest once
      (complete_task-Slotted c task_id tokens_used h)
after_calls-Slotted c (takes_turn lane_name ∷ rest) once h =
    after_calls-Slotted (record_turn c lane_name).0 rest once (record_turn-Slotted c lane_name h)

-- Of a coordinator that starts empty and registers no lane twice, whatever else is called: the
-- owners name a lane for as many tasks as its own set has, and for no more than the cap of its
-- contract, where it has one.
pub after_calls-is_within_cap :
    (calls : List LaneCall) (l : String) (state : LaneState)
    → RegistersOnce new_coordinator calls
    → map_get l (after_calls new_coordinator calls).lanes ≡ some state
    → (length state.active_task_ids ≡ owned l (after_calls new_coordinator calls).task_owners)
      × (is_within_cap state ≡ true)
after_calls-is_within_cap calls l state once found =
    let h = after_calls-Slotted new_coordinator calls once new_coordinator-Slotted in
    let here : active_in (map_get l (after_calls new_coordinator calls).lanes)
        ≡ state.active_task_ids =
      rw found refl in
    (ap length (sym here) ∙ h.sized l, h.capped l state found)

-- A lane with a cap that is full takes one more task after it is registered again, if the task is
-- new under its id and its title and the cap allows one: the owners then name the lane for one task
-- more than before.
pub register_lane-owned :
    (c : LaneCoordinator) (lane : Lane) (task_id task_title : String) (cap : ℕ)
    → find (is_same_task task_id (canonical task_title)) c.task_owners ≡ none
    → lane.contract.budget.max_concurrent_tasks ≡ some cap
    → 0 < cap
    → owned lane.name
        (assign_task (register_lane c lane) lane.name task_id task_title).0.task_owners
      ≡ suc (owned lane.name c.task_owners)
unfolding register_lane take_slot
register_lane-owned c lane task_id task_title cap unowned capped some_slot =
    let law = map_get-map_insert lane.name lane.name (new_lane lane) c.lanes in
    let same = eq_iff lane.name lane.name in
    let entry : LaneTaskEntry = record {
      task_id = task_id;
      canonical_title = canonical task_title;
      lane_name = lane.name;
    } in
    let added = owned-append lane.name c.task_owners entry in
    let free : has_task_capacity (new_lane lane) ≡ true = rw capped (ground (arith, some_slot)) in
    let how : Assigned (register_lane c lane) lane.name task_id (canonical task_title)
        (new_lane lane) =
      record { unowned = unowned; found = ground (arith, law, same); free = free } in
    rw
      (assign_task-take_slot (register_lane c lane) lane.name task_id task_title (new_lane lane)
        how)
      (ground (arith, added, same))
