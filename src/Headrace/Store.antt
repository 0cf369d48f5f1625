-- ===== src/Headrace/Store.antt =====
-- Tasks, their states and the errors of the store: crates/headrace/src/store.rs.
use artesian.Base.{
  ℕ, String, Bool, true, false, ◌&&◌, Option, none, some, List, [], all, find, str_eq,
}

pub data TaskError : Type 0 where
  io encode json invalid_file not_found verifier memory : String → TaskError
  blocked_by : List String → TaskError

-- crates/artesian-core/src/roles.rs.
pub data Role : Type 0 where
  master worker judge : Role

pub data TaskStatus : Type 0 where
  todo doing done blocked : TaskStatus

abbrev pub same_status : TaskStatus → TaskStatus → Bool
same_status todo todo = true
same_status doing doing = true
same_status done done = true
same_status blocked blocked = true
same_status _ _ = false

abbrev pub directory : TaskStatus → String
directory todo = "todo"
directory doing = "doing"
directory done = "done"
directory blocked = "blocked"

abbrev pub is_terminal : TaskStatus → Bool
is_terminal todo = false
is_terminal doing = false
is_terminal done = true
is_terminal blocked = true

pub data TaskKind : Type 0 where
  compound primitive : TaskKind

-- A time is a number, and `V` the type of `serde_yaml::Value`.
pub record Task (V : Type 0) : Type 0 where
  pub id : String
  pub title : String
  pub description : String
  pub role : Role
  pub status : TaskStatus
  pub kind : TaskKind
  pub blockers : List String
  pub children : List String
  pub claimed_by : Option String
  pub verifier_names : List String
  pub created_at : ℕ
  pub updated_at : ℕ
  pub extra : List (String × V)

pub record NewTask : Type 0 where
  pub id : Option String
  pub title : String
  pub description : String
  pub role : Role
  pub kind : TaskKind
  pub blockers : List String
  pub children : List String
  pub verifier_names : List String

-- `NewTask::primitive`.
abbrev pub primitive_task : String → NewTask
primitive_task title = record {
  id = none;
  title = title;
  description = "";
  role = worker;
  kind = primitive;
  blockers = [];
  children = [];
  verifier_names = [];
}

pub record ClaimRequest : Type 0 where
  pub task_id : Option String
  pub claimant : String

pub record TransitionTask : Type 0 where
  pub id : String
  pub status : TaskStatus

module _ {V : Type 0} where
  unfoldable pub is_finished : List (Task V) → String → Bool
  unfolding find
  is_finished tasks blocker = elim (find (λ candidate. str_eq candidate.id blocker) tasks) [
    | none ↦ false
    | some candidate ↦ is_terminal candidate.status
  ]

  unfoldable pub is_dispatch_eligible : Task V → List (Task V) → Bool
  is_dispatch_eligible task tasks =
      same_status task.status todo && all (is_finished tasks) task.blockers
