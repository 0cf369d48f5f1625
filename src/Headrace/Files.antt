-- ===== src/Headrace/Files.antt =====
-- The task store over status directories: FilesTaskStore of crates/headrace/src/files.rs. The
-- directories `tasks/<status>/` are one list of files, each with its directory, name and text, in
-- the order in which the file system lists them. Each call holds the store's lock throughout.
pub mod Paths
pub mod Moves
pub mod Listing
pub mod Claims
pub mod Duplicates
pub mod Imports
use Prim.Native.String
use text.Mathlib.Text
use artesian.Base.{
  ℕ, ◌+◌, ◌-◌, String, Bool, true, false, not, ◌&&◌, ◌||◌, Option, none, some, List, [], ◌∷◌, ◌++◌,
  filter, find, ltb, str_eq, if◌then◌else◌,
}
use artesian.Base.Results.{Result, ok, err, ◌>>=◌}
use artesian.Headrace.Store.{
  TaskError, io, invalid_file, not_found, TaskStatus, todo, doing, done, blocked, same_status, Task,
  NewTask, ClaimRequest, TransitionTask, is_dispatch_eligible,
}
use artesian.Headrace.Format.{YamlOps, render_task, parse_task}

-- A file of a status directory. Its name is flat: an id or a name with a path separator, which would
-- lead into or out of another directory, is not in the model.
pub record TaskFile : Type 0 where
  pub dir : TaskStatus
  pub name : String
  pub text : String

abbrev pub FileSystem : Type 0
FileSystem = List TaskFile

abbrev pub at_path : TaskStatus → String → TaskFile → Bool
at_path dir name f = same_status f.dir dir && str_eq f.name name

-- What `std::fs` does: read the file at a path, write one (in place of the one there), remove it,
-- and rename it (over the one at the target).
unfoldable pub lookup : FileSystem → TaskStatus → String → Option TaskFile
unfolding find
lookup fs dir name = find (at_path dir name) fs

unfoldable pub remove : FileSystem → TaskStatus → String → FileSystem
unfolding filter
remove fs dir name = filter (λ f. not (at_path dir name f)) fs

unfoldable pub write : FileSystem → TaskStatus → String → String → FileSystem
unfolding remove
write fs dir name text = remove fs dir name ++ record { dir = dir; name = name; text = text } ∷ []

-- `path.extension() == Some("md")`: a name that is all extension has none.
unfoldable pub is_markdown : String → Bool
is_markdown name =
    ltb 3 (String.len name)
    && str_eq (String.slice name (String.len name - 3) (String.len name)) ".md"

-- `task_path`: the name that the store gives to the file of a task.
abbrev pub task_name : String → String
task_name id = String.◌++◌ id ".md"

abbrev pub statuses : List TaskStatus
statuses = todo ∷ doing ∷ done ∷ blocked ∷ []

-- The fast path of `find_path`.
unfoldable pub find_canonical : FileSystem → String → List TaskStatus → Option TaskFile
find_canonical fs id [] = none
find_canonical fs id (status ∷ rest) = elim (lookup fs status (task_name id)) [
  | some file ↦ some file
  | none ↦ find_canonical fs id rest
]

-- The call that follows a write has its result.
abbrev pub after_write {ℓ} :
    {A : Type ℓ} → FileSystem × Result TaskError (Unit {0}) → A → FileSystem × Result TaskError A
after_write (fs, err e) a = (fs, err e)
after_write (fs, ok _) a = (fs, ok a)

pub data TaskImportOutcome (V : Type 0) : Type 0 where
  imported skipped_duplicate : Task V → TaskImportOutcome V

-- `TaskImportOutcome::task` and `TaskImportOutcome::imported`.
abbrev pub outcome_task : {V : Type 0} → TaskImportOutcome V → Task V
outcome_task (imported task) = task
outcome_task (skipped_duplicate task) = task

abbrev pub is_imported : {V : Type 0} → TaskImportOutcome V → Bool
is_imported (imported task) = true
is_imported (skipped_duplicate task) = false

module _ {V : Type 0} (y : YamlOps V) where
  unfoldable pub holds_id : String → TaskFile → Bool
  holds_id id file = elim (parse_task ⦃y = y⦄ file.text) [
    | err _ ↦ false
    | ok task ↦ str_eq task.id id
  ]

  -- The scan of `find_path`, which asks the files themselves.
  unfoldable pub find_held : FileSystem → String → List TaskStatus → Option TaskFile
  unfolding find
  find_held fs id [] = none
  find_held fs id (status ∷ rest) =
      elim (find (λ f. same_status f.dir status && is_markdown f.name && holds_id id f) fs) [
        | some file ↦ some file
        | none ↦ find_held fs id rest
      ]

  unfoldable pub find_path : FileSystem → String → Option TaskFile
  find_path fs id = elim (find_canonical fs id statuses) [
    | some file ↦ some file
    | none ↦ find_held fs id statuses
  ]

module _ {V : Type 0} where
  -- `now` is the reading of the clock, and `generated` is `generated_task_id`, a digest.
  unfoldable pub new_task : (String → ℕ → String) → ℕ → NewTask → Task V
  new_task generated now new = record {
    id = elim new.id [ some id ↦ id | none ↦ generated new.title now ];
    title = new.title;
    description = new.description;
    role = new.role;
    status = todo;
    kind = new.kind;
    blockers = new.blockers;
    children = new.children;
    claimed_by = none;
    verifier_names = new.verifier_names;
    created_at = now;
    updated_at = now;
    extra = [];
  }

  -- The task as its claimant has it.
  abbrev pub claimed : ℕ → ClaimRequest → Task V → Task V
  claimed now request found = record found {
    status = doing;
    claimed_by = some request.claimant;
    updated_at = now;
  }

module _ {V : Type 0} ⦃y : YamlOps V⦄ where
  -- `write_task_at`: the state is as it was if the task cannot be encoded.
  unfoldable pub write_task_at :
      FileSystem → TaskStatus → String → Task V → FileSystem × Result TaskError (Unit {0})
  write_task_at fs dir name task = elim (render_task task) [
    | err e ↦ (fs, err e)
    | ok text ↦ (write fs dir name text, ok tt)
  ]

  -- `list_blocking`: the Markdown files, directory by directory; the first that cannot be read
  -- ends it. Then the tasks sorted by id.
  unfoldable pub read_dir : FileSystem → TaskStatus → Result TaskError (List (Task V))
  read_dir [] status = ok []
  read_dir (f ∷ fs) status =
      let rest = read_dir fs status in
      if same_status f.dir status && is_markdown f.name
      then (parse_task f.text >>= λ task. rest >>= λ tasks. ok (task ∷ tasks))
      else rest

  unfoldable pub read_dirs : FileSystem → List TaskStatus → Result TaskError (List (Task V))
  unfolding read_dir
  read_dirs fs [] = ok []
  read_dirs fs (status ∷ rest) =
      read_dir fs status >>= λ tasks. read_dirs fs rest >>= λ more. ok (tasks ++ more)

  unfoldable pub insert_by_id : Task V → List (Task V) → List (Task V)
  insert_by_id task [] = task ∷ []
  insert_by_id task (t ∷ ts) =
      if Text.is_lt (String.compare t.id task.id) then t ∷ insert_by_id task ts else task ∷ t ∷ ts

  unfoldable pub sort_by_id : List (Task V) → List (Task V)
  unfolding insert_by_id
  sort_by_id [] = []
  sort_by_id (t ∷ ts) = insert_by_id t (sort_by_id ts)

  unfoldable pub list_blocking : FileSystem → Result TaskError (List (Task V))
  unfolding read_dirs sort_by_id
  list_blocking fs = read_dirs fs statuses >>= λ tasks. ok (sort_by_id tasks)

  unfoldable pub get : FileSystem → String → Result TaskError (Option (Task V))
  get fs id = elim (find_path y fs id) [
    | none ↦ ok none
    | some file ↦ (parse_task file.text >>= λ task. ok (some task))
  ]

  unfoldable pub create :
      (String → ℕ → String) → ℕ → FileSystem → NewTask → FileSystem × Result TaskError (Task V)
  create generated now fs new =
      let task : Task V = new_task generated now new in
      elim (lookup fs todo (task_name task.id)) [
        | some _ ↦ (fs, err (invalid_file (String.◌++◌ "task already exists: " task.id)))
        | none ↦ after_write (write_task_at fs todo (task_name task.id) task) task
      ]

  unfoldable pub import_task :
      FileSystem → Task V → FileSystem × Result TaskError (TaskImportOutcome V)
  import_task fs task = elim (find_path y fs task.id) [
    | some file ↦ (fs, parse_task file.text >>= λ held. ok (skipped_duplicate held))
    | none ↦ after_write (write_task_at fs task.status (task_name task.id) task) (imported task)
  ]

  -- `task` with its file moved to the directory of its status, under the name it has.
  unfoldable pub transition :
      ℕ → FileSystem → TransitionTask → FileSystem × Result TaskError (Task V)
  transition now fs request = elim (find_path y fs request.id) [
    | none ↦ (fs, err (not_found request.id))
    | some file ↦ elim (parse_task file.text) [
      | err e ↦ (fs, err e)
      | ok old ↦
          let task : Task V = record old { status = request.status; updated_at = now } in
          let moved : FileSystem =
            if same_status file.dir task.status
            then fs
            else write (remove fs file.dir file.name) task.status file.name file.text in
          after_write (write_task_at moved task.status file.name task) task
    ]
  ]

  -- The first task, in the order of the ids, that the request names and that is eligible.
  unfoldable pub candidate : ClaimRequest → List (Task V) → Option (Task V)
  unfolding find filter is_dispatch_eligible
  candidate request tasks =
      let named : List (Task V) =
        filter (λ task. elim request.task_id [ none ↦ true | some id ↦ str_eq task.id id ]) tasks in
      find (λ task. is_dispatch_eligible task tasks) named

  unfoldable pub claim_task :
      ℕ → FileSystem → ClaimRequest → Task V → FileSystem × Result TaskError (Option (Task V))
  claim_task now fs request found = elim (find_path y fs found.id) [
    | none ↦ (fs, ok none)
    | some file ↦
        let task : Task V = claimed now request found in
        after_write
          (write_task_at (write (remove fs file.dir file.name) doing file.name file.text) doing
            file.name task)
          (some task)
  ]

  unfoldable pub claim :
      ℕ → FileSystem → ClaimRequest → FileSystem × Result TaskError (Option (Task V))
  claim now fs request = elim (list_blocking fs) [
    | err e ↦ (fs, err e)
    | ok tasks ↦ elim (candidate request tasks) [
      | none ↦ (fs, ok none)
      | some found ↦ claim_task now fs request found
    ]
  ]
