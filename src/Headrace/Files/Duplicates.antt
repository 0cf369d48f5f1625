-- ===== src/Headrace/Files/Duplicates.antt =====
-- Ids that come twice: what `create` and `import_task` do about them.
use text.Mathlib.TextPositions.{eq_refl}
use artesian.Base.{ℕ, ◌≡◌, refl, ◌∙◌, String, none, some, arith}
use artesian.Base.Results.{ok}
use artesian.Headrace.Store.{todo, doing, NewTask, ClaimRequest}
use artesian.Headrace.Format.{YamlOps, render_task, header_of}
use artesian.Base.Texts.{trim}
use artesian.Headrace.Format.Roundtrip.{ReadsBack, task_text, render_task-written, parse_task-text}
use artesian.Headrace.Files.{
  TaskFile, FileSystem, lookup, write, write_task_at, find_path, find_canonical, task_name, create,
  new_task, get, claim_task, claimed,
}
use artesian.Headrace.Files.Paths.{lookup-write, lookup-write_self}
use artesian.Headrace.Files.Moves.{claim_task-relocated}

find_path-todo :
    {V : Type 0} (y : YamlOps V) (fs : FileSystem) (id : String) {file : TaskFile}
    → lookup fs todo (task_name id) ≡ some file
    → find_path y fs id ≡ some file
unfolding find_path find_canonical
find_path-todo y fs id e = rw (find_path, find_canonical, e) refl

module _ {V : Type 0} ⦃y : YamlOps V⦄ where
  create-eq :
      (generated : String → ℕ → String) (now : ℕ) (fs : FileSystem) (new : NewTask)
      (r : ReadsBack y (header_of (new_task {V = V} generated now new)))
      → let task = new_task {V = V} generated now new in
        lookup fs todo (task_name task.id) ≡ none
        → create generated now fs new
          ≡ (write fs todo (task_name task.id) (task_text task r), ok task)
  unfolding create write_task_at
  create-eq generated now fs new r free =
      rw (create, free, write_task_at, render_task-written (new_task {V = V} generated now new) r)
        refl

  -- A task that is created under an id that no file of `todo` is named after is found again by `get`,
  -- with the blanks at the ends of its description gone, whatever else the store holds.
  pub get-create :
      (generated : String → ℕ → String) (now : ℕ) (fs : FileSystem) (new : NewTask)
      (r : ReadsBack y (header_of (new_task {V = V} generated now new)))
      → let task = new_task {V = V} generated now new in
        lookup fs todo (task_name task.id) ≡ none
        → ((create generated now fs new).1 ≡ ok task)
          × (get (create {V = V} generated now fs new).0 task.id
              ≡ ok (some (record task { description = trim task.description })))
  unfolding get
  get-create generated now fs new r free =
      let task = new_task {V = V} generated now new in
      let name = task_name task.id in
      rw
        (
          create-eq generated now fs new r free,
          get,
          find_path-todo y (write fs todo name (task_text task r)) task.id
              (lookup-write_self fs todo name (task_text task r)),
          parse_task-text task r,
        )
        (refl, refl)

  -- If a file of `doing` is named after the id, and none of `todo`, `create` still succeeds, and the
  -- next claim of the id puts the new task over that file.
  pub create-Overwrites :
      (generated : String → ℕ → String) (now later : ℕ) (fs : FileSystem) (new : NewTask)
      (busy : TaskFile) (request : ClaimRequest)
      (r : ReadsBack y (header_of (new_task {V = V} generated now new))) (text : String)
      → let task = new_task {V = V} generated now new in
        lookup fs todo (task_name task.id) ≡ none
        → lookup fs doing (task_name task.id) ≡ some busy
        → render_task (claimed later request task) ≡ ok text
        → let fs' = (create {V = V} generated now fs new).0 in
          ((create generated now fs new).1 ≡ ok task)
          × (lookup fs' doing (task_name task.id) ≡ some busy)
          × (lookup (claim_task later fs' request task).0 doing (task_name task.id)
              ≡ some (record { dir = doing; name = task_name task.id; text = text }))
  create-Overwrites generated now later fs new busy request r text free taken written =
      let task = new_task {V = V} generated now new in
      let name = task_name task.id in
      let fs' = write fs todo name (task_text task r) in
      let here : TaskFile = record { dir = todo; name = name; text = task_text task r } in
      rw (create-eq generated now fs new r free) (
        refl,
        lookup-write fs todo doing name name (task_text task r) ∙ taken,
        claim_task-relocated later fs' request task here text
              (find_path-todo y fs' task.id (lookup-write_self fs todo name (task_text task r)))
              written doing name
            ∙ ground (arith, eq_refl name),
      )
