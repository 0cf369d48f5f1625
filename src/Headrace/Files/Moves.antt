-- ===== src/Headrace/Files/Moves.antt =====
-- Where a task is after `transition`, `claim` and `create`, path by path.
use artesian.Base.{ℕ, ◌≡◌, refl, String, if_cases, Option, none, some, arith, if◌then◌else◌}
use artesian.Base.Results.{ok}
use artesian.Headrace.Store.{TaskStatus, doing, Task, TransitionTask, ClaimRequest, same_status}
use artesian.Headrace.Format.{YamlOps, render_task, parse_task}
use artesian.Headrace.Files.{
  TaskFile, FileSystem, lookup, remove, write, write_task_at, find_path, transition, claim_task,
  claimed,
}
use artesian.Headrace.Files.Paths.{is_same_path, lookup-write, lookup-remove, same_status-eq}

-- The file's move and its new text, path by path.
abbrev pub relocated :
    FileSystem → TaskFile → TaskStatus → String → TaskStatus → String → Option TaskFile
relocated fs file status text d n =
    if is_same_path status file.name d n
    then some (record { dir = status; name = file.name; text = text })
    else if is_same_path file.dir file.name d n
    then none
    else lookup fs d n

lookup-moved :
    (fs : FileSystem) (file : TaskFile) (status : TaskStatus) (old text : String) (d : TaskStatus)
    (n : String)
    → lookup
        (write (write (remove fs file.dir file.name) status file.name old) status file.name text)
        d
        n
      ≡ relocated fs file status text d n
lookup-moved fs file status old text d n =
    let gone = remove fs file.dir file.name in
    ground (
      arith,
      lookup-write (write gone status file.name old) status d file.name n text,
      lookup-write gone status d file.name n old,
      lookup-remove fs file.dir d file.name n,
    )

lookup-stayed :
    (fs : FileSystem) (file : TaskFile) (status : TaskStatus) (text : String) (d : TaskStatus)
    (n : String)
    → file.dir ≡ status
    → lookup (write fs status file.name text) d n ≡ relocated fs file status text d n
lookup-stayed fs file status text d n e =
    rw e (ground (arith, lookup-write fs status d file.name n text))

module _ {V : Type 0} ⦃y : YamlOps V⦄ where
  -- A transition of a task that is found, read and can be written ends with the task in the
  -- directory of its new status, under its file name and with its new text, with nothing left in the
  -- old directory, and with every other path as it was.
  pub transition-relocated :
      (now : ℕ) (fs : FileSystem) (request : TransitionTask) (file : TaskFile) (old : Task V)
      (text : String)
      → find_path y fs request.id ≡ some file
      → parse_task file.text ≡ ok old
      → render_task (record old { status = request.status; updated_at = now }) ≡ ok text
      → ((transition now fs request).1
          ≡ ok (record old { status = request.status; updated_at = now }))
        × ((d : TaskStatus) (n : String)
            → lookup (transition {V = V} now fs request).0 d n
              ≡ relocated fs file request.status text d n)
  unfolding transition write_task_at
  transition-relocated now fs request file old text found read written =
      rw (transition, found, read, write_task_at, written)
        (
          refl,
          λ d n.
              if_cases
                (λ m.
                  lookup (write m request.status file.name text) d n
                  ≡ relocated fs file request.status text d n)
                (same_status file.dir request.status)
                (λ e.
                  lookup-stayed fs file request.status text d n
                    (same_status-eq file.dir request.status e))
                (λ e. lookup-moved fs file request.status file.text text d n),
        )

  -- Likewise for the task that a claim has chosen.
  pub claim_task-relocated :
      (now : ℕ) (fs : FileSystem) (request : ClaimRequest) (found : Task V) (file : TaskFile)
      (text : String)
      → find_path y fs found.id ≡ some file
      → render_task (claimed now request found) ≡ ok text
      → (d : TaskStatus) (n : String)
      → lookup (claim_task now fs request found).0 d n ≡ relocated fs file doing text d n
  unfolding claim_task write_task_at
  claim_task-relocated now fs request found file text held written d n =
      rw (claim_task, held, write_task_at, written) (lookup-moved fs file doing file.text text d n)
