-- ===== src/Headrace/Files/Imports.antt =====
-- What importing a task twice does: `import_task` of crates/headrace/src/files.rs.
use artesian.Base.{◌≡◌, refl, ◌∙◌, String, false, none, some, arith}
use artesian.Base.Results.{ok}
use artesian.Headrace.Store.{TaskStatus, todo, doing, done, blocked, Task, same_status}
use artesian.Headrace.Format.{YamlOps, parse_task, header_of}
use artesian.Base.Texts.{trim}
use artesian.Headrace.Format.Roundtrip.{ReadsBack, task_text, render_task-written, parse_task-text}
use artesian.Headrace.Files.{
  TaskFile, FileSystem, lookup, write, write_task_at, find_path, find_canonical, task_name,
  import_task, imported, skipped_duplicate,
}
use artesian.Headrace.Files.Paths.{lookup-write_self, lookup-write_other}

canonical_free :
    {V : Type 0} (y : YamlOps V) (fs : FileSystem) (id : String)
    → find_path y fs id ≡ none
    → (s : TaskStatus) → lookup fs s (task_name id) ≡ none
unfolding find_path find_canonical
canonical_free y fs id e s = ground arith

find_path-only :
    {V : Type 0} (y : YamlOps V) (fs : FileSystem) (id : String) (s : TaskStatus) {file : TaskFile}
    → lookup fs s (task_name id) ≡ some file
    → ((s' : TaskStatus) → same_status s' s ≡ false → lookup fs s' (task_name id) ≡ none)
    → find_path y fs id ≡ some file
unfolding find_path find_canonical
find_path-only y fs id todo e others = ground (arith, others doing, others done, others blocked)
find_path-only y fs id doing e others = ground (arith, others todo, others done, others blocked)
find_path-only y fs id done e others = ground (arith, others todo, others doing, others blocked)
find_path-only y fs id blocked e others = ground (arith, others todo, others doing, others done)

module _ {V : Type 0} ⦃y : YamlOps V⦄ where
  import_task-free :
      (fs : FileSystem) (t : Task V) (r : ReadsBack y (header_of t))
      → find_path y fs t.id ≡ none
      → import_task fs t ≡ (write fs t.status (task_name t.id) (task_text t r), ok (imported t))
  unfolding import_task write_task_at
  import_task-free fs t r free = rw (import_task, free, write_task_at, render_task-written t r) refl

  import_task-held :
      (fs : FileSystem) (t held : Task V) (file : TaskFile)
      → find_path y fs t.id ≡ some file
      → parse_task file.text ≡ ok held
      → import_task fs t ≡ (fs, ok (skipped_duplicate held))
  unfolding import_task
  import_task-held fs t held file found read = rw (import_task, found, read) refl

  -- A task whose id the store cannot find is imported; a second import of it finds the first and
  -- leaves every file as it is, and returns the task that is there, with the blanks at the ends of its
  -- description gone.
  pub import_task_again :
      (fs : FileSystem) (t : Task V) (r : ReadsBack y (header_of t))
      → find_path y fs t.id ≡ none
      → let fs' = (import_task fs t).0 in
        ((import_task fs t).1 ≡ ok (imported t))
        × (import_task fs' t
            ≡ (fs', ok (skipped_duplicate (record t { description = trim t.description }))))
  import_task_again fs t r free =
      let name = task_name t.id in
      let fs' = write fs t.status name (task_text t r) in
      let here : TaskFile = record { dir = t.status; name = name; text = task_text t r } in
      let found : find_path y fs' t.id ≡ some here =
        find_path-only y fs' t.id t.status (lookup-write_self fs t.status name (task_text t r))
          (λ s other.
            lookup-write_other fs t.status s name name (task_text t r) (ground arith)
            ∙ canonical_free y fs t.id free s) in
      rw (import_task-free fs t r free) (
        refl,
        import_task-held fs' t (record t { description = trim t.description }) here found
            (parse_task-text t r),
      )
