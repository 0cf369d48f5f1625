-- ===== src/Headrace/Files/Listing.antt =====
-- What the listing of the store and the choice of a task pass on from the files.
use Prim.Native.String.{compare}
use text.Mathlib.Text.{is_lt}
use artesian.Base.{
  ◌≡◌, Bool, true, ◌&&◌, none, some, List, [], ◌∷◌, filter, All, All-append, find-All, filter-All,
  str_eq, if_cases, subst,
}
use artesian.Base.Results.{ok, ok-of->>=, ok-injective}
use artesian.Headrace.Store.{TaskStatus, same_status, Task, ClaimRequest, is_dispatch_eligible}
use artesian.Headrace.Format.{YamlOps, parse_task}
use artesian.Headrace.Files.{
  TaskFile, FileSystem, read_dir, read_dirs, list_blocking, insert_by_id, sort_by_id, candidate,
  statuses, is_markdown,
}

module _ {V : Type 0} ⦃y : YamlOps V⦄ (P : Task V → Type 0) where
  -- What the file is read as, if it is read, has the property.
  abbrev pub Reads : TaskFile → Type 0
  Reads f = (t : Task V) → parse_task f.text ≡ ok t → P t

  insert_by_id-All : (t : Task V) (ts : List (Task V)) → P t → All P ts → All P (insert_by_id t ts)
  unfolding insert_by_id
  insert_by_id-All t [] p h = (p, tt)
  insert_by_id-All t (u ∷ us) p h =
      if_cases (All P) (is_lt (compare u.id t.id)) (λ on. (h.0, insert_by_id-All t us p h.1))
        (λ off. (p, h))

  sort_by_id-All : (ts : List (Task V)) → All P ts → All P (sort_by_id ts)
  unfolding sort_by_id
  sort_by_id-All [] h = tt
  sort_by_id-All (t ∷ ts) h = insert_by_id-All t (sort_by_id ts) h.0 (sort_by_id-All ts h.1)

  read_dir-All :
      (fs : FileSystem) (status : TaskStatus) {ts : List (Task V)}
      → read_dir fs status ≡ ok ts
      → All Reads fs
      → All P ts
  unfolding read_dir
  read_dir-All [] status e h = subst (All P) (ok-injective e) tt
  read_dir-All (f ∷ fs) status {ts} e h =
      if_cases (λ r. r ≡ ok ts → All P ts) (same_status f.dir status && is_markdown f.name)
        (λ on k.
          let (t, parsed, k₁) = ok-of->>= {early = parse_task f.text} k in
          let (rest, read, last) = ok-of->>= {early = read_dir fs status} k₁ in
          subst (All P) (ok-injective last) (h.0 t parsed, read_dir-All fs status read h.1))
        (λ off k. read_dir-All fs status k h.1) e

  read_dirs-All :
      (fs : FileSystem) (dirs : List TaskStatus) {ts : List (Task V)}
      → read_dirs fs dirs ≡ ok ts
      → All Reads fs
      → All P ts
  unfolding read_dirs
  read_dirs-All fs [] e h = subst (All P) (ok-injective e) tt
  read_dirs-All fs (status ∷ rest) e h =
      let (here, e₁, k) = ok-of->>= {early = read_dir fs status} e in
      let (more, e₂, last) = ok-of->>= {early = read_dirs fs rest} k in
      subst (All P) (ok-injective last)
        (All-append P here more (read_dir-All fs status e₁ h) (read_dirs-All fs rest e₂ h))

  pub list_blocking-All :
      (fs : FileSystem) {ts : List (Task V)} → list_blocking fs ≡ ok ts → All Reads fs → All P ts
  unfolding list_blocking
  list_blocking-All fs e h =
      let (ts, read, last) = ok-of->>= {early = read_dirs fs statuses} e in
      subst (All P) (ok-injective last) (sort_by_id-All ts (read_dirs-All fs statuses read h))

  abbrev pub names : ClaimRequest → Task V → Bool
  names request task = elim request.task_id [ none ↦ true | some id ↦ str_eq task.id id ]

  -- What is chosen is named by the request and eligible.
  pub candidate-All :
      (request : ClaimRequest) (tasks : List (Task V)) {c : Task V}
      → candidate request tasks ≡ some c
      → All P tasks
      → (P c × (names request c ≡ true)) × (is_dispatch_eligible c tasks ≡ true)
  unfolding candidate
  candidate-All request tasks e h =
      find-All (λ t. P t × (names request t ≡ true)) (λ task. is_dispatch_eligible task tasks)
        (filter (names request) tasks) e (filter-All (names request) (λ t on p. (p, on)) tasks h)
