-- ===== src/Headrace/Files/Claims.antt =====
-- A claimed task is not handed out again.
use text.Mathlib.TextEquality.{eq_iff}
use artesian.Base.{
  ℕ, ◌≡◌, ◌≢◌, refl, sym, ap, ◌∙◌, String, Bool, true, not, none, some, List, [], ◌∷◌, ◌++◌, arith,
  filter, All, All-append, filter-All, all, all-All, ◌||◌, inl, inr, ◌⊎◌, Option-cases,
}
use artesian.Base.Results.{Result, ok, err, ok-injective, err-ne-ok}
use artesian.Headrace.Store.{TaskError, todo, doing, Task, ClaimRequest, is_dispatch_eligible}
use artesian.Headrace.Format.{YamlOps, parse_task, header_of}
use artesian.Base.Texts.{trim}
use artesian.Headrace.Format.Roundtrip.{ReadsBack, task_text, render_task-written, parse_task-text}
use artesian.Headrace.Files.{
  TaskFile, FileSystem, at_path, remove, write, write_task_at, find_path, holds_id, list_blocking,
  candidate, claim_task, claim, claimed,
}
use artesian.Headrace.Files.Paths.{same_status-eq, at_path_refl}
use artesian.Headrace.Files.Listing.{Reads, list_blocking-All, candidate-All}

-- The task, if it has the id, is at work.
abbrev pub AtWork : {V : Type 0} → String → Task V → Type 0
AtWork id t = t.id ≡ id → t.status ≡ doing

-- No file but the one at the path holds the id.
abbrev pub is_sole : {V : Type 0} → YamlOps V → FileSystem → String → TaskFile → Bool
is_sole y fs id file = all (λ f. not (holds_id y id f) || at_path file.dir file.name f) fs

module _ {V : Type 0} ⦃y : YamlOps V⦄ where
  -- An eligible task is still to do.
  eligible-todo :
      (t : Task V) (tasks : List (Task V)) → is_dispatch_eligible t tasks ≡ true → t.status ≡ todo
  unfolding is_dispatch_eligible
  eligible-todo t tasks e = ground (arith, same_status-eq t.status todo)

  no_candidate :
      (id claimant : String) (tasks : List (Task V))
      → All (AtWork id) tasks
      → candidate (record { task_id = some id; claimant = claimant }) tasks ≡ none
  no_candidate id claimant tasks h =
      let again : ClaimRequest = record { task_id = some id; claimant = claimant } in
      elim (Option-cases (candidate again tasks)) [
        | inl e ↦ e
        | inr (c, e) ↦
            let ((busy, named), eligible) = candidate-All (AtWork id) again tasks e h in
            absurd (
              todo-ne-doing
                (sym (eligible-todo c tasks eligible) ∙ busy ((eq_iff c.id id).0 named)))
      ]
    where
      todo-ne-doing : todo ≢ doing
      todo-ne-doing e = cc

  holds_id-of :
      (id : String) (f : TaskFile) (t : Task V)
      → parse_task f.text ≡ ok t
      → t.id ≡ id
      → holds_id y id f ≡ true
  unfolding holds_id
  holds_id-of id f t read same = rw (holds_id, read) ((eq_iff t.id id).1 same)

module _ (V : Type 0) ⦃y : YamlOps V⦄ where
  others-AtWork :
      (fs : FileSystem) (id : String) (file : TaskFile)
      → is_sole y fs id file ≡ true
      → All (Reads (AtWork {V = V} id)) (remove fs file.dir file.name)
  unfolding remove
  others-AtWork fs id file sole =
      filter-All (λ f. not (at_path file.dir file.name f))
        (λ f away only t read same. absurd (ground (arith, holds_id-of id f t read same))) fs
        (all-All (λ f. not (holds_id y id f) || at_path file.dir file.name f) fs sole)

module _ {V : Type 0} ⦃y : YamlOps V⦄ where
  write-AtWork :
      (fs : FileSystem) (id : String) (name old text : String) (t : Task V)
      → All (Reads (AtWork {V = V} id)) fs
      → parse_task text ≡ ok t
      → t.status ≡ doing
      → All (Reads (AtWork {V = V} id)) (write (write fs doing name old) doing name text)
  unfolding write remove
  write-AtWork fs id name old text t h read busy =
      let away : TaskFile → Bool = λ f. not (at_path doing name f) in
      let left = filter away fs in
      let between : TaskFile = record { dir = doing; name = name; text = old } in
      let Settled : TaskFile → Type 0 =
        λ f. (at_path doing name f ≡ true) ⊎ Reads (AtWork {V = V} id) f in
      All-append (Reads (AtWork {V = V} id)) (filter away (left ++ between ∷ [])) (_ ∷ [])
        (filter-All away (λ f off s. elim s [ inl on ↦ absurd (ground arith) | inr reads ↦ reads ])
          (left ++ between ∷ [])
          (All-append Settled left (between ∷ []) (filter-All away (λ f off reads. inr reads) fs h)
            (inl (at_path_refl between), tt)))
        (λ u again same. ap (λ v. v.status) (ok-injective (sym again ∙ read)) ∙ busy, tt)

  claim_chosen :
      (now : ℕ) (fs : FileSystem) (request : ClaimRequest) {tasks : List (Task V)} {found : Task V}
      → list_blocking fs ≡ ok tasks
      → candidate request tasks ≡ some found
      → claim now fs request ≡ claim_task now fs request found
  unfolding claim
  claim_chosen now fs request listed chosen = rw (claim, listed, chosen) refl

  claim_task-eq :
      (now : ℕ) (fs : FileSystem) (request : ClaimRequest) (found : Task V) (file : TaskFile)
      (r : ReadsBack y (header_of (claimed now request found)))
      → find_path y fs found.id ≡ some file
      → claim_task now fs request found ≡ (
        write
            (write (remove fs file.dir file.name) doing file.name file.text)
            doing
            file.name
            (task_text (claimed now request found) r),
        ok (some (claimed now request found)),
      )
  unfolding claim_task write_task_at
  claim_task-eq now fs request found file r held =
      rw (claim_task, held, write_task_at, render_task-written (claimed now request found) r) refl

  claim_refused :
      (now : ℕ) (fs : FileSystem) (id claimant : String)
      → All (Reads (AtWork {V = V} id)) fs
      → (listed : Result TaskError (List (Task V))) → list_blocking fs ≡ listed
      → let again : ClaimRequest = record { task_id = some id; claimant = claimant } in
        ((claim {V = V} now fs again).0 ≡ fs)
        × ((t : Task V) → (claim now fs again).1 ≢ ok (some t))
  unfolding claim
  claim_refused now fs id claimant h (err e) listed = rw (claim, listed) (refl, λ t p. err-ne-ok p)
  claim_refused now fs id claimant h (ok tasks) listed =
      rw (claim, listed, no_candidate id claimant tasks (list_blocking-All (AtWork id) fs listed h))
        (refl, λ t p. cc (ok-injective p))

  -- A task that is chosen, and whose id no other file holds, goes to its claimant; and whoever then
  -- claims that id, at any time, gets no task, and leaves every file as it is.
  pub claim-Exclusive :
      (now : ℕ) (fs : FileSystem) (request : ClaimRequest) (tasks : List (Task V)) (found : Task V)
      (file : TaskFile) (r : ReadsBack y (header_of (claimed now request found)))
      → list_blocking fs ≡ ok tasks
      → candidate request tasks ≡ some found
      → find_path y fs found.id ≡ some file
      → is_sole y fs found.id file ≡ true
      → (later : ℕ) (claimant : String)
      → let fs' = (claim {V = V} now fs request).0 in
        let again : ClaimRequest = record { task_id = some found.id; claimant = claimant } in
        ((claim now fs request).1 ≡ ok (some (claimed now request found)))
        × ((claim {V = V} later fs' again).0 ≡ fs')
        × ((t : Task V) → (claim later fs' again).1 ≢ ok (some t))
  claim-Exclusive now fs request tasks found file r listed chosen held sole later claimant =
      let first =
        claim_chosen now fs request listed chosen
        ∙ claim_task-eq now fs request found file r held in
      let got = claimed now request found in
      let fs' =
        write (write (remove fs file.dir file.name) doing file.name file.text) doing file.name
          (task_text got r) in
      let refused =
        claim_refused later fs' found.id claimant
          (write-AtWork (remove fs file.dir file.name) found.id file.name file.text
            (task_text got r) (record got { description = trim got.description })
            (others-AtWork V fs found.id file sole) (parse_task-text got r) refl)
          (list_blocking fs') refl in
      rw first (refl, refused.0, refused.1)
