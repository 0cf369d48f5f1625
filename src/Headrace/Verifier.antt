-- ===== src/Headrace/Verifier.antt =====
-- The gate before a task is done: VerifierGate of crates/headrace/src/verifier.rs, over the store of
-- status directories.
use Prim.Native.String
use artesian.Base.{
  ℕ, ◌≡◌, refl, sym, ◌∙◌, String, Bool, true, none, some, List, [], ◌∷◌, All, if◌then◌else◌,
  if_cases, ◌⊎◌, inl, inr,
}
use artesian.Base.Results.{Result, ok, err, ◌>>=◌, ok-of->>=, err-ne-ok}
use artesian.Headrace.Store.{TaskError, verifier, not_found, Task, done}
use artesian.Headrace.Format.{YamlOps}
use artesian.Headrace.Files.{FileSystem, get, transition}

pub record VerifierOutcome : Type 0 where
  pub name : String
  pub passed : Bool
  pub output : String

-- A verifier runs a command, so it is any function of the task.
abbrev pub Verifier : Type 0 → Type 0
Verifier V = Task V → Result TaskError VerifierOutcome

module _ {V : Type 0} where
  -- The verifiers in turn; the first error or failure ends it.
  unfoldable pub verify : List (Verifier V) → Task V → Result TaskError (List VerifierOutcome)
  verify [] task = ok []
  verify (v ∷ vs) task =
      let rest = verify vs task in
      (v task >>= λ outcome.
      if outcome.passed
      then (rest >>= λ outcomes. ok (outcome ∷ outcomes))
      else err (verifier (String.◌++◌ outcome.name (String.◌++◌ " failed: " outcome.output))))

module _ {V : Type 0} ⦃y : YamlOps V⦄ where
  -- The task's reading, then the verifiers, then the transition.
  unfoldable pub mark_done :
      ℕ → List (Verifier V) → FileSystem → String → FileSystem × Result TaskError (Task V)
  mark_done now verifiers fs id = elim (get {V = V} fs id) [
    | err e ↦ (fs, err e)
    | ok none ↦ (fs, err (not_found id))
    | ok (some task) ↦ elim (verify verifiers task) [
      | err e ↦ (fs, err e)
      | ok _ ↦ transition now fs (record { id = id; status = done })
    ]
  ]

module _ {V : Type 0} where
  -- The verifier passes the task.
  abbrev pub Passes : Task V → Verifier V → Type 0
  Passes task v = (outcome : VerifierOutcome) × (v task ≡ ok outcome) × (outcome.passed ≡ true)

  verify-Passes :
      (vs : List (Verifier V)) (task : Task V) {outcomes : List VerifierOutcome}
      → verify vs task ≡ ok outcomes
      → All (Passes task) vs
  unfolding verify
  verify-Passes [] task e = tt
  verify-Passes (v ∷ vs) task {outcomes} e =
      let (outcome, ran, k) = ok-of->>= {early = v task} e in
      if_cases (λ r. r ≡ ok outcomes → All (Passes task) (v ∷ vs)) outcome.passed
        (λ on k₁.
          let (rest, more, last) = ok-of->>= {early = verify vs task} k₁ in
          ((outcome, ran, on), verify-Passes vs task more))
        (λ off k₁. absurd (err-ne-ok k₁)) k

  Passes-verify :
      (vs : List (Verifier V)) (task : Task V)
      → All (Passes task) vs
      → (outcomes : List VerifierOutcome) × (verify vs task ≡ ok outcomes)
  unfolding verify
  Passes-verify [] task h = ([], refl)
  Passes-verify (v ∷ vs) task ((outcome, ran, on), h) =
      let (outcomes, more) = Passes-verify vs task h in
      (outcome ∷ outcomes, rw (verify, ran, on, more) refl)

module _ {V : Type 0} ⦃y : YamlOps V⦄ where
  mark_verified :
      (now : ℕ) (vs : List (Verifier V)) (fs : FileSystem) (id : String) (task : Task V)
      → get fs id ≡ ok (some task)
      → (verdict : Result TaskError (List VerifierOutcome)) → verify vs task ≡ verdict
      → (All (Passes task) vs
          × (mark_done now vs fs id ≡ transition now fs (record { id = id; status = done })))
        ⊎ ((¬ All (Passes task) vs) × ((e : TaskError) × (mark_done now vs fs id ≡ (fs, err e))))
  unfolding mark_done
  mark_verified now vs fs id task found (ok outcomes) e =
      inl (verify-Passes vs task e, rw (mark_done, found, e) refl)
  mark_verified now vs fs id task found (err failure) e = inr (
    λ h. let (outcomes, passed) = Passes-verify vs task h in err-ne-ok (sym e ∙ passed),
    (failure, rw (mark_done, found, e) refl),
  )

  -- A task that the store has is marked as done by a transition exactly if every verifier runs and
  -- passes it; otherwise the call returns an error and leaves every file as it is.
  pub mark_done-Passes :
      (now : ℕ) (vs : List (Verifier V)) (fs : FileSystem) (id : String) (task : Task V)
      → get fs id ≡ ok (some task)
      → (All (Passes task) vs
          × (mark_done now vs fs id ≡ transition now fs (record { id = id; status = done })))
        ⊎ ((¬ All (Passes task) vs) × ((e : TaskError) × (mark_done now vs fs id ≡ (fs, err e))))
  mark_done-Passes now vs fs id task found =
      mark_verified now vs fs id task found (verify vs task) refl
