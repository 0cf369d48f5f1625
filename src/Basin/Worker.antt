-- ===== src/Basin/Worker.antt =====
-- The dispatch of one task: dispatch_task of crates/basin/src/lib.rs. The memory, the workspaces and
-- the agents are interfaces over a state of the world.
use Prim.Native.Char.{code}
use Prim.Native.String
use artesian.Base.{
  ℕ, String, Bool, true, false, ◌&&◌, ◌||◌, Option, none, some, List, [], ◌∷◌, length, ◌==◌,
  if◌then◌else◌,
}
use artesian.Base.Results.{Result, ok, err}
use artesian.Base.Texts.{join, split_whitespace}
use artesian.Headrace.Store.{TaskError, Task, Role, master, worker, judge}
use artesian.Headrace.Format.{ascii_lower}
use artesian.Headrace.Verifier.{Verifier, verify}
use artesian.Aquifer.Types.{
  SearchHit, StoreMemory, MemoryScope, atom, MemoryQuery, new_query, with_limit,
}
use artesian.Basin.Config.{
  OrchestratorConfig, OrchestratorError, memory_failed, workspace_failed, agent_failed,
  TokenAccounting,
}

pub record Memory (F S : Type 0) : Type 0 where
  pub find : S → MemoryQuery → S × Result String (List (SearchHit F))
  pub store : S → StoreMemory → S × Result String (Unit {0})

-- A lease is the path of the workspace.
pub record WorkspaceProvider (S : Type 0) : Type 0 where
  pub lease : S → String → S × Result String String
  pub cleanup : S → String → S × Result String (Unit {0})

-- A session is its id.
pub record Agent (S : Type 0) : Type 0 where
  pub spawn : S → Role → Option String → S × Result String String
  pub send : S → String → String → S × Result String String

-- `show_error` is the text of an error of the task store.
pub record Services (F S V : Type 0) : Type 0 where
  pub memory : Memory F S
  pub workspaces : WorkspaceProvider S
  pub worker_agent : Agent S
  pub judge_agent : Option (Agent S)
  pub verifiers : List (Verifier V)
  pub show_error : TaskError → String

pub data DispatchOutcome (V : Type 0) : Type 0 where
  passed : (task : Task V) (response : String) → TokenAccounting → DispatchOutcome V
  failed : (task : Task V) (reason : String) → DispatchOutcome V

abbrev pub starts_newline : String → Bool
starts_newline String.[] = false
starts_newline (String.◌∷◌ c s) = code c == 10

-- `lines().next()`.
unfoldable pub first_line : String → String
first_line String.[] = String.[]
first_line (String.◌∷◌ c s) =
    let rest = first_line s in
    if (code c == 10) || ((code c == 13) && starts_newline s) then String.[] else String.◌∷◌ c rest

unfoldable pub starts_ignoring_case : String → String → Bool
starts_ignoring_case String.[] s = true
starts_ignoring_case (String.◌∷◌ p ps) String.[] = false
starts_ignoring_case (String.◌∷◌ p ps) (String.◌∷◌ c s) =
    (ascii_lower (code c) == code p) && starts_ignoring_case ps s

-- `to_ascii_lowercase().contains(part)`, for a part in lower case.
unfoldable pub contains_ignoring_case : String → String → Bool
unfolding starts_ignoring_case
contains_ignoring_case part String.[] = starts_ignoring_case part String.[]
contains_ignoring_case part (String.◌∷◌ c s) =
    starts_ignoring_case part (String.◌∷◌ c s) || contains_ignoring_case part s

unfoldable pub rejects : String → Bool
rejects review = contains_ignoring_case "reject" review || contains_ignoring_case "fail" review

unfoldable pub estimate_tokens : String → ℕ
estimate_tokens text = length (split_whitespace text)

unfoldable pub estimate_task_prompt_tokens : {V : Type 0} → Task V → ℕ
unfolding estimate_tokens
estimate_task_prompt_tokens task =
    estimate_tokens (join "" (task.title ∷ " " ∷ task.description ∷ []))

abbrev pub canonical_alias : Role → String
canonical_alias master = "master"
canonical_alias worker = "worker"
canonical_alias judge = "judge"

abbrev pub hit_lines : {F : Type 0} → List (SearchHit F) → List String
hit_lines [] = []
hit_lines (hit ∷ hits) =
    "- " ∷ hit.record_of.node_id ∷ ": " ∷ first_line hit.record_of.content ∷ "\n" ∷ hit_lines hits

abbrev pub memory_lines : {F : Type 0} → List (SearchHit F) → List String
memory_lines [] = []
memory_lines (hit ∷ hits) = "\nRelevant memory:\n" ∷ hit_lines (hit ∷ hits)

unfoldable pub assemble_worker_prompt : {F V : Type 0} → Task V → List (SearchHit F) → String
assemble_worker_prompt task memory_hits = join "" (
    "Task ID: "
    ∷ task.id
    ∷ "\nTitle: "
    ∷ task.title
    ∷ "\nRole: "
    ∷ canonical_alias task.role
    ∷ "\n\nDescription:\n"
    ∷ task.description
    ∷ "\n"
    ∷ memory_lines memory_hits)

-- What the worker's answer is stored as.
unfoldable pub result_memory : String → String → String → StoreMemory
result_memory task_id session_id content = record (atom content) {
  tags = "orchestration" ∷ "worker-result" ∷ [];
  node_id = some (join "" ("task:" ∷ task_id ∷ ":worker-result" ∷ []));
  scope = some MemoryScope.task;
  session_id = some session_id;
}

-- The error of a service, or what follows its answer.
infixl 5 ◌or_fail◌
abbrev pub ◌or_fail◌ {ℓ} :
    {S A : Type 0} {B : Type ℓ}
    → S × Result String A
    → (String → OrchestratorError) × (S → A → S × Result OrchestratorError B)
    → S × Result OrchestratorError B
(s, err reason) or_fail (error, rest) = (s, err (error reason))
(s, ok a) or_fail (error, rest) = rest s a

module _ {F S V : Type 0} (services : Services F S V) where
  -- The judge's review, where there is a judge.
  unfoldable pub review :
      S → Task V → String → TokenAccounting → S × Result OrchestratorError (DispatchOutcome V)
  review s task response accounting = elim services.judge_agent [
    | none ↦ (s, ok (passed task response accounting))
    | some judge_agent ↦ judge_agent.spawn s judge none or_fail (
      agent_failed,
      λ s session.
          judge_agent.send s session (
            join "" (
              "Review task " ∷ task.id ∷ " after verifier pass.\n\nWorker result:\n" ∷ response
              ∷ []))
          or_fail (
            agent_failed,
            λ s answer. (
              s,
              if rejects answer
                  then ok (failed task answer)
                  else ok (passed task response accounting),
            ),
          ),
    )
  ]

  -- What follows the worker's answer: it is stored, verified and reviewed.
  unfoldable pub settle_response :
      S → Task V → String → String → String → S × Result OrchestratorError (DispatchOutcome V)
  unfolding review
  settle_response s task session prompt response =
      services.memory.store s (result_memory task.id session response) or_fail (
        memory_failed,
        λ s _. elim (verify services.verifiers task) [
          | err error ↦ (s, ok (failed task (services.show_error error)))
          | ok _ ↦ review s task response (record {
            agent_id = "worker";
            session_id = some session;
            prompt_tokens = estimate_tokens prompt;
            completion_tokens = estimate_tokens response;
          })
        ],
      )

  unfoldable pub dispatch_task :
      OrchestratorConfig → S → Task V → S × Result OrchestratorError (DispatchOutcome V)
  unfolding settle_response
  dispatch_task config s task =
      services.workspaces.lease s (String.◌++◌ "worker-" task.id) or_fail (
        workspace_failed,
        λ s path.
            services.memory.find s (
              with_limit (new_query (join "" (task.title ∷ " " ∷ task.description ∷ [])))
                config.memory_limit)
            or_fail (
              memory_failed,
              λ s hits.
                  let prompt = assemble_worker_prompt task hits in
                  services.worker_agent.spawn s worker (some path) or_fail (
                    agent_failed,
                    λ s session.
                        let (s, response) = services.worker_agent.send s session prompt in
                        services.workspaces.cleanup s path or_fail (
                          workspace_failed,
                          λ s _. elim response [
                            | err reason ↦ (s, ok (failed task reason))
                            | ok response ↦ settle_response s task session prompt response
                          ],
                        ),
                  ),
            ),
      )
