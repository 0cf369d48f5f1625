-- ===== src/Basin/Claiming.antt =====
-- The claims of a tick: the first part of run_once of crates/basin/src/lib.rs, over a task store.
pub mod Limits
pub mod Requests
use artesian.Base.{
  ℕ, zero, suc, ◌+◌, String, Bool, true, false, not, Option, none, some, List, [], ◌∷◌, ◌++◌, map,
  filter, length, ltb, leb, if◌then◌else◌,
}
use artesian.Base.Results.{Result, ok, err}
use artesian.Headrace.Store.{
  TaskError, Task, TaskStatus, todo, doing, done, blocked, same_status, Role, master, worker, judge,
  ClaimRequest, TransitionTask, is_dispatch_eligible,
}
use artesian.Basin.Config.{
  Mode, orchestrate, full, OrchestratorConfig, OrchestratorError, disabled, task_failed, EventType,
  task_announced, task_claimed, result, verdict, blocked_event, status, error, quota_exhausted,
  announced, claimed_payload, stalled, content_payload, passed_payload, failed_payload,
  blocked_payload, error_payload, TokenAccounting, CompletedJob, RunLog, LoopState, ReconcileReport,
  RunUntilIdleReport, Kept, set_key, push_event, quota_allows, record_request, should_retry,
}
use artesian.Basin.Worker.{
  Services, DispatchOutcome, passed, failed, dispatch_task, estimate_task_prompt_tokens,
}

-- The calls of a task store that the loop makes, and the sleep of the backoff.
pub record TaskStore (S V : Type 0) : Type 0 where
  pub list : S → Result TaskError (List (Task V))
  pub claim : S → ClaimRequest → S × Result TaskError (Option (Task V))
  pub transition : S → TransitionTask → S × Result TaskError (Task V)
  pub sleep : S → ℕ → S

-- What the loop leaves behind at each of its points: what it keeps, and the world.
pub record Point (S : Type 0) : Type 0 where
  pub kept : Kept
  pub world : S

abbrev pub is_enabled : Mode → Bool
is_enabled Mode.memory = false
is_enabled orchestrate = true
is_enabled full = true
is_enabled Mode.advanced = false

module _ {V : Type 0} where
  -- `sort_by_key`, which is stable.
  unfoldable pub insert_by_creation : Task V → List (Task V) → List (Task V)
  insert_by_creation task [] = task ∷ []
  insert_by_creation task (first ∷ rest) =
      let more = insert_by_creation task rest in
      if leb task.created_at first.created_at then task ∷ first ∷ rest else first ∷ more

  unfoldable pub sort_by_creation : List (Task V) → List (Task V)
  unfolding insert_by_creation
  sort_by_creation [] = []
  sort_by_creation (task ∷ tasks) = insert_by_creation task (sort_by_creation tasks)

  unfoldable pub eligible_tasks : List (Task V) → List (Task V)
  unfolding sort_by_creation filter
  eligible_tasks tasks = sort_by_creation (filter (λ task. is_dispatch_eligible task tasks) tasks)

module _ {S V : Type 0} (store : TaskStore S V) (config : OrchestratorConfig) where
  abbrev pub log_claim : ℕ → Task V → Kept → Kept
  log_claim tokens claimed kept =
      push_event (record kept { state = record_request kept.state "worker" tokens }) claimed.id
        worker "basin-worker" task_claimed (claimed_payload claimed.id claimed.claimed_by)

  -- One eligible task: its quota, its announcement and its claim.
  unfoldable pub claim_step :
      Task V → Point S → Point S × Result OrchestratorError (Option (Task V))
  unfolding push_event quota_allows record_request
  claim_step task p =
      let tokens = estimate_task_prompt_tokens task in
      if not (quota_allows p.kept.state config.quotas "worker" tokens)
      then (
        record p {
          kept = push_event p.kept task.id master "basin" status (quota_exhausted task.id);
        },
        ok none,
      )
      else let kept =
          push_event p.kept task.id master "basin" task_announced (announced task.id task.title) in
        let (s, answer) =
          store.claim p.world (record { task_id = some task.id; claimant = "basin-worker" }) in
        elim answer [
          | err e ↦ (record { kept = kept; world = s }, err (task_failed e))
          | ok none ↦ (record { kept = kept; world = s }, ok none)
          | ok (some claimed) ↦
              (record { kept = log_claim tokens claimed kept; world = s }, ok (some claimed))
        ]

  -- The claims, until as many are made as may run at once.
  unfoldable pub claim_tasks :
      List (Task V) → Point S → List (Task V) → Point S × Result OrchestratorError (List (Task V))
  unfolding claim_step
  claim_tasks [] p claimed = (p, ok claimed)
  claim_tasks (task ∷ rest) p claimed = elim (leb config.concurrency_limit (length claimed)) [
    | true ↦ (p, ok claimed)
    | false ↦
        let (p, step) = claim_step task p in
        elim step [
          | err e ↦ (p, err e)
          | ok none ↦ claim_tasks rest p claimed
          | ok (some task) ↦ claim_tasks rest p (claimed ++ task ∷ [])
        ]
  ]
