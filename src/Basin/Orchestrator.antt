-- ===== src/Basin/Orchestrator.antt =====
-- The orchestration loop: run_once and run_until_idle of crates/basin/src/lib.rs. The dispatches that
-- run_once awaits together run one after the other here, which is one of their interleavings; their
-- outcomes are settled after all of them in the code too.
pub mod Budgets
pub mod Ticks
use artesian.Base.{
  ℕ, zero, suc, ◌+◌, String, Bool, true, false, not, Option, none, some, List, [], ◌∷◌, ◌++◌, map,
  filter, length, ltb, leb, if◌then◌else◌,
}
use artesian.Base.Results.{Result, ok, err}
use artesian.Headrace.Store.{
  TaskError, Task, TaskStatus, todo, doing, done, blocked, same_status, Role, master, worker, judge,
  ClaimRequest, TransitionTask, is_dispatch_eligible,
}
use artesian.Basin.Config.{
  Mode, orchestrate, full, OrchestratorConfig, OrchestratorError, disabled, task_failed, EventType,
  task_announced, task_claimed, result, verdict, blocked_event, status, error, quota_exhausted,
  announced, claimed_payload, stalled, content_payload, passed_payload, failed_payload,
  blocked_payload, error_payload, TokenAccounting, CompletedJob, RunLog, LoopState, ReconcileReport,
  RunUntilIdleReport, Kept, set_key, push_event, quota_allows, record_request, should_retry,
}
use artesian.Basin.Worker.{
  Services, DispatchOutcome, passed, failed, dispatch_task, estimate_task_prompt_tokens,
}
use artesian.Basin.Claiming.{TaskStore, Point, is_enabled, eligible_tasks, claim_tasks}
use artesian.Basin.Settling.{settle_outcomes}

-- `Vec::is_empty`.
abbrev pub is_nil : {A : Type 0} → List A → Bool
is_nil [] = true
is_nil (x ∷ xs) = false

module _ {V : Type 0} where
  abbrev pub doing_ids : List (Task V) → List String
  doing_ids tasks = map (λ task. task.id) (filter (λ task. same_status task.status doing) tasks)

module _ {S V : Type 0} (store : TaskStore S V) (config : OrchestratorConfig) where
  -- A tick without a claim.
  unfoldable pub idle_tick :
      List (Task V) → Point S → Point S × Result OrchestratorError ReconcileReport
  unfolding push_event filter
  idle_tick tasks p =
      let doing = doing_ids tasks in
      (
        if is_nil doing then p else record p {
          kept = push_event p.kept "orchestrator" master "basin" status (stalled doing);
        },
        ok (record { dispatched = 0; completed = 0; blocked = 0; idle = is_nil doing }),
      )

module _ {F S V : Type 0} (services : Services F S V) (store : TaskStore S V)
    (config : OrchestratorConfig) where
  -- `join_all`.
  unfoldable pub dispatch_all :
      S → List (Task V) → S × List (Result OrchestratorError (DispatchOutcome V))
  unfolding dispatch_task
  dispatch_all s [] = (s, [])
  dispatch_all s (task ∷ tasks) =
      let (s, outcome) = dispatch_task services config s task in
      let (s, outcomes) = dispatch_all s tasks in (s, outcome ∷ outcomes)

  unfoldable pub run_claimed :
      List (Task V) → Point S → Point S × Result OrchestratorError ReconcileReport
  unfolding dispatch_all settle_outcomes
  run_claimed claimed p =
      let (s, outcomes) = dispatch_all p.world claimed in
      settle_outcomes store config outcomes (record p { world = s })
        (record { dispatched = length outcomes; completed = 0; blocked = 0; idle = false })

  abbrev pub after_claims :
      List (Task V)
      → Point S
      → Result OrchestratorError (List (Task V))
      → Point S × Result OrchestratorError ReconcileReport
  after_claims tasks p (err e) = (p, err e)
  after_claims tasks p (ok []) = idle_tick store config tasks p
  after_claims tasks p (ok (task ∷ claimed)) = run_claimed (task ∷ claimed) p

  unfoldable pub run_once : Point S → Point S × Result OrchestratorError ReconcileReport
  unfolding eligible_tasks claim_tasks idle_tick run_claimed
  run_once p = elim (is_enabled config.mode) [
    | false ↦ (p, err (disabled config.mode))
    | true ↦ elim (store.list p.world) [
      | err e ↦ (p, err (task_failed e))
      | ok tasks ↦
          let (p, answer) = claim_tasks store config (eligible_tasks tasks) p [] in
          after_claims tasks p answer
    ]
  ]

  unfoldable pub run_until_idle :
      ℕ → Point S → RunUntilIdleReport → Point S × Result OrchestratorError RunUntilIdleReport
  unfolding run_once
  run_until_idle zero p report = (p, ok report)
  run_until_idle (suc left) p report =
      let (p, answer) = run_once p in
      elim answer [
        | err e ↦ (p, err e)
        | ok tick ↦
            let report : RunUntilIdleReport = record {
              ticks = report.ticks + 1;
              completed = report.completed + tick.completed;
              blocked = report.blocked + tick.blocked;
            } in
            elim tick.idle [ true ↦ (p, ok report) | false ↦ run_until_idle left p report ]
      ]
