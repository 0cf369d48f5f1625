-- ===== src/Basin/Settling.antt =====
-- What becomes of the outcomes of a tick: the last part of run_once of crates/basin/src/lib.rs.
pub mod Soundness
pub mod Accounts
use artesian.Base.{
  ℕ, zero, suc, ◌+◌, String, Bool, true, false, not, Option, none, some, List, [], ◌∷◌, ◌++◌, map,
  filter, length, ltb, leb, if◌then◌else◌, ◌==◌,
}
use artesian.Base.Results.{Result, ok, err}
use artesian.Headrace.Store.{
  TaskError, Task, TaskStatus, todo, doing, done, blocked, same_status, Role, master, worker, judge,
  ClaimRequest, TransitionTask, is_dispatch_eligible,
}
use artesian.Basin.Config.{
  Mode, orchestrate, full, OrchestratorConfig, OrchestratorError, disabled, task_failed, EventType,
  task_announced, task_claimed, result, verdict, blocked_event, status, error, quota_exhausted,
  announced, claimed_payload, stalled, content_payload, passed_payload, failed_payload,
  blocked_payload, error_payload, TokenAccounting, CompletedJob, RunLog, LoopState, ReconcileReport,
  RunUntilIdleReport, Kept, set_key, push_event, quota_allows, record_request, should_retry,
}
use artesian.Basin.Worker.{
  Services, DispatchOutcome, passed, failed, dispatch_task, estimate_task_prompt_tokens,
}
use artesian.Basin.Claiming.{TaskStore, Point}

module _ {S V : Type 0} (store : TaskStore S V) (config : OrchestratorConfig) where
  abbrev pub transition_to :
      TaskStatus → String → Point S → Point S × Result OrchestratorError (Task V)
  transition_to to id p =
      let (s, answer) = store.transition p.world (record { id = id; status = to }) in
      (record p { world = s }, elim answer [ err e ↦ err (task_failed e) | ok task ↦ ok task ])

  abbrev pub log_passed : Task V → String → TokenAccounting → Kept → Kept
  log_passed task response accounting kept =
      let run_log = kept.run_log in
      let kept = record kept {
        run_log = record run_log { token_accounting = run_log.token_accounting ++ accounting ∷ [] };
      } in
      push_event
        (push_event kept task.id worker "basin-worker" result (content_payload task.id response))
        task.id judge "basin-judge" verdict (passed_payload task.id)

  abbrev pub complete : Task V → Task V → Kept → Kept
  complete task finished kept = record kept {
    state = record kept.state { retries = set_key kept.state.retries finished.id 0 };
    run_log = record kept.run_log {
      completed =
          kept.run_log.completed
          ++ record { id = task.id; title = task.title; role = task.role } ∷ [];
    };
  }

  -- A dispatch that passed: the task is done.
  unfoldable pub settle_passed :
      Task V
      → String
      → TokenAccounting
      → Point S
      → ReconcileReport
      → Point S × Result OrchestratorError ReconcileReport
  unfolding push_event
  settle_passed task response accounting p report =
      let p = record p { kept = log_passed task response accounting p.kept } in
      let (p, answer) = transition_to done task.id p in
      elim answer [
        | err e ↦ (p, err e)
        | ok finished ↦ (
          record p { kept = complete task finished p.kept },
          ok (record report { completed = report.completed + 1 }),
        )
      ]

  unfoldable pub put_back :
      Task V → Point S → ReconcileReport → Point S × Result OrchestratorError ReconcileReport
  put_back task p report =
      let (p, answer) = transition_to todo task.id p in
      (p, elim answer [ err e ↦ err e | ok _ ↦ ok report ])

  unfoldable pub block :
      Task V
      → String
      → Point S
      → ReconcileReport
      → Point S × Result OrchestratorError ReconcileReport
  unfolding push_event
  block task reason p report =
      let kept =
        push_event p.kept task.id master "basin" blocked_event (blocked_payload task.id reason) in
      let (p, answer) = transition_to blocked task.id (record p { kept = kept }) in
      (
        p,
        elim answer [ err e ↦ err e | ok _ ↦ ok (record report { blocked = report.blocked + 1 }) ],
      )

  -- A dispatch that failed: the task is put back, or blocked when its retries are used up.
  unfoldable pub settle_failed :
      Task V
      → String
      → Point S
      → ReconcileReport
      → Point S × Result OrchestratorError ReconcileReport
  unfolding push_event should_retry put_back block
  settle_failed task reason p report =
      let kept =
        push_event p.kept task.id judge "basin-judge" verdict (failed_payload task.id reason) in
      let (state, (retry, delay)) = should_retry config kept.state task.id in
      let kept = record kept { state = state } in
      if retry
      then put_back task
          (record {
            kept = kept;
            world = if delay == 0 then p.world else store.sleep p.world delay;
          })
          report
      else block task reason (record p { kept = kept }) report

  unfoldable pub settle_outcome :
      Result OrchestratorError (DispatchOutcome V)
      → Point S
      → ReconcileReport
      → Point S × Result OrchestratorError ReconcileReport
  unfolding settle_passed settle_failed push_event
  settle_outcome (ok (passed task response accounting)) p report =
      settle_passed task response accounting p report
  settle_outcome (ok (failed task reason)) p report = settle_failed task reason p report
  settle_outcome (err e) p report = (
    record p { kept = push_event p.kept "orchestrator" master "basin" error (error_payload e) },
    err e,
  )

  -- The outcomes in turn: the first error leaves the loop.
  unfoldable pub settle_outcomes :
      List (Result OrchestratorError (DispatchOutcome V))
      → Point S
      → ReconcileReport
      → Point S × Result OrchestratorError ReconcileReport
  unfolding settle_outcome
  settle_outcomes [] p report = (p, ok report)
  settle_outcomes (outcome ∷ outcomes) p report =
      let (p, settled) = settle_outcome outcome p report in
      elim settled [ err e ↦ (p, err e) | ok report ↦ settle_outcomes outcomes p report ]
