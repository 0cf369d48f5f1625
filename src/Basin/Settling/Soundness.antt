-- ===== src/Basin/Settling/Soundness.antt =====
-- What the settling of outcomes, crates/basin/src/lib.rs, keeps to: the budget of retries and the quotas.
use artesian.Base.{
  ℕ, ◌+◌, ◌≤◌, refl, inl, inr, String, List, [], ◌∷◌, ltb, ltb→lt, str_eq, if_cases, Bool-cases,
  All, arith,
}
use artesian.Base.Results.{Result, ok, err, Result-cases}
use artesian.Headrace.Store.{Task, done}
use artesian.Basin.Config.{
  OrchestratorConfig, OrchestratorError, ReconcileReport, TokenAccounting, set_key, push_event,
  should_retry,
}
use artesian.Basin.Worker.{DispatchOutcome, passed, failed}
use artesian.Basin.Claiming.{TaskStore, Point}
use artesian.Basin.Claiming.Limits.{Within}
use artesian.Basin.Claiming.Requests.{IsCounted, count_claims_other}
use artesian.Basin.Settling.{
  settle_passed, put_back, block, settle_failed, settle_outcome, settle_outcomes,
}

-- The worker is within every quota, the log has as many claims as requests are counted for it, and
-- no task has more retries than the budget.
pub record IsSound {S : Type 0} (config : OrchestratorConfig) (p : Point S) : Type 0 where
  pub within : All (Within p.kept.state "worker") config.quotas
  pub claimed : IsCounted p.kept
  pub retried : (id : String) → p.kept.state.retries id ≤ config.max_retries

set_key-le :
    (counts : String → ℕ) (key : String) (n bound : ℕ)
    → n ≤ bound
    → ((id : String) → counts id ≤ bound)
    → (id : String) → set_key counts key n id ≤ bound
set_key-le counts key n bound h k id =
    if_cases (λ m. m ≤ bound) (str_eq key id) (λ _. h) (λ _. k id)

module _ {S V : Type 0} (store : TaskStore S V) (config : OrchestratorConfig) where
  settle_passed-IsSound :
      (task : Task V) (response : String) (accounting : TokenAccounting) (p : Point S)
      (report : ReconcileReport)
      → IsSound config p
      → IsSound config (settle_passed store config task response accounting p report).0
  unfolding settle_passed push_event
  settle_passed-IsSound task response accounting p report h =
      let moved = store.transition p.world (record { id = task.id; status = done }) in
      elim (Result-cases moved.1) [
        | inl (e, k) ↦
            rw (settle_passed, k)
              (record {
                within = h.within;
                claimed = count_claims_other _ _ _ refl (count_claims_other _ _ _ refl h.claimed);
                retried = h.retried;
              })
        | inr (finished, k) ↦
            rw (settle_passed, k)
              (record {
                within = h.within;
                claimed = count_claims_other _ _ _ refl (count_claims_other _ _ _ refl h.claimed);
                retried =
                    set_key-le p.kept.state.retries finished.id 0 config.max_retries (omega arith)
                      h.retried;
              })
      ]

  settle_failed-IsSound :
      (task : Task V) (reason : String) (p : Point S) (report : ReconcileReport)
      → IsSound config p
      → IsSound config (settle_failed store config task reason p report).0
  unfolding settle_failed put_back block should_retry push_event
  settle_failed-IsSound task reason p report h =
      let retries = p.kept.state.retries task.id in
      elim (Bool-cases (ltb retries config.max_retries)) [
        | inl on ↦
            rw (settle_failed, on)
              (record {
                within = h.within;
                claimed = count_claims_other _ _ _ refl h.claimed;
                retried =
                    set_key-le p.kept.state.retries task.id (retries + 1) config.max_retries
                      (omega (arith, ltb→lt retries config.max_retries on)) h.retried;
              })
        | inr off ↦
            rw (settle_failed, off)
              (record {
                within = h.within;
                claimed = count_claims_other _ _ _ refl (count_claims_other _ _ _ refl h.claimed);
                retried = h.retried;
              })
      ]

  settle_outcome-IsSound :
      (outcome : Result OrchestratorError (DispatchOutcome V)) (p : Point S)
      (report : ReconcileReport)
      → IsSound config p
      → IsSound config (settle_outcome store config outcome p report).0
  unfolding settle_outcome push_event
  settle_outcome-IsSound (ok (passed task response accounting)) p report h =
      settle_passed-IsSound task response accounting p report h
  settle_outcome-IsSound (ok (failed task reason)) p report h =
      settle_failed-IsSound task reason p report h
  settle_outcome-IsSound (err e) p report h = record {
    within = h.within;
    claimed = count_claims_other _ _ _ refl h.claimed;
    retried = h.retried;
  }

  pub settle_outcomes-IsSound :
      (outcomes : List (Result OrchestratorError (DispatchOutcome V))) (p : Point S)
      (report : ReconcileReport)
      → IsSound config p
      → IsSound config (settle_outcomes store config outcomes p report).0
  unfolding settle_outcomes
  settle_outcomes-IsSound [] p report h = h
  settle_outcomes-IsSound (outcome ∷ outcomes) p report h =
      let step = settle_outcome store config outcome p report in
      let sound = settle_outcome-IsSound outcome p report h in
      elim (Result-cases step.1) [
        | inl (e, k) ↦ rw (settle_outcomes, k) sound
        | inr (after, k) ↦
            rw (settle_outcomes, k) (settle_outcomes-IsSound outcomes step.0 after sound)
      ]
