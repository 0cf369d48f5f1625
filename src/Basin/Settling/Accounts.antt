-- ===== src/Basin/Settling/Accounts.antt =====
-- What the settling of outcomes, crates/basin/src/lib.rs, counts, and the first error, at which it stops.
use artesian.Base.{
  ℕ, suc, ◌+◌, ◌≤◌, ◌≡◌, refl, ◌∙◌, ap, sym, inl, inr, String, List, [], ◌∷◌, ◌++◌, length,
  length-append, ltb, Bool-cases, arith, subst,
}
use artesian.Base.Results.{Result, ok, err, Result-cases, OnOk, OnOk-map}
use artesian.Headrace.Store.{Task, todo, done, blocked, master}
use artesian.Basin.Config.{
  OrchestratorConfig, OrchestratorError, ReconcileReport, TokenAccounting, error, error_payload,
  push_event, should_retry,
}
use artesian.Basin.Worker.{DispatchOutcome, passed, failed}
use artesian.Basin.Claiming.{TaskStore, Point}
use artesian.Basin.Settling.{
  settle_passed, put_back, block, settle_failed, settle_outcome, settle_outcomes,
}

abbrev pub passes : {V : Type 0} → Result OrchestratorError (DispatchOutcome V) → ℕ
passes (err e) = 0
passes (ok (passed _ _ _)) = 1
passes (ok (failed _ _)) = 0

abbrev pub count_passes : {V : Type 0} → List (Result OrchestratorError (DispatchOutcome V)) → ℕ
count_passes [] = 0
count_passes (outcome ∷ outcomes) = passes outcome + count_passes outcomes

module _ {S V : Type 0} (store : TaskStore S V) (config : OrchestratorConfig) where
  -- What a list of outcomes adds to a report and to the jobs that are logged as completed.
  pub record Counted (passed_outcomes all_outcomes : ℕ) (before : Point S)
      (report : ReconcileReport) (after : Point S) (settled : ReconcileReport) : Type 0 where
    pub same_dispatched : settled.dispatched ≡ report.dispatched
    pub same_idle : settled.idle ≡ report.idle
    pub more_completed : settled.completed ≡ report.completed + passed_outcomes
    pub more_blocked : settled.blocked + passed_outcomes ≤ report.blocked + all_outcomes
    pub more_jobs :
        length after.kept.run_log.completed ≡ length before.kept.run_log.completed + passed_outcomes

  -- The report and the log after a settling that succeeds.
  abbrev pub Settles :
      ℕ
      → ℕ
      → Point S
      → ReconcileReport
      → Point S × Result OrchestratorError ReconcileReport
      → Type 0
  Settles passed_outcomes all_outcomes p report settled =
      OnOk (Counted passed_outcomes all_outcomes p report settled.0) settled.1

  settle_passed-Settles :
      (task : Task V) (response : String) (accounting : TokenAccounting) (p : Point S)
      (report : ReconcileReport)
      → Settles 1 1 p report (settle_passed store config task response accounting p report)
  unfolding settle_passed push_event
  settle_passed-Settles task response accounting p report =
      let moved = store.transition p.world (record { id = task.id; status = done }) in
      elim (Result-cases moved.1) [
        | inl (e, k) ↦ rw (settle_passed, k) tt
        | inr (finished, k) ↦
            rw (settle_passed, k)
              (record {
                same_dispatched = refl;
                same_idle = refl;
                more_completed = refl;
                more_blocked = omega arith;
                more_jobs = length-append p.kept.run_log.completed _;
              })
      ]

  -- The same, for a point whose completed jobs are those of `before`.
  put_back-Settles :
      (before : Point S) (task : Task V) (p : Point S) (report : ReconcileReport)
      → p.kept.run_log.completed ≡ before.kept.run_log.completed
      → Settles 0 1 before report (put_back store config task p report)
  unfolding put_back
  put_back-Settles before task p report same =
      let moved = store.transition p.world (record { id = task.id; status = todo }) in
      elim (Result-cases moved.1) [
        | inl (e, k) ↦ rw (put_back, k) tt
        | inr (finished, k) ↦
            rw (put_back, k)
              (record {
                same_dispatched = refl;
                same_idle = refl;
                more_completed = omega arith;
                more_blocked = omega arith;
                more_jobs = omega (arith, ap (λ l. length l) same);
              })
      ]

  block-Settles :
      (before : Point S) (task : Task V) (reason : String) (p : Point S) (report : ReconcileReport)
      → p.kept.run_log.completed ≡ before.kept.run_log.completed
      → Settles 0 1 before report (block store config task reason p report)
  unfolding block push_event
  block-Settles before task reason p report same =
      let moved = store.transition p.world (record { id = task.id; status = blocked }) in
      elim (Result-cases moved.1) [
        | inl (e, k) ↦ rw (block, k) tt
        | inr (finished, k) ↦
            rw (block, k)
              (record {
                same_dispatched = refl;
                same_idle = refl;
                more_completed = omega arith;
                more_blocked = omega arith;
                more_jobs = omega (arith, ap (λ l. length l) same);
              })
      ]

  settle_failed-Settles :
      (task : Task V) (reason : String) (p : Point S) (report : ReconcileReport)
      → Settles 0 1 p report (settle_failed store config task reason p report)
  unfolding settle_failed should_retry push_event
  settle_failed-Settles task reason p report =
      let retries = p.kept.state.retries task.id in
      elim (Bool-cases (ltb retries config.max_retries)) [
        | inl on ↦ rw (settle_failed, on) (put_back-Settles p task _ report refl)
        | inr off ↦ rw (settle_failed, off) (block-Settles p task reason _ report refl)
      ]

  settle_outcome-Settles :
      (outcome : Result OrchestratorError (DispatchOutcome V)) (p : Point S)
      (report : ReconcileReport)
      → Settles (passes outcome) 1 p report (settle_outcome store config outcome p report)
  unfolding settle_outcome
  settle_outcome-Settles (ok (passed task response accounting)) p report =
      settle_passed-Settles task response accounting p report
  settle_outcome-Settles (ok (failed task reason)) p report =
      settle_failed-Settles task reason p report
  settle_outcome-Settles (err e) p report = tt

  Counted-trans :
      {m k l : ℕ} {p q r : Point S} {a b c : ReconcileReport}
      → Counted m 1 p a q b
      → Counted k l q b r c
      → Counted (m + k) (suc l) p a r c
  Counted-trans h j = record {
    same_dispatched = j.same_dispatched ∙ h.same_dispatched;
    same_idle = j.same_idle ∙ h.same_idle;
    more_completed = omega (arith, h.more_completed, j.more_completed);
    more_blocked = omega (arith, h.more_blocked, j.more_blocked);
    more_jobs = omega (arith, h.more_jobs, j.more_jobs);
  }

  -- A settling that succeeds adds the outcomes that passed to the report's count of completed tasks
  -- and to the log's jobs, and keeps the count of the dispatched ones. The blocked tasks it adds are
  -- at most the other outcomes.
  pub settle_outcomes-Settles :
      (outcomes : List (Result OrchestratorError (DispatchOutcome V))) (p : Point S)
      (report : ReconcileReport)
      → Settles
          (count_passes outcomes)
          (length outcomes)
          p
          report
          (settle_outcomes store config outcomes p report)
  unfolding settle_outcomes
  settle_outcomes-Settles [] p report = record {
    same_dispatched = refl;
    same_idle = refl;
    more_completed = omega arith;
    more_blocked = omega arith;
    more_jobs = omega arith;
  }
  settle_outcomes-Settles (outcome ∷ outcomes) p report =
      let step = settle_outcome store config outcome p report in
      let first = settle_outcome-Settles outcome p report in
      elim (Result-cases step.1) [
        | inl (e, k) ↦ rw (settle_outcomes, k) tt
        | inr (after, k) ↦
            let counted : Counted (passes outcome) 1 p report step.0 after =
              subst (OnOk (Counted (passes outcome) 1 p report step.0)) k first in
            let rest = settle_outcomes store config outcomes step.0 after in
            rw (settle_outcomes, k)
              (OnOk-map rest.1 (λ settled more. Counted-trans counted more)
                (settle_outcomes-Settles outcomes step.0 after))
      ]

  -- What an outcome that is the error `e` makes of the settling of those before it: an error of
  -- theirs stays, and otherwise the event of `e` is pushed to the log and `e` is returned.
  abbrev pub ended_by :
      OrchestratorError
      → Point S × Result OrchestratorError ReconcileReport
      → Point S × Result OrchestratorError ReconcileReport
  ended_by e (q, err first) = (q, err first)
  ended_by e (q, ok _) = (
    record q { kept = push_event q.kept "orchestrator" master "basin" error (error_payload e) },
    err e,
  )

  settle_outcomes_first :
      (e : OrchestratorError) (after : List (Result OrchestratorError (DispatchOutcome V)))
      (p : Point S) (report : ReconcileReport)
      → settle_outcomes store config (err e ∷ after) p report
        ≡ ended_by e (settle_outcomes store config [] p report)
  unfolding settle_outcomes settle_outcome
  settle_outcomes_first e after p report = refl

  settle_outcomes_ended :
      (outcome : Result OrchestratorError (DispatchOutcome V))
      (outcomes : List (Result OrchestratorError (DispatchOutcome V))) (p : Point S)
      (report : ReconcileReport) {e : OrchestratorError}
      → (settle_outcome store config outcome p report).1 ≡ err e
      → settle_outcomes store config (outcome ∷ outcomes) p report
        ≡ ((settle_outcome store config outcome p report).0, err e)
  unfolding settle_outcomes
  settle_outcomes_ended outcome outcomes p report k = rw (settle_outcomes, k) refl

  settle_outcomes_next :
      (outcome : Result OrchestratorError (DispatchOutcome V))
      (outcomes : List (Result OrchestratorError (DispatchOutcome V))) (p : Point S)
      (report : ReconcileReport) {next : ReconcileReport}
      → (settle_outcome store config outcome p report).1 ≡ ok next
      → settle_outcomes store config (outcome ∷ outcomes) p report
        ≡ settle_outcomes store config outcomes
            (settle_outcome store config outcome p report).0
            next
  unfolding settle_outcomes
  settle_outcomes_next outcome outcomes p report k = rw (settle_outcomes, k) refl

  -- Outcomes `before`, an outcome that is the error `e`, and outcomes `after` it settle as `before`
  -- alone does, up to `e`: where `before` fails, with a transition's error or an earlier outcome's,
  -- the settling ends there with that error; where it succeeds, only the event of `e` is pushed to the
  -- log and `e` itself is returned. So the outcomes behind an error get no transition.
  pub settle_outcomes-stops :
      (before after : List (Result OrchestratorError (DispatchOutcome V))) (e : OrchestratorError)
      (p : Point S) (report : ReconcileReport)
      → settle_outcomes store config (before ++ err e ∷ after) p report
        ≡ ended_by e (settle_outcomes store config before p report)
  settle_outcomes-stops [] after e p report = settle_outcomes_first e after p report
  settle_outcomes-stops (outcome ∷ before) after e p report =
      let all = before ++ err e ∷ after in
      let step = settle_outcome store config outcome p report in
      elim (Result-cases step.1) [
        | inl (first, k) ↦
            settle_outcomes_ended outcome all p report k
            ∙ ap (ended_by e) (sym (settle_outcomes_ended outcome before p report k))
        | inr (next, k) ↦
            settle_outcomes_next outcome all p report k
            ∙ settle_outcomes-stops before after e step.0 next
            ∙ ap (ended_by e) (sym (settle_outcomes_next outcome before p report k))
      ]
