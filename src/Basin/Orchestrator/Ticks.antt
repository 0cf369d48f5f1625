-- ===== src/Basin/Orchestrator/Ticks.antt =====
-- What the ticks of run_until_idle, crates/basin/src/lib.rs, report.
use artesian.Base.{
  ℕ, zero, suc, ◌+◌, ◌*◌, ◌≤◌, ◌≡◌, refl, ap, inl, inr, true, false, List, [], ◌∷◌, length,
  Bool-cases, if_cases, arith, subst,
}
use artesian.Base.Results.{Result, ok, err, Result-cases, OnOk, OnOk-map}
use artesian.Headrace.Store.{Task}
use artesian.Basin.Config.{
  OrchestratorConfig, OrchestratorError, ReconcileReport, RunUntilIdleReport, push_event,
}
use artesian.Basin.Worker.{Services, dispatch_task}
use artesian.Basin.Claiming.{TaskStore, Point, is_enabled, eligible_tasks, claim_tasks}
use artesian.Basin.Claiming.Limits.{claim_tasks-limit, claim_tasks-jobs}
use artesian.Basin.Settling.{settle_outcomes}
use artesian.Basin.Settling.Accounts.{settle_outcomes-Settles}
use artesian.Basin.Orchestrator.{
  is_nil, doing_ids, idle_tick, dispatch_all, run_claimed, after_claims, run_once, run_until_idle,
}

module _ {F S V : Type 0} (services : Services F S V) (store : TaskStore S V)
    (config : OrchestratorConfig) where
  -- What a tick reports.
  pub record Reported (before after : Point S) (report : ReconcileReport) : Type 0 where
    pub limited : report.dispatched ≤ config.concurrency_limit
    pub settled : report.completed + report.blocked ≤ report.dispatched
    pub jobs :
        length after.kept.run_log.completed
        ≡ length before.kept.run_log.completed + report.completed
    pub idle_only : report.idle ≡ true → report.dispatched ≡ 0

  dispatch_all-length :
      (s : S) (tasks : List (Task V))
      → length (dispatch_all services store config s tasks).1 ≡ length tasks
  unfolding dispatch_all
  dispatch_all-length s [] = refl
  dispatch_all-length s (task ∷ tasks) =
      omega (arith, dispatch_all-length (dispatch_task services config s task).0 tasks)

  idle_tick-Reported :
      (before : Point S) (tasks : List (Task V)) (p : Point S)
      → p.kept.run_log.completed ≡ before.kept.run_log.completed
      → OnOk (Reported before (idle_tick store config tasks p).0) (idle_tick store config tasks p).1
  unfolding idle_tick push_event
  idle_tick-Reported before tasks p same = record {
    limited = omega arith;
    settled = omega arith;
    jobs =
        if_cases
          (λ (q : Point S).
            length q.kept.run_log.completed ≡ length before.kept.run_log.completed + 0)
          (is_nil (doing_ids tasks)) (λ _. omega (arith, ap (λ l. length l) same))
          (λ _. omega (arith, ap (λ l. length l) same));
    idle_only = λ _. refl;
  }

  run_claimed-Reported :
      (before : Point S) (claimed : List (Task V)) (p : Point S)
      → p.kept.run_log.completed ≡ before.kept.run_log.completed
      → length claimed ≤ config.concurrency_limit
      → OnOk
          (Reported before (run_claimed services store config claimed p).0)
          (run_claimed services store config claimed p).1
  unfolding run_claimed
  run_claimed-Reported before claimed p same h =
      let run = dispatch_all services store config p.world claimed in
      let start : ReconcileReport = record {
        dispatched = length run.1;
        completed = 0;
        blocked = 0;
        idle = false;
      } in
      let at : Point S = record p { world = run.0 } in
      OnOk-map (settle_outcomes store config run.1 at start).1
        (λ settled c. record {
          limited = omega (arith, c.same_dispatched, dispatch_all-length p.world claimed, h);
          settled = omega (arith, c.same_dispatched, c.more_completed, c.more_blocked);
          jobs = omega (arith, c.more_jobs, c.more_completed, ap (λ l. length l) same);
          idle_only = λ idle. let busy = c.same_idle in cc;
        })
        (settle_outcomes-Settles store config run.1 at start)

  after_claims-Reported :
      (before : Point S) (tasks : List (Task V)) (p : Point S)
      (answer : Result OrchestratorError (List (Task V)))
      → p.kept.run_log.completed ≡ before.kept.run_log.completed
      → OnOk (λ claimed. length claimed ≤ config.concurrency_limit) answer
      → OnOk
          (Reported before (after_claims services store config tasks p answer).0)
          (after_claims services store config tasks p answer).1
  after_claims-Reported before tasks p (err e) same h = tt
  after_claims-Reported before tasks p (ok []) same h = idle_tick-Reported before tasks p same
  after_claims-Reported before tasks p (ok (task ∷ claimed)) same h =
      run_claimed-Reported before (task ∷ claimed) p same h

  -- A tick that returns a report has dispatched at most `concurrency_limit` tasks; the completed and
  -- the blocked ones are among them; the jobs logged as completed have grown by the completed ones;
  -- and a tick that reports to be idle has dispatched none.
  pub run_once-Reported :
      (p : Point S)
      → OnOk (Reported p (run_once services store config p).0) (run_once services store config p).1
  unfolding run_once
  run_once-Reported p = elim (Bool-cases (is_enabled config.mode)) [
    | inl on ↦ elim (Result-cases (store.list p.world)) [
      | inl (e, k) ↦ rw (run_once, on, k) tt
      | inr (tasks, k) ↦
          let eligible = eligible_tasks tasks in
          let claims = claim_tasks store config eligible p [] in
          rw (run_once, on, k)
            (after_claims-Reported p tasks claims.0 claims.1
              (claim_tasks-jobs store config eligible p [])
              (claim_tasks-limit store config eligible p [] (omega arith)))
    ]
    | inr off ↦ rw (run_once, off) tt
  ]

  -- The report of a run from `before` to `after`, which started with the report `start`.
  pub record Summed (left : ℕ) (start : RunUntilIdleReport) (before after : Point S)
      (report : RunUntilIdleReport) : Type 0 where
    pub ticked : report.ticks ≤ start.ticks + left
    pub summed :
        length after.kept.run_log.completed + start.completed
        ≡ length before.kept.run_log.completed + report.completed
    pub bounded :
        report.completed + report.blocked + start.ticks * config.concurrency_limit
        ≤ start.completed + start.blocked + report.ticks * config.concurrency_limit

  abbrev add_tick : RunUntilIdleReport → ReconcileReport → RunUntilIdleReport
  add_tick start tick = record {
    ticks = start.ticks + 1;
    completed = start.completed + tick.completed;
    blocked = start.blocked + tick.blocked;
  }

  one_more_tick : (n limit : ℕ) → (n + 1) * limit ≡ n * limit + limit
  one_more_tick n limit = omega arith

  Summed-tick :
      (left : ℕ) (start : RunUntilIdleReport) (p q after : Point S) (tick : ReconcileReport)
      (report : RunUntilIdleReport)
      → Reported p q tick
      → Summed left (add_tick start tick) q after report
      → Summed (suc left) start p after report
  Summed-tick left start p q after tick report h k = record {
    ticked = omega (arith, k.ticked);
    summed = omega (arith, k.summed, h.jobs);
    bounded = omega (
      arith,
      k.bounded,
      h.settled,
      h.limited,
      one_more_tick start.ticks config.concurrency_limit,
    );
  }

  no_ticks : (left : ℕ) (p : Point S) (start : RunUntilIdleReport) → Summed left start p p start
  no_ticks left p start = record {
    ticked = omega arith;
    summed = omega arith;
    bounded = omega arith;
  }

  -- A run that returns a report has made at most `left` ticks; the jobs logged as completed have
  -- grown by the completed tasks that it reports; and the completed and blocked ones are at most
  -- `concurrency_limit` for each tick.
  pub run_until_idle-Summed :
      (left : ℕ) (p : Point S) (start : RunUntilIdleReport)
      → OnOk
          (Summed left start p (run_until_idle services store config left p start).0)
          (run_until_idle services store config left p start).1
  unfolding run_until_idle
  run_until_idle-Summed zero p start = no_ticks 0 p start
  run_until_idle-Summed (suc left) p start =
      let step = run_once services store config p in
      let reported = run_once-Reported p in
      elim (Result-cases step.1) [
        | inl (e, k) ↦ rw (run_until_idle, k) tt
        | inr (tick, k) ↦
            let h : Reported p step.0 tick = subst (OnOk (Reported p step.0)) k reported in
            let next = add_tick start tick in
            elim (Bool-cases tick.idle) [
              | inl idle ↦
                  rw (run_until_idle, k, idle)
                    (Summed-tick left start p step.0 step.0 tick next h (no_ticks left step.0 next))
              | inr busy ↦
                  rw (run_until_idle, k, busy)
                    (OnOk-map (run_until_idle services store config left step.0 next).1
                      (λ report more. Summed-tick left start p step.0 _ tick report h more)
                      (run_until_idle-Summed left step.0 next))
            ]
      ]
