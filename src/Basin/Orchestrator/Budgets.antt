-- ===== src/Basin/Orchestrator/Budgets.antt =====
-- What the ticks of run_until_idle, crates/basin/src/lib.rs, keep to: the quotas and the retries.
use artesian.Base.{
  ℕ, zero, suc, ◌≤◌, ◌≡◌, refl, true, false, String, All, ◌⊎◌, sym, inl, inr, List, [], ◌∷◌,
  Bool-cases, if_cases, subst,
}
use artesian.Base.Results.{Result, ok, err, Result-cases}
use artesian.Headrace.Store.{Task}
use artesian.Basin.Config.{
  ResourceQuota, LoopState, is_for_other, above, OrchestratorConfig, OrchestratorError,
  RunUntilIdleReport, push_event,
}
use artesian.Basin.Worker.{Services}
use artesian.Basin.Claiming.{TaskStore, Point, is_enabled, eligible_tasks, claim_tasks}
use artesian.Basin.Claiming.Limits.{Within, claim_tasks-Within}
use artesian.Basin.Claiming.Requests.{count_claims, count_claims_other, claim_tasks-IsCounted}
use artesian.Basin.Settling.Soundness.{IsSound, settle_outcomes-IsSound}
use artesian.Basin.Orchestrator.{
  is_nil, doing_ids, idle_tick, dispatch_all, run_claimed, after_claims, run_once, run_until_idle,
}

-- A number of claims is within the requests of a quota, or the quota is another's.
abbrev pub WithinRequests : ℕ → ResourceQuota → Type 0
WithinRequests claims quota =
    (is_for_other quota.agent_id "worker" ≡ true)
    ⊎ (above quota.max_requests_per_minute claims ≡ false)

Within-WithinRequests :
    (state : LoopState) (quotas : List ResourceQuota) (claims : ℕ)
    → claims ≡ state.request_counts "worker"
    → All (Within state "worker") quotas
    → All (WithinRequests claims) quotas
Within-WithinRequests state [] claims same h = tt
Within-WithinRequests state (quota ∷ quotas) claims same (inl other, more) =
    (inl other, Within-WithinRequests state quotas claims same more)
Within-WithinRequests state (quota ∷ quotas) claims same (inr (_, few), more) =
    (inr (rw same few), Within-WithinRequests state quotas claims same more)

module _ {F S V : Type 0} (services : Services F S V) (store : TaskStore S V)
    (config : OrchestratorConfig) where
  claim_tasks-IsSound :
      (tasks : List (Task V)) (p : Point S) (claimed : List (Task V))
      → IsSound config p
      → IsSound config (claim_tasks store config tasks p claimed).0
  claim_tasks-IsSound tasks p claimed h =
      let (within, same) = claim_tasks-Within store config tasks p claimed h.within in
      record {
        within = within;
        claimed = claim_tasks-IsCounted store config tasks p claimed h.claimed;
        retried =
            λ id. subst (λ retries. retries id ≤ config.max_retries) (sym same) (h.retried id);
      }

  idle_tick-IsSound :
      (tasks : List (Task V)) (p : Point S)
      → IsSound config p
      → IsSound config (idle_tick store config tasks p).0
  unfolding idle_tick push_event
  idle_tick-IsSound tasks p h =
      if_cases (λ (q : Point S). IsSound config q) (is_nil (doing_ids tasks)) (λ _. h)
        (λ _. record {
          within = h.within;
          claimed = count_claims_other _ _ _ refl h.claimed;
          retried = h.retried;
        })

  run_claimed-IsSound :
      (claimed : List (Task V)) (p : Point S)
      → IsSound config p
      → IsSound config (run_claimed services store config claimed p).0
  unfolding run_claimed
  run_claimed-IsSound claimed p h =
      settle_outcomes-IsSound store config (dispatch_all services store config p.world claimed).1
        (record p { world = (dispatch_all services store config p.world claimed).0 }) _
        (record { within = h.within; claimed = h.claimed; retried = h.retried })

  -- What follows the claims.
  after_claims-IsSound :
      (tasks : List (Task V)) (p : Point S) (answer : Result OrchestratorError (List (Task V)))
      → IsSound config p
      → IsSound config (after_claims services store config tasks p answer).0
  after_claims-IsSound tasks p (err e) h = h
  after_claims-IsSound tasks p (ok []) h = idle_tick-IsSound tasks p h
  after_claims-IsSound tasks p (ok (task ∷ claimed)) h = run_claimed-IsSound (task ∷ claimed) p h

  run_once-IsSound :
      (p : Point S) → IsSound config p → IsSound config (run_once services store config p).0
  unfolding run_once
  run_once-IsSound p h = elim (Bool-cases (is_enabled config.mode)) [
    | inl on ↦ elim (Result-cases (store.list p.world)) [
      | inl (e, k) ↦ rw (run_once, on, k) h
      | inr (tasks, k) ↦
          let claims = claim_tasks store config (eligible_tasks tasks) p [] in
          rw (run_once, on, k)
            (after_claims-IsSound tasks claims.0 claims.1
              (claim_tasks-IsSound (eligible_tasks tasks) p [] h))
    ]
    | inr off ↦ rw (run_once, off) h
  ]

  -- The ticks keep to the quotas and the retries, also where one of them ends with an error.
  run_until_idle-IsSound :
      (left : ℕ) (p : Point S) (report : RunUntilIdleReport)
      → IsSound config p
      → IsSound config (run_until_idle services store config left p report).0
  unfolding run_until_idle
  run_until_idle-IsSound zero p report h = h
  run_until_idle-IsSound (suc left) p report h =
      let tick = run_once services store config p in
      let sound = run_once-IsSound p h in
      elim (Result-cases tick.1) [
        | inl (e, k) ↦ rw (run_until_idle, k) sound
        | inr (done, k) ↦ elim (Bool-cases done.idle) [
          | inl idle ↦ rw (run_until_idle, k, idle) sound
          | inr busy ↦ rw (run_until_idle, k, busy) (run_until_idle-IsSound left tick.0 _ sound)
        ]
      ]

  -- However many ticks run from a sound state, and also where one of them ends with an error: the tasks
  -- that the event log has as claimed by the worker, those of all the ticks and of the time before,
  -- are at most `max_requests_per_minute` of every quota that applies to the worker, and no task has
  -- more retries counted than `max_retries`. So the quota bounds the claims of the orchestrator's whole
  -- life. In a sound state, such as one with no events and all counts 0, the log has as many claims as
  -- requests are counted, and the counts are within the quotas and the retries.
  pub run_until_idle-claims :
      (left : ℕ) (p : Point S) (report : RunUntilIdleReport)
      → IsSound config p
      → let kept = (run_until_idle services store config left p report).0.kept in
        All (WithinRequests (count_claims kept.run_log.events)) config.quotas
        × ((id : String) → kept.state.retries id ≤ config.max_retries)
  run_until_idle-claims left p report h =
      let sound = run_until_idle-IsSound left p report h in
      (
        Within-WithinRequests (run_until_idle services store config left p report).0.kept.state
            config.quotas _ sound.claimed sound.within,
        sound.retried,
      )
