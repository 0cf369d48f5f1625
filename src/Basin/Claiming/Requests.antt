-- ===== src/Basin/Claiming/Requests.antt =====
-- The requests of the worker in crates/basin/src/lib.rs: the log of the events against the count that
-- the quotas are compared with.
use artesian.Base.{
  ℕ, ◌+◌, ◌≡◌, refl, inl, inr, not, Option, some, List, [], ◌∷◌, ◌++◌, length, leb, if_cases,
  Bool-cases, arith,
}
use artesian.Base.Results.{Result}
use artesian.Headrace.Store.{Task}
use artesian.Basin.Config.{
  OrchestratorConfig, OrchestratorError, EventType, task_announced, task_claimed, result, verdict,
  blocked_event, status, error, EventEnvelope, Kept, quota_allows, record_request, push_event,
}
use artesian.Basin.Worker.{estimate_task_prompt_tokens}
use artesian.Basin.Claiming.{TaskStore, Point, claim_step, claim_tasks}
use artesian.Basin.Claiming.Limits.{Claim-cases}

abbrev pub claim_event : EventType → ℕ
claim_event task_announced = 0
claim_event task_claimed = 1
claim_event result = 0
claim_event verdict = 0
claim_event blocked_event = 0
claim_event status = 0
claim_event error = 0

-- How many events of a log say that a task was claimed.
unfoldable pub count_claims : List EventEnvelope → ℕ
count_claims [] = 0
count_claims (event ∷ events) = claim_event event.event_type + count_claims events

count_claims-append :
    (events : List EventEnvelope) (event : EventEnvelope)
    → count_claims (events ++ event ∷ []) ≡ count_claims events + claim_event event.event_type
unfolding count_claims
count_claims-append [] event = omega arith
count_claims-append (first ∷ events) event = omega (arith, count_claims-append events event)

-- The log has as many claims as requests are counted for the worker.
abbrev pub IsCounted : Kept → Type 0
IsCounted kept = count_claims kept.run_log.events ≡ kept.state.request_counts "worker"

-- An event that is no claim.
pub count_claims_other :
    (events : List EventEnvelope) (n : ℕ) (event : EventEnvelope)
    → claim_event event.event_type ≡ 0
    → count_claims events ≡ n
    → count_claims (events ++ event ∷ []) ≡ n
count_claims_other events n event other h = omega (arith, count_claims-append events event)

count_claims_claim :
    (events : List EventEnvelope) (n : ℕ) (event : EventEnvelope)
    → claim_event event.event_type ≡ 1
    → count_claims events ≡ n
    → count_claims (events ++ event ∷ []) ≡ n + 1
count_claims_claim events n event claim h = omega (arith, count_claims-append events event)

module _ {S V : Type 0} (store : TaskStore S V) (config : OrchestratorConfig) where
  claim_step-IsCounted :
      (task : Task V) (p : Point S)
      → IsCounted p.kept
      → IsCounted (claim_step store config task p).0.kept
  unfolding claim_step push_event record_request
  claim_step-IsCounted task p h =
      let tokens = estimate_task_prompt_tokens task in
      let Good = λ (r : Point S × Result OrchestratorError (Option (Task V))). IsCounted r.0.kept in
      let asked =
        store.claim p.world (record { task_id = some task.id; claimant = "basin-worker" }) in
      let n = p.kept.state.request_counts "worker" in
      if_cases Good (not (quota_allows p.kept.state config.quotas "worker" tokens))
        (λ _. count_claims_other _ n _ refl h)
        (λ _. elim (Claim-cases asked.1) [
          | inl (e, k) ↦ rw k (count_claims_other _ n _ refl h)
          | inr (inl k) ↦ rw k (count_claims_other _ n _ refl h)
          | inr (inr (claimed, k)) ↦
              rw k (count_claims_claim _ n _ refl (count_claims_other _ n _ refl h))
        ])

  -- The claims of a tick add as many events of a claim as they add to the worker's requests.
  pub claim_tasks-IsCounted :
      (tasks : List (Task V)) (p : Point S) (claimed : List (Task V))
      → IsCounted p.kept
      → IsCounted (claim_tasks store config tasks p claimed).0.kept
  unfolding claim_tasks
  claim_tasks-IsCounted [] p claimed h = h
  claim_tasks-IsCounted (task ∷ rest) p claimed h =
      elim (Bool-cases (leb config.concurrency_limit (length claimed))) [
        | inl full ↦ rw (claim_tasks, full) h
        | inr more ↦
            let step = claim_step store config task p in
            let counted = claim_step-IsCounted task p h in
            elim (Claim-cases step.1) [
              | inl (e, k) ↦ rw (claim_tasks, more, k) counted
              | inr (inl k) ↦
                  rw (claim_tasks, more, k) (claim_tasks-IsCounted rest step.0 claimed counted)
              | inr (inr (t, k)) ↦
                  rw (claim_tasks, more, k)
                    (claim_tasks-IsCounted rest step.0 (claimed ++ t ∷ []) counted)
            ]
      ]
