-- ===== src/Basin/Claiming/Limits.antt =====
-- What the claims of a tick of crates/basin/src/lib.rs keep to: the concurrency limit and the quotas.
use artesian.Base.{
  ℕ, ◌+◌, ◌≤◌, ◌≡◌, refl, ◌∙◌, ◌⊎◌, inl, inr, String, Bool, true, false, not, Option, none, some,
  List, [], ◌∷◌, ◌++◌, length, length-append, leb, if_cases, Bool-cases, All, arith,
}
use artesian.Base.Results.{Result, ok, err, OnOk}
use artesian.Headrace.Store.{Task}
use artesian.Basin.Config.{
  ResourceQuota, OrchestratorConfig, OrchestratorError, LoopState, is_for_other, above, reached,
  quota_allows, record_request, push_event,
}
use artesian.Basin.Worker.{estimate_task_prompt_tokens}
use artesian.Basin.Claiming.{TaskStore, Point, claim_step, claim_tasks}

-- The answers to a claim.
pub Claim-cases :
    {E A : Type 0} (r : Result E (Option A))
    → ((e : E) × (r ≡ err e)) ⊎ ((r ≡ ok none) ⊎ ((a : A) × (r ≡ ok (some a))))
Claim-cases (err e) = inl (e, refl)
Claim-cases (ok none) = inr (inl refl)
Claim-cases (ok (some a)) = inr (inr (a, refl))

-- What an agent has used is within a quota: the quota is another's, or the tokens and the requests
-- are at most the quota's.
abbrev pub Within : LoopState → String → ResourceQuota → Type 0
Within state agent_id quota =
    (is_for_other quota.agent_id agent_id ≡ true)
    ⊎ ((above quota.max_prompt_tokens (state.prompt_usage agent_id) ≡ false)
        × (above quota.max_requests_per_minute (state.request_counts agent_id) ≡ false))

-- Two states in which the agents have used the same.
pub record SameUse (a b : LoopState) : Type 0 where
  pub same_tokens : b.prompt_usage ≡ a.prompt_usage
  pub same_requests : b.request_counts ≡ a.request_counts

reached-above : (max : Option ℕ) (n : ℕ) → reached max n ≡ false → above max (n + 1) ≡ false
reached-above none n h = refl
reached-above (some m) n h = ground arith

pub quota_allows-Within :
    (state : LoopState) (quotas : List ResourceQuota) (tokens : ℕ)
    → quota_allows state quotas "worker" tokens ≡ true
    → All (Within (record_request state "worker" tokens) "worker") quotas
unfolding quota_allows record_request
quota_allows-Within state [] tokens h = tt
quota_allows-Within state (quota ∷ quotas) tokens h =
    let after = record_request state "worker" tokens in
    let Goal = λ (r : Bool). r ≡ true → All (Within after "worker") (quota ∷ quotas) in
    if_cases Goal (is_for_other quota.agent_id "worker")
      (λ other k. (inl other, quota_allows-Within state quotas tokens k))
      (λ own.
        if_cases Goal (above quota.max_prompt_tokens (state.prompt_usage "worker" + tokens))
          (λ _ k. cc)
          (λ few.
            if_cases Goal (reached quota.max_requests_per_minute (state.request_counts "worker"))
              (λ _ k. cc)
              (λ left k. (
                inr (few, reached-above quota.max_requests_per_minute _ left),
                quota_allows-Within state quotas tokens k,
              ))))
      h

module _ {S V : Type 0} (store : TaskStore S V) (config : OrchestratorConfig) where
  pub claim_tasks-limit :
      (tasks : List (Task V)) (p : Point S) (claimed : List (Task V))
      → length claimed ≤ config.concurrency_limit
      → OnOk
          (λ out. length out ≤ config.concurrency_limit)
          (claim_tasks store config tasks p claimed).1
  unfolding claim_tasks
  claim_tasks-limit [] p claimed h = h
  claim_tasks-limit (task ∷ rest) p claimed h =
      elim (Bool-cases (leb config.concurrency_limit (length claimed))) [
        | inl full ↦ rw (claim_tasks, full) h
        | inr more ↦
            let step = claim_step store config task p in
            elim (Claim-cases step.1) [
              | inl (e, k) ↦ rw (claim_tasks, more, k) tt
              | inr (inl k) ↦ rw (claim_tasks, more, k) (claim_tasks-limit rest step.0 claimed h)
              | inr (inr (t, k)) ↦
                  rw (claim_tasks, more, k)
                    (claim_tasks-limit rest step.0 (claimed ++ t ∷ [])
                      (ground (arith, length-append claimed (t ∷ []))))
            ]
      ]

  -- One claim keeps the retries, and uses nothing, or what the quotas allow.
  claim_step-Within :
      (task : Task V) (p : Point S)
      → All (Within p.kept.state "worker") config.quotas
      → All (Within (claim_step store config task p).0.kept.state "worker") config.quotas
        × ((claim_step store config task p).0.kept.state.retries ≡ p.kept.state.retries)
  unfolding claim_step push_event record_request
  claim_step-Within task p h =
      let tokens = estimate_task_prompt_tokens task in
      let Good = λ (r : Point S × Result OrchestratorError (Option (Task V))).
        All (Within r.0.kept.state "worker") config.quotas
        × (r.0.kept.state.retries ≡ p.kept.state.retries) in
      let asked =
        store.claim p.world (record { task_id = some task.id; claimant = "basin-worker" }) in
      if_cases Good (not (quota_allows p.kept.state config.quotas "worker" tokens)) (λ _. (h, refl))
        (λ allowed.
          let after = quota_allows-Within p.kept.state config.quotas tokens (ground arith) in
          elim (Claim-cases asked.1) [
            | inl (e, k) ↦ rw k (h, refl)
            | inr (inl k) ↦ rw k (h, refl)
            | inr (inr (claimed, k)) ↦ rw k (after, refl)
          ])

  -- The claims of a tick keep the retries and the quotas.
  pub claim_tasks-Within :
      (tasks : List (Task V)) (p : Point S) (claimed : List (Task V))
      → All (Within p.kept.state "worker") config.quotas
      → All (Within (claim_tasks store config tasks p claimed).0.kept.state "worker") config.quotas
        × ((claim_tasks store config tasks p claimed).0.kept.state.retries ≡ p.kept.state.retries)
  unfolding claim_tasks
  claim_tasks-Within [] p claimed h = (h, refl)
  claim_tasks-Within (task ∷ rest) p claimed h =
      elim (Bool-cases (leb config.concurrency_limit (length claimed))) [
        | inl full ↦ rw (claim_tasks, full) (h, refl)
        | inr more ↦
            let step = claim_step store config task p in
            let (kept, retried) = claim_step-Within task p h in
            elim (Claim-cases step.1) [
              | inl (e, k) ↦ rw (claim_tasks, more, k) (kept, retried)
              | inr (inl k) ↦
                  let (all, same) = claim_tasks-Within rest step.0 claimed kept in
                  rw (claim_tasks, more, k) (all, same ∙ retried)
              | inr (inr (t, k)) ↦
                  let (all, same) = claim_tasks-Within rest step.0 (claimed ++ t ∷ []) kept in
                  rw (claim_tasks, more, k) (all, same ∙ retried)
            ]
      ]

  claim_step-jobs :
      (task : Task V) (p : Point S)
      → (claim_step store config task p).0.kept.run_log.completed ≡ p.kept.run_log.completed
  unfolding claim_step push_event
  claim_step-jobs task p =
      let tokens = estimate_task_prompt_tokens task in
      let Good = λ (r : Point S × Result OrchestratorError (Option (Task V))).
        r.0.kept.run_log.completed ≡ p.kept.run_log.completed in
      let asked =
        store.claim p.world (record { task_id = some task.id; claimant = "basin-worker" }) in
      if_cases Good (not (quota_allows p.kept.state config.quotas "worker" tokens)) (λ _. refl)
        (λ _. elim (Claim-cases asked.1) [
          | inl (e, k) ↦ rw k refl
          | inr (inl k) ↦ rw k refl
          | inr (inr (claimed, k)) ↦ rw k refl
        ])

  -- The claims complete nothing.
  pub claim_tasks-jobs :
      (tasks : List (Task V)) (p : Point S) (claimed : List (Task V))
      → (claim_tasks store config tasks p claimed).0.kept.run_log.completed
        ≡ p.kept.run_log.completed
  unfolding claim_tasks
  claim_tasks-jobs [] p claimed = refl
  claim_tasks-jobs (task ∷ rest) p claimed =
      elim (Bool-cases (leb config.concurrency_limit (length claimed))) [
        | inl full ↦ rw (claim_tasks, full) refl
        | inr more ↦
            let step = claim_step store config task p in
            let same = claim_step-jobs task p in
            elim (Claim-cases step.1) [
              | inl (e, k) ↦ rw (claim_tasks, more, k) same
              | inr (inl k) ↦
                  rw (claim_tasks, more, k) (claim_tasks-jobs rest step.0 claimed ∙ same)
              | inr (inr (t, k)) ↦
                  rw (claim_tasks, more, k)
                    (claim_tasks-jobs rest step.0 (claimed ++ t ∷ []) ∙ same)
            ]
      ]
