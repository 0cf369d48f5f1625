-- ===== src/Flume/Loop/Outcomes.antt =====
-- How a run of run_loop_core (crates/flume/src/loop_core.rs) ends: the turn as a whole, the turns that
-- are left, and the run.
use artesian.Base.{
  ℕ, zero, suc, ◌+◌, ◌<◌, ◌≡◌, refl, sym, ◌∙◌, ap, ◌⊎◌, inl, inr, String, Bool, true, false, Option,
  [], ◌∷◌, ltb, if◌then◌else◌, Option-cases, arith, subst, Bool-cases, ltb→lt, ltb_false→le,
}
use artesian.Base.Texts.{decimal, join}
use artesian.Base.Floats.{Float}
use artesian.Headgate.Text.{TextOps}
use artesian.Flume.Run.{
  LoopRunOptions, wall_cap_message, finish_loop_early, error_outcome, remaining_wall_budget,
  early_report,
}
use artesian.Flume.Packet.{Backend}
use artesian.Flume.State.{Environment, LoopState, Ending, Step, ends, goes_on, ◌and_then◌}
use artesian.Flume.Loop.{
  check_brakes, check_quota, work, verify_turn, run_turn, run_turns, run_loop_core, start_state,
  at_once,
}
use artesian.Flume.Loop.Logs.{
  IsOpen, IsClosed, finish_loop_early-IsClosed, IsBrake, brake, error_outcome-IsBrake,
}
use artesian.Flume.Loop.Phases.{
  Result-cases, Ends, Reports, Braked, Phase, Keeps, check_brakes-Phase, check_quota-Phase,
  work-Phase, verify_turn-Phase,
}
use artesian.Flume.Loop.Verdicts.{
  fails, turns_of, next_directive, UnderBudget, Progress, LoopOutcome, held, braked, exhausted,
  Turned, conclude-Turned,
}

module _ {G S : Type 0} where
  moved :
      (n : ℕ) (st : LoopState G S) (s : S) → Progress n st → Progress n (record st { world = s })
  moved n st s h = record {
    open_log = h.open_log;
    count = h.count;
    trail = h.trail;
    directive = h.directive;
  }

  Keeps-Progress :
      (n : ℕ) (st after : LoopState G S)
      → Progress n st
      → Keeps (fails n) st after
      → Progress n after
  Keeps-Progress n st after h k = record {
    open_log = k.open_log;
    count = k.same_count ∙ h.count;
    trail = ap turns_of k.same_trail ∙ h.trail;
    directive = k.same_directive ∙ h.directive ∙ ap next_directive (sym k.same_trail);
  }

  Step-cases {ℓ} :
      {A : Type ℓ} (step : Step G S A)
      → ((e : Ending G S) × (step ≡ ends e)) ⊎ ((a : A) × (step ≡ goes_on a))
  Step-cases (ends e) = inl (e, refl)
  Step-cases (goes_on a) = inr (a, refl)

module _ {G S : Type 0} (options : LoopRunOptions G) where
  Braked-LoopOutcome :
      (n : ℕ) (e : Ending G S)
      → n < options.max_turns
      → UnderBudget options.max_remediation_attempts n
      → Ends (Braked (fails n) (suc n)) e
      → Ends (LoopOutcome options) e
  Braked-LoopOutcome n e m b h = elim (Result-cases e.result) [
    | inl (reason, k) ↦ rw k tt
    | inr (report, k) ↦
        let held : Braked (fails n) (suc n) report e.log =
          subst (λ r. Reports (Braked (fails n) (suc n)) r e.log) k h in
        rw k (
          braked n (omega arith) b held.closed held.is_brake (omega (arith, held.turns_before))
            held.no_trail)
  ]

  and_then-Turned {ℓ} :
      {A : Type ℓ} {Q : A → Type 0} (n : ℕ) (step : Step G S A)
      (rest : A → Step G S (LoopState G S))
      → n < options.max_turns
      → UnderBudget options.max_remediation_attempts n
      → Phase (fails n) (suc n) Q step
      → ((a : A) → Q a → Turned options n (rest a))
      → Turned options n (step and_then rest)
  and_then-Turned n (ends e) rest m b h k = Braked-LoopOutcome n e m b h
  and_then-Turned n (goes_on a) rest m b h k = k a h

module _ {F G S : Type 0} ⦃f : Float F⦄ ⦃g : Float G⦄ ⦃t : TextOps⦄ (env : Environment G S)
    (backend : Option (Backend F S)) (options : LoopRunOptions G) where
  run_turn-Turned :
      (n : ℕ) (st : LoopState G S)
      → n < options.max_turns
      → UnderBudget options.max_remediation_attempts n
      → Progress n st
      → Turned options n (run_turn env backend options (suc n) st)
  unfolding run_turn
  run_turn-Turned n st m b h =
      and_then-Turned options n (check_brakes env backend options (suc n) st) _ m b
        (check_brakes-Phase env backend options (suc n) st h.open_log)
        (λ st₁ k₁.
          and_then-Turned options n (check_quota env backend options (suc n) st₁) _ m b
            (check_quota-Phase env backend options (suc n) st₁ k₁.open_log)
            (λ st₂ k₂.
              and_then-Turned options n (work env backend options (suc n) st₂) _ m b
                (work-Phase env backend options (suc n) st₂ k₂.open_log)
                (λ st₃ k₃.
                  and_then-Turned options n (verify_turn env backend options (suc n) st₃) _ m b
                    (verify_turn-Phase env backend options (suc n) st₃ k₃.open_log)
                    (λ (s, (goal_met, output)) _.
                      conclude-Turned env backend options n goal_met output
                        (record st₃ { world = s }) m b
                        (moved n st₃ s (
                          Keeps-Progress n st₂ st₃
                            (Keeps-Progress n st₁ st₂ (Keeps-Progress n st st₁ h k₁) k₂) k₃))))))

  -- A turn that follows `n` failed turns and does not end the run has failed too: the log then holds
  -- `n + 1` failures and no summary, the count is `n + 1`, the trail has the turns from 1 to `n + 1`,
  -- the directive for the next worker is the one of the last reason in the trail, and the budget of
  -- retries is off or larger than `n + 1`.
  pub run_turn-Progress :
      (n : ℕ) (st after : LoopState G S)
      → n < options.max_turns
      → UnderBudget options.max_remediation_attempts n
      → Progress n st
      → run_turn env backend options (suc n) st ≡ goes_on after
      → Progress (suc n) after × UnderBudget options.max_remediation_attempts (suc n)
  run_turn-Progress n st after m b h e = subst (Turned options n) e (run_turn-Turned n st m b h)

  run_turns-LoopOutcome :
      (left n : ℕ) (st : LoopState G S)
      → n + left ≡ options.max_turns
      → UnderBudget options.max_remediation_attempts n
      → Progress n st
      → Ends (LoopOutcome options) (run_turns env backend options left (suc n) st)
  unfolding run_turns finish_loop_early
  run_turns-LoopOutcome zero n st m b h =
      let all_run : n ≡ options.max_turns = omega (arith, m) in
      let elapsed = env.elapsed st.world in
      let reason = join "" (
        "loop reached max-turns ("
        ∷ decimal options.max_turns
        ∷ ") without the goal holding"
        ∷ []) in
      exhausted (subst (UnderBudget options.max_remediation_attempts) all_run b)
        (finish_loop_early-IsClosed elapsed st.log "max-turns" options.max_turns reason
          (subst (λ k. IsOpen (fails k) st.log) all_run h.open_log))
        refl refl refl
  run_turns-LoopOutcome (suc left) n st m b h =
      elim (Step-cases (run_turn env backend options (suc n) st)) [
        | inl (e, k) ↦
            rw (run_turns, k)
              (subst (Turned options n) k (run_turn-Turned n st (omega (arith, m)) b h))
        | inr (after, k) ↦
            let went = run_turn-Progress n st after (omega (arith, m)) b h k in
            rw (run_turns, k)
              (run_turns-LoopOutcome left (suc n) after (omega (arith, m)) went.1 went.0)
      ]

  at_once-IsClosed :
      (s : S) (outcome reason : String)
      → IsClosed []
          (early_report outcome 0 reason)
          (at_once env backend options s outcome reason).log
  unfolding finish_loop_early
  at_once-IsClosed s outcome reason =
      finish_loop_early-IsClosed (env.elapsed s) [] outcome 0 reason
        (record { so_far = refl; unsummed = refl })

  nothing_failed : UnderBudget options.max_remediation_attempts 0
  nothing_failed = elim (Bool-cases (ltb 0 options.max_remediation_attempts)) [
    | inl on ↦ inr (ltb→lt 0 _ on)
    | inr off ↦ inl (omega (arith, ltb_false→le 0 _ off))
  ]

  at_once-LoopOutcome :
      (s : S) (outcome reason : String)
      → IsBrake outcome
      → Ends (LoopOutcome options) (at_once env backend options s outcome reason)
  unfolding finish_loop_early
  at_once-LoopOutcome s outcome reason b =
      braked 0 (omega arith) nothing_failed (at_once-IsClosed s outcome reason) b refl refl

  verified-LoopOutcome :
      (s : S) (goal_met : Bool)
      → Ends (LoopOutcome options) (
          if goal_met
          then at_once env backend options s "success" "goal already held"
          else run_turns env backend options options.max_turns 1
              (start_state env backend options s))
  unfolding finish_loop_early
  verified-LoopOutcome s true =
      held (at_once-IsClosed s "success" "goal already held") refl refl refl
  verified-LoopOutcome s false =
      run_turns-LoopOutcome options.max_turns 0 (start_state env backend options s) (omega arith)
        nothing_failed
        (record {
          open_log = record { so_far = refl; unsummed = refl };
          count = refl;
          trail = refl;
          directive = refl;
        })

  -- Whatever the clock, the worker, the verifier, the token, the sentinel file, the quota and the
  -- memory do, a run that returns a report ends in one of five ways, each with the verdicts of its
  -- log, its number of turns, and its trail: the goal held at the start; a brake before, in or after
  -- a turn, with all turns before it failed; success in the first turn that passes; escalation in
  -- the turn whose number is the budget of retries, with every turn in the trail; or `max_turns`
  -- failures, where the budget of retries is off or larger. The log ends with its one summary, which
  -- has the outcome, the turns and the reason of the report.
  pub run_loop_core-LoopOutcome :
      (s : S) → Ends (LoopOutcome options) (run_loop_core env backend options s)
  unfolding run_loop_core
  run_loop_core-LoopOutcome s =
      let cap = wall_cap_message (env.elapsed s) options.max_wall "initial check" in
      let checked =
        env.verify_goal s options.goal (remaining_wall_budget (env.elapsed s) options.max_wall) in
      elim (Option-cases cap) [
        | inr (reason, e) ↦
            rw (run_loop_core, e)
              (at_once-LoopOutcome s "wall-cap" reason (brake "wall-cap" refl refl refl))
        | inl e ↦ elim (Result-cases checked.1) [
          | inl (reason, k) ↦
              rw (run_loop_core, e, k)
                (at_once-LoopOutcome checked.0 (error_outcome reason) reason
                  (error_outcome-IsBrake reason))
          | inr ((goal_met, output), k) ↦
              rw (run_loop_core, e, k) (verified-LoopOutcome checked.0 goal_met)
        ]
      ]
