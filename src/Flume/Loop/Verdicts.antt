-- ===== src/Flume/Loop/Verdicts.antt =====
-- What a verdict makes of a run of run_loop_core (crates/flume/src/loop_core.rs): the next turn, the end
-- by success, or the end by escalation.
use artesian.Base.{
  ℕ, zero, suc, ◌+◌, ◌<◌, ◌≤◌, ◌≡◌, refl, sym, ◌∙◌, ap, ◌⊎◌, inl, inr, String, Bool, true, false,
  ◌&&◌, Option, none, some, List, [], ◌∷◌, ◌++◌, range, range-suc, ltb, leb, if_cases, arith, subst,
}
use artesian.Base.Floats.{Float}
use artesian.Headgate.Text.{TextOps}
use artesian.Flume.Run.{
  LoopRunOptions, RemediationAttempt, LoopRunReport, LogEntry, turn_ran, remediation,
  compact_inline, finish_loop_early, loop_last_check_chars, loop_failure_trail_reason_chars,
  finish_loop_escalation, escalation_reason,
}
use artesian.Flume.Packet.{Backend}
use artesian.Flume.Memories.{action_of}
use artesian.Flume.State.{Environment, LoopState, Step, ends, goes_on, record_verdict, directive_of}
use artesian.Flume.Loop.{conclude, commit_turn, learn_of, ends_escalated}
use artesian.Flume.Loop.Logs.{IsOpen, IsOpen-append, IsClosed, finish_loop_early-IsClosed, IsBrake}
use artesian.Flume.Loop.Phases.{Ends}

-- The verdicts of `n` turns that failed.
abbrev pub fails : ℕ → List Bool
fails zero = []
fails (suc n) = false ∷ fails n

pub fails-suc : (n : ℕ) → fails n ++ false ∷ [] ≡ fails (suc n)
fails-suc zero = refl
fails-suc (suc n) = ap (λ l. false ∷ l) (fails-suc n)

abbrev pub turns_of : List RemediationAttempt → List ℕ
turns_of [] = []
turns_of (a ∷ trail) = a.turn ∷ turns_of trail

turns_of-append :
    (xs : List RemediationAttempt) (a : RemediationAttempt)
    → turns_of (xs ++ a ∷ []) ≡ turns_of xs ++ a.turn ∷ []
turns_of-append [] a = refl
turns_of-append (x ∷ xs) a = ap (λ l. x.turn ∷ l) (turns_of-append xs a)

-- The budget of retries is not used up: it is off, or larger than the failures.
abbrev pub UnderBudget : ℕ → ℕ → Type 0
UnderBudget budget failures = (budget ≡ 0) ⊎ (failures < budget)

-- The directive that the worker of the next turn gets: none before the first failure, and then the
-- one of the last failure in the trail.
abbrev pub next_directive : List RemediationAttempt → Option String
next_directive [] = none
next_directive (a ∷ []) = some (directive_of a.reason)
next_directive (a ∷ b ∷ trail) = next_directive (b ∷ trail)

next_directive-append :
    (trail : List RemediationAttempt) (a : RemediationAttempt)
    → next_directive (trail ++ a ∷ []) ≡ some (directive_of a.reason)
next_directive-append [] a = refl
next_directive-append (x ∷ []) a = refl
next_directive-append (x ∷ y ∷ trail) a = next_directive-append (y ∷ trail) a

over_budget :
    (budget n failures : ℕ)
    → failures ≡ n
    → ltb 0 budget && leb budget (failures + 1) ≡ true
    → UnderBudget budget n
    → budget ≡ suc n
over_budget budget n failures c h (inl e) = ground arith
over_budget budget n failures c h (inr k) = ground arith

under_budget :
    (budget n failures : ℕ)
    → failures ≡ n
    → ltb 0 budget && leb budget (failures + 1) ≡ false
    → UnderBudget budget (suc n)
under_budget zero n failures c h = inl refl
under_budget (suc b) n failures c h = inr (ground arith)

module _ {G S : Type 0} where
  -- The state after `n` turns of a run that goes on: all of them failed, and are in the trail.
  pub record Progress (n : ℕ) (st : LoopState G S) : Type 0 where
    pub open_log : IsOpen (fails n) st.log
    pub count : st.consecutive_failures ≡ n
    pub trail : turns_of st.failure_trail ≡ range 1 n
    pub directive : st.last_failure_reason ≡ next_directive st.failure_trail

module _ {G : Type 0} (options : LoopRunOptions G) where
  -- How a run may end: its report beside the log, of which the last line is the report's summary.
  pub data LoopOutcome (report : LoopRunReport) (log : List (LogEntry G)) : Type 0 where
    held :
        IsClosed [] report log
        → report.outcome ≡ "success"
        → report.turns ≡ 0
        → report.failure_trail ≡ []
        → LoopOutcome report log
    braked :
        (n : ℕ)
        → n ≤ options.max_turns
        → UnderBudget options.max_remediation_attempts n
        → IsClosed (fails n) report log
        → IsBrake report.outcome
        → report.turns ≡ n
        → report.failure_trail ≡ []
        → LoopOutcome report log
    succeeded :
        (n : ℕ)
        → n < options.max_turns
        → UnderBudget options.max_remediation_attempts n
        → IsClosed (fails n ++ true ∷ []) report log
        → report.outcome ≡ "success"
        → report.turns ≡ suc n
        → report.failure_trail ≡ []
        → LoopOutcome report log
    escalated :
        (n : ℕ)
        → n < options.max_turns
        → options.max_remediation_attempts ≡ suc n
        → IsClosed (fails (suc n)) report log
        → report.outcome ≡ "escalated"
        → report.turns ≡ suc n
        → turns_of report.failure_trail ≡ range 1 (suc n)
        → LoopOutcome report log
    exhausted :
        UnderBudget options.max_remediation_attempts options.max_turns
        → IsClosed (fails options.max_turns) report log
        → report.outcome ≡ "max-turns"
        → report.turns ≡ options.max_turns
        → report.failure_trail ≡ []
        → LoopOutcome report log

  -- A part of the turn after `n` turns: it ends the run in one of these ways, or goes on.
  abbrev pub Turned : {S : Type 0} → ℕ → Step G S (LoopState G S) → Type 0
  Turned n (ends e) = Ends LoopOutcome e
  Turned n (goes_on st) = Progress (suc n) st × UnderBudget options.max_remediation_attempts (suc n)

  record_verdict-Progress :
      {S : Type 0} (n : ℕ) (output : String) (elapsed : ℕ) (st : LoopState G S)
      → Progress n st
      → Progress (suc n) (record_verdict options (suc n) false output elapsed st)
  unfolding record_verdict
  record_verdict-Progress n output elapsed st h =
      let reason = compact_inline output loop_failure_trail_reason_chars in
      let attempt : RemediationAttempt = record {
        turn = suc n;
        reason = reason;
        fix_attempt = options.worker_cmd;
      } in
      let ran : LogEntry G =
        turn_ran (suc n) (action_of options.worker_cmd) false
          (compact_inline output loop_last_check_chars) elapsed in
      let failures = st.consecutive_failures + 1 in
      let noted : LogEntry G =
        remediation (suc n) failures (compact_inline reason loop_failure_trail_reason_chars)
          options.worker_cmd in
      let after = record_verdict options (suc n) false output elapsed st in
      let one_more : 1 + n ≡ suc n = omega arith in
      record {
        open_log =
            subst (λ flags. IsOpen flags after.log) (fails-suc n)
              (if_cases (λ more. IsOpen (fails n ++ false ∷ []) (st.log ++ ran ∷ more))
                (ltb 1 failures)
                (λ _. IsOpen-append (ran ∷ noted ∷ []) (false ∷ []) refl refl h.open_log)
                (λ _. IsOpen-append (ran ∷ []) (false ∷ []) refl refl h.open_log));
        count = omega (arith, h.count);
        trail =
            turns_of-append st.failure_trail attempt
            ∙ ap (λ l. l ++ suc n ∷ []) h.trail
            ∙ subst (λ k. range 1 n ++ k ∷ [] ≡ range 1 (suc n)) one_more (sym (range-suc 1 n));
        directive = sym (next_directive-append st.failure_trail attempt);
      }

module _ {F G S : Type 0} ⦃f : Float F⦄ ⦃g : Float G⦄ ⦃t : TextOps⦄ (env : Environment G S)
    (backend : Option (Backend F S)) (options : LoopRunOptions G) where
  conclude-passed :
      (n : ℕ) (output : String) (st : LoopState G S)
      → n < options.max_turns
      → UnderBudget options.max_remediation_attempts n
      → Progress n st
      → Turned options n (conclude env backend options (suc n) true output st)
  unfolding conclude record_verdict finish_loop_early
  conclude-passed n output st m b h =
      let ran : LogEntry G =
        turn_ran (suc n) (action_of options.worker_cmd) true
          (compact_inline output loop_last_check_chars) (env.elapsed st.world) in
      succeeded n m b
        (finish_loop_early-IsClosed
          (env.elapsed (
            learn_of env backend options (commit_turn env backend options st.world (suc n) true)
              (suc n) st.corrected_failures))
          (st.log ++ ran ∷ []) "success" (suc n) "goal held"
          (IsOpen-append (ran ∷ []) (true ∷ []) refl refl h.open_log))
        refl refl refl

  -- The state after a failure, whose memory is committed.
  abbrev after_failure : ℕ → String → LoopState G S → LoopState G S
  after_failure n output st =
      let after = record_verdict options (suc n) false output (env.elapsed st.world) st in
      record after { world = commit_turn env backend options after.world (suc n) false }

  ends_escalated-LoopOutcome :
      (n : ℕ) (st : LoopState G S)
      → n < options.max_turns
      → options.max_remediation_attempts ≡ suc n
      → IsOpen (fails (suc n)) st.log
      → turns_of st.failure_trail ≡ range 1 (suc n)
      → Turned options n
          (ends_escalated env backend options st.world st.log (suc n) st.failure_trail)
  unfolding finish_loop_escalation
  ends_escalated-LoopOutcome n st m e o tr =
      escalated n m e
        (record {
          before = st.log;
          last = record {
            outcome = "escalated";
            turns = suc n;
            elapsed = env.elapsed st.world;
            why_stopped = escalation_reason st.failure_trail;
            failure_trail = some st.failure_trail;
          };
          shape = refl;
          was_open = o;
          same_outcome = refl;
          same_turns = refl;
          same_reason = refl;
        })
        refl refl tr

  conclude-failed :
      (n : ℕ) (output : String) (st : LoopState G S)
      → n < options.max_turns
      → UnderBudget options.max_remediation_attempts n
      → Progress n st
      → Turned options n (conclude env backend options (suc n) false output st)
  unfolding conclude record_verdict
  conclude-failed n output st m b h =
      let recorded = record_verdict-Progress options n output (env.elapsed st.world) st h in
      let after = after_failure n output st in
      if_cases (Turned options n)
        (ltb 0 options.max_remediation_attempts
          && leb options.max_remediation_attempts (st.consecutive_failures + 1))
        (λ on.
          ends_escalated-LoopOutcome n after m (over_budget _ n _ h.count on b) recorded.open_log
            recorded.trail)
        (λ off. (
          record {
            open_log = recorded.open_log;
            count = recorded.count;
            trail = recorded.trail;
            directive = recorded.directive;
          },
          under_budget _ n _ h.count off,
        ))

  pub conclude-Turned :
      (n : ℕ) (goal_met : Bool) (output : String) (st : LoopState G S)
      → n < options.max_turns
      → UnderBudget options.max_remediation_attempts n
      → Progress n st
      → Turned options n (conclude env backend options (suc n) goal_met output st)
  conclude-Turned n true output st m b h = conclude-passed n output st m b h
  conclude-Turned n false output st m b h = conclude-failed n output st m b h
