-- ===== src/Flume/Loop/Reports.antt =====
-- What the five ways for a run of run_loop_core (crates/flume/src/loop_core.rs) to end say of its report.
use artesian.Base.{
  append_nil, ℕ, zero, suc, ◌≤◌, ◌≡◌, refl, sym, ◌∙◌, ap, ◌⊎◌, inl, inr, String, Bool, true, false,
  Option, List, [], ◌∷◌, ◌++◌, length, length-append, range, str_eq, if◌then◌else◌, arith, subst,
}
use artesian.Base.Floats.{Float}
use artesian.Headgate.Text.{TextOps}
use artesian.Flume.Run.{LoopRunOptions, LoopRunReport, LogEntry, summary}
use artesian.Flume.Packet.{Backend}
use artesian.Flume.State.{Environment, Ending}
use artesian.Flume.Loop.{run_loop_core}
use artesian.Flume.Loop.Logs.{verdicts, verdicts-append, IsClosed}
use artesian.Flume.Loop.Phases.{Result-cases, Ends, Reports}
use artesian.Flume.Loop.Verdicts.{
  fails, turns_of, UnderBudget, LoopOutcome, held, braked, succeeded, escalated, exhausted,
}
use artesian.Flume.Loop.Outcomes.{run_loop_core-LoopOutcome}

length-fails : (n : ℕ) → length (fails n) ≡ n
length-fails zero = refl
length-fails (suc n) = omega (arith, length-fails n)

abbrev pub flags_of_success : ℕ → List Bool
flags_of_success zero = []
flags_of_success (suc n) = fails n ++ true ∷ []

under_weaken : {budget n : ℕ} → UnderBudget budget n → (budget ≡ 0) ⊎ (n ≤ budget)
under_weaken (inl e) = inl e
under_weaken (inr k) = inr (omega (arith, k))

agree_success :
    (outcome : String) (turns n : ℕ) (flags : List Bool)
    → outcome ≡ "success"
    → turns ≡ suc n
    → flags ≡ fails n ++ true ∷ []
    → flags ≡ (if str_eq outcome "success" then flags_of_success turns else fails turns)
agree_success outcome turns n flags o t e = rw (o, t, e) refl

agree_held :
    (outcome : String) (turns : ℕ) (flags : List Bool)
    → outcome ≡ "success"
    → turns ≡ 0
    → flags ≡ []
    → flags ≡ (if str_eq outcome "success" then flags_of_success turns else fails turns)
agree_held outcome turns flags o t e = rw (o, t, e) refl

agree_other :
    (outcome : String) (turns n : ℕ) (flags : List Bool)
    → str_eq outcome "success" ≡ false
    → turns ≡ n
    → flags ≡ fails n
    → flags ≡ (if str_eq outcome "success" then flags_of_success turns else fails turns)
agree_other outcome turns n flags o t e = rw (o, t, e) refl

agree_trail :
    (outcome : String) (turns : List ℕ) (budget n : ℕ)
    → outcome ≡ "escalated"
    → budget ≡ suc n
    → turns ≡ range 1 (suc n)
    → turns ≡ (if str_eq outcome "escalated" then range 1 budget else [])
agree_trail outcome turns budget n o b e = rw (o, b, e) refl

agree_empty :
    (outcome : String) (turns : List ℕ) (budget : ℕ)
    → str_eq outcome "escalated" ≡ false
    → turns ≡ []
    → turns ≡ (if str_eq outcome "escalated" then range 1 budget else [])
agree_empty outcome turns budget o e = rw (o, e) refl

module _ {G : Type 0} where
  verdicts-IsClosed :
      {flags : List Bool} {report : LoopRunReport} {log : List (LogEntry G)}
      → IsClosed flags report log
      → verdicts log ≡ flags
  verdicts-IsClosed {flags} {report} {log} h =
      rw (h.shape, verdicts-append h.before (summary h.last ∷ []), h.was_open.so_far)
        (append_nil flags)

  -- The turns of the report are the verdicts of the log, and both budgets hold.
  pub record IsWithin (options : LoopRunOptions G) (report : LoopRunReport)
      (log : List (LogEntry G)) : Type 0 where
    pub counted : report.turns ≡ length (verdicts log)
    pub in_turns : report.turns ≤ options.max_turns
    pub in_budget :
        (options.max_remediation_attempts ≡ 0) ⊎ (report.turns ≤ options.max_remediation_attempts)

  -- A success is what the last verdict of the log says, and nothing else is one.
  abbrev pub VerdictsAgree : LoopRunReport → List (LogEntry G) → Type 0
  VerdictsAgree report log = verdicts log ≡ (
      if str_eq report.outcome "success" then flags_of_success report.turns else fails report.turns)

  -- The trail is that of all turns, on escalation only, which comes with the last attempt of the
  -- budget.
  abbrev pub TrailAgrees : LoopRunOptions G → LoopRunReport → List (LogEntry G) → Type 0
  TrailAgrees options report log =
      turns_of report.failure_trail
      ≡ (if str_eq report.outcome "escalated" then range 1 options.max_remediation_attempts else [])

  IsClosed-IsWithin :
      {options : LoopRunOptions G} {report : LoopRunReport} {log : List (LogEntry G)} (n : ℕ)
      (flags : List Bool)
      → IsClosed flags report log
      → report.turns ≡ n
      → length flags ≡ n
      → n ≤ options.max_turns
      → (options.max_remediation_attempts ≡ 0) ⊎ (n ≤ options.max_remediation_attempts)
      → IsWithin options report log
  IsClosed-IsWithin {options} {report} n flags c t l m b = record {
    counted = t ∙ sym l ∙ ap length (sym (verdicts-IsClosed c));
    in_turns = omega (arith, t, m);
    in_budget =
        subst (λ k. (options.max_remediation_attempts ≡ 0) ⊎ (k ≤ options.max_remediation_attempts))
          (sym t) b;
  }

  LoopOutcome-IsWithin :
      (options : LoopRunOptions G) (report : LoopRunReport) (log : List (LogEntry G))
      → LoopOutcome options report log
      → IsWithin options report log
  LoopOutcome-IsWithin options report log (held c o t l) =
      IsClosed-IsWithin 0 [] c t refl (omega arith) (inr (omega arith))
  LoopOutcome-IsWithin options report log (braked n m b c o t l) =
      IsClosed-IsWithin n (fails n) c t (length-fails n) m (under_weaken b)
  LoopOutcome-IsWithin options report log (succeeded n m (inl b) c o t l) =
      IsClosed-IsWithin (suc n) (fails n ++ true ∷ []) c t
        (omega (arith, length-append (fails n) (true ∷ []), length-fails n)) m (inl b)
  LoopOutcome-IsWithin options report log (succeeded n m (inr b) c o t l) =
      IsClosed-IsWithin (suc n) (fails n ++ true ∷ []) c t
        (omega (arith, length-append (fails n) (true ∷ []), length-fails n)) m (inr b)
  LoopOutcome-IsWithin options report log (escalated n m b c o t l) =
      IsClosed-IsWithin (suc n) (fails (suc n)) c t (length-fails (suc n)) m
        (inr (omega (arith, b)))
  LoopOutcome-IsWithin options report log (exhausted b c o t l) =
      IsClosed-IsWithin options.max_turns (fails options.max_turns) c t
        (length-fails options.max_turns) (omega arith) (under_weaken b)

  LoopOutcome-VerdictsAgree :
      (options : LoopRunOptions G) (report : LoopRunReport) (log : List (LogEntry G))
      → LoopOutcome options report log
      → VerdictsAgree report log
  LoopOutcome-VerdictsAgree options report log (held c o t l) =
      agree_held report.outcome report.turns (verdicts log) o t (verdicts-IsClosed c)
  LoopOutcome-VerdictsAgree options report log (braked n m b c o t l) =
      agree_other report.outcome report.turns n (verdicts log) o.not_success t (verdicts-IsClosed c)
  LoopOutcome-VerdictsAgree options report log (succeeded n m b c o t l) =
      agree_success report.outcome report.turns n (verdicts log) o t (verdicts-IsClosed c)
  LoopOutcome-VerdictsAgree options report log (escalated n m b c o t l) =
      agree_other report.outcome report.turns (suc n) (verdicts log)
        (ap (λ outcome. str_eq outcome "success") o) t (verdicts-IsClosed c)
  LoopOutcome-VerdictsAgree options report log (exhausted b c o t l) =
      agree_other report.outcome report.turns options.max_turns (verdicts log)
        (ap (λ outcome. str_eq outcome "success") o) t (verdicts-IsClosed c)

  LoopOutcome-TrailAgrees :
      (options : LoopRunOptions G) (report : LoopRunReport) (log : List (LogEntry G))
      → LoopOutcome options report log
      → TrailAgrees options report log
  LoopOutcome-TrailAgrees options report log (held c o t l) =
      agree_empty report.outcome _ _ (ap (λ outcome. str_eq outcome "escalated") o) (ap turns_of l)
  LoopOutcome-TrailAgrees options report log (braked n m b c o t l) =
      agree_empty report.outcome _ _ o.not_escalated (ap turns_of l)
  LoopOutcome-TrailAgrees options report log (succeeded n m b c o t l) =
      agree_empty report.outcome _ _ (ap (λ outcome. str_eq outcome "escalated") o) (ap turns_of l)
  LoopOutcome-TrailAgrees options report log (escalated n m b c o t l) =
      agree_trail report.outcome _ _ n o b l
  LoopOutcome-TrailAgrees options report log (exhausted b c o t l) =
      agree_empty report.outcome _ _ (ap (λ outcome. str_eq outcome "escalated") o) (ap turns_of l)

  Ends-map :
      {S : Type 0} {P Q : LoopRunReport → List (LogEntry G) → Type 0}
      → ((report : LoopRunReport) (log : List (LogEntry G)) → P report log → Q report log)
      → (e : Ending G S) → Ends P e
      → Ends Q e
  Ends-map {P = P} {Q = Q} k e h = elim (Result-cases e.result) [
    | inl (reason, r) ↦ rw r tt
    | inr (report, r) ↦ rw r (k report e.log (subst (λ result. Reports P result e.log) r h))
  ]

module _ {F G S : Type 0} ⦃f : Float F⦄ ⦃g : Float G⦄ ⦃t : TextOps⦄ (env : Environment G S)
    (backend : Option (Backend F S)) (options : LoopRunOptions G) where
  -- A report has as many turns as its log has verdicts, at most `max_turns`, and at most the budget
  -- of retries where that is not 0.
  pub run_loop_core-IsWithin :
      (s : S) → Ends (IsWithin options) (run_loop_core env backend options s)
  run_loop_core-IsWithin s =
      Ends-map (LoopOutcome-IsWithin options) (run_loop_core env backend options s)
        (run_loop_core-LoopOutcome env backend options s)

  -- The verdicts in the log of a run that reports success after `n + 1` turns are `n` failures and
  -- then a pass, and none where it reports 0 turns; those of any other report are failures only, one
  -- for each turn.
  pub run_loop_core-VerdictsAgree :
      (s : S) → Ends VerdictsAgree (run_loop_core env backend options s)
  run_loop_core-VerdictsAgree s =
      Ends-map (LoopOutcome-VerdictsAgree options) (run_loop_core env backend options s)
        (run_loop_core-LoopOutcome env backend options s)

  -- The failure trail of a report holds the turns from 1 to the budget of retries, in their order, on
  -- escalation, and is empty for every other outcome.
  pub run_loop_core-TrailAgrees :
      (s : S) → Ends (TrailAgrees options) (run_loop_core env backend options s)
  run_loop_core-TrailAgrees s =
      Ends-map (LoopOutcome-TrailAgrees options) (run_loop_core env backend options s)
        (run_loop_core-LoopOutcome env backend options s)
