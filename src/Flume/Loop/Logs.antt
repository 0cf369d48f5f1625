-- ===== src/Flume/Loop/Logs.antt =====
-- The log of a run of run_loop_core (crates/flume/src/loop_core.rs), open while the run goes on, closed
-- by one summary when it has ended.
use artesian.Headgate.Gate.Default.{text_contains}
use artesian.Base.{
  append_nil, ℕ, ◌≡◌, refl, ap, String, Bool, false, none, List, [], ◌∷◌, ◌++◌, any, str_eq,
  if_cases, subst,
}
use artesian.Flume.Quota.{QuotaThresholdEvent}
use artesian.Flume.Run.{
  LoopRunReport, Summary, LogEntry, turn_ran, remediation, quota_warning, quota_checkpoint, summary,
  error_outcome, early_report, finish_loop_early,
}
use artesian.Flume.State.{warn_windows, window_key, same_window}

module _ {G : Type 0} where
  -- The verdicts in a log, in their order.
  abbrev pub verdicts : List (LogEntry G) → List Bool
  verdicts [] = []
  verdicts (turn_ran _ _ passed _ _ ∷ log) = passed ∷ verdicts log
  verdicts (remediation _ _ _ _ ∷ log) = verdicts log
  verdicts (quota_warning _ _ ∷ log) = verdicts log
  verdicts (quota_checkpoint _ _ _ ∷ log) = verdicts log
  verdicts (summary _ ∷ log) = verdicts log

  -- The summaries in a log.
  abbrev pub summaries : List (LogEntry G) → List Summary
  summaries [] = []
  summaries (turn_ran _ _ _ _ _ ∷ log) = summaries log
  summaries (remediation _ _ _ _ ∷ log) = summaries log
  summaries (quota_warning _ _ ∷ log) = summaries log
  summaries (quota_checkpoint _ _ _ ∷ log) = summaries log
  summaries (summary m ∷ log) = m ∷ summaries log

  pub verdicts-append :
      (xs ys : List (LogEntry G)) → verdicts (xs ++ ys) ≡ verdicts xs ++ verdicts ys
  verdicts-append [] ys = refl
  verdicts-append (turn_ran _ _ p _ _ ∷ xs) ys = ap (λ l. p ∷ l) (verdicts-append xs ys)
  verdicts-append (remediation _ _ _ _ ∷ xs) ys = verdicts-append xs ys
  verdicts-append (quota_warning _ _ ∷ xs) ys = verdicts-append xs ys
  verdicts-append (quota_checkpoint _ _ _ ∷ xs) ys = verdicts-append xs ys
  verdicts-append (summary _ ∷ xs) ys = verdicts-append xs ys

  pub summaries-append :
      (xs ys : List (LogEntry G)) → summaries (xs ++ ys) ≡ summaries xs ++ summaries ys
  summaries-append [] ys = refl
  summaries-append (turn_ran _ _ _ _ _ ∷ xs) ys = summaries-append xs ys
  summaries-append (remediation _ _ _ _ ∷ xs) ys = summaries-append xs ys
  summaries-append (quota_warning _ _ ∷ xs) ys = summaries-append xs ys
  summaries-append (quota_checkpoint _ _ _ ∷ xs) ys = summaries-append xs ys
  summaries-append (summary m ∷ xs) ys = ap (λ l. m ∷ l) (summaries-append xs ys)

  -- The log of a run in progress: the verdicts so far, and no summary.
  pub record IsOpen (flags : List Bool) (log : List (LogEntry G)) : Type 0 where
    pub so_far : verdicts log ≡ flags
    pub unsummed : summaries log ≡ []

  -- An entry that is neither a verdict nor a summary keeps that.
  pub IsOpen-append :
      {flags : List Bool} {log : List (LogEntry G)} (more : List (LogEntry G)) (new : List Bool)
      → verdicts more ≡ new
      → summaries more ≡ []
      → IsOpen flags log
      → IsOpen (flags ++ new) (log ++ more)
  IsOpen-append {flags} {log} more new v s h = record {
    so_far = rw (verdicts-append log more, h.so_far, v) refl;
    unsummed = rw (summaries-append log more, h.unsummed, s) refl;
  }

  -- The log of a run that has ended: what was open, and the summary of the report behind it.
  pub record IsClosed (flags : List Bool) (report : LoopRunReport) (log : List (LogEntry G))
      : Type 0 where
    pub before : List (LogEntry G)
    pub last : Summary
    pub shape : log ≡ before ++ summary last ∷ []
    pub was_open : IsOpen flags before
    pub same_outcome : last.outcome ≡ report.outcome
    pub same_turns : last.turns ≡ report.turns
    pub same_reason : last.why_stopped ≡ report.why_stopped

  pub finish_loop_early-IsClosed :
      (elapsed : ℕ) (log : List (LogEntry G)) (outcome : String) (turns : ℕ) (reason : String)
      {flags : List Bool}
      → IsOpen flags log
      → IsClosed flags
          (early_report outcome turns reason)
          (finish_loop_early elapsed log outcome turns reason).0
  unfolding finish_loop_early
  finish_loop_early-IsClosed elapsed log outcome turns reason h = record {
    before = log;
    last = record {
      outcome = outcome;
      turns = turns;
      elapsed = elapsed;
      why_stopped = reason;
      failure_trail = none;
    };
    shape = refl;
    was_open = h;
    same_outcome = refl;
    same_turns = refl;
    same_reason = refl;
  }

module _ {G : Type 0} where
  pub IsOpen-quiet :
      {flags : List Bool} {log : List (LogEntry G)} (entry : LogEntry G)
      → verdicts (entry ∷ []) ≡ []
      → summaries (entry ∷ []) ≡ []
      → IsOpen flags log
      → IsOpen flags (log ++ entry ∷ [])
  IsOpen-quiet {flags} {log} entry v s h =
      subst (λ flags. IsOpen flags (log ++ entry ∷ [])) (append_nil flags)
        (IsOpen-append (entry ∷ []) [] v s h)

  pub warn_windows-IsOpen :
      (turn : ℕ) (events : List (QuotaThresholdEvent G)) (log : List (LogEntry G))
      (warned : List (String × String)) {flags : List Bool}
      → IsOpen flags log
      → IsOpen flags (warn_windows turn events log warned).0
  unfolding warn_windows
  warn_windows-IsOpen turn [] log warned h = h
  warn_windows-IsOpen turn (event ∷ events) log warned {flags} h =
      warn_windows-IsOpen turn events _ _ (
        if_cases (IsOpen flags) (any (same_window (window_key event)) warned) (λ _. h)
          (λ _. IsOpen-quiet (quota_warning turn event) refl refl h))

-- The outcome of a brake: neither a success nor the end of a budget of turns or retries.
pub record IsBrake (outcome : String) : Type 0 where
  pub not_success : str_eq outcome "success" ≡ false
  pub not_escalated : str_eq outcome "escalated" ≡ false
  pub not_max_turns : str_eq outcome "max-turns" ≡ false

abbrev pub brake :
    (outcome : String)
    → str_eq outcome "success" ≡ false
    → str_eq outcome "escalated" ≡ false
    → str_eq outcome "max-turns" ≡ false
    → IsBrake outcome
brake outcome a b c = record { not_success = a; not_escalated = b; not_max_turns = c }

pub error_outcome-IsBrake : (reason : String) → IsBrake (error_outcome reason)
unfolding error_outcome
error_outcome-IsBrake reason =
    if_cases IsBrake (text_contains reason "wall-clock budget") {x = "wall-cap"} {y = "error"}
      (λ _. brake "wall-cap" refl refl refl) (λ _. brake "error" refl refl refl)
