-- ===== src/Flume/State.antt =====
-- The state of a run of run_loop_core, crates/flume/src/loop_core.rs, and what it asks of the world,
-- with the pieces that only change the state: the quota warnings and the bookkeeping of a verdict.
use artesian.Base.{
  ℕ, ◌+◌, String, Bool, ◌&&◌, Option, none, some, List, [], ◌∷◌, ◌++◌, any, ltb, str_eq,
  if◌then◌else◌,
}
use artesian.Base.Results.{Result}
use artesian.Base.Texts.{join, decimal}
use artesian.Flume.Quota.{QuotaWindowStatus, QuotaThresholdEvent}
use artesian.Flume.Run.{
  LoopRunOptions, FailedCheck, RemediationAttempt, LoopRunReport, SessionKey, LogEntry, turn_ran,
  remediation, quota_warning, loop_failure_trail_reason_chars, loop_last_check_chars,
  default_loop_sleep, compact_inline,
}
use artesian.Flume.Memories.{action_of}

-- What the loop asks of the world. `cancels` says whether the token fires while the call that
-- starts now runs; `interrupt` is the world where that call was dropped.
pub record Environment (G S : Type 0) : Type 0 where
  pub elapsed : S → ℕ
  pub stop_exists : S → String → Bool
  pub is_cancelled : S → Bool
  pub cancels : S → Bool
  pub interrupt : S → S
  pub read_quota : S → List (QuotaWindowStatus G)
  pub sleep : S → ℕ → S
  pub run_worker : S → String → List (String × String) → Option ℕ → S × Result String Bool
  pub verify_goal : S → String → Option ℕ → S × Result String (Bool × String)
  pub set_anchor : S → String → String → S
  pub write_quota_continuation :
      S → ℕ → Option String → QuotaThresholdEvent G → S × Result String SessionKey

pub record LoopState (G S : Type 0) : Type 0 where
  pub world : S
  pub log : List (LogEntry G)
  pub last_check : Option String
  pub corrected_failures : List FailedCheck
  pub consecutive_failures : ℕ
  pub failure_trail : List RemediationAttempt
  pub last_failure_reason : Option String
  pub warned_quota_windows : List (String × String)

-- How a run ends: the world, the log, and the report or the error that `?` returns.
pub record Ending (G S : Type 0) : Type 0 where
  pub world : S
  pub log : List (LogEntry G)
  pub result : Result String LoopRunReport

-- A part of a turn ends the run, or gives its value.
pub data Step {ℓ} (G S : Type 0) (A : Type ℓ) : Type ℓ where
  ends : Ending G S → Step G S A
  goes_on : A → Step G S A

-- The early return of a part, or what follows it.
infixl 5 ◌and_then◌
abbrev pub ◌and_then◌ {ℓ κ} :
    {G S : Type 0} {A : Type ℓ} {B : Type κ} → Step G S A → (A → Step G S B) → Step G S B
(ends e) and_then rest = ends e
(goes_on a) and_then rest = rest a

-- The environment of a worker.
unfoldable pub worker_env :
    String → String → String → String → ℕ → Option String → List (String × String)
worker_env packet recall goal run_id turn last_failure_reason =
    ("ARTESIAN_PACKET", packet)
    ∷ ("ARTESIAN_RECALL", recall)
    ∷ ("ARTESIAN_GOAL", goal)
    ∷ ("ARTESIAN_RUN_ID", run_id)
    ∷ ("ARTESIAN_TURN", decimal turn)
    ∷ elim last_failure_reason [
      | none ↦ []
      | some directive ↦ ("ARTESIAN_LAST_FAILURE", directive) ∷ []
    ]

-- The directive for the next worker.
unfoldable pub directive_of : String → String
directive_of reason = join "" ("PREVIOUS ATTEMPT FAILED — fix exactly this:\n" ∷ reason ∷ "\n" ∷ [])

abbrev pub same_window : String × String → String × String → Bool
same_window a b = str_eq a.0 b.0 && str_eq a.1 b.1

-- The sleep between polls.
abbrev pub poll_pause : Option ℕ → ℕ
poll_pause none = default_loop_sleep
poll_pause (some d) = if ltb d default_loop_sleep then d else default_loop_sleep

module _ {G : Type 0} where
  abbrev pub window_key : QuotaThresholdEvent G → String × String
  window_key event = (event.status.agent, event.status.window)

  -- The warnings of a turn: one for each window that has none yet.
  unfoldable pub warn_windows :
      ℕ
      → List (QuotaThresholdEvent G)
      → List (LogEntry G)
      → List (String × String)
      → List (LogEntry G) × List (String × String)
  unfolding any
  warn_windows turn [] log warned = (log, warned)
  warn_windows turn (event ∷ events) log warned =
      let known = any (same_window (window_key event)) warned in
      warn_windows turn events (if known then log else log ++ quota_warning turn event ∷ [])
        (if known then warned else window_key event ∷ warned)

module _ {G S : Type 0} where
  -- The bookkeeping of a verifier's answer.
  unfoldable pub record_verdict :
      LoopRunOptions G → ℕ → Bool → String → ℕ → LoopState G S → LoopState G S
  record_verdict options turn goal_met check_output elapsed st =
      let ran =
        turn_ran turn (action_of options.worker_cmd) goal_met
          (compact_inline check_output loop_last_check_chars) elapsed in
      if goal_met
      then record st {
        log = st.log ++ ran ∷ [];
        consecutive_failures = 0;
        last_failure_reason = none;
        last_check = none;
      }
      else let failures = st.consecutive_failures + 1 in
        let reason = compact_inline check_output loop_failure_trail_reason_chars in
        record st {
          log =
              st.log
              ++ ran
                ∷ (if ltb 1 failures
                    then remediation turn failures
                        (compact_inline reason loop_failure_trail_reason_chars) options.worker_cmd
                      ∷ []
                    else []);
          consecutive_failures = failures;
          corrected_failures =
              st.corrected_failures ++ record { turn = turn; output = check_output } ∷ [];
          failure_trail =
              st.failure_trail
              ++ record { turn = turn; reason = reason; fix_attempt = options.worker_cmd } ∷ [];
          last_check = some (
              join ""
                ("turn " ∷ decimal turn ∷ ": `" ∷ options.goal ∷ "` failed\n" ∷ check_output ∷ []));
          last_failure_reason = some (directive_of reason);
        }
