-- ===== src/Flume/Loop.antt =====
-- The loop over turns: run_loop_core of crates/flume/src/loop_core.rs. A turn either ends the run or
-- goes on with the next state. What is outside is an `Environment` over a state of the world: the
-- clock, the sentinel file, the cancellation token, the quota files, the worker and verifier, the
-- anchors. Progress calls, the note on standard error and the savings log are left out.
pub mod Logs
pub mod Phases
pub mod Verdicts
pub mod Outcomes
pub mod Reports
use Prim.Native.String
use artesian.Base.{
  ℕ, zero, suc, ◌+◌, ◌-◌, ◌≡◌, String, Bool, true, false, ◌&&◌, Option, none, some, List, [], ◌∷◌,
  ◌++◌, any, ltb, leb, str_eq, if◌then◌else◌,
}
use artesian.Base.Floats.{Float}
use artesian.Base.Results.{Result, ok, err}
use artesian.Base.Texts.{join, decimal}
use artesian.Headgate.Text.{TextOps}
use artesian.Flume.Quota.{
  QuotaWindowStatus, QuotaThresholdEvent, quota_threshold_events, checkpoint_event,
}
use artesian.Flume.Run.{
  LoopRunOptions, FailedCheck, RemediationAttempt, LoopRunReport, SessionKey, LogEntry, turn_ran,
  remediation, quota_warning, quota_checkpoint, loop_failure_trail_reason_chars,
  loop_last_check_chars, default_loop_sleep, compact_inline, remaining_wall_budget,
  wall_cap_message, error_outcome, finished, early_report, finish_loop_early,
  finish_loop_escalation,
}
use artesian.Flume.Packet.{Backend, loop_recall, assemble_goal_packet}
use artesian.Flume.Memories.{action_of, turn_memory, learn_from_run}
use artesian.Flume.State.{
  Environment, LoopState, Ending, Step, ends, goes_on, ◌and_then◌, worker_env, poll_pause,
  warn_windows, record_verdict,
}

module _ {F G S : Type 0} ⦃f : Float F⦄ ⦃g : Float G⦄ ⦃t : TextOps⦄ (env : Environment G S)
    (backend : Option (Backend F S)) (options : LoopRunOptions G) where
  abbrev ends_early {ℓ} : {A : Type ℓ} → S → List (LogEntry G) → String → ℕ → String → Step G S A
  ends_early world log outcome turns reason =
      let (log, report) = finish_loop_early (env.elapsed world) log outcome turns reason in
      ends (record { world = world; log = log; result = ok report })

  abbrev pub ends_escalated {ℓ} :
      {A : Type ℓ} → S → List (LogEntry G) → ℕ → List RemediationAttempt → Step G S A
  ends_escalated world log turns trail =
      let (log, report) = finish_loop_escalation (env.elapsed world) log turns trail in
      ends (record { world = world; log = log; result = ok report })

  -- The brakes at the start of a turn: the wall cap, the sentinel file, the cancellation token.
  unfoldable pub check_brakes : ℕ → LoopState G S → Step G S (LoopState G S)
  unfolding finish_loop_early
  check_brakes turn st =
      let s = st.world in
      elim (wall_cap_message (env.elapsed s) options.max_wall
        (String.◌++◌ "turn " (decimal turn))) [
          | some reason ↦ ends_early s st.log "wall-cap" (turn - 1) reason
          | none ↦
              if env.stop_exists s options.stop_file
              then ends_early s st.log "stopped" (turn - 1)
                  (String.◌++◌ "loop stopped by sentinel " options.stop_file)
              else if env.is_cancelled s
              then ends_early s st.log "cancelled" (turn - 1) "loop cancelled by client"
              else goes_on st
        ]

  -- The continuation that is written before the run ends for its quota.
  unfoldable pub checkpoint_run :
      ℕ → QuotaThresholdEvent G → LoopState G S → Step G S (LoopState G S)
  unfolding finish_loop_early
  checkpoint_run turn event st =
      let (s, written) = env.write_quota_continuation st.world turn st.last_check event in
      elim written [
        | err e ↦ ends (record { world = s; log = st.log; result = err e })
        | ok key ↦
            ends_early s (st.log ++ quota_checkpoint turn event key ∷ []) "quota-checkpoint"
              (turn - 1)
              (join "" (
                "quota near limit - resume with another agent via `artesian session resume`"
                ∷ "; checkpoint session=" ∷ key.session_id ∷ " task=" ∷ key.task_id ∷ []))
      ]

  unfoldable pub check_quota : ℕ → LoopState G S → Step G S (LoopState G S)
  unfolding warn_windows checkpoint_run
  check_quota turn st =
      let quota = options.quota in
      let events = quota_threshold_events (env.read_quota st.world) quota.warn_pct quota.high_pct in
      let (log, warned) = warn_windows turn events st.log st.warned_quota_windows in
      let st = record st { log = log; warned_quota_windows = warned } in
      elim (checkpoint_event quota.checkpoint_on_quota events) [
        | some event ↦ checkpoint_run turn event st
        | none ↦ goes_on st
      ]

  abbrev pub recall_of : S → S × String
  recall_of s = elim backend [ none ↦ (s, "") | some b ↦ loop_recall b s options.goal ]

  -- A call under `select!` with the token: the cancelled call is dropped.
  abbrev pub failed_or {ℓ} :
      {A : Type ℓ} → String → ℕ → LoopState G S → S × Result String A → Step G S (S × A)
  failed_or during turn st (s, result) =
      if env.cancels st.world
      then ends_early (env.interrupt st.world) st.log "cancelled" (turn - 1) during
      else elim result [
        | err reason ↦ ends_early s st.log (error_outcome reason) (turn - 1) reason
        | ok value ↦ goes_on (s, value)
      ]

  abbrev pub at_world {ℓ} :
      {A : Type ℓ} → LoopState G S → Step G S (S × A) → Step G S (LoopState G S)
  at_world st (ends e) = ends e
  at_world st (goes_on (s, _)) = goes_on (record st { world = s })

  -- The sleep of a poll, or the worker; a worker that exits with another code than 0 is no error.
  unfoldable pub work : ℕ → LoopState G S → Step G S (LoopState G S)
  unfolding finish_loop_early
  work turn st =
      let (s, recall) = recall_of st.world in
      let (s, packet) = assemble_goal_packet backend s options.goal st.last_check recall in
      let st = record st { world = s } in
      let budget = remaining_wall_budget (env.elapsed s) options.max_wall in
      if options.poll
      then goes_on (record st { world = env.sleep s (poll_pause budget) })
      else elim options.worker_cmd [
        | none ↦ goes_on st
        | some cmd ↦
            let vars =
              worker_env packet recall options.goal options.run_id turn st.last_failure_reason in
            at_world st (
              failed_or "cancelled during worker execution" turn st
                (env.run_worker s cmd vars budget))
      ]

  -- The anchor for a resume, then the verifier.
  unfoldable pub verify_turn : ℕ → LoopState G S → Step G S (S × (Bool × String))
  unfolding finish_loop_early
  verify_turn turn st =
      let action = action_of options.worker_cmd in
      let s =
        env.set_anchor st.world (join "" ("loop turn " ∷ decimal turn ∷ ": " ∷ action ∷ []))
          (String.◌++◌ "verify goal: " options.goal) in
      failed_or "cancelled during goal verification" turn (record st { world = s })
        (env.verify_goal s options.goal (remaining_wall_budget (env.elapsed s) options.max_wall))

  abbrev pub commit_turn : S → ℕ → Bool → S
  commit_turn s turn goal_met = elim backend [
    | none ↦ s
    | some b ↦ b.store s (turn_memory options.run_id turn options.goal options.worker_cmd goal_met)
  ]

  abbrev pub learn_of : S → ℕ → List FailedCheck → S
  learn_of s turn failures = elim backend [
    | none ↦ s
    | some b ↦
        if options.learn
        then learn_from_run b s options.goal options.worker_cmd turn failures
        else s
  ]

  -- What follows the verdict: the memory of the turn, then escalation, success or the next turn.
  unfoldable pub conclude : ℕ → Bool → String → LoopState G S → Step G S (LoopState G S)
  unfolding record_verdict finish_loop_early finish_loop_escalation
  conclude turn goal_met check_output st =
      let st = record_verdict options turn goal_met check_output (env.elapsed st.world) st in
      let st = record st { world = commit_turn st.world turn goal_met } in
      if goal_met
      then ends_early (learn_of st.world turn st.corrected_failures) st.log "success" turn
          "goal held"
      else if ltb 0 options.max_remediation_attempts
          && leb options.max_remediation_attempts st.consecutive_failures
      then ends_escalated st.world st.log turn st.failure_trail
      else goes_on st

  unfoldable pub run_turn : ℕ → LoopState G S → Step G S (LoopState G S)
  unfolding check_brakes check_quota work verify_turn conclude
  run_turn turn st = check_brakes turn st and_then λ st. check_quota turn st and_then λ st.
      work turn st and_then λ st. verify_turn turn st and_then λ checked.
      conclude turn checked.1.0 checked.1.1 (record st { world = checked.0 })

  -- The turns that are left, from the turn `turn` on.
  unfoldable pub run_turns : ℕ → ℕ → LoopState G S → Ending G S
  unfolding run_turn finish_loop_early
  run_turns zero turn st =
      let (log, report) =
        finish_loop_early (env.elapsed st.world) st.log "max-turns" options.max_turns (
          join "" (
            "loop reached max-turns ("
            ∷ decimal options.max_turns
            ∷ ") without the goal holding"
            ∷ [])) in
      record { world = st.world; log = log; result = ok report }
  run_turns (suc left) turn st = elim (run_turn turn st) [
    | ends e ↦ e
    | goes_on st ↦ run_turns left (suc turn) st
  ]

  abbrev pub start_state : S → LoopState G S
  start_state s = record {
    world = s;
    log = [];
    last_check = none;
    corrected_failures = [];
    consecutive_failures = 0;
    failure_trail = [];
    last_failure_reason = none;
    warned_quota_windows = [];
  }

  abbrev pub at_once : S → String → String → Ending G S
  at_once s outcome reason =
      let (log, report) = finish_loop_early (env.elapsed s) [] outcome 0 reason in
      record { world = s; log = log; result = ok report }

  unfoldable pub run_loop_core : S → Ending G S
  unfolding run_turns finish_loop_early
  run_loop_core s = elim (wall_cap_message (env.elapsed s) options.max_wall "initial check") [
    | some reason ↦ at_once s "wall-cap" reason
    | none ↦
        let (s, checked) =
          env.verify_goal s options.goal (remaining_wall_budget (env.elapsed s) options.max_wall) in
        elim checked [
          | err reason ↦ at_once s (error_outcome reason) reason
          | ok (goal_met, _) ↦
              if goal_met
              then at_once s "success" "goal already held"
              else run_turns options.max_turns 1 (start_state s)
        ]
  ]
