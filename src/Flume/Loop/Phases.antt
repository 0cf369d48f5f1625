-- ===== src/Flume/Loop/Phases.antt =====
-- What each part of a turn of run_loop_core (crates/flume/src/loop_core.rs) does before the verdict: it
-- keeps the log open and the bookkeeping of failures as it is, or a brake ends the run.
use artesian.Base.{
  ℕ, ◌-◌, ◌≡◌, refl, ◌⊎◌, inl, inr, String, Bool, Option, List, [], ◌∷◌, ◌++◌, if_cases,
  Option-cases,
}
use Prim.Native.String
use artesian.Base.Texts.{decimal, join}
use artesian.Base.Floats.{Float}
use artesian.Base.Results.{Result, ok, err}
use artesian.Headgate.Text.{TextOps}
use artesian.Flume.Quota.{QuotaThresholdEvent, quota_threshold_events, checkpoint_event}
use artesian.Flume.Run.{
  LoopRunOptions, LoopRunReport, LogEntry, quota_checkpoint, wall_cap_message,
  remaining_wall_budget, early_report, finish_loop_early,
}
use artesian.Flume.Packet.{Backend, assemble_goal_packet}
use artesian.Flume.Memories.{action_of}
use artesian.Flume.State.{
  Environment, LoopState, Ending, Step, ends, goes_on, warn_windows, worker_env,
}
use artesian.Flume.Loop.{
  check_brakes, checkpoint_run, check_quota, work, verify_turn, failed_or, at_world, recall_of,
}
use artesian.Flume.Loop.Logs.{
  IsOpen, IsOpen-quiet, warn_windows-IsOpen, IsClosed, finish_loop_early-IsClosed, IsBrake, brake,
  error_outcome-IsBrake,
}

pub Result-cases {ℓ} :
    {A : Type ℓ} (r : Result String A) → ((e : String) × (r ≡ err e)) ⊎ ((a : A) × (r ≡ ok a))
Result-cases (err e) = inl (e, refl)
Result-cases (ok a) = inr (a, refl)

module _ {G : Type 0} where
  -- A property of the report and the log, where the run ends with a report.
  abbrev pub Reports :
      (LoopRunReport → List (LogEntry G) → Type 0)
      → Result String LoopRunReport
      → List (LogEntry G)
      → Type 0
  Reports P (err e) log = Unit {0}
  Reports P (ok report) log = P report log

  -- A brake in the turn `turn`: the turns before it are reported.
  pub record Braked (flags : List Bool) (turn : ℕ) (report : LoopRunReport)
      (log : List (LogEntry G)) : Type 0 where
    pub closed : IsClosed flags report log
    pub is_brake : IsBrake report.outcome
    pub turns_before : report.turns ≡ turn - 1
    pub no_trail : report.failure_trail ≡ []

  pub early-Braked :
      (elapsed : ℕ) (log : List (LogEntry G)) (outcome : String) (turn : ℕ) (reason : String)
      {flags : List Bool}
      → IsOpen flags log
      → IsBrake outcome
      → Braked flags turn
          (early_report outcome (turn - 1) reason)
          (finish_loop_early elapsed log outcome (turn - 1) reason).0
  early-Braked elapsed log outcome turn reason h b = record {
    closed = finish_loop_early-IsClosed elapsed log outcome (turn - 1) reason h;
    is_brake = b;
    turns_before = refl;
    no_trail = refl;
  }

module _ {G S : Type 0} where
  abbrev pub Ends : (LoopRunReport → List (LogEntry G) → Type 0) → Ending G S → Type 0
  Ends P e = Reports P e.result e.log

  abbrev pub Phase {ℓ} : {A : Type ℓ} → List Bool → ℕ → (A → Type 0) → Step G S A → Type 0
  Phase flags turn Q (ends e) = Ends (Braked flags turn) e
  Phase flags turn Q (goes_on a) = Q a

  -- The log stays open, and the bookkeeping is that of `st`.
  pub record Keeps (flags : List Bool) (st : LoopState G S) (after : LoopState G S) : Type 0 where
    pub open_log : IsOpen flags after.log
    pub same_count : after.consecutive_failures ≡ st.consecutive_failures
    pub same_trail : after.failure_trail ≡ st.failure_trail
    pub same_directive : after.last_failure_reason ≡ st.last_failure_reason

  Keeps-world :
      (st : LoopState G S) (s : S) {flags : List Bool}
      → IsOpen flags st.log
      → Keeps flags st (record st { world = s })
  Keeps-world st s h = record {
    open_log = h;
    same_count = refl;
    same_trail = refl;
    same_directive = refl;
  }

module _ {F G S : Type 0} ⦃f : Float F⦄ ⦃g : Float G⦄ ⦃t : TextOps⦄ (env : Environment G S)
    (backend : Option (Backend F S)) (options : LoopRunOptions G) where
  pub check_brakes-Phase :
      (turn : ℕ) (st : LoopState G S) {flags : List Bool}
      → IsOpen flags st.log
      → Phase flags turn (Keeps flags st) (check_brakes env backend options turn st)
  unfolding check_brakes
  check_brakes-Phase turn st {flags} h =
      let cap =
        wall_cap_message (env.elapsed st.world) options.max_wall
          (String.◌++◌ "turn " (decimal turn)) in
      elim (Option-cases cap) [
        | inl e ↦
            rw (check_brakes, e)
              (if_cases (Phase flags turn (Keeps flags st))
                (env.stop_exists st.world options.stop_file)
                (λ _. early-Braked _ st.log "stopped" turn _ h (brake "stopped" refl refl refl))
                (λ _.
                  if_cases (Phase flags turn (Keeps flags st)) (env.is_cancelled st.world)
                    (λ _.
                      early-Braked _ st.log "cancelled" turn _ h (brake "cancelled" refl refl refl))
                    (λ _. Keeps-world st st.world h)))
        | inr (reason, e) ↦
            rw (check_brakes, e)
              (early-Braked _ st.log "wall-cap" turn reason h (brake "wall-cap" refl refl refl))
      ]

  checkpoint_run-Phase :
      (turn : ℕ) (event : QuotaThresholdEvent G) (st : LoopState G S) {flags : List Bool}
      → IsOpen flags st.log
      → (Q : LoopState G S → Type 0)
      → Phase flags turn Q (checkpoint_run env backend options turn event st)
  unfolding checkpoint_run
  checkpoint_run-Phase turn event st {flags} h Q =
      let written = env.write_quota_continuation st.world turn st.last_check event in
      elim (Result-cases written.1) [
        | inl (e, k) ↦ rw (checkpoint_run, k) tt
        | inr (key, k) ↦
            rw (checkpoint_run, k)
              (early-Braked _ (st.log ++ quota_checkpoint turn event key ∷ []) "quota-checkpoint"
                turn _ (IsOpen-quiet (quota_checkpoint turn event key) refl refl h)
                (brake "quota-checkpoint" refl refl refl))
      ]

  pub check_quota-Phase :
      (turn : ℕ) (st : LoopState G S) {flags : List Bool}
      → IsOpen flags st.log
      → Phase flags turn (Keeps flags st) (check_quota env backend options turn st)
  unfolding check_quota
  check_quota-Phase turn st {flags} h =
      let quota = options.quota in
      let events = quota_threshold_events (env.read_quota st.world) quota.warn_pct quota.high_pct in
      let warned = warn_windows turn events st.log st.warned_quota_windows in
      let after : LoopState G S = record st { log = warned.0; warned_quota_windows = warned.1 } in
      let open_log : IsOpen flags after.log =
        warn_windows-IsOpen turn events st.log st.warned_quota_windows h in
      elim (Option-cases (checkpoint_event quota.checkpoint_on_quota events)) [
        | inl e ↦
            rw (check_quota, e)
              (record {
                open_log = open_log;
                same_count = refl;
                same_trail = refl;
                same_directive = refl;
              })
        | inr (event, e) ↦
            rw (check_quota, e) (checkpoint_run-Phase turn event after open_log (Keeps flags st))
      ]

  -- A call under the token, whose value the rest of the turn takes.
  failed_or-Phase {ℓ} :
      {A : Type ℓ} (during : String)
      → IsBrake "cancelled"
      → (turn : ℕ) (st : LoopState G S) (called : S × Result String A) {flags : List Bool}
        (Q : S × A → Type 0)
      → IsOpen flags st.log
      → ((value : A) → Q (called.0, value))
      → Phase flags turn Q (failed_or env backend options during turn st called)
  unfolding finish_loop_early
  failed_or-Phase during b turn st (s, result) {flags} Q h k =
      if_cases (Phase flags turn Q) (env.cancels st.world)
        (λ _. early-Braked _ st.log "cancelled" turn during h b)
        (λ _. elim (Result-cases result) [
          | inl (reason, e) ↦
              rw e (early-Braked _ st.log _ turn reason h (error_outcome-IsBrake reason))
          | inr (value, e) ↦ rw e (k value)
        ])

  at_world-Phase {ℓ} :
      {A : Type ℓ} (turn : ℕ) (st : LoopState G S) (s : S) (step : Step G S (S × A))
      {flags : List Bool}
      → IsOpen flags st.log
      → Phase flags turn (λ _. Unit {0}) step
      → Phase flags turn
          (Keeps flags st)
          (at_world env backend options (record st { world = s }) step)
  at_world-Phase turn st s (ends e) h k = k
  at_world-Phase turn st s (goes_on (after, _)) h k = Keeps-world st after h

  pub work-Phase :
      (turn : ℕ) (st : LoopState G S) {flags : List Bool}
      → IsOpen flags st.log
      → Phase flags turn (Keeps flags st) (work env backend options turn st)
  unfolding work
  work-Phase turn st {flags} h =
      let recalled = recall_of env backend options st.world in
      let assembled =
        assemble_goal_packet backend recalled.0 options.goal st.last_check recalled.1 in
      let at : LoopState G S = record st { world = assembled.0 } in
      let budget = remaining_wall_budget (env.elapsed assembled.0) options.max_wall in
      if_cases (Phase flags turn (Keeps flags st)) options.poll (λ _. Keeps-world st _ h)
        (λ _. elim (Option-cases options.worker_cmd) [
          | inl e ↦ rw e (Keeps-world st _ h)
          | inr (cmd, e) ↦ rw e (
              at_world-Phase turn st assembled.0 _ h (
                failed_or-Phase "cancelled during worker execution"
                  (brake "cancelled" refl refl refl) turn at
                  (env.run_worker assembled.0 cmd
                    (worker_env assembled.1 recalled.1 options.goal options.run_id turn
                      st.last_failure_reason)
                    budget)
                  (λ _. Unit {0}) h (λ _. tt)))
        ])

  pub verify_turn-Phase :
      (turn : ℕ) (st : LoopState G S) {flags : List Bool}
      → IsOpen flags st.log
      → Phase flags turn (λ _. Unit {0}) (verify_turn env backend options turn st)
  unfolding verify_turn
  verify_turn-Phase turn st {flags} h =
      let s =
        env.set_anchor st.world
          (join "" ("loop turn " ∷ decimal turn ∷ ": " ∷ action_of options.worker_cmd ∷ []))
          (String.◌++◌ "verify goal: " options.goal) in
      failed_or-Phase "cancelled during goal verification" (brake "cancelled" refl refl refl) turn
        (record st { world = s })
        (env.verify_goal s options.goal (remaining_wall_budget (env.elapsed s) options.max_wall))
        (λ _. Unit {0}) h (λ _. tt)
