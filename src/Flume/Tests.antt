-- ===== src/Flume/Tests.antt =====
-- The loop at concrete inputs: the world is the number of calls of the verifier, which passes at a
-- given one; scores are numbers, and the words of a text are the text.
use Prim.Native.String.{count}
use artesian.Base.{
  ℕ, ◌+◌, ◌-◌, ◌*◌, ◌/◌, ◌≡◌, refl, String, true, false, none, some, [], ◌∷◌, any, find, ltb, leb,
  ◌==◌, arith, if◌then◌else◌, inr,
}
use artesian.Base.Floats.{Float}
use artesian.Base.Texts.{split_whitespace, join, take_chars, read_words, in_base, decimal}
use artesian.Base.Results.{ok, err}
use artesian.Headgate.Text.{TextOps}
use artesian.Headgate.Gate.Default.{text_contains}
use artesian.Flume.Quota.{quota_threshold_events, checkpoint_event}
use artesian.Flume.Run.{
  LoopRunOptions, compact_inline, remaining_wall_budget, wall_cap_message, error_outcome,
  finish_loop_early, finish_loop_escalation, escalation_reason, compact_trail,
}
use artesian.Flume.Packet.{Backend, assemble_goal_packet_scoped}
use artesian.Flume.State.{
  Environment, LoopState, worker_env, directive_of, warn_windows, record_verdict, ends, goes_on,
}
use artesian.Flume.Loop.{
  check_brakes, checkpoint_run, check_quota, work, verify_turn, conclude, run_turn, run_turns,
  run_loop_core, start_state,
}
use artesian.Flume.Loop.Phases.{Ends}
use artesian.Flume.Loop.Verdicts.{UnderBudget, Progress, LoopOutcome}
use artesian.Flume.Loop.Outcomes.{run_turn-Progress, run_loop_core-LoopOutcome}
use artesian.Flume.Loop.Reports.{IsWithin, run_loop_core-IsWithin}

instance abbrev count_float : Float ℕ
count_float = record {
  lt = ltb;
  le = leb;
  is_nan = λ _. false;
  zero = 0;
  one = 1;
  half = 0;
  epsilon = 0;
  lowest = 0;
  from_usize = λ n. n;
  add = λ a b. a + b;
  sub = λ a b. a - b;
  mul = λ a b. a * b;
  div = λ a b. a / b;
  mul_add = λ a b c. a * b + c;
  abs = λ a. a;
  min = λ a b. if ltb b a then b else a;
  max = λ a b. if ltb a b then b else a;
  show = λ _. "n";
}

instance abbrev whole_text : TextOps
whole_text = record { tokenizer = some count; lowercase = λ s. s; split_words = λ s. s ∷ [] }

program : Unit {0}
unfolding any find split_whitespace join take_chars read_words in_base decimal text_contains
    quota_threshold_events checkpoint_event compact_inline remaining_wall_budget wall_cap_message
    error_outcome finish_loop_early finish_loop_escalation escalation_reason compact_trail
    assemble_goal_packet_scoped worker_env directive_of warn_windows record_verdict check_brakes
    checkpoint_run check_quota work verify_turn conclude run_turn run_turns run_loop_core
program = tt

-- The verifier passes at the call `passes`; a quota of 85 percent is known.
abbrev counting : ℕ → Environment ℕ ℕ
counting passes = record {
  elapsed = λ s. s;
  stop_exists = λ _ _. false;
  is_cancelled = λ _. false;
  cancels = λ _. false;
  interrupt = λ s. s;
  read_quota = λ _. record { agent = "codex"; window = "weekly"; pct = some 85 } ∷ [];
  sleep = λ s _. s;
  run_worker = λ s _ _ _. (s, ok true);
  verify_goal = λ s _ _. (s + 1, ok (s == passes, "two  words"));
  set_anchor = λ s _ _. s;
  write_quota_continuation = λ s _ _ _. (s, err "no anchor");
}

abbrev no_backend : Backend ℕ ℕ
no_backend = record { find = λ s _. (s, err "no memory"); get_node = λ _ _. none; store = λ s _. s }

abbrev options_with : ℕ → LoopRunOptions ℕ
options_with budget = record {
  goal = "make test";
  worker_cmd = some "fix";
  max_turns = 5;
  max_wall = none;
  poll = false;
  learn = true;
  run_id = "loop-1";
  stop_file = "STOP";
  max_remediation_attempts = budget;
  quota = record { warn_pct = 80; high_pct = 95; checkpoint_on_quota = false };
}

abbrev turns_and_outcome : ℕ → ℕ → ℕ × String
turns_and_outcome passes budget =
    elim (run_loop_core {F = ℕ} (counting passes) none (options_with budget) 0).result [
      | err e ↦ (0, e)
      | ok report ↦ (report.turns, report.outcome)
    ]

passes_at_second : turns_and_outcome 2 3 ≡ (2, "success")
unfolding program
passes_at_second = refl

escalates_at_budget : turns_and_outcome 9 3 ≡ (3, "escalated")
unfolding program
escalates_at_budget = refl

runs_all_turns : turns_and_outcome 9 0 ≡ (5, "max-turns")
unfolding program
runs_all_turns = refl

run_loop_core-LoopOutcome_example :
    Ends
      (LoopOutcome (options_with 3))
      (run_loop_core (counting 2) (some no_backend) (options_with 3) 0)
run_loop_core-LoopOutcome_example =
    run_loop_core-LoopOutcome (counting 2) (some no_backend) (options_with 3) 0

run_loop_core-IsWithin_example :
    Ends
      (IsWithin (options_with 3))
      (run_loop_core (counting 9) (some no_backend) (options_with 3) 0)
run_loop_core-IsWithin_example =
    run_loop_core-IsWithin (counting 9) (some no_backend) (options_with 3) 0

-- The state after the first turn of a run without a memory.
abbrev first_state : LoopState ℕ ℕ
first_state = start_state {F = ℕ} (counting 9) none (options_with 3) 1

abbrev second_state : LoopState ℕ ℕ
second_state = elim (run_turn {F = ℕ} (counting 9) none (options_with 3) 1 first_state) [
  | ends _ ↦ first_state
  | goes_on after ↦ after
]

run_turn-Progress_example : Progress 1 second_state × UnderBudget 3 1
unfolding program
run_turn-Progress_example =
    run_turn-Progress {F = ℕ} (counting 9) none (options_with 3) 0 first_state second_state
      (omega arith) (inr (omega arith))
      (record {
        open_log = record { so_far = refl; unsummed = refl };
        count = refl;
        trail = refl;
        directive = refl;
      })
      refl
