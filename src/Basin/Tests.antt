-- ===== src/Basin/Tests.antt =====
-- The orchestration loop at concrete inputs: the world is the list of the tasks that are done, a
-- worker answers with its prompt, and two tasks wait.
use Prim.Native.String.{String}
use artesian.Base.{
  ℕ, ◌≤◌, All, ◌≡◌, refl, false, none, some, List, [], ◌∷◌, ◌++◌, any, all, filter, find, str_eq,
  not, arith, inr, if◌then◌else◌,
}
use artesian.Base.Texts.{split_whitespace, join, take_chars, read_words, in_base, decimal}
use artesian.Base.Results.{Result, ok, err, OnOk}
use artesian.Headrace.Store.{Task, worker, todo, primitive, is_dispatch_eligible, is_finished}
use artesian.Headrace.Verifier.{verify}
use artesian.Basin.Config.{
  orchestrate, OrchestratorConfig, OrchestratorError, agent_failed, ReconcileReport,
  RunUntilIdleReport, push_event, quota_allows, record_request, should_retry,
}
use artesian.Basin.Worker.{
  Services, DispatchOutcome, failed, first_line, starts_ignoring_case, contains_ignoring_case,
  rejects, estimate_tokens, estimate_task_prompt_tokens, assemble_worker_prompt, result_memory,
  review, settle_response, dispatch_task,
}
use artesian.Basin.Claiming.{
  TaskStore, Point, insert_by_creation, sort_by_creation, eligible_tasks, claim_step, claim_tasks,
}
use artesian.Basin.Settling.{
  settle_passed, put_back, block, settle_failed, settle_outcome, settle_outcomes,
}
use artesian.Basin.Settling.Soundness.{IsSound}
use artesian.Basin.Settling.Accounts.{ended_by, settle_outcomes-stops}
use artesian.Basin.Orchestrator.{idle_tick, dispatch_all, run_claimed, run_once, run_until_idle}
use artesian.Basin.Orchestrator.Budgets.{WithinRequests, run_until_idle-claims}
use artesian.Basin.Claiming.Requests.{count_claims}
use artesian.Basin.Orchestrator.Ticks.{Reported, Summed, run_once-Reported, run_until_idle-Summed}

program : Unit {0}
unfolding any all filter find split_whitespace join take_chars read_words in_base decimal
    is_dispatch_eligible is_finished verify push_event quota_allows record_request should_retry
    first_line starts_ignoring_case contains_ignoring_case rejects estimate_tokens
    estimate_task_prompt_tokens assemble_worker_prompt result_memory review settle_response
    dispatch_task insert_by_creation sort_by_creation eligible_tasks claim_step claim_tasks
    settle_passed put_back block settle_failed settle_outcome settle_outcomes idle_tick dispatch_all
    run_claimed run_once run_until_idle
program = tt

abbrev task_at : String → ℕ → Task ℕ
task_at id time = record {
  id = id;
  title = "two words";
  description = "";
  role = worker;
  status = todo;
  kind = primitive;
  blockers = [];
  children = [];
  claimed_by = none;
  verifier_names = [];
  created_at = time;
  updated_at = time;
  extra = [];
}

abbrev waiting : List (Task ℕ)
waiting = task_at "late" 2 ∷ task_at "early" 1 ∷ []

abbrev lookup_task : String → Task ℕ
lookup_task id = if str_eq id "early" then task_at "early" 1 else task_at "late" 2

-- A task that has left is one with a transition.
abbrev store : TaskStore (List String) ℕ
store = record {
  list = λ gone. ok (filter (λ task. not (any (str_eq task.id) gone)) waiting);
  claim = λ gone request. elim request.task_id [
    | none ↦ (gone, ok none)
    | some id ↦ (gone, ok (some (lookup_task id)))
  ];
  transition = λ gone move. (move.id ∷ gone, ok (lookup_task move.id));
  sleep = λ gone _. gone;
}

abbrev services : Services ℕ (List String) ℕ
services = record {
  memory = record { find = λ s _. (s, ok []); store = λ s _. (s, ok tt) };
  workspaces = record { lease = λ s id. (s, ok id); cleanup = λ s _. (s, ok tt) };
  worker_agent = record { spawn = λ s _ _. (s, ok "session"); send = λ s _ _. (s, ok "done") };
  judge_agent = none;
  verifiers = [];
  show_error = λ _. "error";
}

abbrev config : OrchestratorConfig
config = record {
  mode = orchestrate;
  concurrency_limit = 1;
  max_retries = 1;
  retry_backoff = 0;
  memory_limit = 5;
  quotas =
      record {
        agent_id = some "worker";
        user_id = none;
        max_prompt_tokens = none;
        max_requests_per_minute = some 1;
      }
      ∷ [];
}

abbrev start : Point (List String)
start = record {
  kept = record {
    run_log = record { events = []; token_accounting = []; completed = [] };
    state = record {
      retries = λ _. 0;
      prompt_usage = λ _. 0;
      request_counts = λ _. 0;
      event_counter = 0;
    };
  };
  world = [];
}

abbrev no_report : RunUntilIdleReport
no_report = record { ticks = 0; completed = 0; blocked = 0 }

-- The quota of one request a minute leaves the other task undone, however many ticks run.
one_task_done : (run_until_idle services store config 4 start no_report).0.world ≡ "early" ∷ []
unfolding program
one_task_done = refl

-- A new orchestrator is in a sound state.
start-IsSound : IsSound config start
unfolding count_claims
start-IsSound = record {
  within = (inr (refl, refl), tt);
  claimed = refl;
  retried = λ _. omega arith;
}

run_until_idle-claims_example :
    let kept = (run_until_idle services store config 4 start no_report).0.kept in
    All (WithinRequests (count_claims kept.run_log.events)) config.quotas
    × ((id : String) → kept.state.retries id ≤ 1)
run_until_idle-claims_example =
    run_until_idle-claims services store config 4 start no_report start-IsSound

-- The one claim that the quota of one request leaves.
one_claim :
    count_claims (run_until_idle services store config 4 start no_report).0.kept.run_log.events ≡ 1
unfolding program count_claims
one_claim = refl

run_once-Reported_example :
    OnOk
      (Reported services store config start (run_once services store config start).0)
      (run_once services store config start).1
run_once-Reported_example = run_once-Reported services store config start

run_until_idle-Summed_example :
    OnOk
      (Summed services store config 4 no_report start
        (run_until_idle services store config 4 start no_report).0)
      (run_until_idle services store config 4 start no_report).1
run_until_idle-Summed_example = run_until_idle-Summed services store config 4 start no_report

abbrev lost : List (Result OrchestratorError (DispatchOutcome ℕ))
lost = ok (failed (task_at "late" 2) "no") ∷ []

abbrev first_report : ReconcileReport
first_report = record { dispatched = 2; completed = 0; blocked = 0; idle = false }

settle_outcomes-stops_example :
    settle_outcomes store config (lost ++ err (agent_failed "gone") ∷ lost) start first_report
    ≡ ended_by store config
        (agent_failed "gone")
        (settle_outcomes store config lost start first_report)
settle_outcomes-stops_example =
    settle_outcomes-stops store config lost lost (agent_failed "gone") start first_report
