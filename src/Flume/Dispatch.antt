-- ===== src/Flume/Dispatch.antt =====
-- The dispatch of a delegation to a worker's process, with its receipts:
-- execute_delegation_via_process of crates/flume/src/lib.rs and the writer of
-- crates/flume/src/receipts.rs. The processes and the file system are an interface.
pub mod Recorded
use artesian.Base.{
  ℕ, suc, ◌+◌, ◌-◌, ◌*◌, ◌^◌, String, Bool, true, false, Option, none, some, List, [], ◌∷◌, ◌++◌,
  ltb, if◌then◌else◌,
}
use artesian.Base.Results.{Result, ok, err}
use artesian.Base.Texts.{join}
use artesian.Headgate.Text.{TextOps, count_tokens}
use artesian.Headgate.Gate.Default.{text_contains}
use artesian.Headrace.Store.{Role}
use artesian.Basin.Worker.{canonical_alias}
use artesian.Flume.Envelope.{BudgetEnvelope, default_envelope}
use artesian.Flume.Redact.{redact_secrets}
use artesian.Flume.Delegation.{AgentBinding, Delegation, FlumeError, receipt_refused, agent_error}
use artesian.Flume.Receipts.{
  StopReason, done, budget_time, error, SpawnReceipt, ReturnReceipt, ReceiptsConfig, ReceiptWriter,
  Distilled, receipts_from_env, check_admission, task_boundary_from_instruction, sanitize_run_label,
  receipt_id_of,
}

pub record SpawnRequest : Type 0 where
  pub role : Role
  pub agent : String
  pub model : Option String
  pub working_dir : Option String
  pub resume_packet : Option String

-- What a process reports, `WorkerEvent`, and the event that a team keeps of it.
pub record WorkerEvent : Type 0 where
  pub kind : String
  pub text : String
  pub raw : String

pub record TeamWorkerEvent : Type 0 where
  pub team_id : String
  pub teammate : String
  pub kind : String
  pub text : String
  pub raw : String

pub record TeamExecution : Type 0 where
  pub response : String
  pub events : List TeamWorkerEvent

-- The process agent, the clock and the file system. `N` is the kind of a native subagent, `A` a
-- session. `open_receipts` creates the directory and reads the file, `append_line` writes a line.
pub record Processes (N A S : Type 0) : Type 0 where
  pub spawn : S → Option N → SpawnRequest → S × Result String A
  pub send : S → A → String → S × List WorkerEvent × Result String String
  pub open_receipts : S → S × Result String (Unit {0})
  pub append_line : S → S × Result String (Unit {0})
  pub write_trace : S → String → List TeamWorkerEvent → S × Option String
  pub now : S → ℕ
  pub elapsed : S → ℕ

-- What a dispatch does that others see, in its order.
pub data Act (C : Type 0) : Type 0 where
  wrote_spawn : SpawnReceipt C → Act C
  started : SpawnRequest → Act C
  wrote_return : ReturnReceipt C → Act C

-- The world, the lines of the receipts file, its counter where this process has opened it, and the
-- acts so far.
pub record Registry (C S : Type 0) : Type 0 where
  pub world : S
  pub lines : ℕ
  pub seq : Option ℕ
  pub acts : List (Act C)

abbrev pub or_lines : Option ℕ → ℕ → ℕ
or_lines none n = n
or_lines (some m) n = m

unfoldable pub classify_stop_reason : String → StopReason
unfolding text_contains
classify_stop_reason message = if text_contains message "timed out" then budget_time else error

-- `u64::saturating_mul` by 1000.
abbrev pub saturating_millis : ℕ → ℕ
saturating_millis seconds = if ltb (2 ^ 64 - 1) (seconds * 1000) then 2 ^ 64 - 1 else seconds * 1000

abbrev pub millis_of : Option ℕ → Option ℕ
millis_of none = none
millis_of (some seconds) = some (saturating_millis seconds)

abbrev pub first_budget :
    {C : Type 0} → Option (BudgetEnvelope C) → Option (BudgetEnvelope C) → BudgetEnvelope C
first_budget (some budget) fallback = budget
first_budget none (some fallback) = fallback
first_budget none none = default_envelope

unfoldable pub resolve_receipt_budget :
    {C : Type 0} → Delegation C → ReceiptsConfig C → BudgetEnvelope C
resolve_receipt_budget d config =
    let budget = first_budget d.budget config.default_budget in
    elim budget.max_wall_time_ms [
      | none ↦ record budget { max_wall_time_ms = millis_of d.binding.timeout_seconds }
      | some ms ↦ budget
    ]

-- `push_worker_event`.
abbrev pub team_events : String → String → List WorkerEvent → List TeamWorkerEvent
team_events team_id teammate [] = []
team_events team_id teammate (e ∷ rest) =
    record {
      team_id = team_id;
      teammate = teammate;
      kind = e.kind;
      text = redact_secrets e.text;
      raw = redact_secrets e.raw;
    }
    ∷ team_events team_id teammate rest

abbrev pub distilled_of : ⦃t : TextOps⦄ → Option String → Option Distilled
distilled_of none = none
distilled_of ⦃t⦄ (some text) = some record { tokens = some (count_tokens text); reference = none }

abbrev pub refused : String → String → String → FlumeError
refused team_id teammate why =
    receipt_refused (join "" ("team '" ∷ team_id ∷ "' teammate '" ∷ teammate ∷ "': " ∷ why ∷ []))

abbrev pub request_of : {C : Type 0} → Delegation C → String → SpawnRequest
request_of d repo_root = record {
  role = d.binding.role;
  agent = d.binding.agent;
  model = d.binding.model;
  working_dir = some repo_root;
  resume_packet = d.resume_packet;
}

module _ {C N A S : Type 0} ⦃t : TextOps⦄ (p : Processes N A S) where
  -- `ReceiptWriter::open`: a file that this process has not opened goes on from its lines.
  unfoldable pub open_writer :
      Registry C S → String → Bool → Registry C S × Result String ReceiptWriter
  unfolding sanitize_run_label
  open_writer reg run fsync =
      let (world, opened) = p.open_receipts reg.world in
      elim opened [
        | err e ↦ (record reg { world = world }, err e)
        | ok _ ↦ (
          record reg { world = world; seq = some (or_lines reg.seq reg.lines) },
          ok record { run = sanitize_run_label run; fsync = fsync },
        )
      ]

  abbrev pub next_receipt_id : Registry C S → ReceiptWriter → Registry C S × String
  next_receipt_id reg writer =
      let seq = suc (or_lines reg.seq 0) in
      (record reg { seq = some seq }, receipt_id_of writer seq)

  -- `append_line`: one more line, and the act that it stands for, where it is written.
  unfoldable pub append : Registry C S → Act C → Registry C S × Result String (Unit {0})
  append reg act =
      let (world, written) = p.append_line reg.world in
      elim written [
        | err e ↦ (record reg { world = world }, err e)
        | ok _ ↦ (
          record reg { world = world; lines = reg.lines + 1; acts = reg.acts ++ act ∷ [] },
          ok tt,
        )
      ]

  abbrev pub return_receipt_of :
      Registry C S
      → ReceiptWriter
      → SpawnReceipt C
      → StopReason
      → Option String
      → List TeamWorkerEvent
      → Registry C S × ReturnReceipt C
  return_receipt_of reg writer spawn_receipt reason source events =
      let (reg, receipt_id) = next_receipt_id reg writer in
      let (world, trace_ref) = p.write_trace reg.world receipt_id events in
      (
        record reg { world = world },
        record {
          kind = "return";
          receipt_id = receipt_id;
          ts = p.now world;
          spawn_ref = spawn_receipt.receipt_id;
          stop_reason = reason;
          consumed = record {
            tokens = none;
            tool_calls = none;
            wall_time_ms = some (p.elapsed world);
            cost_usd = none;
          };
          distilled = distilled_of source;
          trace_ref = trace_ref;
          gate = none;
        },
      )

  unfoldable pub write_return_receipt :
      Registry C S
      → Option ReceiptWriter
      → Option (SpawnReceipt C)
      → StopReason
      → Option String
      → List TeamWorkerEvent
      → Registry C S
  unfolding append
  write_return_receipt reg none spawn_receipt reason source events = reg
  write_return_receipt reg (some writer) none reason source events = reg
  write_return_receipt reg (some writer) (some spawn_receipt) reason source events =
      let (reg, receipt) = return_receipt_of reg writer spawn_receipt reason source events in
      (append reg (wrote_return receipt)).0

  -- The worker's answer, behind its events.
  abbrev pub receive :
      Registry C S
      → Option ReceiptWriter
      → Option (SpawnReceipt C)
      → List TeamWorkerEvent
      → Result String String
      → Registry C S × Result FlumeError TeamExecution
  receive reg writer receipt events (err e) = (
    write_return_receipt reg writer receipt (classify_stop_reason e) none events,
    err (agent_error e),
  )
  receive reg writer receipt events (ok content) = (
    write_return_receipt reg writer receipt done (some content) events,
    ok record { response = redact_secrets content; events = events },
  )

  -- The process starts, with a session or an error.
  abbrev pub start_worker : Registry C S → Option N → SpawnRequest → Registry C S × Result String A
  start_worker reg native request =
      let (world, session) = p.spawn reg.world native request in
      (record reg { world = world; acts = reg.acts ++ started request ∷ [] }, session)

  -- From there on.
  unfoldable pub answer :
      Registry C S × Result String A
      → String
      → String
      → String
      → Option ReceiptWriter
      → Option (SpawnReceipt C)
      → Registry C S × Result FlumeError TeamExecution
  unfolding write_return_receipt classify_stop_reason redact_secrets
  answer (reg, err e) instruction team_id teammate writer receipt = (
    write_return_receipt reg writer receipt (classify_stop_reason e) none [],
    err (agent_error e),
  )
  answer (reg, ok session) instruction team_id teammate writer receipt =
      let (world, events, response) = p.send reg.world session instruction in
      receive (record reg { world = world }) writer receipt (team_events team_id teammate events)
        response

  unfoldable pub run_worker :
      Registry C S
      → Option N
      → Delegation C
      → String
      → String
      → String
      → Option ReceiptWriter
      → Option (SpawnReceipt C)
      → Registry C S × Result FlumeError TeamExecution
  unfolding answer
  run_worker reg native d repo_root team_id teammate writer receipt =
      answer (start_worker reg native (request_of d repo_root)) d.instruction team_id teammate
        writer receipt

  -- The spawn receipt, which is written before the worker starts.
  abbrev pub spawn_receipt_of :
      Registry C S → ReceiptWriter → Delegation C → BudgetEnvelope C → Registry C S × SpawnReceipt C
  spawn_receipt_of reg writer d budget =
      let (reg, receipt_id) = next_receipt_id reg writer in
      (
        reg,
        record {
          kind = "spawn";
          receipt_id = receipt_id;
          ts = p.now reg.world;
          parent = "root";
          role = some (canonical_alias d.binding.role);
          harness = some d.binding.agent;
          model = d.binding.model;
          task_boundary = task_boundary_from_instruction d.instruction;
          budget = budget;
          tool_allowlist = d.allowed_tools;
          schema_hash = none;
        },
      )

  -- The worker runs with its receipt, or without one where nothing is enforced.
  abbrev pub after_spawn_receipt :
      Option N
      → Delegation C
      → String
      → String
      → String
      → Bool
      → ReceiptWriter
      → SpawnReceipt C
      → Registry C S × Result String (Unit {0})
      → Registry C S × Result FlumeError TeamExecution
  after_spawn_receipt native d repo_root team_id teammate fail_closed writer receipt (reg, err e) =
      if fail_closed
      then (
        reg,
        err (refused team_id teammate (join "" ("failed to write spawn receipt: " ∷ e ∷ []))),
      )
      else run_worker reg native d repo_root team_id teammate (some writer) none
  after_spawn_receipt native d repo_root team_id teammate fail_closed writer receipt (reg, ok _) =
      run_worker reg native d repo_root team_id teammate (some writer) (some receipt)

  abbrev pub after_open :
      Option N
      → Delegation C
      → String
      → String
      → String
      → Bool
      → BudgetEnvelope C
      → Registry C S × Result String ReceiptWriter
      → Registry C S × Result FlumeError TeamExecution
  after_open native d repo_root team_id teammate fail_closed budget (reg, err e) =
      if fail_closed
      then (reg, err (refused team_id teammate (join "" ("receipts.jsonl unavailable: " ∷ e ∷ []))))
      else run_worker reg native d repo_root team_id teammate none none
  after_open native d repo_root team_id teammate fail_closed budget (reg, ok writer) =
      let (reg, receipt) = spawn_receipt_of reg writer d budget in
      after_spawn_receipt native d repo_root team_id teammate fail_closed writer receipt
        (append reg (wrote_spawn receipt))

  -- `env` is the variable that asks to fail closed.
  unfoldable pub execute_delegation_via_process :
      Registry C S
      → Option String
      → Option N
      → Delegation C
      → String
      → String
      → String
      → Registry C S × Result FlumeError TeamExecution
  unfolding run_worker open_writer append check_admission resolve_receipt_budget
      task_boundary_from_instruction
  execute_delegation_via_process reg env native d repo_root team_id teammate =
      let config : ReceiptsConfig C = receipts_from_env env in
      let budget = resolve_receipt_budget d config in
      elim (check_admission budget config.fail_closed) [
        | err reason ↦ (reg, err (refused team_id teammate reason))
        | ok _ ↦
            after_open native d repo_root team_id teammate config.fail_closed budget
              (open_writer reg team_id config.fsync)
      ]
