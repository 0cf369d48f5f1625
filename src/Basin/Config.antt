-- ===== src/Basin/Config.antt =====
-- The configuration, the state and the events of the orchestrator: crates/basin/src/lib.rs, with the
-- modes and quotas of crates/artesian-core/src. A map whose missing keys read as 0 is a function. The
-- counters stay far below 2^64; the time of an event and its protocol's version are left out.
use Prim.Native.String
use artesian.Base.{
  ℕ, ◌+◌, ◌*◌, ◌^◌, ◌%◌, String, Bool, true, false, not, Option, none, some, List, [], ◌∷◌, ◌++◌,
  ltb, leb, str_eq, if◌then◌else◌,
}
use artesian.Base.Texts.{decimal}
use artesian.Headrace.Store.{TaskError, Role}

pub data Mode : Type 0 where
  memory orchestrate full advanced : Mode

pub record ResourceQuota : Type 0 where
  pub agent_id : Option String
  pub user_id : Option String
  pub max_prompt_tokens : Option ℕ
  pub max_requests_per_minute : Option ℕ

pub record OrchestratorConfig : Type 0 where
  pub mode : Mode
  pub concurrency_limit : ℕ
  pub max_retries : ℕ
  pub retry_backoff : ℕ
  pub memory_limit : ℕ
  pub quotas : List ResourceQuota

pub data OrchestratorError : Type 0 where
  disabled : Mode → OrchestratorError
  task_failed : TaskError → OrchestratorError
  memory_failed workspace_failed agent_failed : String → OrchestratorError

pub data EventType : Type 0 where
  task_announced task_claimed result verdict blocked_event status error : EventType

-- The payload of an event, by the keys that are written.
pub data Payload : Type 0 where
  quota_exhausted : (task_id : String) → Payload
  announced : (task_id : String) (title : String) → Payload
  claimed_payload : (task_id : String) (claimed_by : Option String) → Payload
  stalled : (doing : List String) → Payload
  content_payload : (task_id : String) (content : String) → Payload
  passed_payload : (task_id : String) → Payload
  failed_payload : (task_id : String) (reason : String) → Payload
  blocked_payload : (task_id : String) (reason : String) → Payload
  error_payload : OrchestratorError → Payload

pub record EventEnvelope : Type 0 where
  pub id : String
  pub correlation_id : String
  pub role : Role
  pub agent_id : String
  pub event_type : EventType
  pub payload : Payload

pub record TokenAccounting : Type 0 where
  pub agent_id : String
  pub session_id : Option String
  pub prompt_tokens : ℕ
  pub completion_tokens : ℕ

pub record CompletedJob : Type 0 where
  pub id : String
  pub title : String
  pub role : Role

pub record RunLog : Type 0 where
  pub events : List EventEnvelope
  pub token_accounting : List TokenAccounting
  pub completed : List CompletedJob

pub record LoopState : Type 0 where
  pub retries : String → ℕ
  pub prompt_usage : String → ℕ
  pub request_counts : String → ℕ
  pub event_counter : ℕ

pub record ReconcileReport : Type 0 where
  pub dispatched : ℕ
  pub completed : ℕ
  pub blocked : ℕ
  pub idle : Bool

pub record RunUntilIdleReport : Type 0 where
  pub ticks : ℕ
  pub completed : ℕ
  pub blocked : ℕ

-- What the orchestrator keeps from tick to tick.
pub record Kept : Type 0 where
  pub run_log : RunLog
  pub state : LoopState

abbrev pub set_key : (String → ℕ) → String → ℕ → String → ℕ
set_key counts key n k = if str_eq key k then n else counts k

unfoldable pub push_event : Kept → String → Role → String → EventType → Payload → Kept
push_event kept correlation_id role agent_id event_type payload =
    let n = kept.state.event_counter + 1 in
    let event : EventEnvelope = record {
      id = String.◌++◌ "evt-" (decimal n);
      correlation_id = correlation_id;
      role = role;
      agent_id = agent_id;
      event_type = event_type;
      payload = payload;
    } in
    record {
      run_log = record kept.run_log { events = kept.run_log.events ++ event ∷ [] };
      state = record kept.state { event_counter = n };
    }

-- The quota is for another agent.
abbrev pub is_for_other : Option String → String → Bool
is_for_other none agent_id = false
is_for_other (some quota_agent) agent_id = not (str_eq quota_agent agent_id)

abbrev pub above : Option ℕ → ℕ → Bool
above none n = false
above (some max) n = ltb max n

abbrev pub reached : Option ℕ → ℕ → Bool
reached none n = false
reached (some max) n = leb max n

unfoldable pub quota_allows : LoopState → List ResourceQuota → String → ℕ → Bool
quota_allows state [] agent_id prompt_tokens = true
quota_allows state (quota ∷ quotas) agent_id prompt_tokens =
    let rest = quota_allows state quotas agent_id prompt_tokens in
    if is_for_other quota.agent_id agent_id
    then rest
    else if above quota.max_prompt_tokens (state.prompt_usage agent_id + prompt_tokens)
    then false
    else if reached quota.max_requests_per_minute (state.request_counts agent_id)
    then false
    else rest

unfoldable pub record_request : LoopState → String → ℕ → LoopState
record_request state agent_id prompt_tokens = record state {
  prompt_usage = set_key state.prompt_usage agent_id (state.prompt_usage agent_id + prompt_tokens);
  request_counts = set_key state.request_counts agent_id (state.request_counts agent_id + 1);
}

-- `Duration::MAX` in nanoseconds, the unit of a backoff, and `Duration::saturating_mul`.
abbrev pub duration_max : ℕ
duration_max = 18446744073709551615999999999

abbrev pub saturating_mul : ℕ → ℕ → ℕ
saturating_mul duration factor =
    if ltb duration_max (duration * factor) then duration_max else duration * factor

-- `saturating_pow` of a `u32`.
abbrev pub backoff_factor : ℕ → ℕ
backoff_factor retries = if ltb (2 ^ retries) 4294967296 then 2 ^ retries else 4294967295

-- Whether to retry, and how long the loop sleeps first, if at all. The cast of the retries to `u32` wraps.
unfoldable pub should_retry : OrchestratorConfig → LoopState → String → LoopState × (Bool × ℕ)
should_retry config state task_id =
    let retries = state.retries task_id in
    if ltb retries config.max_retries
    then (
      record state { retries = set_key state.retries task_id (retries + 1) },
      (true, saturating_mul config.retry_backoff (backoff_factor (retries % 4294967296))),
    )
    else (state, (false, 0))
