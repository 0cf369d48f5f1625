-- ===== src/Flume/Delegation.antt =====
-- What a worker is asked to do: `Delegation`, its builders, and the errors of a team, of
-- crates/flume/src/lib.rs; `AgentBinding` is that of crates/artesian-core/src/config.rs.
use artesian.Base.{ℕ, String, Option, none, some, List, [], ◌∷◌, if◌then◌else◌}
use artesian.Base.Texts.{is_empty, join}
use artesian.Headrace.Store.{Role, TaskError}
use artesian.Flume.Envelope.{BudgetEnvelope, LaneBudget, envelope_of}

pub record AgentBinding : Type 0 where
  pub role : Role
  pub agent : String
  pub model : Option String
  pub command : Option String
  pub args : List String
  pub timeout_seconds : Option ℕ

pub record DelegationSessionContext : Type 0 where
  pub user_id : Option String
  pub session_id : Option String
  pub task_id : Option String

pub record Delegation (C : Type 0) : Type 0 where
  pub binding : AgentBinding
  pub instruction : String
  pub resume_packet : Option String
  pub allowed_tools : List String
  pub session_context : Option DelegationSessionContext
  pub budget : Option (BudgetEnvelope C)

pub record RoleDefinition : Type 0 where
  pub name : String
  pub kind : Role
  pub description : String
  pub agent : Option String
  pub model : Option String
  pub allow_tools : List String
  pub prompt_addendum : String

pub data FlumeError : Type 0 where
  io yaml invalid_definition team_not_found teammate_not_found task_not_found : String → FlumeError
  plan_approval_required agent_error lane_duplicate lane_budget receipt_refused :
      String → FlumeError
  admission_paused : (name : String) (reason : String) → FlumeError
  task_error : TaskError → FlumeError

module _ {C : Type 0} where
  -- `Delegation::new`.
  abbrev pub new_delegation : AgentBinding → String → Delegation C
  new_delegation binding instruction = record {
    binding = binding;
    instruction = instruction;
    resume_packet = none;
    allowed_tools = [];
    session_context = none;
    budget = none;
  }

  abbrev pub with_resume_packet : Delegation C → String → Delegation C
  with_resume_packet d packet = record d { resume_packet = some packet }

  abbrev pub with_budget : Delegation C → BudgetEnvelope C → Delegation C
  with_budget d budget = record d { budget = some budget }

  abbrev pub with_lane_budget : Delegation C → LaneBudget → Delegation C
  with_lane_budget d limits = record d { budget = some (envelope_of limits) }

  -- `Delegation::from_definition`.
  abbrev pub from_definition : RoleDefinition → AgentBinding → String → Delegation C
  from_definition definition binding task_content = record {
    binding = binding;
    instruction =
        if is_empty definition.prompt_addendum
        then task_content
        else join "" (definition.prompt_addendum ∷ "\n\n" ∷ task_content ∷ []);
    resume_packet = none;
    allowed_tools = definition.allow_tools;
    session_context = none;
    budget = none;
  }
