-- ===== src/Flume/Envelope.antt =====
-- The budgets that a spawn declares: `BudgetEnvelope` and its `is_empty` of
-- crates/flume/src/receipts.rs, and the budget of a lane of crates/flume/src/lane.rs, which becomes
-- one.
use artesian.Base.{ℕ, Bool, true, false, ◌&&◌, Option, none, some}

-- `Option::is_none`.
abbrev pub is_none : {A : Type 0} → Option A → Bool
is_none none = true
is_none (some a) = false

-- `C` is the type of a cost.
pub record BudgetEnvelope (C : Type 0) : Type 0 where
  pub max_tokens : Option ℕ
  pub max_tool_calls : Option ℕ
  pub max_wall_time_ms : Option ℕ
  pub max_cost_usd : Option C

abbrev pub default_envelope : {C : Type 0} → BudgetEnvelope C
default_envelope = record {
  max_tokens = none;
  max_tool_calls = none;
  max_wall_time_ms = none;
  max_cost_usd = none;
}

abbrev pub declares_none : {C : Type 0} → BudgetEnvelope C → Bool
declares_none budget =
    is_none budget.max_tokens
    && is_none budget.max_tool_calls
    && is_none budget.max_wall_time_ms
    && is_none budget.max_cost_usd

pub record LaneBudget : Type 0 where
  pub max_concurrent_tasks : Option ℕ
  pub max_turns : Option ℕ
  pub token_cap : Option ℕ

abbrev pub unlimited : LaneBudget
unlimited = record { max_concurrent_tasks = none; max_turns = none; token_cap = none }

-- `From<&LaneBudget> for BudgetEnvelope`.
abbrev pub envelope_of : {C : Type 0} → LaneBudget → BudgetEnvelope C
envelope_of budget = record {
  max_tokens = budget.token_cap;
  max_tool_calls = budget.max_turns;
  max_wall_time_ms = none;
  max_cost_usd = none;
}
