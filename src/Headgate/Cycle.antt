-- ===== src/Headgate/Cycle.antt =====
-- What the commit-loop controller of crates/headgate/src/controller.rs works on: its trait
-- objects, its configuration, its counts, and the state of a cycle.
use artesian.Base.{ℕ, String, Bool, Option, List}
use artesian.Base.Results.{Result}
use artesian.Headgate.Ccs.{CommittedContextState}
use artesian.Headgate.Gate.{RecallItem, JudgeTokenCost, QualifyDecision}

-- The `HeadgateError` of crates/headgate/src/lib.rs.
pub data HeadgateError : Type 0 where
  recall_error compress_error llm_error memory_error : String → HeadgateError

-- The trait objects. A gate or a compressor may consult a model, so each call has its number.
abbrev pub RecallStore : Type 0 → Type 0
RecallStore F = String → ℕ → Result HeadgateError (List (RecallItem F))

abbrev pub QualifyGate : Type 0 → Type 0
QualifyGate F = ℕ → RecallItem F → CommittedContextState F → QualifyDecision F

abbrev pub Compressor : Type 0
Compressor = ℕ → String → ℕ → Result HeadgateError String

-- The `JudgeTierConfig` of crates/headgate/src/tier.rs.
pub record JudgeTierConfig (F : Type 0) : Type 0 where
  pub cheap_judge : Option String
  pub frontier_judge : Option String
  pub frontier_stakes_threshold : F
  pub default_stakes : F

pub record HeadgateConfig (F : Type 0) : Type 0 where
  pub budget_tokens : ℕ
  pub recall_limit : ℕ
  pub min_score : F
  pub redundancy_threshold : F
  pub compress_on_saturation : Bool
  pub judge_tiering : Option (JudgeTierConfig F)

-- A call of `record_savings` for `qualify.reject`: what it is told.
pub record SavingsEntry : Type 0 where
  pub operation : String
  pub collection : String
  pub returned_tokens : ℕ
  pub baseline_tokens : ℕ
  pub session_id : Option String
  pub judge_costs : List JudgeTokenCost

-- The metrics of crates/headgate/src/metrics.rs.
pub record GaugeMetrics : Type 0 where
  pub candidates : ℕ
  pub admitted : ℕ
  pub rejected_relevance : ℕ
  pub rejected_redundant : ℕ
  pub rejected_saturated : ℕ
  pub compressed : ℕ
  pub evicted : ℕ
  pub footprint_tokens : ℕ
  pub budget_tokens : ℕ

pub record Headgate (F : Type 0) : Type 0 where
  pub recall : RecallStore F
  pub gate : QualifyGate F
  pub compressor : Compressor
  pub clock : ℕ → ℕ
  pub ccs : CommittedContextState F
  pub config : HeadgateConfig F
  pub savings_collection : String
  pub track_savings : Bool
  pub savings_session_id : Option String
  pub savings : List SavingsEntry

-- What one cycle changes.
pub record CycleState (F : Type 0) : Type 0 where
  pub ccs : CommittedContextState F
  pub metrics : GaugeMetrics
  pub savings : List SavingsEntry

abbrev pub start_metrics : ℕ → ℕ → GaugeMetrics
start_metrics candidates budget = record {
  candidates = candidates;
  admitted = 0;
  rejected_relevance = 0;
  rejected_redundant = 0;
  rejected_saturated = 0;
  compressed = 0;
  evicted = 0;
  footprint_tokens = 0;
  budget_tokens = budget;
}
