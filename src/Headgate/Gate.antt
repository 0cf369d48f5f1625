-- ===== src/Headgate/Gate.antt =====
-- The qualify-gate: crates/headgate/src/gate.rs, the deterministic default gate with its audit, and
-- what the controller sees of any gate (a recall candidate of recall.rs, a decision).
pub mod Audit
pub mod Default
pub mod Routing
pub mod Verdicts
use artesian.Base.{
  ℕ, zero, suc, ◌+◌, String, Bool, true, false, not, Option, none, some, List, [], ◌∷◌, ◌++◌, map,
  length, any, all, filter, ltb, str_eq, ◌==◌, if◌then◌else◌,
}
use artesian.Base.Floats.{Float}
use artesian.Headgate.Text.{TextOps}
use artesian.Headgate.Ccs.{
  CcsSchema, CommittedContextState, schema_contains, default_slot, contains, max_overlap,
}
use Prim.Native.String

pub record RecallItem (F : Type 0) : Type 0 where
  pub id : String
  pub content : String
  pub score : F
  pub source : String

pub data ReasonCode : Type 0 where
  qualified below_relevance_threshold redundant stale_version : ReasonCode
  budget_saturated drift gate_rejected : ReasonCode
  other : String → ReasonCode

unfoldable pub as_str : ReasonCode → String
as_str qualified = "qualified"
as_str below_relevance_threshold = "below_relevance_threshold"
as_str redundant = "redundant"
as_str stale_version = "stale_version"
as_str budget_saturated = "budget_saturated"
as_str drift = "drift"
as_str gate_rejected = "gate_rejected"
as_str (other text) = text

unfoldable pub from_wire : String → ReasonCode
from_wire value =
    if str_eq value "qualified"
    then qualified
    else if str_eq value "below_relevance_threshold"
    then below_relevance_threshold
    else if str_eq value "redundant"
    then redundant
    else if str_eq value "stale_version"
    then stale_version
    else if str_eq value "budget_saturated"
    then budget_saturated
    else if str_eq value "drift"
    then drift
    else if str_eq value "gate_rejected"
    then gate_rejected
    else other value

pub record JudgeTokenCost : Type 0 where
  pub judge : String
  pub prompt_tokens : ℕ
  pub completion_tokens : ℕ
  pub total_tokens : ℕ

pub record QualifySignal (F : Type 0) : Type 0 where
  pub name : String
  pub value : F
  pub threshold : F
  pub passed : Bool
  pub margin : F

pub record QualifyAudit (F : Type 0) : Type 0 where
  pub signals : List (QualifySignal F)
  pub agreement : F
  pub chance_corrected_agreement : Option F
  pub cohen_kappa : Option F
  pub krippendorff_alpha : Option F
  pub chance_corrected_method : Option String
  pub position_bias : Option F
  pub position_bias_threshold : Option F
  pub position_bias_flagged : Option Bool
  pub judge_tier : Option String
  pub judge_costs : List JudgeTokenCost
  pub confidence : F

pub record QualifyDecision (F : Type 0) : Type 0 where
  pub admitted : Bool
  pub reason : String
  pub slot : Option String
  pub score : F
  pub audit : Option (QualifyAudit F)
  pub reason_code : ReasonCode

module _ {F : Type 0} where
  unfoldable pub admit : String → F → QualifyDecision F
  admit slot score = record {
    admitted = true;
    reason = "qualified";
    slot = some slot;
    score = score;
    audit = none;
    reason_code = qualified;
  }

  unfoldable pub reject : String → F → QualifyDecision F
  reject reason score = record {
    admitted = false;
    reason = reason;
    slot = none;
    score = score;
    audit = none;
    reason_code = other reason;
  }

  unfoldable pub with_reason_code : QualifyDecision F → ReasonCode → QualifyDecision F
  with_reason_code d code = record d { reason_code = code }

  unfoldable pub with_audit : QualifyDecision F → QualifyAudit F → QualifyDecision F
  with_audit d audit = record d { audit = some audit }
