-- ===== src/Headgate/Tier.antt =====
-- The tiered gate: crates/headgate/src/tier.rs. A candidate's stakes choose between two gates, and
-- the audit of the decision names the tier.
pub mod Cycles
use artesian.Base.{
  ℕ, ◌≡◌, refl, String, Bool, true, false, Option, none, some, [], if◌then◌else◌, if_cases,
}
use artesian.Base.Floats.{Float}
use artesian.Headgate.Ccs.{CommittedContextState, contains}
use artesian.Headgate.Gate.{RecallItem, QualifyAudit, QualifyDecision}
use artesian.Headgate.Gate.Audit.{from_signals}
use artesian.Headgate.Cycle.{JudgeTierConfig, QualifyGate}
use artesian.Headgate.Controller.Identities.{LooksForId}

pub data JudgeTier : Type 0 where
  cheap frontier : JudgeTier

abbrev pub tier_name : JudgeTier → String
tier_name cheap = "cheap"
tier_name frontier = "frontier"

-- `JudgeTierConfig::new` and `JudgeTierConfig::with_default_stakes`.
abbrev pub new_tier_config : {F : Type 0} ⦃f : Float F⦄ → String → String → F → JudgeTierConfig F
new_tier_config ⦃f⦄ cheap_judge frontier_judge threshold = record {
  cheap_judge = some cheap_judge;
  frontier_judge = some frontier_judge;
  frontier_stakes_threshold = threshold;
  default_stakes = f.zero;
}

abbrev pub with_default_stakes : {F : Type 0} → JudgeTierConfig F → F → JudgeTierConfig F
with_default_stakes config default_stakes = record config { default_stakes = default_stakes }

pub record TieredQualifyGate (F : Type 0) : Type 0 where
  pub cheap_gate : QualifyGate F
  pub frontier_gate : QualifyGate F
  pub config : JudgeTierConfig F

module _ {F : Type 0} where
  unfoldable pub with_judge_tier : QualifyAudit F → String → QualifyAudit F
  with_judge_tier audit tier = record audit { judge_tier = some tier }

  abbrev pub gate_of : TieredQualifyGate F → JudgeTier → QualifyGate F
  gate_of gate cheap = gate.cheap_gate
  gate_of gate frontier = gate.frontier_gate

module _ {F : Type 0} ⦃f : Float F⦄ where
  unfoldable pub select : JudgeTierConfig F → F → JudgeTier
  select config stakes = if f.le config.frontier_stakes_threshold stakes then frontier else cheap

  -- The audit that is there, or one of no signals.
  abbrev pub start_audit : Bool → Option (QualifyAudit F) → QualifyAudit F
  start_audit admitted (some audit) = audit
  start_audit admitted none = from_signals admitted []

  unfoldable pub name_tier : JudgeTier → QualifyDecision F → QualifyDecision F
  unfolding with_judge_tier
  name_tier tier d = record d {
    audit = some (with_judge_tier (start_audit d.admitted d.audit) (tier_name tier));
  }

  unfoldable pub qualify_with_stakes : TieredQualifyGate F → F → QualifyGate F
  unfolding select name_tier
  qualify_with_stakes gate stakes i item ccs =
      let tier = select gate.config stakes in name_tier tier (gate_of gate tier i item ccs)

  unfoldable pub qualify : TieredQualifyGate F → QualifyGate F
  unfolding qualify_with_stakes
  qualify gate = qualify_with_stakes gate gate.config.default_stakes

  -- If neither gate admits a committed id, the tiered gate admits none at any stakes, and so it can
  -- stand in for them in a cycle.
  pub qualify_with_stakes-LooksForId :
      (gate : TieredQualifyGate F) (stakes : F)
      → LooksForId gate.cheap_gate
      → LooksForId gate.frontier_gate
      → LooksForId (qualify_with_stakes gate stakes)
  unfolding qualify_with_stakes select
  qualify_with_stakes-LooksForId gate stakes low high i item ccs =
      if_cases
        (λ tier. (gate_of gate tier i item ccs).admitted ≡ true → contains ccs item.id ≡ false)
        (f.le gate.config.frontier_stakes_threshold stakes) (λ on. high i item ccs)
        (λ off. low i item ccs)
