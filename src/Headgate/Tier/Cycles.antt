-- ===== src/Headgate/Tier/Cycles.antt =====
-- The tiered gate of crates/headgate/src/tier.rs in a cycle of crates/headgate/src/controller.rs.
use artesian.Base.{
  Bool-cases, inl, inr, if◌then◌else◌, subst, ℕ, suc, ◌≡◌, refl, ap, ◌∙◌, String, Bool, Option,
  none, some, List, [], ◌∷◌,
}
use artesian.Base.Floats.{Float}
use artesian.Base.Results.{Result, ok, err}
use artesian.Headgate.Text.{TextOps}
use artesian.Headgate.Gate.{RecallItem, QualifyAudit, QualifyDecision}
use artesian.Headgate.Gate.Audit.{from_signals}
use artesian.Headgate.Cycle.{Headgate, CycleState, HeadgateError, QualifyGate, GaugeMetrics}
use artesian.Headgate.Controller.{
  audit_costs, record_reject, reject_candidate, admit_candidate, settle, compress_to_fit,
  squeeze_candidate, fit_candidate, consider, run_candidates, start_state, finish, cycle,
}
use artesian.Headgate.Tier.{
  JudgeTier, TieredQualifyGate, gate_of, select, start_audit, with_judge_tier, name_tier,
  qualify_with_stakes,
}

module _ {F : Type 0} where
  abbrev pub with_gate : Headgate F → QualifyGate F → Headgate F
  with_gate h gate = record h { gate = gate }

module _ {F : Type 0} ⦃f : Float F⦄ ⦃t : TextOps⦄ where
  start_audit_costs :
      (admitted : Bool) (audit : Option (QualifyAudit F))
      → (start_audit admitted audit).judge_costs ≡ elim audit [ none ↦ [] | some a ↦ a.judge_costs ]
  unfolding from_signals
  start_audit_costs admitted none = refl
  start_audit_costs admitted (some a) = refl

  audit_costs-name_tier :
      (tier : JudgeTier) (d : QualifyDecision F) → audit_costs (name_tier tier d) ≡ audit_costs d
  unfolding audit_costs name_tier with_judge_tier
  audit_costs-name_tier tier d = start_audit_costs d.admitted d.audit

  module _ (h : Headgate F) (g k : QualifyGate F) where
    reject_same :
        (tier : JudgeTier) (item : RecallItem F) (d : QualifyDecision F) (st : CycleState F)
        → reject_candidate (with_gate h g) item (name_tier tier d) st
          ≡ reject_candidate (with_gate h k) item d st
    unfolding reject_candidate record_reject name_tier
    reject_same tier item d st = rw (audit_costs-name_tier tier d) refl

    fit_same :
        (tier : JudgeTier) (i : ℕ) (item : RecallItem F) (d : QualifyDecision F) (st : CycleState F)
        → fit_candidate (with_gate h g) i item (name_tier tier d) st
          ≡ fit_candidate (with_gate h k) i item d st
    unfolding fit_candidate squeeze_candidate settle admit_candidate compress_to_fit name_tier
    fit_same tier i item d st = refl

  module _ (h : Headgate F) (gate : TieredQualifyGate F) (stakes : F) where
    abbrev tiered : Headgate F
    tiered = with_gate h (qualify_with_stakes gate stakes)

    abbrev chosen : Headgate F
    chosen = with_gate h (gate_of gate (select gate.config stakes))

    consider_same :
        (i : ℕ) (item : RecallItem F) (st : CycleState F)
        → consider tiered i item st ≡ consider chosen i item st
    unfolding consider qualify_with_stakes name_tier
    consider_same i item st =
        let tier = select gate.config stakes in
        let d = gate_of gate tier i item st.ccs in
        rw
          (
            reject_same h (qualify_with_stakes gate stakes) (gate_of gate tier) tier item d st,
            fit_same h (qualify_with_stakes gate stakes) (gate_of gate tier) tier i item d st,
          )
          refl

    -- What the loop does behind a candidate.
    abbrev onward :
        (CycleState F → CycleState F × Option HeadgateError)
        → CycleState F × Option HeadgateError
        → CycleState F × Option HeadgateError
    onward rest r = elim r.1 [ some e ↦ (r.0, some e) | none ↦ rest r.0 ]

    run_candidates_same :
        (i : ℕ) (items : List (RecallItem F)) (st : CycleState F)
        → run_candidates tiered i items st ≡ run_candidates chosen i items st
    unfolding run_candidates
    run_candidates_same i [] st = refl
    run_candidates_same i (item ∷ items) st =
        ap (onward (run_candidates tiered (suc i) items)) (consider_same i item st)
        ∙ ap (λ rest. onward rest (consider chosen i item st))
            (λ k st'. run_candidates_same (suc i) items st' k)

    -- What a cycle does with the answer of the store.
    abbrev answered :
        Headgate F
        → Result HeadgateError (List (RecallItem F))
        → Headgate F × Result HeadgateError GaugeMetrics
    answered g answer = elim answer [
      | err e ↦ (g, err e)
      | ok items ↦ finish g (run_candidates g 0 items (start_state g items))
    ]

    answered_same :
        (answer : Result HeadgateError (List (RecallItem F)))
        → let (after, result) = answered chosen answer in
          answered tiered answer ≡ (with_gate after (qualify_with_stakes gate stakes), result)
    unfolding start_state finish
    answered_same (err e) = refl
    answered_same (ok items) =
        ap (finish tiered) (run_candidates_same 0 items (start_state tiered items))

    gate_of-select : gate_of gate (select gate.config stakes) ≡ (
        if f.le gate.config.frontier_stakes_threshold stakes
        then gate.frontier_gate
        else gate.cheap_gate)
    unfolding select
    gate_of-select = elim (Bool-cases (f.le gate.config.frontier_stakes_threshold stakes)) [
      | inl high ↦ rw high refl
      | inr low ↦ rw low refl
    ]

    -- A cycle with the tiered gate does what a cycle does with the frontier gate, where the stakes are
    -- at least the threshold, and with the cheap gate otherwise: the committed state, the recorded
    -- savings with the judges' costs, and the metrics or the error are the same, though the audit of
    -- each decision names the tier. Only the controller's gate stays the tiered one.
    pub cycle-qualify_with_stakes :
        (query : String)
        → let inner =
            (if f.le gate.config.frontier_stakes_threshold stakes
              then gate.frontier_gate
              else gate.cheap_gate) in
          let (after, result) = cycle (with_gate h inner) query in
          cycle (with_gate h (qualify_with_stakes gate stakes)) query
          ≡ (with_gate after (qualify_with_stakes gate stakes), result)
    unfolding cycle
    cycle-qualify_with_stakes query =
        subst
          (λ inner.
            let (after, result) = cycle (with_gate h inner) query in
            cycle tiered query ≡ (with_gate after (qualify_with_stakes gate stakes), result))
          gate_of-select (answered_same (h.recall query h.config.recall_limit))
