-- ===== src/Headgate/Controller.antt =====
-- The commit-loop controller: crates/headgate/src/controller.rs. `cycle` pulls candidates, runs each
-- through the gate, and admits what qualifies into the committed state, evicting or compressing
-- under saturation.
pub mod Budget
pub mod Accounting
pub mod Rounds
pub mod Oversized
pub mod Identities
pub mod Reasons
pub mod Evictions
pub mod Invariants
use text.Mathlib.Text.{starts_with}
use artesian.Base.{
  ℕ, zero, suc, ◌+◌, String, Bool, true, false, not, ◌&&◌, ◌||◌, Option, none, some, List, [], ◌∷◌,
  ◌++◌, length, ltb, str_eq, if◌then◌else◌,
}
use artesian.Base.Floats.{Float}
use artesian.Base.Results.{Result, ok, err, ◌>>=◌}
use artesian.Headgate.Text.{TextOps, count_tokens}
use artesian.Headgate.Ccs.{
  CommittedContextState, default_slot, new_entry, token_count, headroom, is_empty, evict_lowest,
  lowest_score,
}
use artesian.Headgate.Ccs
use artesian.Headgate.Gate.{RecallItem, JudgeTokenCost, QualifyDecision}
use artesian.Headgate.Cycle.{
  HeadgateError, RecallStore, QualifyGate, Compressor, HeadgateConfig, SavingsEntry, GaugeMetrics,
  Headgate, CycleState, start_metrics,
}

unfoldable pub is_redundant_reason : String → Bool
is_redundant_reason reason = starts_with reason "redundant" || str_eq reason "already committed"

unfoldable pub count_reject : String → GaugeMetrics → GaugeMetrics
unfolding is_redundant_reason
count_reject reason m =
    if is_redundant_reason reason
    then record m { rejected_redundant = m.rejected_redundant + 1 }
    else record m { rejected_relevance = m.rejected_relevance + 1 }

module _ {F : Type 0} where
  unfoldable pub audit_costs : QualifyDecision F → List JudgeTokenCost
  audit_costs decision = elim decision.audit [ none ↦ [] | some audit ↦ audit.judge_costs ]

  unfoldable pub record_reject :
      ⦃t : TextOps⦄
      → Headgate F
      → RecallItem F
      → QualifyDecision F
      → List SavingsEntry
      → List SavingsEntry
  unfolding audit_costs
  record_reject h item decision savings =
      if h.track_savings && not (str_eq h.savings_collection "")
      then savings
        ++ record {
          operation = "qualify.reject";
          collection = h.savings_collection;
          returned_tokens = 0;
          baseline_tokens = count_tokens item.content;
          session_id = h.savings_session_id;
          judge_costs = audit_costs decision;
        }
          ∷ []
      else savings

  unfoldable pub reject_candidate :
      ⦃t : TextOps⦄ → Headgate F → RecallItem F → QualifyDecision F → CycleState F → CycleState F
  unfolding count_reject record_reject
  reject_candidate h item decision st = record st {
    metrics = count_reject decision.reason st.metrics;
    savings = record_reject h item decision st.savings;
  }

  unfoldable pub admit_candidate :
      ⦃t : TextOps⦄
      → Headgate F
      → ℕ
      → RecallItem F
      → QualifyDecision F
      → String
      → CycleState F
      → CycleState F
  unfolding Ccs.admit new_entry default_slot
  admit_candidate h i item decision content st =
      let slot : String = elim decision.slot [ some s ↦ s | none ↦ default_slot st.ccs.schema ] in
      record st {
        ccs = Ccs.admit st.ccs (new_entry item.id slot content decision.score (h.clock i));
        metrics = record st.metrics { admitted = st.metrics.admitted + 1 };
      }

  -- Step 3: what is still over budget cannot be admitted.
  unfoldable pub settle :
      ⦃t : TextOps⦄
      → Headgate F
      → ℕ
      → RecallItem F
      → QualifyDecision F
      → String
      → ℕ
      → CycleState F
      → CycleState F
  unfolding headroom
  settle h i item decision content tokens st =
      if ltb (headroom st.ccs) tokens
      then record st {
        metrics = record st.metrics { rejected_saturated = st.metrics.rejected_saturated + 1 };
      }
      else admit_candidate h i item decision content st

  unfoldable pub keep_compressed :
      ⦃t : TextOps⦄
      → String
      → String
      → ℕ
      → CycleState F
      → Result HeadgateError (String × ℕ × CycleState F)
  keep_compressed content compressed tokens st =
      if str_eq compressed content
      then ok (content, tokens, st)
      else ok (
        compressed,
        count_tokens compressed,
        record st { metrics = record st.metrics { compressed = st.metrics.compressed + 1 } },
      )

  -- Step 2: compress to the remaining headroom. The content, its tokens, and the state.
  unfoldable pub compress_to_fit :
      ⦃t : TextOps⦄
      → Headgate F
      → ℕ
      → String
      → ℕ
      → CycleState F
      → Result HeadgateError (String × ℕ × CycleState F)
  unfolding headroom
  compress_to_fit h i content tokens st =
      let room = headroom st.ccs in
      if ltb room tokens && h.config.compress_on_saturation && ltb 0 room
      then (h.compressor i content room >>= λ compressed.
          keep_compressed content compressed tokens st)
      else ok (content, tokens, st)

  unfoldable pub start_state : Headgate F → List (RecallItem F) → CycleState F
  start_state h candidates = record {
    ccs = h.ccs;
    metrics = start_metrics (length candidates) h.config.budget_tokens;
    savings = h.savings;
  }

  -- The controller after the loop, and the metrics or the error.
  unfoldable pub finish :
      Headgate F
      → CycleState F × Option HeadgateError
      → Headgate F × Result HeadgateError GaugeMetrics
  unfolding token_count
  finish h (st, failure) = (
    record h { ccs = st.ccs; savings = st.savings },
    elim failure [
      | some e ↦ err e
      | none ↦ ok (record st.metrics { footprint_tokens = token_count st.ccs })
    ],
  )

module _ {F : Type 0} ⦃f : Float F⦄ where
  -- Step 1, one round of the `while` loop: `none` where the loop ends.
  unfoldable pub evict_once : ℕ → F → CycleState F → Option (CycleState F)
  unfolding headroom is_empty
  evict_once tokens score st =
      if ltb (headroom st.ccs) tokens && not (is_empty st.ccs)
      then elim (lowest_score st.ccs) [
        | none ↦ none
        | some lowest ↦
            if f.lt lowest score
            then elim (evict_lowest st.ccs) [
              | none ↦ none
              | some (_, ccs) ↦ some (record st {
                ccs = ccs;
                metrics = record st.metrics { evicted = st.metrics.evicted + 1 };
              })
            ]
            else none
      ]
      else none

  -- The loop, on fuel: a round removes an entry, so there are at most as many as entries.
  unfoldable pub evict_below : ℕ → ℕ → F → CycleState F → CycleState F
  evict_below zero tokens score st = st
  evict_below (suc fuel) tokens score st = elim (evict_once tokens score st) [
    | none ↦ st
    | some st' ↦ evict_below fuel tokens score st'
  ]

  -- Steps 2 and 3. An error of the compressor ends the cycle.
  unfoldable pub squeeze_candidate :
      ⦃t : TextOps⦄
      → Headgate F
      → ℕ
      → RecallItem F
      → QualifyDecision F
      → CycleState F
      → CycleState F × Option HeadgateError
  squeeze_candidate h i item decision st =
      elim (compress_to_fit h i item.content (count_tokens item.content) st) [
        | err e ↦ (st, some e)
        | ok (content, tokens, st') ↦ (settle h i item decision content tokens st', none)
      ]

  -- The handling of a candidate that qualifies.
  unfoldable pub fit_candidate :
      ⦃t : TextOps⦄
      → Headgate F
      → ℕ
      → RecallItem F
      → QualifyDecision F
      → CycleState F
      → CycleState F × Option HeadgateError
  unfolding headroom
  fit_candidate h i item decision st =
      if ltb (headroom st.ccs) (count_tokens item.content)
      then squeeze_candidate h i item decision
          (evict_below (length st.ccs.entries) (count_tokens item.content) decision.score st)
      else (admit_candidate h i item decision item.content st, none)

  unfoldable pub consider :
      ⦃t : TextOps⦄
      → Headgate F
      → ℕ
      → RecallItem F
      → CycleState F
      → CycleState F × Option HeadgateError
  consider h i item st =
      let decision = h.gate i item st.ccs in
      if decision.admitted
      then fit_candidate h i item decision st
      else (reject_candidate h item decision st, none)

  -- The `for` loop, from the i-th candidate.
  unfoldable pub run_candidates :
      ⦃t : TextOps⦄
      → Headgate F
      → ℕ
      → List (RecallItem F)
      → CycleState F
      → CycleState F × Option HeadgateError
  run_candidates h i [] st = (st, none)
  run_candidates h i (item ∷ items) st = elim (consider h i item st).1 [
    | some e ↦ ((consider h i item st).0, some e)
    | none ↦ run_candidates h (suc i) items (consider h i item st).0
  ]

  unfoldable pub cycle :
      ⦃t : TextOps⦄ → Headgate F → String → Headgate F × Result HeadgateError GaugeMetrics
  unfolding start_state finish
  cycle h query = elim (h.recall query h.config.recall_limit) [
    | err e ↦ (h, err e)
    | ok candidates ↦ finish h (run_candidates h 0 candidates (start_state h candidates))
  ]
