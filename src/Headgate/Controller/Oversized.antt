-- ===== src/Headgate/Controller/Oversized.antt =====
-- What a candidate that can never fit does to the committed state, in the eviction steps of
-- crates/headgate/src/controller.rs.
use artesian.Base.{
  ℕ, ◌+◌, ◌≤◌, ◌<◌, ◌≡◌, refl, ◌∙◌, sym, subst, ap, true, false, Option, none, [], length, All,
  arith, inl, inr, String,
}
use artesian.Base.Floats.{Float}
use artesian.Base.Results.{ok}
use artesian.Headgate.Text.{TextOps, count_tokens}
use artesian.Headgate.Ccs.{CommittedContextState, headroom}
use artesian.Headgate.Ccs.Eviction.{Without-All, Without-length}
use artesian.Headgate.Ccs.Lowest.{lowest_score-All}
use artesian.Headgate.Gate.{RecallItem, QualifyDecision}
use artesian.Headgate.Cycle.{Headgate, CycleState, HeadgateError}
use artesian.Headgate.Controller.{
  evict_below, compress_to_fit, settle, squeeze_candidate, fit_candidate, consider,
}
use artesian.Headgate.Controller.Rounds.{Evicts, evict_below_inv, evict_below_ends}
use artesian.Headgate.Controller.Invariants.{count_saturated}
use artesian.Headgate.Controller.Evictions.{evict_once-Stopped}

module _ {F : Type 0} ⦃f : Float F⦄ where
  -- The state has the same budget and counters as `st`, and every entry scores below `score`.
  record Flushing (score : F) (st : CycleState F) (s : CycleState F) : Type 0 where
    budget : s.ccs.budget_tokens ≡ st.ccs.budget_tokens
    admitted : s.metrics.admitted ≡ st.metrics.admitted
    saturated : s.metrics.rejected_saturated ≡ st.metrics.rejected_saturated
    evicted : s.metrics.evicted + length s.ccs.entries ≡ st.metrics.evicted + length st.ccs.entries
    below : All (λ e. f.lt e.score score ≡ true) s.ccs.entries

  round-Flushing :
      (tokens : ℕ) (score : F) (st s s' : CycleState F)
      → Evicts tokens score s s'
      → Flushing score st s
      → Flushing score st s'
  round-Flushing tokens score st s s' r v = subst (Flushing score st) (sym r.after) (record {
    budget = v.budget;
    admitted = v.admitted;
    saturated = v.saturated;
    evicted = omega (arith, v.evicted, Without-length r.without);
    below = (Without-All _ r.without v.below).1;
  })

  -- The loop, for a candidate larger than the budget that scores above every entry.
  flush :
      (tokens : ℕ) (score : F) (st : CycleState F)
      → st.ccs.budget_tokens < tokens
      → All (λ e. f.lt e.score score ≡ true) st.ccs.entries
      → let st' = evict_below (length st.ccs.entries) tokens score st in
        Flushing score st st' × (st'.ccs.entries ≡ [])
  unfolding headroom
  flush tokens score st large all = (kept, emptied)
    where
      st' : CycleState F
      st' = evict_below (length st.ccs.entries) tokens score st

      kept : Flushing score st st'
      kept =
          evict_below_inv (Flushing score st) tokens score (round-Flushing tokens score st)
            (length st.ccs.entries) st
            (record {
              budget = refl;
              admitted = refl;
              saturated = refl;
              evicted = refl;
              below = all;
            })

      emptied : st'.ccs.entries ≡ []
      emptied =
          elim (evict_once-Stopped tokens score st'
            (evict_below_ends tokens score (length st.ccs.entries) st (omega arith))) [
              | inl fits ↦ absurd (omega (arith, kept.budget))
              | inr (inl e) ↦ e
              | inr (inr (s, low, above)) ↦
                  absurd
                    (cc (lowest_score-All (λ z. f.lt z score ≡ true) st'.ccs kept.below low, above))
            ]

headroom-le : {F : Type 0} (ccs : CommittedContextState F) → headroom ccs ≤ ccs.budget_tokens
unfolding headroom
headroom-le ccs = omega arith

compress_off :
    {F : Type 0} ⦃t : TextOps⦄ (h : Headgate F) (i : ℕ) (content : String) (tokens : ℕ)
    (st : CycleState F)
    → h.config.compress_on_saturation ≡ false
    → compress_to_fit h i content tokens st ≡ ok (content, tokens, st)
unfolding compress_to_fit
compress_off h i content tokens st off = ground arith

settle_over :
    {F : Type 0} ⦃t : TextOps⦄ (h : Headgate F) (i : ℕ) (item : RecallItem F)
    (d : QualifyDecision F) (content : String) (tokens : ℕ) (st : CycleState F)
    → headroom st.ccs < tokens
    → settle h i item d content tokens st ≡ count_saturated st
unfolding settle
settle_over h i item d content tokens st over = ground arith

squeeze_over :
    {F : Type 0} ⦃t : TextOps⦄ ⦃f : Float F⦄ (h : Headgate F) (i : ℕ) (item : RecallItem F)
    (d : QualifyDecision F) (st : CycleState F)
    → h.config.compress_on_saturation ≡ false
    → headroom st.ccs < count_tokens item.content
    → squeeze_candidate h i item d st ≡ (count_saturated st, none)
unfolding squeeze_candidate
squeeze_over h i item d st off over =
    rw (compress_off h i item.content (count_tokens item.content) st off, squeeze_candidate)
      (rw (settle_over h i item d item.content (count_tokens item.content) st over))

consider_over :
    {F : Type 0} ⦃t : TextOps⦄ ⦃f : Float F⦄ (h : Headgate F) (i : ℕ) (item : RecallItem F)
    (st : CycleState F)
    → (h.gate i item st.ccs).admitted ≡ true
    → headroom st.ccs < count_tokens item.content
    → consider h i item st
      ≡ squeeze_candidate h i item (h.gate i item st.ccs) (
          evict_below
            (length st.ccs.entries)
            (count_tokens item.content)
            (h.gate i item st.ccs).score
            st)
unfolding consider fit_candidate
consider_over h i item st good over = ground arith

-- With compression off, a candidate that qualifies, has more tokens than the whole budget and
-- scores above every committed entry evicts them all and is then rejected as saturated: the
-- committed state is left empty, and nothing is admitted.
pub consider_oversized :
    {F : Type 0} ⦃f : Float F⦄ ⦃t : TextOps⦄ (h : Headgate F) (i : ℕ) (item : RecallItem F)
    (st : CycleState F)
    → h.config.compress_on_saturation ≡ false
    → (h.gate i item st.ccs).admitted ≡ true
    → st.ccs.budget_tokens < count_tokens item.content
    → All (λ e. f.lt e.score (h.gate i item st.ccs).score ≡ true) st.ccs.entries
    → let (st', failure) = consider h i item st in
      (st'.ccs.entries ≡ [])
      × (st'.metrics.evicted ≡ st.metrics.evicted + length st.ccs.entries)
      × (st'.metrics.rejected_saturated ≡ st.metrics.rejected_saturated + 1)
      × (st'.metrics.admitted ≡ st.metrics.admitted)
      × (failure ≡ none)
consider_oversized {F} ⦃f⦄ ⦃t⦄ h i item st off good large all =
    subst
      (λ (r : CycleState F × Option HeadgateError).
        (r.0.ccs.entries ≡ [])
        × (r.0.metrics.evicted ≡ st.metrics.evicted + length st.ccs.entries)
        × (r.0.metrics.rejected_saturated ≡ st.metrics.rejected_saturated + 1)
        × (r.0.metrics.admitted ≡ st.metrics.admitted)
        × (r.1 ≡ none))
      (sym rejected)
      (
        emptied,
        omega (arith, kept.evicted, ap length emptied),
        omega (arith, kept.saturated),
        kept.admitted,
        refl,
      )
  where
    d : QualifyDecision F
    d = h.gate i item st.ccs

    tokens : ℕ
    tokens = count_tokens item.content

    st' : CycleState F
    st' = evict_below (length st.ccs.entries) tokens d.score st

    kept : Flushing d.score st st'
    kept = (flush tokens d.score st large all).0

    emptied : st'.ccs.entries ≡ []
    emptied = (flush tokens d.score st large all).1

    within :
        (s : CycleState F) → s.ccs.budget_tokens ≡ st.ccs.budget_tokens → headroom s.ccs < tokens
    within s e = omega (arith, headroom-le s.ccs)

    rejected : consider h i item st ≡ (count_saturated st', none)
    rejected =
        consider_over h i item st good (within st refl)
        ∙ squeeze_over h i item d st' off (within st' kept.budget)
