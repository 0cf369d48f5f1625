-- ===== src/Headgate/Controller/Invariants.antt =====
-- The invariant rule of the commit-loop of crates/headgate/src/controller.rs.
use artesian.Base.{
  ℕ, suc, ◌+◌, ◌≤◌, ◌≡◌, refl, subst, String, true, false, ◌&&◌, Option, none, some, List, [], ◌∷◌,
  length, arith, inl, inr, ◌⊎◌, ltb, if_cases, ltb_false→le, str_eq,
}
use artesian.Base.Floats.{Float}
use artesian.Base.Results.{Result, ok, err, ◌>>=◌}
use artesian.Headgate.Text.{TextOps, count_tokens}
use artesian.Headgate.Ccs.{headroom}
use artesian.Headgate.Gate.{RecallItem, QualifyDecision}
use artesian.Headgate.Cycle.{Headgate, CycleState, HeadgateError}
use artesian.Headgate.Controller.{
  admit_candidate, reject_candidate, settle, keep_compressed, compress_to_fit, squeeze_candidate,
  fit_candidate, consider, run_candidates, start_state, finish, cycle,
}
use artesian.Headgate.Controller.Rounds.{Evicts, evict_below_inv}

module _ {F : Type 0} ⦃t : TextOps⦄ where
  abbrev pub count_saturated : CycleState F → CycleState F
  count_saturated st = record st {
    metrics = record st.metrics { rejected_saturated = st.metrics.rejected_saturated + 1 };
  }

  abbrev pub count_compressed : CycleState F → CycleState F
  count_compressed st = record st {
    metrics = record st.metrics { compressed = st.metrics.compressed + 1 };
  }

  -- `P i` holds before the i-th candidate, `Q i` while one that qualifies is being fitted in, and
  -- `R` where an error of the compressor has ended the cycle.
  pub record Rule ⦃f : Float F⦄ (h : Headgate F) (P : ℕ → CycleState F → Type 0)
      (Q : ℕ → RecallItem F → QualifyDecision F → CycleState F → Type 0) (R : CycleState F → Type 0)
      : Type 0 where
    pub rejects :
        (i : ℕ) (item : RecallItem F) (st : CycleState F)
        → (h.gate i item st.ccs).admitted ≡ false
        → P i st
        → P (suc i) (reject_candidate h item (h.gate i item st.ccs) st)
    pub qualifies :
        (i : ℕ) (item : RecallItem F) (st : CycleState F)
        → (h.gate i item st.ccs).admitted ≡ true
        → P i st
        → Q i item (h.gate i item st.ccs) st
    pub evicts :
        (i : ℕ) (item : RecallItem F) (d : QualifyDecision F) (st st' : CycleState F)
        → Evicts (count_tokens item.content) d.score st st'
        → Q i item d st
        → Q i item d st'
    pub compresses :
        (i : ℕ) (item : RecallItem F) (d : QualifyDecision F) (st : CycleState F)
        → Q i item d st
        → Q i item d (count_compressed st)
    pub saturates :
        (i : ℕ) (item : RecallItem F) (d : QualifyDecision F) (st : CycleState F)
        → Q i item d st
        → P (suc i) (count_saturated st)
    pub admits :
        (i : ℕ) (item : RecallItem F) (d : QualifyDecision F) (content : String) (st : CycleState F)
        → count_tokens content ≤ headroom st.ccs
        → Q i item d st
        → P (suc i) (admit_candidate h i item d content st)
    pub fails :
        (i : ℕ) (item : RecallItem F) (d : QualifyDecision F) (st : CycleState F)
        → Q i item d st
        → R st

module _ {F : Type 0} where
  -- How a part of the loop ends: before the n-th candidate, or by an error.
  abbrev pub Ends :
      (ℕ → CycleState F → Type 0)
      → (CycleState F → Type 0)
      → ℕ
      → CycleState F × Option HeadgateError
      → Type 0
  Ends P R n (st, none) = P n st
  Ends P R n (st, some e) = R st

module _ {F : Type 0} ⦃t : TextOps⦄ where
  -- Compression keeps the content, or replaces it and counts, or fails.
  abbrev Fitted : String → CycleState F → Result HeadgateError (String × ℕ × CycleState F) → Type 0
  Fitted content st r =
      (r ≡ ok (content, count_tokens content, st))
      ⊎ ((c : String) × (r ≡ ok (c, count_tokens c, count_compressed st)))
      ⊎ ((e : HeadgateError) × (r ≡ err e))

  keep-Fitted :
      (content : String) (st : CycleState F) (r : Result HeadgateError String)
      → Fitted content st (r >>= λ c. keep_compressed content c (count_tokens content) st)
  unfolding keep_compressed
  keep-Fitted content st (err e) = inr (inr (e, refl))
  keep-Fitted content st (ok c) =
      if_cases (Fitted content st) (str_eq c content) (λ _. inl refl) (λ _. inr (inl (c, refl)))

  compress_to_fit-Fitted :
      (h : Headgate F) (i : ℕ) (content : String) (st : CycleState F)
      → Fitted content st (compress_to_fit h i content (count_tokens content) st)
  unfolding compress_to_fit
  compress_to_fit-Fitted h i content st =
      if_cases (Fitted content st)
        (ltb (headroom st.ccs) (count_tokens content)
          && h.config.compress_on_saturation
          && ltb 0 (headroom st.ccs))
        (λ _. keep-Fitted content st (h.compressor i content (headroom st.ccs))) (λ _. inl refl)

module _ {F : Type 0} ⦃t : TextOps⦄ ⦃f : Float F⦄ (h : Headgate F) {P : ℕ → CycleState F → Type 0}
    {Q : ℕ → RecallItem F → QualifyDecision F → CycleState F → Type 0} {R : CycleState F → Type 0}
    (rule : Rule h P Q R) where
  settle_inv :
      (i : ℕ) (item : RecallItem F) (d : QualifyDecision F) (content : String) (st : CycleState F)
      → Q i item d st
      → P (suc i) (settle h i item d content (count_tokens content) st)
  unfolding settle
  settle_inv i item d content st q =
      if_cases (P (suc i)) (ltb (headroom st.ccs) (count_tokens content))
        (λ over. rule.saturates i item d st q)
        (λ fits. rule.admits i item d content st (ltb_false→le _ _ fits) q)

  squeeze_inv :
      (i : ℕ) (item : RecallItem F) (d : QualifyDecision F) (st : CycleState F)
      → Q i item d st
      → Ends P R (suc i) (squeeze_candidate h i item d st)
  unfolding squeeze_candidate
  squeeze_inv i item d st q = elim (compress_to_fit-Fitted h i item.content st) [
    | inl e ↦ rw (e, squeeze_candidate) (settle_inv i item d item.content st q)
    | inr (inl (c, e)) ↦
        rw (e, squeeze_candidate)
          (settle_inv i item d c (count_compressed st) (rule.compresses i item d st q))
    | inr (inr (e, failed)) ↦ rw (failed, squeeze_candidate) (rule.fails i item d st q)
  ]

  fit_inv :
      (i : ℕ) (item : RecallItem F) (d : QualifyDecision F) (st : CycleState F)
      → Q i item d st
      → Ends P R (suc i) (fit_candidate h i item d st)
  unfolding fit_candidate
  fit_inv i item d st q =
      if_cases (Ends P R (suc i)) (ltb (headroom st.ccs) (count_tokens item.content))
        (λ over. squeeze_inv i item d _ (
          evict_below_inv (Q i item d) (count_tokens item.content) d.score (rule.evicts i item d)
            (length st.ccs.entries) st q))
        (λ fits. rule.admits i item d item.content st (ltb_false→le _ _ fits) q)

  consider_inv :
      (i : ℕ) (item : RecallItem F) (st : CycleState F)
      → P i st
      → Ends P R (suc i) (consider h i item st)
  unfolding consider
  consider_inv i item st p =
      if_cases (Ends P R (suc i)) (h.gate i item st.ccs).admitted
        (λ good. fit_inv i item (h.gate i item st.ccs) st (rule.qualifies i item st good p))
        (λ bad. rule.rejects i item st bad p)

  -- The whole loop, from the i-th candidate.
  run_candidates_inv :
      (i : ℕ) (items : List (RecallItem F)) (st : CycleState F)
      → P i st
      → Ends P R (i + length items) (run_candidates h i items st)
  unfolding run_candidates
  run_candidates_inv i [] st p = subst (λ n. P n st) (omega arith) p
  run_candidates_inv i (item ∷ items) st p =
      next (consider h i item st) (consider_inv i item st p) (λ st' p'.
        subst (λ n. Ends P R n (run_candidates h (suc i) items st')) (omega arith)
          (run_candidates_inv (suc i) items st' p'))
    where
      next :
          (r : CycleState F × Option HeadgateError)
          → Ends P R (suc i) r
          → ((st' : CycleState F)
              → P (suc i) st'
              → Ends P R (i + suc (length items)) (run_candidates h (suc i) items st'))
          → Ends P R
              (i + suc (length items))
              (elim r.1 [ some e ↦ (r.0, some e) | none ↦ run_candidates h (suc i) items r.0 ])
      next (st', none) p' rest = rest st' p'
      next (st', some e) p' rest = p'

  pub loop_inv :
      (items : List (RecallItem F)) (st : CycleState F)
      → P 0 st
      → Ends P R (length items) (run_candidates h 0 items st)
  loop_inv items st p =
      subst (λ n. Ends P R n (run_candidates h 0 items st)) (omega arith)
        (run_candidates_inv 0 items st p)

module _ {F : Type 0} ⦃t : TextOps⦄ ⦃f : Float F⦄ (h : Headgate F) (query : String) where
  -- A cycle fails in the store and changes nothing, or it runs over the store's candidates.
  pub cycle_cases :
      ((e : HeadgateError) × (h.recall query h.config.recall_limit ≡ err e)
        × (cycle h query ≡ (h, err e)))
      ⊎ ((items : List (RecallItem F)) × (h.recall query h.config.recall_limit ≡ ok items)
          × (cycle h query ≡ finish h (run_candidates h 0 items (start_state h items))))
  unfolding cycle
  cycle_cases = go (h.recall query h.config.recall_limit) refl
    where
      go :
          (r : Result HeadgateError (List (RecallItem F)))
          → h.recall query h.config.recall_limit ≡ r
          → ((e : HeadgateError) × (h.recall query h.config.recall_limit ≡ err e)
              × (cycle h query ≡ (h, err e)))
            ⊎ ((items : List (RecallItem F)) × (h.recall query h.config.recall_limit ≡ ok items)
                × (cycle h query ≡ finish h (run_candidates h 0 items (start_state h items))))
      go (err e) p = inl (e, p, rw (p, cycle))
      go (ok items) p = inr (items, p, rw (p, cycle))
