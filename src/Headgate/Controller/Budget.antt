-- ===== src/Headgate/Controller/Budget.antt =====
-- The bound on the committed state through a cycle of crates/headgate/src/controller.rs.
use artesian.Base.{
  ℕ, ◌+◌, ◌≤◌, ◌≡◌, refl, sym, subst, String, Option, none, some, List, [], ◌∷◌, ◌++◌, length,
  All-append, All, arith, inl, inr,
}
use artesian.Base.Floats.{Float}
use artesian.Headgate.Text.{TextOps, count_tokens}
use artesian.Headgate.Ccs.{CommittedEntry, CommittedContextState, sum_tokens, token_count, headroom}
use artesian.Headgate.Ccs.Eviction.{Without-sum_tokens, Without-All}
use artesian.Headgate.Gate.{RecallItem, QualifyDecision}
use artesian.Headgate.Controller.Rounds.{Evicts}
use artesian.Headgate.Controller.Invariants.{Rule, Ends, loop_inv, cycle_cases}
use artesian.Headgate.Cycle.{Headgate, CycleState, HeadgateError}
use artesian.Headgate.Controller.{admit_candidate, reject_candidate, start_state, finish, cycle}

module _ {F : Type 0} where
  -- The committed footprint is within the budget `b`, and each entry is costed by its content.
  pub record IsBounded ⦃t : TextOps⦄ (b : ℕ) (ccs : CommittedContextState F) : Type 0 where
    pub budget : ccs.budget_tokens ≡ b
    pub within : token_count ccs ≤ b
    pub costed : All (λ e. e.tokens ≡ count_tokens e.content) ccs.entries

  sum_tokens-append :
      (xs ys : List (CommittedEntry F)) → sum_tokens (xs ++ ys) ≡ sum_tokens xs + sum_tokens ys
  unfolding sum_tokens
  sum_tokens-append [] ys = omega arith
  sum_tokens-append (x ∷ xs) ys = omega (arith, sum_tokens-append xs ys)

  pub admit-IsBounded :
      ⦃t : TextOps⦄ (h : Headgate F) (i : ℕ) (item : RecallItem F) (d : QualifyDecision F)
      (content : String) (st : CycleState F) {b : ℕ}
      → IsBounded b st.ccs
      → count_tokens content ≤ headroom st.ccs
      → IsBounded b (admit_candidate h i item d content st).ccs
  unfolding admit_candidate headroom sum_tokens
  admit-IsBounded h i item d content st v fits = record {
    budget = v.budget;
    within = omega (arith, sum_tokens-append st.ccs.entries, v.within, v.budget);
    costed = All-append _ st.ccs.entries _ v.costed (refl, tt);
  }

  evict-IsBounded :
      ⦃t : TextOps⦄ ⦃f : Float F⦄ (tokens : ℕ) (score : F) (st st' : CycleState F) {b : ℕ}
      → Evicts tokens score st st'
      → IsBounded b st.ccs
      → IsBounded b st'.ccs
  unfolding token_count
  evict-IsBounded tokens score st st' {b} r v =
      subst (λ (s : CycleState F). IsBounded b s.ccs) (sym r.after)
        (record {
          budget = v.budget;
          within = omega (arith, Without-sum_tokens r.without, v.within);
          costed = (Without-All _ r.without v.costed).1;
        })

  IsBounded-rule :
      ⦃t : TextOps⦄ ⦃f : Float F⦄ (h : Headgate F) (b : ℕ)
      → Rule h
          (λ _ st. IsBounded b st.ccs)
          (λ _ _ _ st. IsBounded b st.ccs)
          (λ st. IsBounded b st.ccs)
  unfolding reject_candidate
  IsBounded-rule h b = record {
    rejects = λ i item st bad v. v;
    qualifies = λ i item st good v. v;
    evicts = λ i item d st st' r v. evict-IsBounded (count_tokens item.content) d.score st st' r v;
    compresses = λ i item d st v. v;
    saturates = λ i item d st v. v;
    admits = λ i item d content st fits v. admit-IsBounded h i item d content st v fits;
    fails = λ i item d st v. v;
  }

finish-IsBounded :
    {F : Type 0} ⦃t : TextOps⦄ (h : Headgate F) (n b : ℕ) (r : CycleState F × Option HeadgateError)
    → Ends (λ _ st. IsBounded b st.ccs) (λ st. IsBounded b st.ccs) n r
    → IsBounded b (finish h r).0.ccs
unfolding finish
finish-IsBounded h n b (st, none) v = v
finish-IsBounded h n b (st, some e) v = v

-- Whatever the gate, the compressor and the store answer, and also if the store or the compressor
-- fails, a cycle keeps the committed footprint within the budget, the budget as it was, and every
-- entry's cost equal to the token count of its content.
pub cycle-IsBounded :
    {F : Type 0} ⦃t : TextOps⦄ ⦃f : Float F⦄ (h : Headgate F) (query : String) (b : ℕ)
    → IsBounded b h.ccs
    → IsBounded b (cycle h query).0.ccs
unfolding start_state
cycle-IsBounded h query b v = elim (cycle_cases h query) [
  | inl (e, _, p) ↦ rw p v
  | inr (items, _, p) ↦ rw p (
      finish-IsBounded h (length items) b _
        (loop_inv h (IsBounded-rule h b) items (start_state h items) v))
]
