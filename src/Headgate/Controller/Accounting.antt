-- ===== src/Headgate/Controller/Accounting.antt =====
-- The counters of a cycle of crates/headgate/src/controller.rs, against what happened.
use artesian.Base.{
  ℕ, suc, ◌+◌, ◌≡◌, refl, ◌∙◌, inl, inr, ap, sym, subst, String, Bool, true, false, not, ◌&&◌,
  Option, none, some, List, length, length-append, arith, str_eq, if_cases,
}
use artesian.Base.Floats.{Float}
use artesian.Base.Results.{Result, ok, ok-injective, err-ne-ok}
use artesian.Headgate.Text.{TextOps, count_tokens}
use artesian.Headgate.Ccs.{token_count}
use artesian.Headgate.Ccs.Eviction.{Without-length}
use artesian.Headgate.Controller.Rounds.{Evicts}
use artesian.Headgate.Controller.Invariants.{Rule, Ends, loop_inv, cycle_cases}
use artesian.Headgate.Gate.{RecallItem, QualifyDecision}
use artesian.Headgate.Cycle.{SavingsEntry, Headgate, CycleState, HeadgateError, GaugeMetrics}
use artesian.Headgate.Controller.{
  is_redundant_reason, count_reject, record_reject, admit_candidate, reject_candidate, start_state,
  finish, cycle,
}

-- The candidates that the metrics have a verdict for.
abbrev pub decided : GaugeMetrics → ℕ
decided m = m.admitted + m.rejected_relevance + m.rejected_redundant + m.rejected_saturated

-- Whether the controller keeps the savings log.
abbrev pub tracks : {F : Type 0} → Headgate F → Bool
tracks h = h.track_savings && not (str_eq h.savings_collection "")

-- The log has grown by an entry for each candidate that the gate rejected, if it is kept.
abbrev pub Logged : {F : Type 0} → Headgate F → ℕ → GaugeMetrics → Type 0
Logged h logged m =
    (tracks h ≡ true → logged ≡ length h.savings + m.rejected_relevance + m.rejected_redundant)
    × (tracks h ≡ false → logged ≡ length h.savings)

module _ {F : Type 0} where
  -- After `i` candidates of `n`, started from `h`.
  record Counts (h : Headgate F) (n i : ℕ) (st : CycleState F) : Type 0 where
    candidates : st.metrics.candidates ≡ n
    verdicts : decided st.metrics ≡ i
    budget : st.metrics.budget_tokens ≡ h.config.budget_tokens
    entries :
        length st.ccs.entries + st.metrics.evicted ≡ length h.ccs.entries + st.metrics.admitted
    logged : Logged h (length st.savings) st.metrics

  length-record_reject :
      ⦃t : TextOps⦄ (h : Headgate F) (item : RecallItem F) (d : QualifyDecision F)
      (savings : List SavingsEntry)
      → (tracks h ≡ true → length (record_reject h item d savings) ≡ suc (length savings))
        × (tracks h ≡ false → length (record_reject h item d savings) ≡ length savings)
  unfolding record_reject
  length-record_reject h item d savings =
      (λ on. rw on (omega (arith, length-append savings)), λ off. rw off)

  reject-Counts :
      ⦃t : TextOps⦄ (h : Headgate F) (n i : ℕ) (item : RecallItem F) (d : QualifyDecision F)
      (st : CycleState F)
      → Counts h n i st
      → Counts h n (suc i) (reject_candidate h item d st)
  unfolding reject_candidate count_reject
  reject-Counts h n i item d st v =
      let log = length-record_reject h item d st.savings in
      if_cases
        (λ m.
          Counts h n (suc i)
            (record st { metrics = m; savings = record_reject h item d st.savings }))
        (is_redundant_reason d.reason)
        (λ _. record {
          candidates = v.candidates;
          verdicts = omega (arith, v.verdicts);
          budget = v.budget;
          entries = v.entries;
          logged = (
            λ on. omega (arith, v.logged.0 on, log.0 on),
            λ off. omega (arith, v.logged.1 off, log.1 off),
          );
        })
        (λ _. record {
          candidates = v.candidates;
          verdicts = omega (arith, v.verdicts);
          budget = v.budget;
          entries = v.entries;
          logged = (
            λ on. omega (arith, v.logged.0 on, log.0 on),
            λ off. omega (arith, v.logged.1 off, log.1 off),
          );
        })

  evict-Counts :
      ⦃f : Float F⦄ (h : Headgate F) (n i tokens : ℕ) (score : F) (st st' : CycleState F)
      → Evicts tokens score st st'
      → Counts h n i st
      → Counts h n i st'
  evict-Counts h n i tokens score st st' r v =
      subst (λ (s : CycleState F). Counts h n i s) (sym r.after)
        (record {
          candidates = v.candidates;
          verdicts = v.verdicts;
          budget = v.budget;
          entries = omega (arith, v.entries, Without-length r.without);
          logged = v.logged;
        })

  admit-Counts :
      ⦃t : TextOps⦄ (h : Headgate F) (n i : ℕ) (item : RecallItem F) (d : QualifyDecision F)
      (content : String) (st : CycleState F)
      → Counts h n i st
      → Counts h n (suc i) (admit_candidate h i item d content st)
  unfolding admit_candidate
  admit-Counts h n i item d content st v = record {
    candidates = v.candidates;
    verdicts = omega (arith, v.verdicts);
    budget = v.budget;
    entries = omega (arith, v.entries, length-append st.ccs.entries);
    logged = v.logged;
  }

  Counts-rule :
      ⦃t : TextOps⦄ ⦃f : Float F⦄ (h : Headgate F) (n : ℕ)
      → Rule h (Counts h n) (λ i _ _ st. Counts h n i st) (λ _. Unit)
  Counts-rule h n = record {
    rejects = λ i item st bad v. reject-Counts h n i item (h.gate i item st.ccs) st v;
    qualifies = λ i item st good v. v;
    evicts =
        λ i item d st st' r v. evict-Counts h n i (count_tokens item.content) d.score st st' r v;
    compresses = λ i item d st v. record {
      candidates = v.candidates;
      verdicts = v.verdicts;
      budget = v.budget;
      entries = v.entries;
      logged = v.logged;
    };
    saturates = λ i item d st v. record {
      candidates = v.candidates;
      verdicts = omega (arith, v.verdicts);
      budget = v.budget;
      entries = v.entries;
      logged = v.logged;
    };
    admits = λ i item d content st fits v. admit-Counts h n i item d content st v;
    fails = λ i item d st v. tt;
  }

-- What the metrics of a cycle from `h` to `h'` say.
pub record Accounted {F : Type 0} (h h' : Headgate F) (m : GaugeMetrics) : Type 0 where
  pub every_verdict : decided m ≡ m.candidates
  pub entries : length h'.ccs.entries + m.evicted ≡ length h.ccs.entries + m.admitted
  pub footprint : m.footprint_tokens ≡ token_count h'.ccs
  pub budget : m.budget_tokens ≡ h.config.budget_tokens
  pub logged : Logged h (length h'.savings) m

finish-Accounted :
    {F : Type 0} ⦃t : TextOps⦄ (h : Headgate F) (n : ℕ) (r : CycleState F × Option HeadgateError)
    {m : GaugeMetrics}
    → Ends (Counts h n) (λ _. Unit) n r
    → (finish h r).1 ≡ ok m
    → Accounted h (finish h r).0 m
unfolding finish
finish-Accounted h n (st, none) {m} v e =
    subst (Accounted h (record h { ccs = st.ccs; savings = st.savings })) (ok-injective e) (record {
      every_verdict = v.verdicts ∙ sym v.candidates;
      entries = v.entries;
      footprint = refl;
      budget = v.budget;
      logged = v.logged;
    })
finish-Accounted h n (st, some x) v e = cc

-- A cycle that returns metrics has a verdict for each candidate of the store, the number of entries
-- changed by what was admitted and what was evicted, and the metrics report the footprint and the
-- budget. The savings log grew by one entry for each candidate that the gate rejected if it is kept
-- (a collection is named and tracking is on), and is as it was otherwise.
pub cycle-Accounted :
    {F : Type 0} ⦃t : TextOps⦄ ⦃f : Float F⦄ (h : Headgate F) (query : String) {m : GaugeMetrics}
    → (cycle h query).1 ≡ ok m
    → Accounted h (cycle h query).0 m
unfolding start_state
cycle-Accounted {F} h query {m} e = elim (cycle_cases h query) [
  | inl (x, _, p) ↦ absurd (err-ne-ok (sym (ap result p) ∙ e))
  | inr (items, _, p) ↦
      subst (λ (r : Headgate F × Result HeadgateError GaugeMetrics). Accounted h r.0 m) (sym p)
        (finish-Accounted h (length items) _
          (loop_inv h (Counts-rule h (length items)) items (start_state h items) (begin items))
          (sym (ap result p) ∙ e))
]
  where
    result : Headgate F × Result HeadgateError GaugeMetrics → Result HeadgateError GaugeMetrics
    result r = r.1

    begin : (items : List (RecallItem F)) → Counts h (length items) 0 (start_state h items)
    begin items = record {
      candidates = refl;
      verdicts = refl;
      budget = refl;
      entries = refl;
      logged = (λ on. omega arith, λ off. refl);
    }
