-- ===== src/Headgate/Controller/Evictions.antt =====
-- Which entries the eviction loop of crates/headgate/src/controller.rs gives up for a candidate.
use artesian.Base.{
  ℕ, ◌≤◌, ◌≡◌, sym, subst, true, false, none, some, List, [], length, arith, Bool-cases, List-cases,
  inl, inr, ◌⊎◌, ltb, ltb_false→le,
}
use artesian.Base.Floats.{Float, IsOrdered}
use artesian.Headgate.Ccs.{CommittedEntry, CommittedContextState, headroom, lowest_score}
use artesian.Headgate.Ccs.Eviction.{Without, Without-All, evict_lowest-Without}
use artesian.Headgate.Ccs.Lowest.{
  Comparable, LeAll, lt_of_le_of_lt, evicted-LeAll, lowest_score-le, lowest_score-total,
}
use artesian.Headgate.Cycle.{CycleState}
use artesian.Headgate.Controller.{evict_once, evict_below}
use artesian.Headgate.Controller.Rounds.{Evicts, evict_below_inv, evict_below_ends}

module _ {F : Type 0} ⦃f : Float F⦄ where
  -- Entries leave one by one, each with a score below `score` and at most that of all then present.
  pub data Drops (score : F) (es : List (CommittedEntry F)) : List (CommittedEntry F) → Type 0 where
    keep : Drops score es es
    drop :
        {x : CommittedEntry F} {mid rest : List (CommittedEntry F)}
        → Drops score es mid
        → Without x mid rest
        → f.lt x.score score ≡ true
        → LeAll x.score mid
        → Drops score es rest

  -- Where the loop has to stop: the candidate fits, or no entry scores below it.
  abbrev pub Stopped : ℕ → F → CommittedContextState F → Type 0
  Stopped tokens score ccs =
      (tokens ≤ headroom ccs)
      ⊎ (ccs.entries ≡ [])
      ⊎ ((s : F) × (lowest_score ccs ≡ some s) × (f.lt s score ≡ false))

  round-Drops :
      (o : IsOrdered F f) (tokens : ℕ) (score : F) (es : List (CommittedEntry F))
      → f.is_nan score ≡ false
      → (st st' : CycleState F) → Evicts tokens score st st'
      → Comparable st.ccs.entries × Drops score es st.ccs.entries
      → Comparable st'.ccs.entries × Drops score es st'.ccs.entries
  round-Drops o tokens score es n st st' r (c, d) =
      subst (λ (s : CycleState F). Comparable s.ccs.entries × Drops score es s.ccs.entries)
        (sym r.after) (split.1, drop d r.without below lowest)
    where
      split : (f.is_nan r.x.score ≡ false) × Comparable r.rest
      split = Without-All _ r.without c

      lowest : LeAll r.x.score st.ccs.entries
      lowest = evicted-LeAll o st.ccs _ r.x c r.picked

      below : f.lt r.x.score score ≡ true
      below =
          let (le, ns) = lowest_score-le r.x.score st.ccs lowest c r.is_lowest in
          lt_of_le_of_lt o r.x.score r.lowest score split.0 ns n le r.below

  -- A round that does nothing has found one of the three.
  pub evict_once-Stopped :
      (tokens : ℕ) (score : F) (st : CycleState F)
      → evict_once tokens score st ≡ none
      → Stopped tokens score st.ccs
  unfolding evict_once
  evict_once-Stopped tokens score st h = elim (Bool-cases (ltb (headroom st.ccs) tokens)) [
    | inr fits ↦ inl (ltb_false→le _ _ fits)
    | inl over ↦ elim (List-cases st.ccs.entries) [
      | inl nil ↦ inr (inl nil)
      | inr (e, es, p) ↦
          let (s, low) = lowest_score-total st.ccs e es p in
          let (x, rest, picked, _) = evict_lowest-Without st.ccs e es p in
          inr (
            inr (
              s,
              low,
              elim (Bool-cases (f.lt s score)) [
                | inr above ↦ above
                | inl below ↦ absurd (ground arith)
              ],
            ))
    ]
  ]

-- For a candidate of `tokens` and `score`, over comparable scores: the loop gives up only entries
-- that score strictly below the candidate, always one that is lowest among those left, and it ends
-- with the candidate fitting, no entry left, or the lowest score not below the candidate's.
pub evict_below-Drops :
    {F : Type 0} ⦃f : Float F⦄ (o : IsOrdered F f) (tokens : ℕ) (score : F) (st : CycleState F)
    → f.is_nan score ≡ false
    → Comparable st.ccs.entries
    → let st' = evict_below (length st.ccs.entries) tokens score st in
      Drops score st.ccs.entries st'.ccs.entries × Stopped tokens score st'.ccs
evict_below-Drops o tokens score st n c = (
  (evict_below_inv (λ s. Comparable s.ccs.entries × Drops score st.ccs.entries s.ccs.entries) tokens
      score (round-Drops o tokens score st.ccs.entries n) (length st.ccs.entries) st (c, keep)).1,
  evict_once-Stopped tokens score _
      (evict_below_ends tokens score (length st.ccs.entries) st (omega arith)),
)
