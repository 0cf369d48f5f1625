-- ===== src/Headgate/Controller/Rounds.antt =====
-- The eviction loop of crates/headgate/src/controller.rs: what a round does, and that the fuel is
-- enough for the loop to end by its own test.
use artesian.Base.{
  ℕ, zero, suc, ◌+◌, ◌≤◌, ◌<◌, ◌≡◌, subst, sym, true, none, some, List, length, arith, Option-cases,
  inl, inr,
}
use artesian.Base.Floats.{Float}
use artesian.Headgate.Ccs.{CommittedEntry, headroom, evict_lowest, lowest_score}
use artesian.Headgate.Ccs.Eviction.{Without, Without-length, evict_lowest-some}
use artesian.Headgate.Cycle.{CycleState}
use artesian.Headgate.Controller.{evict_once, evict_below}

module _ {F : Type 0} ⦃f : Float F⦄ where
  -- One round: an entry leaves, since the lowest score is below that of the candidate.
  pub record Evicts (tokens : ℕ) (score : F) (st st' : CycleState F) : Type 0 where
    pub x : CommittedEntry F
    pub rest : List (CommittedEntry F)
    pub lowest : F
    pub over : headroom st.ccs < tokens
    pub is_lowest : lowest_score st.ccs ≡ some lowest
    pub below : f.lt lowest score ≡ true
    pub picked : evict_lowest st.ccs ≡ some (x, record st.ccs { entries = rest })
    pub without : Without x st.ccs.entries rest
    pub after : st' ≡ record st {
      ccs = record st.ccs { entries = rest };
      metrics = record st.metrics { evicted = st.metrics.evicted + 1 };
    }

  pub evict_once-Evicts :
      (tokens : ℕ) (score : F) (st st' : CycleState F)
      → evict_once tokens score st ≡ some st'
      → Evicts tokens score st st'
  unfolding evict_once
  evict_once-Evicts tokens score st st' h = elim (Option-cases (lowest_score st.ccs)) [
    | inl n ↦ absurd (ground arith)
    | inr (lowest, l) ↦ elim (Option-cases (evict_lowest st.ccs)) [
      | inl n ↦ absurd (ground arith)
      | inr ((x, ccs'), q) ↦
          let (rest, same, w) = evict_lowest-some st.ccs ccs' x q in
          record {
            x = x;
            rest = rest;
            lowest = lowest;
            over = ground arith;
            is_lowest = l;
            below = ground arith;
            picked = ground arith;
            without = w;
            after = ground arith;
          }
    ]
  ]

  -- A property that every round keeps holds after the loop.
  pub evict_below_inv {κ} :
      (P : CycleState F → Type κ) (tokens : ℕ) (score : F)
      → ((st st' : CycleState F) → Evicts tokens score st st' → P st → P st')
      → (fuel : ℕ) (st : CycleState F) → P st
      → P (evict_below fuel tokens score st)
  unfolding evict_below
  evict_below_inv P tokens score keep zero st p = p
  evict_below_inv P tokens score keep (suc fuel) st p =
      elim (Option-cases (evict_once tokens score st)) [
        | inl n ↦ rw (n, evict_below) p
        | inr (st', n) ↦
            rw (n, evict_below)
              (evict_below_inv P tokens score keep fuel st'
                (keep st st' (evict_once-Evicts tokens score st st' n) p))
      ]

  -- With as much fuel as entries the loop ends where a round would do nothing.
  pub evict_below_ends :
      (tokens : ℕ) (score : F) (fuel : ℕ) (st : CycleState F)
      → length st.ccs.entries ≤ fuel
      → evict_once tokens score (evict_below fuel tokens score st) ≡ none
  unfolding evict_below
  evict_below_ends tokens score zero st enough = elim (Option-cases (evict_once tokens score st)) [
    | inl n ↦ n
    | inr (st', n) ↦
        let r = evict_once-Evicts tokens score st st' n in
        absurd (omega (arith, Without-length r.without))
  ]
  evict_below_ends tokens score (suc fuel) st enough =
      elim (Option-cases (evict_once tokens score st)) [
        | inl n ↦ rw (n, evict_below) n
        | inr (st', n) ↦
            let r = evict_once-Evicts tokens score st st' n in
            rw (n, evict_below)
              (evict_below_ends tokens score fuel st' (
                subst (λ (s : CycleState F). length s.ccs.entries ≤ fuel) (sym r.after)
                  (omega (arith, Without-length r.without))))
      ]
