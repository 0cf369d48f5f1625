-- ===== src/Headgate/Ccs/Eviction.antt =====
-- Which entry `evict_lowest` of crates/headgate/src/ccs.rs takes out, and what it leaves.
use artesian.Base.{
  ℕ, zero, suc, ◌+◌, ◌<◌, ◌≡◌, refl, ap, some, List, [], ◌∷◌, length, All, arith, List-cases, subst,
  sym, Bool-cases, inl, inr,
}
use artesian.Base.Floats.{Float}
use artesian.Headgate.Ccs.{
  CommittedEntry, CommittedContextState, sum_tokens, lowest_index, remove_at, evict_lowest,
}

-- `x` stands somewhere in `es`, and `rest` is what is left without it, in order.
pub data Without {F : Type 0} (x : CommittedEntry F)
    : List (CommittedEntry F) → List (CommittedEntry F) → Type 0 where
  here : {es : List (CommittedEntry F)} → Without x (x ∷ es) es
  there :
      {e : CommittedEntry F} {es rest : List (CommittedEntry F)}
      → Without x es rest
      → Without x (e ∷ es) (e ∷ rest)

module _ {F : Type 0} where
  pub Without-sum_tokens :
      {x : CommittedEntry F} {es rest : List (CommittedEntry F)}
      → Without x es rest
      → sum_tokens es ≡ x.tokens + sum_tokens rest
  unfolding sum_tokens
  Without-sum_tokens here = refl
  Without-sum_tokens (there w) = omega (arith, Without-sum_tokens w)

  pub Without-length :
      {x : CommittedEntry F} {es rest : List (CommittedEntry F)}
      → Without x es rest
      → length es ≡ suc (length rest)
  Without-length here = refl
  Without-length (there w) = ap suc (Without-length w)

  -- A property of every entry holds of the one that is taken out, and of the others.
  pub Without-All :
      (P : CommittedEntry F → Type 0) {x : CommittedEntry F} {es rest : List (CommittedEntry F)}
      → Without x es rest
      → All P es
      → P x × All P rest
  Without-All P here h = (h.0, h.1)
  Without-All P (there w) h = let (p, q) = Without-All P w h.1 in (p, (h.0, q))

module _ {F : Type 0} ⦃f : Float F⦄ where
  lowest_index-lt :
      (best i : ℕ) (score : F) (es : List (CommittedEntry F))
      → best < i
      → lowest_index best score i es < i + length es
  unfolding lowest_index
  lowest_index-lt best i score [] h = omega arith
  lowest_index-lt best i score (e ∷ es) h = elim (Bool-cases (f.lt e.score score)) [
    | inl b ↦ rw b (omega (arith, lowest_index-lt i (suc i) e.score es (omega arith)))
    | inr b ↦ rw b (omega (arith, lowest_index-lt best (suc i) score es (omega arith)))
  ]

  remove_at-Without :
      (i : ℕ) (es : List (CommittedEntry F))
      → i < length es
      → (x : CommittedEntry F) × (rest : List (CommittedEntry F)) × (remove_at i es
          ≡ some (x, rest))
        × Without x es rest
  unfolding remove_at
  remove_at-Without i [] h = absurd (omega arith)
  remove_at-Without zero (e ∷ es) h = (e, es, refl, here)
  remove_at-Without (suc i) (e ∷ es) h =
      let (x, rest, p, w) = remove_at-Without i es (omega arith) in (x, e ∷ rest, rw p, there w)

  -- On a state with an entry `evict_lowest` takes one out, and leaves the others in order.
  pub evict_lowest-Without :
      (ccs : CommittedContextState F) (e : CommittedEntry F) (es : List (CommittedEntry F))
      → ccs.entries ≡ e ∷ es
      → (x : CommittedEntry F) × (rest : List (CommittedEntry F)) × (evict_lowest ccs
          ≡ some (x, record ccs { entries = rest }))
        × Without x (e ∷ es) rest
  unfolding evict_lowest
  evict_lowest-Without ccs e es h =
      let (x, rest, p, w) =
        remove_at-Without (lowest_index 0 e.score 1 es) (e ∷ es)
          (omega (arith, lowest_index-lt 0 1 e.score es (omega arith))) in
      (x, rest, ground (arith, p), w)

  -- So whatever it takes out stood in the state.
  pub evict_lowest-some :
      (ccs ccs' : CommittedContextState F) (x : CommittedEntry F)
      → evict_lowest ccs ≡ some (x, ccs')
      → (rest : List (CommittedEntry F)) × (ccs' ≡ record ccs { entries = rest })
        × Without x ccs.entries rest
  unfolding evict_lowest
  evict_lowest-some ccs ccs' x h = elim (List-cases ccs.entries) [
    | inl p ↦ absurd (ground arith)
    | inr (e, es, p) ↦
        let (y, rest, q, w) = evict_lowest-Without ccs e es p in
        let same : y ≡ x = ground arith in
        (
          rest,
          ground arith,
          subst (λ z. Without z ccs.entries rest) same (subst (λ l. Without y l rest) (sym p) w),
        )
  ]
