-- ===== src/Headgate/Ccs/Lowest.antt =====
-- The choice that `evict_lowest` and `lowest_score` of crates/headgate/src/ccs.rs make, where no
-- score is NaN and the order of the floats is that of IEEE 754.
use artesian.Base.{
  ℕ, zero, suc, ◌+◌, ◌≡◌, refl, ap, sym, subst, ◌∙◌, true, false, none, some, List, [], ◌∷◌, All,
  get_elem?, arith, Bool-cases, Option-cases, List-cases, inl, inr, ◌⊎◌, if◌then◌else◌, if_cases,
}
use artesian.Base.Floats.{Float, IsOrdered}
use artesian.Headgate.Ccs.{
  CommittedEntry, CommittedContextState, lowest_index, remove_at, evict_lowest, fold_lowest,
  lowest_score,
}
use artesian.Headgate.Ccs.Eviction.{Without, evict_lowest-Without}

module _ {F : Type 0} ⦃f : Float F⦄ where
  -- No entry's score is NaN.
  abbrev pub Comparable : List (CommittedEntry F) → Type 0
  Comparable = All (λ e. f.is_nan e.score ≡ false)

  -- The score is at most that of every entry.
  abbrev pub LeAll : F → List (CommittedEntry F) → Type 0
  LeAll s = All (λ e. f.le s e.score ≡ true)

  -- The value of `le` where `lt` the other way round is denied.
  le_of_not_lt :
      (o : IsOrdered F f) (a b : F)
      → f.is_nan a ≡ false
      → f.is_nan b ≡ false
      → f.lt b a ≡ false
      → f.le a b ≡ true
  le_of_not_lt o a b na nb h = elim (Bool-cases (f.le a b)) [
    | inl p ↦ p
    | inr p ↦ absurd (cc (o.lt_of_not_le b a nb na p))
  ]

  pub lt_of_le_of_lt :
      (o : IsOrdered F f) (a b c : F)
      → f.is_nan a ≡ false
      → f.is_nan b ≡ false
      → f.is_nan c ≡ false
      → f.le a b ≡ true
      → f.lt b c ≡ true
      → f.lt a c ≡ true
  lt_of_le_of_lt o a b c na nb nc h k = elim (Bool-cases (f.le c a)) [
    | inl p ↦ absurd (cc (o.not_le_of_lt b c nb nc k, o.le_trans c a b nc na nb p h))
    | inr p ↦ o.lt_of_not_le a c na nc p
  ]

  -- Either the best so far stays, or a later entry takes its place.
  abbrev Chosen : ℕ → ℕ → F → List (CommittedEntry F) → ℕ → Type 0
  Chosen best i score es k =
      ((k ≡ best) × LeAll score es)
      ⊎ ((j : ℕ) × (y : CommittedEntry F) × (k ≡ i + j)
          × (get_elem? es j ≡ some y)
          × (f.is_nan y.score ≡ false)
          × (f.le y.score score ≡ true)
          × LeAll y.score es)

  lowest_index-Chosen :
      (o : IsOrdered F f) (best i : ℕ) (score : F) (es : List (CommittedEntry F))
      → f.is_nan score ≡ false
      → Comparable es
      → Chosen best i score es (lowest_index best score i es)
  unfolding lowest_index
  lowest_index-Chosen o best i score [] n h = inl (refl, tt)
  lowest_index-Chosen o best i score (e ∷ es) n h = elim (Bool-cases (f.lt e.score score)) [
    | inl b ↦ rw b (elim (lowest_index-Chosen o i (suc i) e.score es h.0 h.1) [
      | inl (k, all) ↦ inr (
        0,
        e,
        k ∙ omega arith,
        refl,
        h.0,
        o.le_of_lt e.score score h.0 n b,
        (o.le_refl e.score h.0, all),
      )
      | inr (j, y, k, at, ny, y_le, all) ↦ inr (
        suc j,
        y,
        k ∙ omega arith,
        at,
        ny,
        o.le_trans y.score e.score score ny h.0 n y_le (o.le_of_lt e.score score h.0 n b),
        (y_le, all),
      )
    ])
    | inr b ↦ rw b (elim (lowest_index-Chosen o best (suc i) score es n h.1) [
      | inl (k, all) ↦ inl (k, (le_of_not_lt o score e.score n h.0 b, all))
      | inr (j, y, k, at, ny, y_le, all) ↦ inr (
        suc j,
        y,
        k ∙ omega arith,
        at,
        ny,
        y_le,
        (
          o.le_trans y.score score e.score ny n h.0 y_le (le_of_not_lt o score e.score n h.0 b),
          all,
        ),
      )
    ])
  ]

  remove_at-get_elem? :
      (i : ℕ) (es : List (CommittedEntry F)) (y x : CommittedEntry F)
      (rest : List (CommittedEntry F))
      → get_elem? es i ≡ some y
      → remove_at i es ≡ some (x, rest)
      → x ≡ y
  unfolding remove_at
  remove_at-get_elem? i [] y x rest h k = absurd (cc)
  remove_at-get_elem? zero (e ∷ es) y x rest h k = ground arith
  remove_at-get_elem? (suc i) (e ∷ es) y x rest h k = elim (Option-cases (remove_at i es)) [
    | inl n ↦ absurd (ground arith)
    | inr ((x', rest'), n) ↦ ground (arith, remove_at-get_elem? i es y x' rest' h n)
  ]

  -- On a state with an entry, whose scores are comparable, `evict_lowest` takes out an entry whose
  -- score is at most that of every entry, and leaves the others as they were, in order.
  pub evict_lowest-LeAll :
      (o : IsOrdered F f) (ccs : CommittedContextState F) (e : CommittedEntry F)
      (es : List (CommittedEntry F))
      → ccs.entries ≡ e ∷ es
      → Comparable (e ∷ es)
      → (x : CommittedEntry F) × (rest : List (CommittedEntry F)) × (evict_lowest ccs
          ≡ some (x, record ccs { entries = rest }))
        × Without x ccs.entries rest
        × LeAll x.score ccs.entries
  unfolding evict_lowest remove_at
  evict_lowest-LeAll o ccs e es h c =
      let (x, rest, p, w) = evict_lowest-Without ccs e es h in
      (
        x,
        rest,
        p,
        subst (λ l. Without x l rest) (sym h) w,
        subst (LeAll x.score) (sym h) (elim (lowest_index-Chosen o 0 1 e.score es c.0 c.1) [
          | inl (k, all) ↦
              let same : x ≡ e = ground (arith, remove_at-get_elem? 0 (e ∷ es) e x rest refl) in
              subst (λ (y : CommittedEntry F). LeAll y.score (e ∷ es)) (sym same)
                (o.le_refl e.score c.0, all)
          | inr (j, y, k, at, ny, y_le, all) ↦
              let same : x ≡ y = ground (arith, remove_at-get_elem? (suc j) (e ∷ es) y x rest at) in
              subst (λ (z : CommittedEntry F). LeAll z.score (e ∷ es)) (sym same) (y_le, all)
        ]),
      )

  -- What is at most every score is at most `lowest_score`.
  fold_lowest-le :
      (b current : F) (es : List (CommittedEntry F)) {s : F}
      → f.le b current ≡ true
      → f.is_nan current ≡ false
      → LeAll b es
      → Comparable es
      → fold_lowest (some current) es ≡ some s
      → (f.le b s ≡ true) × (f.is_nan s ≡ false)
  unfolding fold_lowest
  fold_lowest-le b current [] h n l c e = ground arith
  fold_lowest-le b current (e ∷ es) h n l c p =
      fold_lowest-le b (if f.le current e.score then current else e.score) es
        (if_cases (λ z. f.le b z ≡ true) (f.le current e.score) (λ _. h) (λ _. l.0))
        (if_cases (λ z. f.is_nan z ≡ false) (f.le current e.score) (λ _. n) (λ _. c.0)) l.1 c.1 p

  pub lowest_score-le :
      (b : F) (ccs : CommittedContextState F) {s : F}
      → LeAll b ccs.entries
      → Comparable ccs.entries
      → lowest_score ccs ≡ some s
      → (f.le b s ≡ true) × (f.is_nan s ≡ false)
  unfolding lowest_score
  lowest_score-le b ccs l c p = go ccs.entries l c p
    where
      go :
          (es : List (CommittedEntry F)) {s : F}
          → LeAll b es
          → Comparable es
          → fold_lowest none es ≡ some s
          → (f.le b s ≡ true) × (f.is_nan s ≡ false)
      go [] l c p = absurd (cc)
      go (e ∷ es) l c p = fold_lowest-le b e.score es l.0 c.0 l.1 c.1 p

  fold_lowest-total :
      (current : F) (es : List (CommittedEntry F))
      → (s : F) × (fold_lowest (some current) es ≡ some s)
  unfolding fold_lowest
  fold_lowest-total current [] = (current, refl)
  fold_lowest-total current (e ∷ es) =
      fold_lowest-total (if f.le current e.score then current else e.score) es

  -- A state with an entry has a lowest score.
  pub lowest_score-total :
      (ccs : CommittedContextState F) (e : CommittedEntry F) (es : List (CommittedEntry F))
      → ccs.entries ≡ e ∷ es
      → (s : F) × (lowest_score ccs ≡ some s)
  unfolding lowest_score fold_lowest
  lowest_score-total ccs e es h =
      let (s, p) = fold_lowest-total e.score es in (s, ap (fold_lowest none) h ∙ p)

  -- What `evict_lowest` has taken out scores at most what every entry does.
  pub evicted-LeAll :
      (o : IsOrdered F f) (ccs ccs' : CommittedContextState F) (x : CommittedEntry F)
      → Comparable ccs.entries
      → evict_lowest ccs ≡ some (x, ccs')
      → LeAll x.score ccs.entries
  unfolding evict_lowest
  evicted-LeAll o ccs ccs' x c h = elim (List-cases ccs.entries) [
    | inl p ↦ absurd (ground arith)
    | inr (e, es, p) ↦
        let (y, rest, q, w, l) = evict_lowest-LeAll o ccs e es p (subst Comparable p c) in
        let same : y ≡ x = cc in subst (λ (z : CommittedEntry F). LeAll z.score ccs.entries) same l
  ]

  fold_lowest-All :
      (P : F → Type 0) (current : F) (es : List (CommittedEntry F)) {s : F}
      → P current
      → All (λ e. P e.score) es
      → fold_lowest (some current) es ≡ some s
      → P s
  unfolding fold_lowest
  fold_lowest-All P current [] p all e = subst P (cc) p
  fold_lowest-All P current (x ∷ es) p all e =
      fold_lowest-All P (if f.le current x.score then current else x.score) es
        (if_cases P (f.le current x.score) (λ _. p) (λ _. all.0)) all.1 e

  -- What holds of every entry's score holds of the lowest.
  pub lowest_score-All :
      (P : F → Type 0) (ccs : CommittedContextState F) {s : F}
      → All (λ e. P e.score) ccs.entries
      → lowest_score ccs ≡ some s
      → P s
  unfolding lowest_score
  lowest_score-All P ccs all e = go ccs.entries all e
    where
      go :
          (es : List (CommittedEntry F)) {s : F}
          → All (λ e. P e.score) es
          → fold_lowest none es ≡ some s
          → P s
      go [] all e = absurd (cc)
      go (x ∷ es) all e = fold_lowest-All P x.score es all.0 all.1 e
