-- ===== src/Headgate/Gate/Verdicts.antt =====
-- What the default gate of crates/headgate/src/gate.rs admits, in terms of the committed entries one
-- by one: the overlap that it tests is the largest over all of them.
use artesian.Base.{
  ◌≡◌, ◌≢◌, ◌⊎◌, ◌↔◌, refl, inl, inr, String, true, false, List, [], ◌∷◌, length, All, any, str_eq,
  eq_iff, ◌==◌, arith, if◌then◌else◌, Bool-cases,
}
use artesian.Base.Floats.{Float}
use artesian.Headgate.Text.{TextOps, word_set}
use artesian.Headgate.Ccs.{
  CommittedEntry, CommittedContextState, contains, jaccard, fold_overlap, max_overlap,
}
use artesian.Headgate.Gate.{RecallItem}
use artesian.Headgate.Gate.Default.{DefaultQualifyGate, decide}

-- `f32::max` gives the larger of its arguments, and the other one where one is NaN; a comparison with
-- NaN fails. So the maximum reaches a bound exactly if one of the two reaches it.
abbrev pub MaxReaches : (F : Type 0) → Float F → Type 0
MaxReaches F f =
    (bound a b : F) → f.le bound (f.max a b) ≡ (if f.le bound a then true else f.le bound b)

module _ {F : Type 0} ⦃f : Float F⦄ ⦃t : TextOps⦄ where
  -- The words of a candidate overlap an entry's by less than a bound.
  abbrev pub Below : F → List String → CommittedEntry F → Type 0
  Below bound words e = f.le bound (jaccard words (word_set e.content)) ≡ false

  fold_overlap-Below :
      MaxReaches F f
      → (bound : F) (words : List String) (acc : F) (es : List (CommittedEntry F))
      → (f.le bound (fold_overlap words acc es) ≡ false)
        ↔ ((f.le bound acc ≡ false) × All (Below bound words) es)
  unfolding fold_overlap
  fold_overlap-Below reaches bound words acc [] = (λ h. (h, tt), λ h. h.0)
  fold_overlap-Below reaches bound words acc (e ∷ es) =
      let next = jaccard words (word_set e.content) in
      let (to, from) = fold_overlap-Below reaches bound words (f.max acc next) es in
      let both = reaches bound acc next in
      (
        λ h.
            let (start, rest) = to h in
            (ground (arith, both, start), (ground (arith, both, start), rest)),
        λ h. from (ground (arith, both, h.0, h.1.0), h.1.1),
      )

  max_overlap-Below :
      MaxReaches F f
      → (bound : F) (ccs : CommittedContextState F) (content : String) → f.le bound f.zero ≡ false
      → (f.le bound (max_overlap ccs content) ≡ false)
        ↔ ((length (word_set content) ≡ 0) ⊎ All (Below bound (word_set content)) ccs.entries)
  unfolding max_overlap
  max_overlap-Below reaches bound ccs content positive =
      let words = word_set content in
      let (to, from) = fold_overlap-Below reaches bound words f.zero ccs.entries in
      elim (Bool-cases (length words == 0)) [
        | inl none_there ↦ rw none_there (λ _. inl (ground (arith, none_there)), λ _. positive)
        | inr some_there ↦ rw some_there (
          λ h. inr (to h).1,
          λ h. elim h [
            | inl e ↦ absurd (ground (arith, some_there, e))
            | inr all ↦ from (positive, all)
          ],
        )
      ]

  contains_none :
      (id : String) (es : List (CommittedEntry F))
      → (any (λ e. str_eq e.id id) es ≡ false) ↔ All (λ e. e.id ≢ id) es
  unfolding any
  contains_none id [] = (λ _. tt, λ _. refl)
  contains_none id (e ∷ es) =
      let (to, from) = contains_none id es in
      let same = eq_iff e.id id in
      (
        λ h. (λ k. absurd (ground (arith, same)), to (ground arith)),
        λ h. ground (arith, same, from h.1, h.0),
      )

  -- What makes a candidate one that the default gate admits.
  pub record Admissible (gate : DefaultQualifyGate F) (item : RecallItem F)
      (ccs : CommittedContextState F) : Type 0 where
    pub relevant : f.lt item.score gate.min_score ≡ false
    pub uncommitted : All (λ e. e.id ≢ item.id) ccs.entries
    pub novel :
        (length (word_set item.content) ≡ 0)
        ⊎ All (Below gate.redundancy_threshold (word_set item.content)) ccs.entries

  decide_cases :
      (gate : DefaultQualifyGate F) (item : RecallItem F) (ccs : CommittedContextState F)
      → ((decide gate item ccs).admitted ≡ true) ↔ (
          (f.lt item.score gate.min_score ≡ false)
          × (contains ccs item.id ≡ false)
          × (f.le gate.redundancy_threshold (max_overlap ccs item.content) ≡ false))
  unfolding decide
  decide_cases gate item ccs = ground arith

  -- With a redundancy threshold above zero, and a maximum that reaches a bound exactly if one of its
  -- arguments does, the default gate admits a candidate exactly if its score is
  -- not below the threshold of relevance (a NaN score is not), no committed entry has its id, and
  -- either it has no words or its words overlap those of each committed entry, one by one, by less
  -- than the redundancy threshold.
  pub decide-Admissible :
      (gate : DefaultQualifyGate F) (item : RecallItem F) (ccs : CommittedContextState F)
      → MaxReaches F f
      → f.le gate.redundancy_threshold f.zero ≡ false
      → ((decide gate item ccs).admitted ≡ true) ↔ Admissible gate item ccs
  unfolding contains
  decide-Admissible gate item ccs reaches positive =
      let (admits, admitted) = decide_cases gate item ccs in
      let (fresh, known) = contains_none item.id ccs.entries in
      let (novel, overlaps) =
        max_overlap-Below reaches gate.redundancy_threshold ccs item.content positive in
      (
        λ h.
            let (relevant, absent, low) = admits h in
            record { relevant = relevant; uncommitted = fresh absent; novel = novel low },
        λ h. admitted (h.relevant, known h.uncommitted, overlaps h.novel),
      )
