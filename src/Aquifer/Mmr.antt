-- ===== src/Aquifer/Mmr.antt =====
-- The choice of hits that are relevant and not alike: crates/aquifer/src/mmr.rs. Its word sets and
-- their overlap are computed as those of crates/headgate/src/ccs.rs are.
pub mod Positions
pub mod Choice
use artesian.Base.{
  ℕ, zero, suc, String, not, Option, none, some, List, [], ◌∷◌, ◌++◌, map, length, get_elem?, take,
  range, filter, ltb, leb, ◌==◌, ◌||◌, if◌then◌else◌,
}
use artesian.Base.Floats.{Float}
use artesian.Headgate.Text.{TextOps, word_set}
use artesian.Headgate.Ccs.{jaccard}
use artesian.Aquifer.Types.{SearchHit}

-- `f32::clamp`.
abbrev pub clamp : {F : Type 0} ⦃f : Float F⦄ → F → F → F → F
clamp ⦃f⦄ low high x = if f.lt x low then low else if f.lt high x then high else x

-- `Option::take` of a slot.
abbrev pub slot_at {ℓ} : {A : Type ℓ} → List (Option A) → ℕ → Option A
slot_at [] i = none
slot_at (x ∷ xs) zero = x
slot_at (x ∷ xs) (suc i) = slot_at xs i

abbrev pub clear_slot {ℓ} : {A : Type ℓ} → ℕ → List (Option A) → List (Option A)
clear_slot i [] = []
clear_slot zero (x ∷ xs) = none ∷ xs
clear_slot (suc i) (x ∷ xs) = x ∷ clear_slot i xs

unfoldable pub take_slots {ℓ} : {A : Type ℓ} → List (Option A) → List ℕ → List A
take_slots slots [] = []
take_slots slots (i ∷ rest) = elim (slot_at slots i) [
  | none ↦ take_slots (clear_slot i slots) rest
  | some x ↦ x ∷ take_slots (clear_slot i slots) rest
]

module _ {F : Type 0} ⦃f : Float F⦄ where
  -- The first candidate of the highest score, where some score is above `best_score`.
  unfoldable pub pick : (ℕ → F) → ℕ → F → List ℕ → ℕ
  pick mmr best best_score [] = best
  pick mmr best best_score (candidate ∷ rest) =
      let better = f.lt best_score (mmr candidate) in
      pick mmr (if better then candidate else best) (if better then mmr candidate else best_score)
        rest

  -- The loop that selects, on fuel: each round takes one of what remains.
  unfoldable pub select : ℕ → (List ℕ → ℕ → F) → ℕ → List ℕ → List ℕ → List ℕ
  unfolding pick filter
  select zero mmr limit selected remaining = selected
  select (suc fuel) mmr limit selected [] = selected
  select (suc fuel) mmr limit selected (first ∷ rest) =
      let best = pick (mmr selected) first f.lowest (first ∷ rest) in
      let more =
        select fuel mmr limit (selected ++ best ∷ [])
          (filter (λ index. not (index == best)) (first ∷ rest)) in
      if ltb (length selected) limit then more else selected

  abbrev pub max_score : F → List (SearchHit F) → F
  max_score top [] = top
  max_score top (hit ∷ hits) = max_score (f.max top hit.score) hits

  -- `relevance[candidate]` and `word_sets[candidate]`.
  abbrev pub relevance_at : F → List (SearchHit F) → ℕ → F
  relevance_at denom hits candidate = elim (get_elem? hits candidate) [
    | none ↦ f.zero
    | some hit ↦ f.div hit.score denom
  ]

  abbrev pub words_at : ⦃t : TextOps⦄ → List (SearchHit F) → ℕ → List String
  words_at hits candidate = elim (get_elem? hits candidate) [
    | none ↦ []
    | some hit ↦ word_set hit.record_of.content
  ]

  abbrev pub max_similarity : ⦃t : TextOps⦄ → List (SearchHit F) → ℕ → F → List ℕ → F
  max_similarity hits candidate top [] = top
  max_similarity hits candidate top (chosen ∷ rest) =
      max_similarity hits candidate
        (f.max top (jaccard (words_at hits candidate) (words_at hits chosen))) rest

  unfoldable pub mmr_score : ⦃t : TextOps⦄ → F → List (SearchHit F) → List ℕ → ℕ → F
  mmr_score lambda hits selected candidate =
      let denom = f.max (f.abs (max_score f.lowest hits)) f.epsilon in
      f.sub (f.mul lambda (relevance_at denom hits candidate))
        (f.mul (f.sub f.one lambda) (max_similarity hits candidate f.zero selected))

  unfoldable pub mmr_diversify : ⦃t : TextOps⦄ → List (SearchHit F) → ℕ → F → List (SearchHit F)
  unfolding select take_slots mmr_score
  mmr_diversify hits limit lambda =
      if leb (length hits) 1 || leb limit 1
      then take limit hits
      else take_slots (map some hits) (
          select (length hits) (mmr_score (clamp f.zero f.one lambda) hits) limit []
            (range 0 (length hits)))

  unfoldable pub mmr_diversify_when_large :
      ⦃t : TextOps⦄ → List (SearchHit F) → ℕ → F → ℕ → List (SearchHit F)
  unfolding mmr_diversify
  mmr_diversify_when_large hits limit lambda min_candidates =
      if ltb (length hits) (if ltb min_candidates 1 then 1 else min_candidates)
      then take limit hits
      else mmr_diversify hits limit lambda
