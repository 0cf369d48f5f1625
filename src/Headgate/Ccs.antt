-- ===== src/Headgate/Ccs.antt =====
-- The committed context state: crates/headgate/src/ccs.rs. A bounded list of entries, each filed
-- under a slot of the schema and costed in tokens.
pub mod Eviction
pub mod Lowest
use artesian.Base.{
  ℕ, zero, suc, ◌+◌, ◌-◌, String, Bool, true, false, ◌&&◌, not, Option, none, some, List, [], ◌∷◌,
  ◌++◌, map, length, any, filter, leb, str_eq, ◌==◌, if◌then◌else◌,
}
use artesian.Base.Floats.{Float}
use artesian.Headgate.Text.{TextOps, count_tokens, word_set}

pub record CcsSchema : Type 0 where
  pub slots : List String

pub record CommittedEntry (F : Type 0) : Type 0 where
  pub id : String
  pub slot : String
  pub content : String
  pub tokens : ℕ
  pub score : F
  pub committed_at : ℕ

pub record CommittedContextState (F : Type 0) : Type 0 where
  pub schema : CcsSchema
  pub budget_tokens : ℕ
  pub entries : List (CommittedEntry F)

unfoldable pub schema_contains : CcsSchema → String → Bool
unfolding any
schema_contains schema slot = any (λ candidate. str_eq candidate slot) schema.slots

unfoldable pub default_slot : CcsSchema → String
default_slot schema = elim schema.slots [ [] ↦ "fact" | slot ∷ _ ↦ slot ]

abbrev pub default_schema : CcsSchema
default_schema = record { slots = "decision" ∷ "constraint" ∷ "fact" ∷ "task-state" ∷ [] }

-- `committed_at` is the reading of the clock.
unfoldable pub new_entry :
    {F : Type 0} ⦃t : TextOps⦄ → String → String → String → F → ℕ → CommittedEntry F
new_entry id slot content score now = record {
  id = id;
  slot = slot;
  content = content;
  tokens = count_tokens content;
  score = score;
  committed_at = now;
}

module _ {F : Type 0} where
  unfoldable pub new_ccs : CcsSchema → ℕ → CommittedContextState F
  new_ccs schema budget_tokens = record {
    schema = schema;
    budget_tokens = budget_tokens;
    entries = [];
  }

  unfoldable pub sum_tokens : List (CommittedEntry F) → ℕ
  sum_tokens [] = 0
  sum_tokens (e ∷ es) = e.tokens + sum_tokens es

  unfoldable pub token_count : CommittedContextState F → ℕ
  unfolding sum_tokens
  token_count ccs = sum_tokens ccs.entries

  -- `saturating_sub`.
  unfoldable pub headroom : CommittedContextState F → ℕ
  unfolding token_count
  headroom ccs = ccs.budget_tokens - token_count ccs

  unfoldable pub is_saturated : CommittedContextState F → Bool
  unfolding token_count
  is_saturated ccs = leb ccs.budget_tokens (token_count ccs)

  unfoldable pub is_empty : CommittedContextState F → Bool
  is_empty ccs = length ccs.entries == 0

  unfoldable pub contains : CommittedContextState F → String → Bool
  unfolding any
  contains ccs id = any (λ e. str_eq e.id id) ccs.entries

  unfoldable pub admit : CommittedContextState F → CommittedEntry F → CommittedContextState F
  admit ccs entry = record ccs { entries = ccs.entries ++ entry ∷ [] }

-- `|left ∩ right| / |left ∪ right|`, 0 on two empty sets.
unfoldable pub jaccard : {F : Type 0} ⦃f : Float F⦄ → List String → List String → F
unfolding any filter
jaccard ⦃f⦄ left right =
    let intersection = length (filter (λ w. any (str_eq w) right) left) in
    let union = length left + length (filter (λ w. not (any (str_eq w) left)) right) in
    if union == 0 then f.zero else f.div (f.from_usize intersection) (f.from_usize union)

module _ {F : Type 0} ⦃f : Float F⦄ where
  -- The `fold` of `max_overlap` over the committed entries.
  unfoldable pub fold_overlap : ⦃t : TextOps⦄ → List String → F → List (CommittedEntry F) → F
  unfolding jaccard word_set
  fold_overlap candidate acc [] = acc
  fold_overlap candidate acc (e ∷ es) =
      fold_overlap candidate (f.max acc (jaccard candidate (word_set e.content))) es

  unfoldable pub max_overlap : ⦃t : TextOps⦄ → CommittedContextState F → String → F
  unfolding fold_overlap word_set
  max_overlap ccs content =
      let candidate = word_set content in
      if length candidate == 0 then f.zero else fold_overlap candidate f.zero ccs.entries

  -- `min_by` over `partial_cmp(..).unwrap_or(Equal)`: it moves to a later entry only if that one's
  -- score is below the best so far. The best is held with its place and the place of the next.
  unfoldable pub lowest_index : ℕ → F → ℕ → List (CommittedEntry F) → ℕ
  lowest_index best score i [] = best
  lowest_index best score i (e ∷ es) =
      let below = f.lt e.score score in
      lowest_index (if below then i else best) (if below then e.score else score) (suc i) es

  -- `Vec::remove`: the entry at the index, and the list without it.
  unfoldable pub remove_at :
      ℕ → List (CommittedEntry F) → Option (CommittedEntry F × List (CommittedEntry F))
  remove_at i [] = none
  remove_at zero (e ∷ es) = some (e, es)
  remove_at (suc i) (e ∷ es) = elim (remove_at i es) [
    | none ↦ none
    | some (x, rest) ↦ some (x, e ∷ rest)
  ]

  -- The result and the state after it.
  unfoldable pub evict_lowest :
      CommittedContextState F → Option (CommittedEntry F × CommittedContextState F)
  unfolding lowest_index remove_at
  evict_lowest ccs = elim ccs.entries [
    | [] ↦ none
    | e ∷ es ↦ elim (remove_at (lowest_index 0 e.score 1 es) (e ∷ es)) [
      | none ↦ none
      | some (x, rest) ↦ some (x, record ccs { entries = rest })
    ]
  ]

  unfoldable pub fold_lowest : Option F → List (CommittedEntry F) → Option F
  fold_lowest acc [] = acc
  fold_lowest none (e ∷ es) = fold_lowest (some e.score) es
  fold_lowest (some current) (e ∷ es) =
      fold_lowest (some (if f.le current e.score then current else e.score)) es

  unfoldable pub lowest_score : CommittedContextState F → Option F
  unfolding fold_lowest
  lowest_score ccs = fold_lowest none ccs.entries
