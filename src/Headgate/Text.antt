-- ===== src/Headgate/Text.antt =====
-- The text services that headgate takes from elsewhere, and what it computes with them:
-- crates/headgate/src/metrics.rs (count_tokens) and the word sets of crates/headgate/src/ccs.rs.
use Prim.Native.String.{len, count}
use artesian.Base.{
  ℕ, ◌+◌, ◌-◌, ◌/◌, String, Option, none, some, List, [], ◌∷◌, any, filter, ltb, str_eq,
  if◌then◌else◌,
}

-- `tokenizer` is tiktoken's encoder with the length of its result, `none` if it cannot be loaded.
-- `lowercase` is `str::to_lowercase`, and `split_words` is `str::split` at what is not alphanumeric.
pub record TextOps : Type 0 where
  pub tokenizer : Option (String → ℕ)
  pub lowercase : String → String
  pub split_words : String → List String

abbrev pub div_ceil : ℕ → ℕ → ℕ
div_ceil a b = (a + b - 1) / b

unfoldable pub count_tokens : ⦃t : TextOps⦄ → String → ℕ
count_tokens ⦃t⦄ text = elim t.tokenizer [
  | some encode ↦ encode text
  | none ↦ div_ceil (count text) 4
]

-- A `BTreeSet<String>` is a list with no repetition: only its cardinality is read.
unfoldable pub dedup : List String → List String
dedup [] = []
dedup (x ∷ xs) = let rest = dedup xs in if any (str_eq x) rest then rest else x ∷ rest

unfoldable pub word_set : ⦃t : TextOps⦄ → String → List String
unfolding dedup filter any
word_set ⦃t⦄ text = dedup (filter (λ w. ltb 2 (len w)) (t.split_words (t.lowercase text)))
