-- ===== src/Aquifer/RecallTests.antt =====
-- The choice of hits, the chunks and the reconciliation at concrete inputs: scores are numbers, and a
-- text is one word.
use Prim.Native.String.{String, count}
use artesian.Base.{
  ℕ, ◌+◌, ◌-◌, ◌*◌, ◌/◌, ◌≡◌, refl, true, false, none, some, List, [], ◌∷◌, any, find, filter, All,
  ltb, leb, arith, ◌⊎◌, if◌then◌else◌,
}
use artesian.Base.Floats.{Float}
use artesian.Base.Texts.{trim, trim_start, trim_end, join, take_chars}
use artesian.Headgate.Text.{TextOps, dedup, word_set}
use artesian.Headgate.Ccs.{jaccard}
use artesian.Headrace.Format.{strip_prefix}
use artesian.Aquifer.Types.{MemoryRecord, SearchHit, keyword, l1_atom, active}
use artesian.Aquifer.Mmr.{take_slots, pick, select, mmr_score, mmr_diversify}
use artesian.Aquifer.Mmr.Choice.{ChosenFrom, mmr_diversify-ChosenFrom}
use artesian.Aquifer.Chunking.{
  ChunkConfig, has_part, split_text, windows, split_parts, recursive_split, tail, merge_piece,
  merge_pieces, merge_with_overlap, lines, trim_hashes, is_heading, read_line, read_lines,
  markdown_sections, number_chunks, chunk_sections, max_chars_of, overlap_of, chunk_text,
}
use artesian.Aquifer.Chunking.Pieces.{AtMost, recursive_split-AtMost}
use artesian.Aquifer.Chunking.Sizes.{IsNumbered, chunk_text-IsNumbered}
use artesian.Aquifer.Reconcile.{
  ReconcileConfig, noop, to_ascii_lowercase, insert_text, sort_texts, dedup_after, dedup_texts,
  tokenize, walk, best_match, decide_on, reconcile_by, reconcile,
}
use artesian.Aquifer.Reconcile
use artesian.Aquifer.Reconcile.Overlap.{set_similarity, reconcile-set_similarity}

instance abbrev pub recall_float : Float ℕ
recall_float = record {
  lt = ltb;
  le = leb;
  is_nan = λ _. false;
  zero = 0;
  one = 10;
  half = 5;
  epsilon = 1;
  lowest = 0;
  from_usize = λ n. n * 10;
  add = λ a b. a + b;
  sub = λ a b. a - b;
  mul = λ a b. a * b;
  div = λ a b. a * 10 / b;
  mul_add = λ a b c. a * b + c;
  abs = λ a. a;
  min = λ a b. if ltb b a then b else a;
  max = λ a b. if ltb a b then b else a;
  show = λ _. "n";
}

instance abbrev one_word : TextOps
one_word = record { tokenizer = some count; lowercase = λ s. s; split_words = λ s. s ∷ [] }

program : Unit {0}
unfolding any find filter trim trim_start trim_end join take_chars dedup word_set jaccard
    strip_prefix take_slots pick select mmr_score mmr_diversify has_part split_text windows
    split_parts recursive_split tail merge_piece merge_pieces merge_with_overlap lines trim_hashes
    is_heading read_line read_lines markdown_sections number_chunks chunk_sections chunk_text
    to_ascii_lowercase insert_text sort_texts dedup_after dedup_texts tokenize walk
    Reconcile.jaccard best_match decide_on reconcile_by reconcile
program = tt

abbrev pub memory : String → String → MemoryRecord
memory id content = record {
  id = id;
  node_id = id;
  content = content;
  tags = [];
  metadata = [];
  tier = l1_atom;
  created_at = 0;
  scope = none;
  session_id = none;
  project = none;
  source = none;
  last_access = none;
  access_count = 0;
  useful_count = 0;
  state = active;
}

abbrev hit : String → String → ℕ → SearchHit ℕ
hit id content score = record { record_of = memory id content; score = score; source = keyword }

abbrev hits : List (SearchHit ℕ)
hits = hit "a" "deploy" 9 ∷ hit "b" "deploy" 8 ∷ hit "c" "rotate" 6 ∷ []

abbrev ids : List (SearchHit ℕ) → List String
ids [] = []
ids (h ∷ rest) = h.record_of.id ∷ ids rest

keeps_relevance : ids (mmr_diversify hits 2 10) ≡ "a" ∷ "b" ∷ []
unfolding program
keeps_relevance = refl

mmr_diversify-ChosenFrom_example : ChosenFrom hits 2 (mmr_diversify hits 2 10)
mmr_diversify-ChosenFrom_example = mmr_diversify-ChosenFrom hits 2 10

abbrev contents : List String → ℕ → List String
contents [] n = []
contents (x ∷ xs) n = x ∷ contents xs n

splits_at_words : recursive_split 11 4 "one two six" ≡ "one" ∷ "two" ∷ "six" ∷ []
unfolding program
splits_at_words = refl

recursive_split-AtMost_example : All (AtMost 4) (recursive_split 11 4 "one two six")
recursive_split-AtMost_example = recursive_split-AtMost 11 4 "one two six" (omega arith)

-- A chunk of seven characters where six are asked for: the overlap, a space and a piece.
overlap_exceeds : merge_with_overlap ("abcdef" ∷ "uvwx" ∷ []) 6 2 ≡ "abcdef" ∷ "ef uvwx" ∷ []
unfolding program
overlap_exceeds = refl

abbrev small : ChunkConfig
small = record { max_chars = 6; overlap_chars = 2 }

chunk_text-IsNumbered_example :
    IsNumbered (max_chars_of small) (overlap_of small) (chunk_text "# A\nabcdef uvwx" small)
    ⊎ ((chunk_sections
            (max_chars_of small)
            (overlap_of small)
            (markdown_sections "# A\nabcdef uvwx")
            []
          ≡ [])
        × (chunk_text "# A\nabcdef uvwx" small
            ≡ record { content = "# A\nabcdef uvwx"; index = 1; heading = none } ∷ []))
chunk_text-IsNumbered_example = chunk_text-IsNumbered "# A\nabcdef uvwx" small

abbrev reconciling : ReconcileConfig ℕ
reconciling = record { reconcile_on_write = true; similarity_threshold = 5; noop_threshold = 8 }

covers_same_word : reconcile "Deploy" (memory "old" "deploy" ∷ []) reconciling ≡ noop "old"
unfolding program
covers_same_word = refl

reconcile-set_similarity_example :
    reconcile "Deploy" (memory "old" "deploy" ∷ []) reconciling
    ≡ reconcile_by set_similarity "Deploy" (memory "old" "deploy" ∷ []) reconciling
reconcile-set_similarity_example =
    reconcile-set_similarity "Deploy" (memory "old" "deploy" ∷ []) reconciling
