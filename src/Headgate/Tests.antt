-- ===== src/Headgate/Tests.antt =====
-- Headgate at concrete inputs: scores are numbers, a text has a token for each character, and the
-- words of a text are the text.
use Prim.Native.String.{count}
use artesian.Base.{
  ℕ, ◌+◌, ◌-◌, ◌*◌, ◌/◌, ◌<◌, ◌≡◌, refl, String, true, false, none, some, [], ◌∷◌, any, all, filter,
  ltb, leb, arith, if◌then◌else◌, ◌↔◌, All, ap, str_eq,
}
use artesian.Base.Floats.{Float, IsOrdered}
use artesian.Base.Results.{ok}
use artesian.Headgate.Text.{TextOps, count_tokens, dedup, word_set}
use artesian.Headgate.Ccs.{
  CommittedEntry, CommittedContextState, default_schema, schema_contains, default_slot, new_entry,
  token_count, sum_tokens, headroom, is_empty, contains, jaccard, fold_overlap, max_overlap,
  lowest_index, remove_at, evict_lowest, fold_lowest, lowest_score,
}
use artesian.Headgate.Ccs
use artesian.Headgate.Gate.{RecallItem, redundant}
use artesian.Headgate.Gate.Default.{
  new_gate, decide, route_slot, route_rows, text_contains, relevance_reason, redundant_reason,
}
use artesian.Headgate.Gate.Verdicts.{MaxReaches, Admissible, decide-Admissible}
use artesian.Headgate.Gate.Routing.{route_slot-schema_contains}
use artesian.Headgate.Controller.Budget.{IsBounded, cycle-IsBounded}
use artesian.Headgate.Controller.Accounting.{Accounted, cycle-Accounted}
use artesian.Headgate.Controller.Identities.{Distinct, decide-LooksForId, cycle-Distinct}
use artesian.Headgate.Controller.Evictions.{Drops, Stopped, evict_below-Drops}
use artesian.Headgate.Controller.Oversized.{consider_oversized}
use artesian.Headgate.Tier.{
  with_default_stakes, new_tier_config, TieredQualifyGate, qualify_with_stakes,
}
use artesian.Headgate.Tier.Cycles.{with_gate, cycle-qualify_with_stakes}
use artesian.Headgate.Compressor.{compress, extractive}
use artesian.Headgate.Compressor.Admits.{with_compressed, squeeze_candidate-extractive}
use artesian.Headgate.Controller.Reasons.{is_redundant_reason-decide}
use artesian.Headgate.Cycle.{Headgate, CycleState, GaugeMetrics, start_metrics, QualifyGate}
use artesian.Headgate.Controller.{
  is_redundant_reason, count_reject, record_reject, reject_candidate, admit_candidate, settle,
  keep_compressed, compress_to_fit, evict_once, evict_below, squeeze_candidate, fit_candidate,
  consider, run_candidates, start_state, finish, cycle,
}

instance abbrev nat_float : Float ℕ
nat_float = record {
  lt = ltb;
  le = leb;
  is_nan = λ _. false;
  zero = 0;
  one = 1;
  half = 0;
  epsilon = 0;
  lowest = 0;
  from_usize = λ n. n;
  add = λ a b. a + b;
  sub = λ a b. a - b;
  mul = λ a b. a * b;
  div = λ a b. a / b;
  mul_add = λ a b c. a * b + c;
  abs = λ a. a;
  min = λ a b. if ltb b a then b else a;
  max = λ a b. if ltb a b then b else a;
  show = λ _. "n";
}

nat-IsOrdered : IsOrdered ℕ nat_float
nat-IsOrdered = record {
  lt_of_not_le = λ a b _ _ h. ground arith;
  not_le_of_lt = λ a b _ _ h. ground arith;
  le_trans = λ a b c _ _ _ h k. ground arith;
  le_refl = λ a _. ground arith;
  le_of_lt = λ a b _ _ h. ground arith;
}

instance abbrev plain_text : TextOps
plain_text = record { tokenizer = some count; lowercase = λ s. s; split_words = λ s. s ∷ [] }

program : Unit {0}
unfolding any all filter count_tokens dedup word_set schema_contains default_slot new_entry
    token_count headroom is_empty contains jaccard fold_overlap max_overlap lowest_index remove_at
    evict_lowest fold_lowest lowest_score Ccs.admit decide route_slot route_rows text_contains
    count_reject record_reject reject_candidate admit_candidate settle keep_compressed
    compress_to_fit evict_once evict_below squeeze_candidate fit_candidate consider run_candidates
    start_state finish cycle relevance_reason redundant_reason is_redundant_reason
program = tt

abbrev entry : String → String → ℕ → CommittedEntry ℕ
entry id content score = record {
  id = id;
  slot = "fact";
  content = content;
  tokens = count content;
  score = score;
  committed_at = 0;
}

abbrev item : String → String → ℕ → RecallItem ℕ
item id content score = record { id = id; content = content; score = score; source = "store" }

-- Eight of ten tokens are used; the store answers with four candidates.
abbrev sample : Headgate ℕ
sample = record {
  recall = λ query limit.
      ok (item "a" "aaaa" 9 ∷ item "c" "cc" 1 ∷ item "d" "dddd" 4 ∷ item "e" "eeeeeeeeeeee" 9 ∷ []);
  gate = λ _ i ccs. decide (new_gate 2 1) i ccs;
  compressor = λ _ content target. ok "e";
  clock = λ n. n;
  ccs = record {
    schema = default_schema;
    budget_tokens = 10;
    entries = entry "a" "aaaa" 5 ∷ entry "b" "bbbb" 3 ∷ [];
  };
  config = record {
    budget_tokens = 10;
    recall_limit = 16;
    min_score = 2;
    redundancy_threshold = 1;
    compress_on_saturation = true;
    judge_tiering = none;
  };
  savings_collection = "notes";
  track_savings = true;
  savings_session_id = none;
  savings = [];
}

abbrev sample_metrics : GaugeMetrics
sample_metrics = record {
  candidates = 4;
  admitted = 2;
  rejected_relevance = 1;
  rejected_redundant = 1;
  rejected_saturated = 0;
  compressed = 1;
  evicted = 3;
  footprint_tokens = 1;
  budget_tokens = 10;
}

sample_returns : (cycle sample "query").1 ≡ ok sample_metrics
unfolding program
sample_returns = refl

sample-IsBounded : IsBounded 10 sample.ccs
unfolding token_count sum_tokens count_tokens
sample-IsBounded = record { budget = refl; within = omega arith; costed = (refl, (refl, tt)) }

cycle-IsBounded_example : IsBounded 10 (cycle sample "query").0.ccs
cycle-IsBounded_example = cycle-IsBounded sample "query" 10 sample-IsBounded

cycle-Accounted_example : Accounted sample (cycle sample "query").0 sample_metrics
cycle-Accounted_example = cycle-Accounted sample "query" sample_returns

texts_differ : ¬ (◌≡◌ {A = String} "b" "a")
texts_differ e = absurd (cc (ap (λ s. str_eq s "a") e))

sample-Distinct : Distinct sample.ccs.entries
sample-Distinct = ((λ e. texts_differ e, tt), (tt, tt))

cycle-Distinct_example : Distinct (cycle sample "query").0.ccs.entries
cycle-Distinct_example =
    cycle-Distinct sample "query" (decide-LooksForId (new_gate 2 1)) sample-Distinct

abbrev sample_state : CycleState ℕ
sample_state = record { ccs = sample.ccs; metrics = start_metrics 1 10; savings = [] }

evict_below-Drops_example :
    Drops 4 sample_state.ccs.entries (evict_below 2 6 4 sample_state).ccs.entries
    × Stopped 6 4 (evict_below 2 6 4 sample_state).ccs
evict_below-Drops_example = evict_below-Drops nat-IsOrdered 6 4 sample_state refl (refl, (refl, tt))

abbrev large_item : RecallItem ℕ
large_item = item "e" "eeeeeeeeeeee" 9

abbrev rigid : Headgate ℕ
rigid = record sample { config = record sample.config { compress_on_saturation = false } }

rigid_admits : (rigid.gate 0 large_item sample.ccs).admitted ≡ true
unfolding program
rigid_admits = refl

rigid_larger : 10 < count_tokens large_item.content
unfolding count_tokens
rigid_larger = omega arith

rigid_above :
    All (λ e. ltb e.score (rigid.gate 0 large_item sample.ccs).score ≡ true) sample.ccs.entries
unfolding program
rigid_above = (refl, (refl, tt))

consider_oversized_example :
    ((consider rigid 0 large_item sample_state).0.ccs.entries ≡ [])
    × ((consider rigid 0 large_item sample_state).0.metrics.evicted ≡ 0 + 2)
    × ((consider rigid 0 large_item sample_state).0.metrics.rejected_saturated ≡ 0 + 1)
    × ((consider rigid 0 large_item sample_state).0.metrics.admitted ≡ 0)
    × ((consider rigid 0 large_item sample_state).1 ≡ none)
consider_oversized_example =
    consider_oversized rigid 0 large_item sample_state refl rigid_admits rigid_larger rigid_above

nat_max : MaxReaches ℕ nat_float
nat_max bound a b = ground arith

decide-Admissible_example :
    ((decide (new_gate 2 1) large_item sample.ccs).admitted ≡ true)
    ↔ Admissible (new_gate 2 1) large_item sample.ccs
decide-Admissible_example = decide-Admissible (new_gate 2 1) large_item sample.ccs nat_max refl

rejected_known : (decide (new_gate 2 1) (item "a" "aaaa" 9) sample.ccs).admitted ≡ false
unfolding program
rejected_known = refl

is_redundant_reason-decide_example :
    (is_redundant_reason (decide (new_gate 2 1) (item "a" "aaaa" 9) sample.ccs).reason ≡ true)
    ↔ ((decide (new_gate 2 1) (item "a" "aaaa" 9) sample.ccs).reason_code ≡ redundant)
is_redundant_reason-decide_example =
    is_redundant_reason-decide (new_gate 2 1) (item "a" "aaaa" 9) sample.ccs rejected_known

route_slot-schema_contains_example :
    schema_contains default_schema (route_slot (new_gate 2 1) large_item sample.ccs) ≡ true
route_slot-schema_contains_example =
    route_slot-schema_contains (new_gate 2 1) large_item sample.ccs (λ e. cc)

abbrev cautious : QualifyGate ℕ
cautious i candidate ccs = decide (new_gate 8 1) candidate ccs

abbrev tiers : TieredQualifyGate ℕ
tiers = record {
  cheap_gate = λ i candidate ccs. decide (new_gate 2 1) candidate ccs;
  frontier_gate = cautious;
  config = with_default_stakes (new_tier_config "local" "remote" 7) 1;
}

cycle-qualify_with_stakes_example :
    let (after, result) = cycle (with_gate sample cautious) "query" in
    cycle (with_gate sample (qualify_with_stakes tiers 9)) "query"
    ≡ (with_gate after (qualify_with_stakes tiers 9), result)
cycle-qualify_with_stakes_example = cycle-qualify_with_stakes sample tiers 9 "query"

abbrev squeezer : Headgate ℕ
squeezer = record sample { compressor = extractive }

some_room : 0 < headroom sample_state.ccs
unfolding program
some_room = omega arith

large_over : headroom sample_state.ccs < count_tokens large_item.content
unfolding program
large_over = omega arith

empty_free : count_tokens "" ≡ 0
unfolding program
empty_free = refl

squeeze_candidate-extractive_example :
    squeeze_candidate squeezer 0 large_item (cautious 0 large_item sample.ccs) sample_state ≡ (
      admit_candidate squeezer 0 large_item
          (cautious 0 large_item sample.ccs)
          (compress large_item.content (headroom sample_state.ccs))
          (with_compressed sample_state),
      none,
    )
squeeze_candidate-extractive_example =
    squeeze_candidate-extractive squeezer 0 large_item (cautious 0 large_item sample.ccs)
      sample_state refl refl empty_free some_room large_over
