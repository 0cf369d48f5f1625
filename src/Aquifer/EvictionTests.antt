-- ===== src/Aquifer/EvictionTests.antt =====
-- The eviction of memories at concrete inputs: strengths are numbers, of which 10 stands for 1.0.
use artesian.Base.{
  ℕ, ◌*◌, ◌/◌, ◌≤◌, ◌≡◌, refl, String, Bool, true, false, Option, none, some, List, [], ◌∷◌, any,
  filter,
}
use artesian.Base.Floats.{FloatMath}
use artesian.Base.Texts.{join, decimal}
use artesian.Aquifer.Types.{MemoryRecord, MemoryState, active, archived}
use artesian.Aquifer.RecallTests.{memory, recall_float}
use artesian.Aquifer.Decay.{DecayConfig, retrieval_strength}
use artesian.Aquifer.Eviction.{
  EvictionPolicy, is_active, archive_record, archive_where, hard_deletes, score_records,
  insert_scored, sort_scored, apply_ttl, apply_min_strength, apply_lru, count_remaining,
  evict_weakest, apply_max_keep, run_policies, evict,
}
use artesian.Aquifer.Eviction.Remaining.{run_policies-count_remaining}

instance abbrev eviction_math : FloatMath ℕ
eviction_math = record {
  exp = λ _. 5;
  neg = λ a. a;
  ln_2 = 7;
  literal = λ a b. a * 10 / b;
  fixed = λ _ _. "n";
}

abbrev decaying : DecayConfig ℕ
decaying = record { decay_enabled = true; half_life_days = 300; floor = 2; access_boost = 15 }

abbrev capped : Option ℕ → Bool → EvictionPolicy ℕ
capped max_keep hard = record {
  ttl_days = none;
  lru = false;
  min_strength = none;
  max_keep = max_keep;
  hard = hard;
  decay_config = decaying;
}

abbrev used : String → ℕ → MemoryState → MemoryRecord
used id useful state =
    let r = memory id "text" in
    record r { last_access = some 0; useful_count = useful; state = state }

abbrev remembered : List MemoryRecord
remembered = used "a" 9 active ∷ used "b" 0 active ∷ used "c" 0 archived ∷ memory "d" "text" ∷ []

program : Unit {0}
unfolding filter any join decimal retrieval_strength archive_record archive_where hard_deletes
    insert_scored sort_scored apply_ttl apply_min_strength apply_lru count_remaining evict_weakest
    apply_max_keep run_policies evict
program = tt

-- The two weakest of three active records are archived; the archived one is deleted.
archives_weakest :
    (run_policies (capped (some 1) true) 86400 remembered).archived_ids ≡ "b" ∷ "d" ∷ []
unfolding program
archives_weakest = refl

counts_actions : (evict (capped (some 1) true) 86400 remembered).deleted_count ≡ 1
unfolding program
counts_actions = refl

run_policies-count_remaining_example :
    count_remaining
      (run_policies (capped (some 1) true) 86400 remembered).archived_ids
      (score_records (capped (some 1) true) 86400 (filter (λ r. is_active r.state) remembered))
    ≤ 1
run_policies-count_remaining_example =
    run_policies-count_remaining (capped (some 1) true) 86400 1 remembered refl
