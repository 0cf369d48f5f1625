-- ===== src/Aquifer/Eviction.antt =====
-- The forgetting of memories: crates/aquifer/src/eviction.rs. A time is a number
-- of seconds. The order of strengths is that of numbers that are not NaN.
pub mod Remaining
use Prim.Native.String
use artesian.Base.{
  ℕ, zero, suc, ◌+◌, ◌-◌, ◌*◌, ◌/◌, ◌<◌, String, Bool, true, false, not, ◌&&◌, ◌||◌, Option, none,
  some, List, [], ◌∷◌, ◌++◌, map, filter, any, length, take, ltb, leb, ◌==◌, str_eq, if◌then◌else◌,
}
use artesian.Base.Floats.{Float, FloatMath}
use artesian.Base.Texts.{join, decimal}
use artesian.Aquifer.Types.{MemoryRecord, MemoryState, active, archived, retracted}
use artesian.Aquifer.Decay.{
  DecayConfig, is_some, retrieval_strength, age_in_days, utility_protected,
}

pub data EvictionAction : Type 0 where
  archive delete : EvictionAction

pub record EvictionLogEntry (F : Type 0) : Type 0 where
  pub ts : ℕ
  pub record_id : String
  pub node_id : String
  pub action : EvictionAction
  pub reason : String
  pub retrieval_strength : F

pub record EvictionPolicy (F : Type 0) : Type 0 where
  pub ttl_days : Option F
  pub lru : Bool
  pub min_strength : Option F
  pub max_keep : Option ℕ
  pub hard : Bool
  pub decay_config : DecayConfig F

pub record EvictionReport (F : Type 0) : Type 0 where
  pub archived_count : ℕ
  pub deleted_count : ℕ
  pub log_entries : List (EvictionLogEntry F)

-- The pass so far: the ids that are archived, in their order, and the log.
pub record Pass (F : Type 0) : Type 0 where
  pub archived_ids : List String
  pub log_entries : List (EvictionLogEntry F)

abbrev pub is_active : MemoryState → Bool
is_active active = true
is_active archived = false
is_active retracted = false

abbrev pub is_archived : MemoryState → Bool
is_archived active = false
is_archived archived = true
is_archived retracted = false

abbrev pub is_archive : EvictionAction → Bool
is_archive archive = true
is_archive delete = false

abbrev pub is_known : List String → MemoryRecord → Bool
is_known ids r = any (str_eq r.id) ids

-- Half of the records, at least one, and no more than there are.
abbrev pub lru_count : ℕ → ℕ
lru_count n = let half = (if ltb (n / 2) 1 then 1 else n / 2) in if ltb n half then n else half

module _ {F : Type 0} ⦃f : Float F⦄ ⦃m : FloatMath F⦄ where
  abbrev pub entry_for : ℕ → MemoryRecord → EvictionAction → String → F → EvictionLogEntry F
  entry_for now r action reason strength = record {
    ts = now;
    record_id = r.id;
    node_id = r.node_id;
    action = action;
    reason = reason;
    retrieval_strength = strength;
  }

  -- The entry of a record that is archived, where its id was not yet.
  unfoldable pub archive_record : ℕ → MemoryRecord → String → F → Pass F → Pass F
  unfolding any
  archive_record now r reason strength pass =
      if is_known pass.archived_ids r then pass else record {
        archived_ids = pass.archived_ids ++ r.id ∷ [];
        log_entries = pass.log_entries ++ entry_for now r archive reason strength ∷ [];
      }

  -- A policy's pass over the records: those that it picks are archived, with its reason.
  unfoldable pub archive_where :
      ℕ
      → (MemoryRecord → F → Bool)
      → (MemoryRecord → F → String)
      → List (MemoryRecord × F)
      → Pass F
      → Pass F
  unfolding archive_record
  archive_where now picks reason [] pass = pass
  archive_where now picks reason ((r, strength) ∷ rest) pass =
      archive_where now picks reason rest
        (if picks r strength then archive_record now r (reason r strength) strength pass else pass)

  unfoldable pub hard_deletes : EvictionPolicy F → ℕ → List MemoryRecord → List (EvictionLogEntry F)
  hard_deletes policy now [] = []
  hard_deletes policy now (r ∷ records) =
      let rest = hard_deletes policy now records in
      if is_archived r.state
      then entry_for now r delete "hard delete of already-archived record"
          (retrieval_strength r policy.decay_config now)
        ∷ rest
      else rest

  abbrev pub score_records : EvictionPolicy F → ℕ → List MemoryRecord → List (MemoryRecord × F)
  score_records policy now [] = []
  score_records policy now (r ∷ records) =
      (r, retrieval_strength r policy.decay_config now) ∷ score_records policy now records

  -- `sort_by` with a `partial_cmp` that takes NaN as equal to all: the order of strengths that are not NaN,
  -- where the sort is stable. With a NaN strength the comparison is no total order, and the code may
  -- order otherwise or panic.
  unfoldable pub insert_scored :
      MemoryRecord × F → List (MemoryRecord × F) → List (MemoryRecord × F)
  insert_scored x [] = x ∷ []
  insert_scored x (y ∷ ys) =
      let rest = insert_scored x ys in if f.lt y.1 x.1 then y ∷ rest else x ∷ y ∷ ys

  unfoldable pub sort_scored : List (MemoryRecord × F) → List (MemoryRecord × F)
  unfolding insert_scored
  sort_scored [] = []
  sort_scored (x ∷ xs) = insert_scored x (sort_scored xs)

  unfoldable pub apply_ttl : EvictionPolicy F → ℕ → List (MemoryRecord × F) → Pass F → Pass F
  unfolding archive_where
  apply_ttl policy now scored pass = elim policy.ttl_days [
    | none ↦ pass
    | some ttl ↦
        archive_where now
          (λ r strength. f.lt ttl (age_in_days r now) && not (utility_protected r strength))
          (λ r _.
            join ""
              ("TTL: age " ∷ m.fixed 1 (age_in_days r now) ∷ "d > ttl " ∷ f.show ttl ∷ "d" ∷ []))
          scored pass
  ]

  unfoldable pub apply_min_strength :
      EvictionPolicy F → ℕ → List (MemoryRecord × F) → Pass F → Pass F
  unfolding archive_where
  apply_min_strength policy now scored pass = elim policy.min_strength [
    | none ↦ pass
    | some least ↦
        archive_where now (λ _ strength. f.lt strength least)
          (λ _ strength. join "" (
            "min-strength: strength "
            ∷ m.fixed 3 strength
            ∷ " < threshold "
            ∷ m.fixed 3 least
            ∷ []))
          scored pass
  ]

  unfoldable pub apply_lru : EvictionPolicy F → ℕ → List (MemoryRecord × F) → Pass F → Pass F
  unfolding archive_where
  apply_lru policy now scored pass =
      if policy.lru && not (is_some policy.max_keep)
      then archive_where now (λ _ _. true)
          (λ _ strength. String.◌++◌ "LRU: lowest retrieval strength " (m.fixed 3 strength))
          (take (lru_count (length scored)) scored) pass
      else pass

  unfoldable pub count_remaining : List String → List (MemoryRecord × F) → ℕ
  unfolding any
  count_remaining ids [] = 0
  count_remaining ids ((r, _) ∷ rest) =
      if is_known ids r then count_remaining ids rest else suc (count_remaining ids rest)

  -- The weakest records, until as many are archived as there are too many.
  unfoldable pub evict_weakest : ℕ → (F → String) → ℕ → List (MemoryRecord × F) → Pass F → Pass F
  unfolding archive_record any
  evict_weakest now reason to_evict [] pass = pass
  evict_weakest now reason zero (x ∷ rest) pass = pass
  evict_weakest now reason (suc left) ((r, strength) ∷ rest) pass =
      elim (is_known pass.archived_ids r) [
        | true ↦ evict_weakest now reason (suc left) rest pass
        | false ↦
            evict_weakest now reason left rest
              (archive_record now r (reason strength) strength pass)
      ]

  abbrev pub max_keep_reason : ℕ → ℕ → F → String
  max_keep_reason remaining max_keep strength = join "" (
      "max-keep: "
      ∷ decimal remaining
      ∷ " active > "
      ∷ decimal max_keep
      ∷ " cap, strength="
      ∷ m.fixed 3 strength
      ∷ [])

  unfoldable pub apply_max_keep : EvictionPolicy F → ℕ → List (MemoryRecord × F) → Pass F → Pass F
  unfolding evict_weakest count_remaining
  apply_max_keep policy now scored pass = elim policy.max_keep [
    | none ↦ pass
    | some max_keep ↦
        let remaining = count_remaining pass.archived_ids scored in
        if ltb max_keep remaining
        then evict_weakest now (max_keep_reason remaining max_keep) (remaining - max_keep) scored
            pass
        else pass
  ]

  -- The passes of the policies, from what is hard-deleted on.
  unfoldable pub run_policies : EvictionPolicy F → ℕ → List MemoryRecord → Pass F
  unfolding apply_ttl apply_min_strength apply_lru apply_max_keep sort_scored hard_deletes filter
  run_policies policy now records =
      let deleted = (if policy.hard then hard_deletes policy now records else []) in
      let scored = score_records policy now (filter (λ r. is_active r.state) records) in
      let start : Pass F = record { archived_ids = []; log_entries = deleted } in
      let pass = apply_min_strength policy now scored (apply_ttl policy now scored start) in
      let scored = (if policy.lru || is_some policy.max_keep then sort_scored scored else scored) in
      apply_max_keep policy now scored (apply_lru policy now scored pass)

  unfoldable pub evict : EvictionPolicy F → ℕ → List MemoryRecord → EvictionReport F
  unfolding run_policies
  evict policy now records =
      let log = (run_policies policy now records).log_entries in
      record {
        archived_count = length (filter (λ e. is_archive e.action) log);
        deleted_count = length (filter (λ e. not (is_archive e.action)) log);
        log_entries = log;
      }
