-- ===== src/Aquifer/Types.antt =====
-- The records that memories are made of: crates/aquifer/src/types.rs. An id is a text and a time a
-- number; the relations of a record and the telemetry of a hit are left out.
use artesian.Base.{ℕ, String, Bool, false, Option, none, List, []}

pub data MemoryTier : Type 0 where
  l0_raw l1_atom l2_scenario l3_project : MemoryTier

pub data MemoryScope : Type 0 where
  shared agent session task : MemoryScope

pub data MemoryState : Type 0 where
  active archived retracted : MemoryState

pub data SearchSource : Type 0 where
  keyword vector hybrid : SearchSource

pub record MemoryRecord : Type 0 where
  pub id : String
  pub node_id : String
  pub content : String
  pub tags : List String
  pub metadata : List (String × String)
  pub tier : MemoryTier
  pub created_at : ℕ
  pub scope : Option MemoryScope
  pub session_id : Option String
  pub project : Option String
  pub source : Option String
  pub last_access : Option ℕ
  pub access_count : ℕ
  pub useful_count : ℕ
  pub state : MemoryState

pub record SearchHit (F : Type 0) : Type 0 where
  pub record_of : MemoryRecord
  pub score : F
  pub source : SearchSource

pub record StoreMemory : Type 0 where
  pub content : String
  pub tags : List String
  pub metadata : List (String × String)
  pub tier : MemoryTier
  pub node_id : Option String
  pub scope : Option MemoryScope
  pub session_id : Option String
  pub project : Option String
  pub source : Option String

-- `StoreMemory::atom`.
abbrev pub atom : String → StoreMemory
atom content = record {
  content = content;
  tags = [];
  metadata = [];
  tier = l1_atom;
  node_id = none;
  scope = none;
  session_id = none;
  project = none;
  source = none;
}

pub record MemoryQuery : Type 0 where
  pub text : String
  pub limit : ℕ
  pub tags : List String
  pub node_id : Option String
  pub project : Option String
  pub include_archived : Bool

-- `MemoryQuery::new`, `with_limit`.
abbrev pub new_query : String → MemoryQuery
new_query text = record {
  text = text;
  limit = 10;
  tags = [];
  node_id = none;
  project = none;
  include_archived = false;
}

abbrev pub with_limit : MemoryQuery → ℕ → MemoryQuery
with_limit query limit = record query { limit = limit }
