-- ===== src/Headgate/Gate/Default.antt =====
-- `DefaultQualifyGate` of crates/headgate/src/gate.rs: relevance, duplicates, redundancy, and the
-- routing of what qualifies to a slot.
use Prim.Native.String
use text.Mathlib.Text.{find?}
use artesian.Base.{
  String, Bool, true, false, not, ◌&&◌, none, some, List, [], ◌∷◌, any, if◌then◌else◌,
}
use artesian.Base.Floats.{Float}
use artesian.Headgate.Text.{TextOps}
use artesian.Headgate.Ccs.{
  CommittedContextState, schema_contains, default_slot, contains, max_overlap,
}
use artesian.Headgate.Gate.{
  RecallItem, QualifySignal, QualifyDecision, admit, reject, with_reason_code, with_audit,
  redundant, below_relevance_threshold,
}
use artesian.Headgate.Gate.Audit.{clamp, new_signal, from_signals}

pub record DefaultQualifyGate (F : Type 0) : Type 0 where
  pub min_score : F
  pub redundancy_threshold : F
  pub slot_keywords : List (String × List String)

abbrev pub default_slot_keywords : List (String × List String)
default_slot_keywords =
    ("decision", "decid" ∷ "chose" ∷ "chosen" ∷ "will use" ∷ "agreed" ∷ "selected" ∷ [])
    ∷ ("constraint", "must" ∷ "never" ∷ "always" ∷ "require" ∷ "cannot" ∷ "do not" ∷ [])
    ∷ ("task-state", "todo" ∷ "in progress" ∷ "blocked" ∷ "next step" ∷ "remaining" ∷ [])
    ∷ []

abbrev pub new_gate : {F : Type 0} → F → F → DefaultQualifyGate F
new_gate min_score redundancy_threshold = record {
  min_score = min_score;
  redundancy_threshold = redundancy_threshold;
  slot_keywords = default_slot_keywords;
}

-- `str::contains`.
unfoldable pub text_contains : String → String → Bool
text_contains text part = elim (find? text part) [ none ↦ false | some _ ↦ true ]

module _ {F : Type 0} where
  -- The first row of the table whose slot is in the schema and that has a keyword in the text.
  unfoldable pub route_rows :
      CommittedContextState F → String → List (String × List String) → String
  unfolding schema_contains default_slot any text_contains
  route_rows ccs lower [] = default_slot ccs.schema
  route_rows ccs lower ((slot, keywords) ∷ rows) =
      if schema_contains ccs.schema slot && any (text_contains lower) keywords
      then slot
      else route_rows ccs lower rows

  unfoldable pub route_slot :
      ⦃t : TextOps⦄ → DefaultQualifyGate F → RecallItem F → CommittedContextState F → String
  unfolding route_rows
  route_slot ⦃t⦄ gate item ccs = route_rows ccs (t.lowercase item.content) gate.slot_keywords

module _ {F : Type 0} ⦃f : Float F⦄ where
  unfoldable pub audit_signals :
      DefaultQualifyGate F → RecallItem F → Bool → F → List (QualifySignal F)
  unfolding clamp new_signal
  audit_signals gate item already_committed overlap =
      let novelty = clamp (f.sub f.one overlap) f.zero f.one in
      let novelty_threshold = clamp (f.sub f.one gate.redundancy_threshold) f.zero f.one in
      new_signal "relevance" item.score gate.min_score (f.le gate.min_score item.score)
      ∷ new_signal "uniqueness" (if already_committed then f.zero else f.one) f.half
          (not already_committed)
      ∷ new_signal "novelty" novelty novelty_threshold (f.lt overlap gate.redundancy_threshold)
      ∷ []

  unfoldable pub relevance_reason : F → F → String
  relevance_reason score min_score =
      String.◌++◌ "below relevance threshold ("
        (String.◌++◌ (f.show score) (String.◌++◌ " < " (String.◌++◌ (f.show min_score) ")")))

  unfoldable pub redundant_reason : F → F → String
  redundant_reason overlap threshold =
      String.◌++◌ "redundant (overlap "
        (String.◌++◌ (f.show overlap) (String.◌++◌ " >= " (String.◌++◌ (f.show threshold) ")")))

  unfoldable pub decide :
      ⦃t : TextOps⦄
      → DefaultQualifyGate F
      → RecallItem F
      → CommittedContextState F
      → QualifyDecision F
  unfolding contains max_overlap audit_signals from_signals admit reject with_reason_code with_audit
      route_slot
  decide gate item ccs =
      let already_committed = contains ccs item.id in
      let overlap = max_overlap ccs item.content in
      let signals = audit_signals gate item already_committed overlap in
      if f.lt item.score gate.min_score
      then with_audit
          (with_reason_code (reject (relevance_reason item.score gate.min_score) item.score)
            below_relevance_threshold)
          (from_signals false signals)
      else if already_committed
      then with_audit (with_reason_code (reject "already committed" item.score) redundant)
          (from_signals false signals)
      else if f.le gate.redundancy_threshold overlap
      then with_audit
          (with_reason_code (reject (redundant_reason overlap gate.redundancy_threshold) item.score)
            redundant)
          (from_signals false signals)
      else with_audit (admit (route_slot gate item ccs) item.score) (from_signals true signals)
