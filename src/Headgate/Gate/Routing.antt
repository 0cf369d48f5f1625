-- ===== src/Headgate/Gate/Routing.antt =====
-- Where the default gate of crates/headgate/src/gate.rs files what it admits, and the wire form of
-- the reason codes.
use text.Mathlib.TextPositions.{eq_refl}
use artesian.Base.{
  ◌≡◌, ◌≢◌, refl, inl, inr, String, true, ◌&&◌, List, [], ◌∷◌, arith, any, if_cases, eq_iff,
  List-cases,
}
use artesian.Headgate.Text.{TextOps}
use artesian.Headgate.Ccs.{CommittedContextState, CcsSchema, schema_contains, default_slot}
use artesian.Headgate.Gate.{
  RecallItem, ReasonCode, qualified, below_relevance_threshold, redundant, stale_version,
  budget_saturated, drift, gate_rejected, other, as_str, from_wire,
}
use artesian.Headgate.Gate.Default.{DefaultQualifyGate, route_rows, route_slot, text_contains}

default_slot-schema_contains :
    (s : CcsSchema) → s.slots ≢ [] → schema_contains s (default_slot s) ≡ true
unfolding schema_contains default_slot
default_slot-schema_contains s h = elim (List-cases s.slots) [
  | inl n ↦ absurd (h n)
  | inr (slot, rest, e) ↦ ground (arith, eq_refl slot)
]

route_rows-schema_contains :
    {F : Type 0} (ccs : CommittedContextState F) (lower : String)
    (rows : List (String × List String))
    → ccs.schema.slots ≢ []
    → schema_contains ccs.schema (route_rows ccs lower rows) ≡ true
unfolding route_rows
route_rows-schema_contains ccs lower [] h = default_slot-schema_contains ccs.schema h
route_rows-schema_contains ccs lower ((slot, keywords) ∷ rows) h =
    if_cases (λ s. schema_contains ccs.schema s ≡ true)
      (schema_contains ccs.schema slot && any (text_contains lower) keywords) (λ e. ground arith)
      (λ _. route_rows-schema_contains ccs lower rows h)

-- Under a schema that has a slot, whatever the keyword table, a candidate is routed to a slot of
-- the schema.
pub route_slot-schema_contains :
    {F : Type 0} ⦃t : TextOps⦄ (gate : DefaultQualifyGate F) (item : RecallItem F)
    (ccs : CommittedContextState F)
    → ccs.schema.slots ≢ []
    → schema_contains ccs.schema (route_slot gate item ccs) ≡ true
unfolding route_slot
route_slot-schema_contains gate item ccs h = route_rows-schema_contains ccs _ gate.slot_keywords h

-- The named codes.
abbrev pub IsNamed : ReasonCode → Type 0
IsNamed (other text) = ⊥
IsNamed _ = Unit

as_str-from_wire : (value : String) → as_str (from_wire value) ≡ value
unfolding from_wire as_str
as_str-from_wire value = ground (
  arith,
  eq_iff value "qualified",
  eq_iff value "below_relevance_threshold",
  eq_iff value "redundant",
  eq_iff value "stale_version",
  eq_iff value "budget_saturated",
  eq_iff value "drift",
  eq_iff value "gate_rejected",
)

from_wire-as_str : (c : ReasonCode) → IsNamed c → from_wire (as_str c) ≡ c
unfolding from_wire as_str
from_wire-as_str qualified n = refl
from_wire-as_str below_relevance_threshold n = refl
from_wire-as_str redundant n = refl
from_wire-as_str stale_version n = refl
from_wire-as_str budget_saturated n = refl
from_wire-as_str drift n = refl
from_wire-as_str gate_rejected n = refl
from_wire-as_str (other text) n = absurd n

-- Every text on the wire, known or not, is read to a code that is written back as that text, and
-- every named code is read back as itself.
pub wire_roundtrip :
    (value : String) (c : ReasonCode)
    → IsNamed c
    → (as_str (from_wire value) ≡ value) × (from_wire (as_str c) ≡ c)
wire_roundtrip value c n = (as_str-from_wire value, from_wire-as_str c n)
