-- ===== src/Aquifer/Working.antt =====
-- The working memory of a session: crates/aquifer/src/working.rs. Of the memory that a summary is
-- stored as, only what is set there is kept.
use Prim.Native.String
use artesian.Base.{
  ℕ, zero, suc, ◌+◌, ◌-◌, ◌≡◌, refl, ap, ◌∙◌, String, Option, none, some, List, [], ◌∷◌, ◌++◌, map,
  length, length-append, leb, ◌==◌, arith, if◌then◌else◌, ◌≤◌,
}
use artesian.Aquifer.Types.{MemoryTier}

pub record WorkingTurn : Type 0 where
  pub role : String
  pub content : String
  pub timestamp : ℕ

pub data WorkingMemoryMode : Type 0 where
  buffer : WorkingMemoryMode
  sliding_window : ℕ → WorkingMemoryMode
  summary_buffer : ℕ → Option MemoryTier → WorkingMemoryMode

pub record Summary : Type 0 where
  pub content : String
  pub tier : MemoryTier
  pub tags : List String

pub record WorkingMemoryView : Type 0 where
  pub turns : List WorkingTurn
  pub pending_summary : Option Summary

pub record InMemoryWorkingMemory : Type 0 where
  pub mode : WorkingMemoryMode
  pub turns : List WorkingTurn

abbrev pub first_turns : ℕ → List WorkingTurn → List WorkingTurn
first_turns zero turns = []
first_turns (suc n) [] = []
first_turns (suc n) (turn ∷ turns) = turn ∷ first_turns n turns

abbrev pub turns_from : ℕ → List WorkingTurn → List WorkingTurn
turns_from zero turns = turns
turns_from (suc n) [] = []
turns_from (suc n) (turn ∷ turns) = turns_from n turns

-- `saturating_sub`.
unfoldable pub last_turns : List WorkingTurn → ℕ → List WorkingTurn
last_turns turns k = turns_from (length turns - k) turns

unfoldable pub visible_turns : InMemoryWorkingMemory → List WorkingTurn
visible_turns memory = elim memory.mode [
  | buffer ↦ memory.turns
  | sliding_window k ↦ last_turns memory.turns k
  | summary_buffer window _ ↦ last_turns memory.turns window
]

abbrev pub turn_line : WorkingTurn → String
turn_line turn = String.◌++◌ turn.role (String.◌++◌ ": " turn.content)

-- `join("\n")`.
abbrev pub join_lines : List String → String
join_lines [] = ""
join_lines (line ∷ []) = line
join_lines (line ∷ next ∷ lines) = String.◌++◌ line (String.◌++◌ "\n" (join_lines (next ∷ lines)))

abbrev pub summary_of : MemoryTier → List WorkingTurn → Summary
summary_of tier older = record {
  content = join_lines (map turn_line older);
  tier = tier;
  tags = "working-memory-summary" ∷ [];
}

unfoldable pub pending_summary : InMemoryWorkingMemory → Option Summary
pending_summary memory = elim memory.mode [
  | buffer ↦ none
  | sliding_window k ↦ none
  | summary_buffer window none ↦ none
  | summary_buffer window (some tier) ↦
      if leb (length memory.turns) window
      then none
      else some (summary_of tier (first_turns (length memory.turns - window) memory.turns))
]

unfoldable pub push : InMemoryWorkingMemory → WorkingTurn → InMemoryWorkingMemory
push memory turn = record memory { turns = memory.turns ++ turn ∷ [] }

unfoldable pub view : InMemoryWorkingMemory → WorkingMemoryView
view memory = record { turns = visible_turns memory; pending_summary = pending_summary memory }

unfoldable pub clear : InMemoryWorkingMemory → InMemoryWorkingMemory
clear memory = record memory { turns = [] }

first-from : (n : ℕ) (turns : List WorkingTurn) → first_turns n turns ++ turns_from n turns ≡ turns
first-from zero turns = refl
first-from (suc n) [] = refl
first-from (suc n) (turn ∷ turns) = ap (λ rest. turn ∷ rest) (first-from n turns)

length-turns_from :
    (n : ℕ) (turns : List WorkingTurn) → length (turns_from n turns) ≡ length turns - n
length-turns_from zero turns = omega arith
length-turns_from (suc n) [] = omega arith
length-turns_from (suc n) (turn ∷ turns) = omega (arith, length-turns_from n turns)

length-first_turns :
    (n : ℕ) (turns : List WorkingTurn) → n ≤ length turns → length (first_turns n turns) ≡ n
length-first_turns zero turns h = omega arith
length-first_turns (suc n) [] h = omega arith
length-first_turns (suc n) (turn ∷ turns) h =
    omega (arith, length-first_turns n turns (omega arith))

visible-summary :
    (memory : InMemoryWorkingMemory) (window : ℕ) (tier : MemoryTier)
    → memory.mode ≡ summary_buffer window (some tier)
    → visible_turns memory ≡ last_turns memory.turns window
unfolding visible_turns
visible-summary memory window tier mode = rw (visible_turns, mode) refl

pending-summary :
    (memory : InMemoryWorkingMemory) (window : ℕ) (tier : MemoryTier)
    → memory.mode ≡ summary_buffer window (some tier)
    → pending_summary memory ≡ (
        if leb (length memory.turns) window
        then none
        else some (summary_of tier (first_turns (length memory.turns - window) memory.turns)))
unfolding pending_summary
pending-summary memory window tier mode = rw (pending_summary, mode) refl

-- No older turns is the same as no more turns than the window has.
empty_or_not :
    (n window : ℕ) (turns : List WorkingTurn) (tier : MemoryTier)
    → n ≡ length turns - window
    → (if leb (length turns) window then none else some (summary_of tier (first_turns n turns))) ≡ (
        if length (first_turns n turns) == 0
        then none
        else some (summary_of tier (first_turns n turns)))
empty_or_not n window turns tier e = ground (arith, length-first_turns n turns (omega arith))

-- After a push, a memory that summarizes shows the last `window` turns, or all if there
-- are fewer, and its pending summary is of exactly the turns before those, in their order, and is
-- none if there are none.
pub view_covers :
    (memory : InMemoryWorkingMemory) (turn : WorkingTurn) (window : ℕ) (tier : MemoryTier)
    → memory.mode ≡ summary_buffer window (some tier)
    → (older : List WorkingTurn) × (older ++ (view (push memory turn)).turns
        ≡ memory.turns ++ turn ∷ [])
      × (length (view (push memory turn)).turns
          ≡ (if leb (length memory.turns + 1) window then length memory.turns + 1 else window))
      × ((view (push memory turn)).pending_summary
          ≡ (if length older == 0 then none else some (summary_of tier older)))
unfolding view push last_turns
view_covers memory turn window tier mode =
    let turns = memory.turns ++ turn ∷ [] in
    let n : ℕ = length turns - window in
    let older = first_turns n turns in
    let many = length-append memory.turns (turn ∷ []) in
    rw (visible-summary (push memory turn) window tier mode) (
      older,
      first-from n turns,
      ground (arith, length-turns_from n turns, many),
      pending-summary (push memory turn) window tier mode ∙ empty_or_not n window turns tier refl,
    )
