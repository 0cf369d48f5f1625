-- ===== src/Flume/Memories.antt =====
-- The memories that the loop stores: loop_commit_turn, loop_store_skill, loop_store_spec and
-- loop_store_auto_invariants of crates/flume/src/loop_core.rs.
use Prim.Native.String
use artesian.Base.{
  ℕ, String, Bool, false, ◌||◌, Option, none, some, List, [], ◌∷◌, any, str_eq, if◌then◌else◌,
}
use artesian.Base.Results.{ok, err}
use artesian.Base.Texts.{join, decimal, is_empty}
use artesian.Aquifer.Types.{
  l0_raw, l2_scenario, l3_project, session, SearchHit, StoreMemory, atom, new_query, with_limit,
}
use artesian.Flume.Run.{FailedCheck, compact_inline, stable_content_hash, loop_auto_invariant_chars}
use artesian.Flume.Packet.{Backend}

-- `worker_cmd.unwrap_or("(poll)")`.
abbrev pub action_of : Option String → String
action_of none = "(poll)"
action_of (some cmd) = cmd

unfoldable pub turn_memory : String → ℕ → String → Option String → Bool → StoreMemory
turn_memory run_id turn goal worker_cmd goal_met =
    let content = join "" (
      "loop "
      ∷ run_id
      ∷ " turn "
      ∷ decimal turn
      ∷ ": ran `"
      ∷ action_of worker_cmd
      ∷ "` to verify `"
      ∷ goal
      ∷ "` -> "
      ∷ (if goal_met then "goal met" else "goal not met")
      ∷ []) in
    record (atom content) {
      tier = l0_raw;
      tags =
          "loop"
          ∷ run_id
          ∷ String.◌++◌ "turn-" (decimal turn)
          ∷ (if goal_met then "goal-met" else "goal-unmet")
          ∷ [];
      scope = some session;
      session_id = some run_id;
    }

unfoldable pub skill_memory : String → String → ℕ → StoreMemory
skill_memory goal worker_cmd turns =
    let content = join "" (
      "verified approach for `"
      ∷ goal
      ∷ "`: run `"
      ∷ worker_cmd
      ∷ "` (passed in "
      ∷ decimal turns
      ∷ " turn(s))"
      ∷ []) in
    record (atom content) { tier = l2_scenario; tags = "skill" ∷ "verified" ∷ [] }

unfoldable pub spec_memory : String → Option String → ℕ → StoreMemory
spec_memory goal worker_cmd turns =
    let content = join "" (
      "sharper spec for future runs: make `"
      ∷ goal
      ∷ "` pass without weakening the check; preserve project invariants and use `"
      ∷ action_of worker_cmd
      ∷ "` as the previously verified action."
      ∷ []) in
    record (atom content) {
      tier = l2_scenario;
      tags = "spec" ∷ "verified" ∷ [];
      metadata = ("turns", decimal turns) ∷ [];
    }

-- The text that an auto-invariant is known by.
abbrev pub shown_check : String → FailedCheck → String
shown_check goal failure =
    let check = compact_inline failure.output loop_auto_invariant_chars in
    if is_empty check then goal else check

unfoldable pub canonical_text : String → Option String → FailedCheck → String
canonical_text goal worker_cmd failure = join "" (
    "goal="
    ∷ goal
    ∷ "\naction="
    ∷ compact_inline (action_of worker_cmd) loop_auto_invariant_chars
    ∷ "\ncheck="
    ∷ shown_check goal failure
    ∷ [])

unfoldable pub invariant_memory : String → Option String → FailedCheck → String → StoreMemory
invariant_memory goal worker_cmd failure content_hash =
    let content = join "" (
      "auto-invariant: do not treat `"
      ∷ compact_inline (action_of worker_cmd) loop_auto_invariant_chars
      ∷ "` as complete until `"
      ∷ goal
      ∷ "` passes - it broke `"
      ∷ goal
      ∷ "` at turn "
      ∷ decimal failure.turn
      ∷ ": "
      ∷ shown_check goal failure
      ∷ []) in
    record (atom content) {
      tier = l3_project;
      tags = "invariant" ∷ "auto-invariant" ∷ [];
      node_id = some (String.◌++◌ "auto-invariant:" content_hash);
      metadata = ("content_hash", content_hash) ∷ [];
      source = some "artesian-loop";
    }

abbrev pub lookup : String → List (String × String) → Option String
lookup key [] = none
lookup key ((k, v) ∷ rest) = if str_eq k key then some v else lookup key rest

abbrev pub is_some_text : Option String → String → Bool
is_some_text none text = false
is_some_text (some found) text = str_eq found text

module _ {F S : Type 0} (backend : Backend F S) where
  unfoldable pub bears_hash : String → SearchHit F → Bool
  bears_hash content_hash hit =
      is_some_text (lookup "content_hash" hit.record_of.metadata) content_hash
      || str_eq hit.record_of.node_id (String.◌++◌ "auto-invariant:" content_hash)

  -- The node of that id, then a search for one with that hash, then the store.
  unfoldable pub loop_store_auto_invariant : S → String → Option String → FailedCheck → S
  unfolding bears_hash any
  loop_store_auto_invariant s goal worker_cmd failure =
      let canonical = canonical_text goal worker_cmd failure in
      let content_hash = stable_content_hash canonical in
      let memory = invariant_memory goal worker_cmd failure content_hash in
      elim (backend.get_node s (String.◌++◌ "auto-invariant:" content_hash)) [
        | some _ ↦ s
        | none ↦
            let query = record (with_limit (new_query canonical) 24) { tags = "invariant" ∷ [] } in
            let (s, found) = backend.find s query in
            elim found [
              | err _ ↦ backend.store s memory
              | ok hits ↦ if any (bears_hash content_hash) hits then s else backend.store s memory
            ]
      ]

  unfoldable pub loop_store_auto_invariants : S → String → Option String → List FailedCheck → S
  unfolding loop_store_auto_invariant
  loop_store_auto_invariants s goal worker_cmd [] = s
  loop_store_auto_invariants s goal worker_cmd (failure ∷ failures) =
      loop_store_auto_invariants (loop_store_auto_invariant s goal worker_cmd failure) goal
        worker_cmd failures

  abbrev pub store_skill_of : S → String → Option String → ℕ → S
  store_skill_of s goal none turn = s
  store_skill_of s goal (some cmd) turn = backend.store s (skill_memory goal cmd turn)

  -- What a verified run leaves behind: its approach, its sharper spec and its failures.
  unfoldable pub learn_from_run : S → String → Option String → ℕ → List FailedCheck → S
  unfolding loop_store_auto_invariants
  learn_from_run s goal worker_cmd turn failures =
      loop_store_auto_invariants
        (backend.store (store_skill_of s goal worker_cmd turn) (spec_memory goal worker_cmd turn))
        goal worker_cmd failures
