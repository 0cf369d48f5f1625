-- ===== src/Flume/Packet.antt =====
-- The memory that a turn reads: loop_recall_query, packet_tag_section and assemble_goal_packet of
-- crates/flume/src/loop_core.rs, over a memory backend.
use Prim.Native.String
use artesian.Base.{ℕ, String, Option, none, some, List, [], ◌∷◌, ◌++◌, if◌then◌else◌}
use artesian.Base.Floats.{Float}
use artesian.Base.Results.{Result, ok, err}
use artesian.Base.Texts.{join, take_chars, replace_char, is_empty}
use artesian.Headgate.Text.{TextOps}
use artesian.Aquifer.Types.{
  MemoryRecord, SearchHit, StoreMemory, MemoryQuery, new_query, with_limit,
}
use artesian.Aquifer.Mmr.{mmr_diversify}
use artesian.Flume.Run.{loop_last_check_chars}

-- The calls of a memory backend that the loop makes; the state of the world stands for the memory.
pub record Backend (F S : Type 0) : Type 0 where
  pub find : S → MemoryQuery → S × Result String (List (SearchHit F))
  pub get_node : S → String → Option MemoryRecord
  pub store : S → StoreMemory → S

abbrev pub loop_recall_limit : ℕ
loop_recall_limit = 5

abbrev pub loop_goal_invariant_limit : ℕ
loop_goal_invariant_limit = 8

abbrev pub loop_goal_skill_limit : ℕ
loop_goal_skill_limit = 2

-- `content.replace('\n', " ")`.
abbrev pub one_line : String → String
one_line content = replace_char 10 " " content

abbrev pub check_section : Option String → List String
check_section none = []
check_section (some check) =
    if is_empty check
    then []
    else String.◌++◌ "# Last failed check\n" (take_chars loop_last_check_chars check) ∷ []

abbrev pub recall_section : String → List String
recall_section recall =
    if is_empty recall then [] else String.◌++◌ "# Relevant memory\n" recall ∷ []

module _ {F : Type 0} where
  unfoldable pub recall_lines : List (SearchHit F) → List String
  recall_lines [] = []
  recall_lines (hit ∷ hits) =
      String.◌++◌ "- " (take_chars 280 (one_line hit.record_of.content)) ∷ recall_lines hits

  unfoldable pub section_lines : List (SearchHit F) → List String
  section_lines [] = []
  section_lines (hit ∷ hits) =
      String.◌++◌ "- " (one_line hit.record_of.content) ∷ section_lines hits

  abbrev pub titled : String → List (SearchHit F) → List String
  titled title [] = []
  titled title (hit ∷ hits) =
      join "" ("# " ∷ title ∷ "\n" ∷ join "\n" (section_lines (hit ∷ hits)) ∷ []) ∷ []

module _ {F S : Type 0} ⦃f : Float F⦄ ⦃t : TextOps⦄ where
  unfoldable pub loop_recall : Backend F S → S → String → S × String
  loop_recall backend s goal =
      let (s, found) = backend.find s (with_limit (new_query goal) 15) in
      (
        s,
        elim found [
          | err _ ↦ ""
          | ok hits ↦ join "\n" (recall_lines (mmr_diversify hits loop_recall_limit f.half))
        ],
      )

  -- The section of the hits with a tag: none on an error, and none where nothing is found.
  unfoldable pub packet_tag_section :
      Backend F S → S → String → String → ℕ → String → Option String → S × List String
  packet_tag_section backend s goal tag limit title project =
      let query = with_limit (new_query goal) limit in
      let (s, found) = backend.find s (record query { tags = tag ∷ []; project = project }) in
      (s, elim found [ err _ ↦ [] | ok hits ↦ titled title hits ])

  unfoldable pub tag_sections : Backend F S → S → String → Option String → S × List String
  unfolding packet_tag_section
  tag_sections backend s goal project =
      let (s, invariants) =
        packet_tag_section backend s goal "invariant" loop_goal_invariant_limit
          "Invariants (must hold)" project in
      let (s, skills) =
        packet_tag_section backend s goal "skill" loop_goal_skill_limit "Known approach (verified)"
          project in
      let (s, specs) =
        packet_tag_section backend s goal "spec" loop_goal_skill_limit "Sharper specs (verified)"
          project in
      (s, invariants ++ (skills ++ specs))

  unfoldable pub assemble_goal_packet_scoped :
      Option (Backend F S) → S → String → Option String → String → Option String → S × String
  unfolding tag_sections
  assemble_goal_packet_scoped backend s goal last_check recall project =
      let (s, tagged) : S × List String = elim backend [
        | none ↦ (s, [])
        | some backend ↦ tag_sections backend s goal project
      ] in
      (
        s,
        join "\n\n" (
            String.◌++◌ "# Goal\n" goal
            ∷ (tagged ++ (check_section last_check ++ recall_section recall))),
      )

  abbrev pub assemble_goal_packet :
      Option (Backend F S) → S → String → Option String → String → S × String
  assemble_goal_packet backend s goal last_check recall =
      assemble_goal_packet_scoped backend s goal last_check recall none
