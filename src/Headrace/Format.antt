-- ===== src/Headrace/Format.antt =====
-- A task as text: render_task and parse_task of crates/headrace/src/files.rs, and what they use of
-- `str`. The front matter is YAML, read and written by serde_yaml.
pub mod Roundtrip
use Prim.Native.Char.{Char, code}
use Prim.Native.String
use artesian.Base.{
  ℕ, ◌+◌, String, Bool, true, false, ◌&&◌, ◌||◌, Option, none, some, List, leb, str_eq, ◌==◌,
  if◌then◌else◌,
}
use artesian.Base.Texts.{trim}
use artesian.Base.Results.{Result, ok, err, ◌>>=◌}
use artesian.Headrace.Store.{TaskError, invalid_file, Role, TaskStatus, TaskKind, Task}

pub record TaskHeader (V : Type 0) : Type 0 where
  pub kind_name : String
  pub id : String
  pub title : String
  pub role : Role
  pub status : TaskStatus
  pub kind : TaskKind
  pub blockers : List String
  pub children : List String
  pub claimed_by : Option String
  pub verifier_names : List String
  pub created_at : ℕ
  pub updated_at : ℕ
  pub unknown : List (String × V)

-- `serde_yaml::to_string` and `serde_yaml::from_str`.
pub record YamlOps (V : Type 0) : Type 0 where
  pub to_string : TaskHeader V → Result TaskError String
  pub from_str : String → Result TaskError (TaskHeader V)

-- `str::strip_prefix`: what stands behind the prefix.
unfoldable pub strip_prefix : String → String → Option String
strip_prefix String.[] s = some s
strip_prefix (String.◌∷◌ p ps) String.[] = none
strip_prefix (String.◌∷◌ p ps) (String.◌∷◌ c s) =
    if code p == code c then strip_prefix ps s else none

-- `str::split_once`: at the first place where the separator stands.
unfoldable pub split_once : String → String → Option (String × String)
unfolding strip_prefix
split_once sep String.[] = elim (strip_prefix sep String.[]) [
  | some rest ↦ some (String.[], rest)
  | none ↦ none
]
split_once sep (String.◌∷◌ c s) = elim (strip_prefix sep (String.◌∷◌ c s)) [
  | some rest ↦ some (String.[], rest)
  | none ↦ elim (split_once sep s) [
    | some (before, rest) ↦ some (String.◌∷◌ c before, rest)
    | none ↦ none
  ]
]

abbrev pub ascii_lower : ℕ → ℕ
ascii_lower c = if leb 65 c && leb c 90 then c + 32 else c

unfoldable pub eq_ignore_ascii_case : String → String → Bool
eq_ignore_ascii_case String.[] String.[] = true
eq_ignore_ascii_case String.[] (String.◌∷◌ d t) = false
eq_ignore_ascii_case (String.◌∷◌ c s) String.[] = false
eq_ignore_ascii_case (String.◌∷◌ c s) (String.◌∷◌ d t) =
    ascii_lower (code c) == ascii_lower (code d) && eq_ignore_ascii_case s t

module _ {V : Type 0} where
  unfoldable pub header_of : Task V → TaskHeader V
  header_of task = record {
    kind_name = "task";
    id = task.id;
    title = task.title;
    role = task.role;
    status = task.status;
    kind = task.kind;
    blockers = task.blockers;
    children = task.children;
    claimed_by = task.claimed_by;
    verifier_names = task.verifier_names;
    created_at = task.created_at;
    updated_at = task.updated_at;
    unknown = task.extra;
  }

  unfoldable pub task_of : TaskHeader V → String → Task V
  task_of header description = record {
    id = header.id;
    title = header.title;
    description = description;
    role = header.role;
    status = header.status;
    kind = header.kind;
    blockers = header.blockers;
    children = header.children;
    claimed_by = header.claimed_by;
    verifier_names = header.verifier_names;
    created_at = header.created_at;
    updated_at = header.updated_at;
    extra = header.unknown;
  }

  unfoldable pub render_task : ⦃y : YamlOps V⦄ → Task V → Result TaskError String
  unfolding header_of
  render_task ⦃y⦄ task = y.to_string (header_of task) >>= λ yaml. ok (
      String.◌++◌ "---\n"
        (String.◌++◌ yaml (String.◌++◌ "---\n\n" (String.◌++◌ task.description "\n"))))

  -- What follows the separator, once the front matter is read.
  unfoldable pub read_header : TaskHeader V → String → Result TaskError (Task V)
  read_header header body =
      if eq_ignore_ascii_case header.kind_name "task"
      then ok (task_of header (trim body))
      else err (invalid_file (String.◌++◌ "unsupported headwater type: " header.kind_name))

  unfoldable pub parse_front : ⦃y : YamlOps V⦄ → String → Result TaskError (Task V)
  parse_front ⦃y⦄ rest = elim (split_once "\n---\n" rest) [
    | none ↦ err (invalid_file "unterminated task front matter")
    | some (header, body) ↦ (y.from_str header >>= λ h. read_header h body)
  ]

  unfoldable pub parse_task : ⦃y : YamlOps V⦄ → String → Result TaskError (Task V)
  parse_task text = elim (strip_prefix "---\n" text) [
    | none ↦ err (invalid_file "missing task front matter")
    | some rest ↦ parse_front rest
  ]
