-- ===== src/Flume/Run.antt =====
-- What a run of the loop is given, reports and logs: LoopRunOptions, LoopRunReport, LoopRunLog and
-- the utilities of crates/flume/src/loop_core.rs. A duration is a number of milliseconds. The log is
-- the list of its lines, of which the id of the run, which each line bears, is left out; the log's
-- file is taken to be writable.
use Prim.Native.Char.{code}
use Prim.Native.Nat.{bit_xor}
use Prim.Native.String
use artesian.Base.{
  ℕ, zero, suc, ◌+◌, ◌-◌, ◌*◌, ◌/◌, ◌%◌, ◌^◌, String, Bool, Option, none, some, List, [], ◌∷◌, ◌++◌,
  ltb, leb, if◌then◌else◌,
}
use artesian.Base.Texts.{split_whitespace, join, take_chars, decimal, digit}
use artesian.Headgate.Gate.Default.{text_contains}
use artesian.Flume.Quota.{QuotaLoopConfig, QuotaThresholdEvent}

pub record LoopRunOptions (G : Type 0) : Type 0 where
  pub goal : String
  pub worker_cmd : Option String
  pub max_turns : ℕ
  pub max_wall : Option ℕ
  pub poll : Bool
  pub learn : Bool
  pub run_id : String
  pub stop_file : String
  pub max_remediation_attempts : ℕ
  pub quota : QuotaLoopConfig G

pub record FailedCheck : Type 0 where
  pub turn : ℕ
  pub output : String

pub record RemediationAttempt : Type 0 where
  pub turn : ℕ
  pub reason : String
  pub fix_attempt : Option String

pub record LoopRunReport : Type 0 where
  pub turns : ℕ
  pub outcome : String
  pub why_stopped : String
  pub failure_trail : List RemediationAttempt

pub record SessionKey : Type 0 where
  pub session_id : String
  pub task_id : String

pub record Summary : Type 0 where
  pub outcome : String
  pub turns : ℕ
  pub elapsed : ℕ
  pub why_stopped : String
  pub failure_trail : Option (List RemediationAttempt)

-- A line of the log.
pub data LogEntry (G : Type 0) : Type 0 where
  turn_ran :
      (turn : ℕ) (action : String) (passed : Bool) (output : String) (elapsed : ℕ) → LogEntry G
  remediation :
      (turn : ℕ) (consecutive_failures : ℕ) (reason : String) (fix_attempt : Option String)
      → LogEntry G
  quota_warning : (turn : ℕ) → QuotaThresholdEvent G → LogEntry G
  quota_checkpoint : (turn : ℕ) → QuotaThresholdEvent G → SessionKey → LogEntry G
  summary : Summary → LogEntry G

abbrev pub loop_failure_trail_reason_chars : ℕ
loop_failure_trail_reason_chars = 800

abbrev pub loop_last_check_chars : ℕ
loop_last_check_chars = 800

abbrev pub loop_auto_invariant_chars : ℕ
loop_auto_invariant_chars = 240

abbrev pub loop_remediation_attempts_default : ℕ
loop_remediation_attempts_default = 3

abbrev pub default_loop_sleep : ℕ
default_loop_sleep = 500

unfoldable pub compact_inline : String → ℕ → String
unfolding split_whitespace join take_chars
compact_inline text limit = take_chars limit (join " " (split_whitespace text))

-- The bytes of a character.
abbrev pub utf8 : ℕ → List ℕ
utf8 c =
    if ltb c 128
    then c ∷ []
    else if ltb c 2048
    then (192 + c / 64) ∷ (128 + c % 64) ∷ []
    else if ltb c 65536
    then (224 + c / 4096) ∷ (128 + c / 64 % 64) ∷ (128 + c % 64) ∷ []
    else (240 + c / 262144) ∷ (128 + c / 4096 % 64) ∷ (128 + c / 64 % 64) ∷ (128 + c % 64) ∷ []

unfoldable pub as_bytes : String → List ℕ
as_bytes String.[] = []
as_bytes (String.◌∷◌ c s) = utf8 (code c) ++ as_bytes s

unfoldable pub hash_bytes : ℕ → List ℕ → ℕ
hash_bytes hash [] = hash
hash_bytes hash (byte ∷ bytes) = hash_bytes (bit_xor hash byte * 1099511628211 % 2 ^ 64) bytes

-- `{:016x}`: the lowest `width` digits.
unfoldable pub hex : ℕ → ℕ → String
hex zero n = ""
hex (suc width) n = String.◌++◌ (hex width (n / 16)) (digit (n % 16))

unfoldable pub stable_content_hash : String → String
unfolding as_bytes hash_bytes hex
stable_content_hash text = hex 16 (hash_bytes 14695981039346656037 (as_bytes text))

-- `max_wall.saturating_sub(elapsed)`.
unfoldable pub remaining_wall_budget : ℕ → Option ℕ → Option ℕ
remaining_wall_budget elapsed none = none
remaining_wall_budget elapsed (some max_wall) = some (max_wall - elapsed)

unfoldable pub wall_cap_message : ℕ → Option ℕ → String → Option String
wall_cap_message elapsed none before = none
wall_cap_message elapsed (some max_wall) before =
    if leb max_wall elapsed
    then some (
        join ""
          ("loop exceeded max-wall-secs (" ∷ decimal (max_wall / 1000) ∷ ") before " ∷ before ∷ []))
    else none

-- The outcome of a worker or verifier that ends with an error.
unfoldable pub error_outcome : String → String
error_outcome reason = if text_contains reason "wall-clock budget" then "wall-cap" else "error"

-- What a turn leaves the run with: its log, and its report or the error of the function.
abbrev pub finished : {G : Type 0} → ℕ → List (LogEntry G) → LoopRunReport → List (LogEntry G)
finished elapsed log report =
    log
    ++ summary (record {
      outcome = report.outcome;
      turns = report.turns;
      elapsed = elapsed;
      why_stopped = report.why_stopped;
      failure_trail = none;
    })
      ∷ []

abbrev pub early_report : String → ℕ → String → LoopRunReport
early_report outcome turns reason = record {
  turns = turns;
  outcome = outcome;
  why_stopped = reason;
  failure_trail = [];
}

-- `finish_loop_early`.
unfoldable pub finish_loop_early :
    {G : Type 0} → ℕ → List (LogEntry G) → String → ℕ → String → List (LogEntry G) × LoopRunReport
finish_loop_early elapsed log outcome turns reason =
    let report = early_report outcome turns reason in (finished elapsed log report, report)

unfoldable pub compact_trail : List RemediationAttempt → List String
compact_trail [] = []
compact_trail (a ∷ trail) =
    join "" ("turn " ∷ decimal a.turn ∷ ": " ∷ a.reason ∷ []) ∷ compact_trail trail

abbrev pub count_attempts : List RemediationAttempt → ℕ
count_attempts [] = 0
count_attempts (a ∷ trail) = suc (count_attempts trail)

unfoldable pub escalation_reason : List RemediationAttempt → String
escalation_reason trail = join "" (
    "escalated: "
    ∷ decimal (count_attempts trail)
    ∷ " remediation attempt(s) exhausted; failures: ["
    ∷ join "; " (compact_trail trail)
    ∷ "]"
    ∷ [])

unfoldable pub finish_loop_escalation :
    {G : Type 0}
    → ℕ
    → List (LogEntry G)
    → ℕ
    → List RemediationAttempt
    → List (LogEntry G) × LoopRunReport
finish_loop_escalation elapsed log turns trail =
    let why_stopped = escalation_reason trail in
    (
      log
          ++ summary (record {
            outcome = "escalated";
            turns = turns;
            elapsed = elapsed;
            why_stopped = why_stopped;
            failure_trail = some trail;
          })
            ∷ [],
      record {
        turns = turns;
        outcome = "escalated";
        why_stopped = why_stopped;
        failure_trail = trail;
      },
    )
