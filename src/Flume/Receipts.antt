-- ===== src/Flume/Receipts.antt =====
-- The receipts of spawned workers: crates/flume/src/receipts.rs. A time is a number, and the fields
-- that a producer may add (`extra`) are empty.
use Prim.Native.Char.{Char, code}
use Prim.Native.String
use artesian.Base.{
  ℕ, zero, suc, ◌-◌, String, Bool, false, ◌&&◌, ◌||◌, Option, none, some, List, [], ◌∷◌, any,
  str_eq, ◌==◌, if◌then◌else◌,
}
use artesian.Base.Results.{Result, ok, err}
use artesian.Base.Texts.{trim, take_chars, join, decimal, is_empty}
use artesian.Basin.Worker.{first_line}
use artesian.Aquifer.Reconcile.{to_ascii_lowercase}
use artesian.Flume.Envelope.{BudgetEnvelope, declares_none}
use artesian.Flume.Redact.{is_ascii_alphanumeric}

pub data StopReason : Type 0 where
  done budget_tokens budget_tool_calls budget_time budget_cost gate_rejected error killed :
      StopReason

pub record Consumed (C : Type 0) : Type 0 where
  pub tokens : Option ℕ
  pub tool_calls : Option ℕ
  pub wall_time_ms : Option ℕ
  pub cost_usd : Option C

pub record Distilled : Type 0 where
  pub tokens : Option ℕ
  pub reference : Option String

pub record GateDecision : Type 0 where
  pub admitted : Bool
  pub reason : Option String

pub record SpawnReceipt (C : Type 0) : Type 0 where
  pub kind : String
  pub receipt_id : String
  pub ts : ℕ
  pub parent : String
  pub role : Option String
  pub harness : Option String
  pub model : Option String
  pub task_boundary : String
  pub budget : BudgetEnvelope C
  pub tool_allowlist : List String
  pub schema_hash : Option String

pub record ReturnReceipt (C : Type 0) : Type 0 where
  pub kind : String
  pub receipt_id : String
  pub ts : ℕ
  pub spawn_ref : String
  pub stop_reason : StopReason
  pub consumed : Consumed C
  pub distilled : Option Distilled
  pub trace_ref : Option String
  pub gate : Option GateDecision

unfoldable pub task_boundary_from_instruction : String → String
unfolding first_line trim take_chars
task_boundary_from_instruction instruction = take_chars 200 (trim (first_line instruction))

pub record ReceiptsConfig (C : Type 0) : Type 0 where
  pub fail_closed : Bool
  pub default_budget : Option (BudgetEnvelope C)
  pub fsync : Bool

-- `truthy_env`, of the variable's value.
unfoldable pub truthy_env : Option String → Bool
unfolding trim to_ascii_lowercase any
truthy_env none = false
truthy_env (some value) =
    any (str_eq (to_ascii_lowercase (trim value))) ("1" ∷ "true" ∷ "yes" ∷ "on" ∷ [])

-- `ReceiptsConfig::from_env`.
abbrev pub receipts_from_env : {C : Type 0} → Option String → ReceiptsConfig C
receipts_from_env value = record {
  fail_closed = truthy_env value;
  default_budget = none;
  fsync = false;
}

unfoldable pub check_admission : {C : Type 0} → BudgetEnvelope C → Bool → Result String (Unit {0})
check_admission budget fail_closed =
    if fail_closed && declares_none budget
    then err
        "no budget dimension declared in any of budget/max_tokens/max_tool_calls/max_wall_time_ms/max_cost_usd, and receipts.fail_closed is enabled"
    else ok tt

-- `str::trim_matches` of dashes, from the end and then from the start.
abbrev pub cons_unless_dash : Char → String → String
cons_unless_dash c String.[] = if code c == 45 then String.[] else String.◌∷◌ c String.[]
cons_unless_dash c (String.◌∷◌ d s) = String.◌∷◌ c (String.◌∷◌ d s)

unfoldable pub trim_dashes_end : String → String
trim_dashes_end String.[] = String.[]
trim_dashes_end (String.◌∷◌ c s) = cons_unless_dash c (trim_dashes_end s)

unfoldable pub trim_dashes_start : String → String
trim_dashes_start String.[] = String.[]
trim_dashes_start (String.◌∷◌ c s) =
    let rest = trim_dashes_start s in if code c == 45 then rest else String.◌∷◌ c s

-- A character of a label, or a dash in its place.
abbrev pub label_char : Char → String → String
label_char c rest =
    if is_ascii_alphanumeric (code c) || code c == 45 || code c == 95
    then String.◌∷◌ c rest
    else String.◌++◌ "-" rest

unfoldable pub label_chars : String → String
label_chars String.[] = String.[]
label_chars (String.◌∷◌ c s) = label_char c (label_chars s)

unfoldable pub sanitize_run_label : String → String
unfolding label_chars trim_dashes_start trim_dashes_end
sanitize_run_label run =
    let cleaned = trim_dashes_start (trim_dashes_end (label_chars run)) in
    if is_empty cleaned then "adhoc" else cleaned

pub record ReceiptWriter : Type 0 where
  pub run : String
  pub fsync : Bool

-- `{seq:06}`.
abbrev pub zeros : ℕ → String
zeros zero = ""
zeros (suc n) = String.◌++◌ "0" (zeros n)

abbrev pub padded : ℕ → String
padded seq = let digits = decimal seq in String.◌++◌ (zeros (6 - String.count digits)) digits

-- The id that `next_receipt_id` gives to a number.
abbrev pub receipt_id_of : ReceiptWriter → ℕ → String
receipt_id_of writer seq = join "" ("rc_" ∷ writer.run ∷ "_" ∷ padded seq ∷ [])
