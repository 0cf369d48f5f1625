-- ===== src/Flume/DispatchTests.antt =====
-- The dispatch of a worker at concrete inputs: the world is the number of lines that can still be
-- written, and costs are numbers.
use Prim.Native.String.{count}
use artesian.Base.{ℕ, zero, suc, ◌≡◌, refl, String, false, none, some, List, [], ◌∷◌, any, All}
use artesian.Base.Results.{Result, ok, err}
use artesian.Base.Texts.{trim, trim_start, trim_end, take_chars, join, in_base, decimal}
use artesian.Headgate.Text.{TextOps, count_tokens}
use artesian.Headgate.Gate.Default.{text_contains}
use artesian.Headrace.Format.{strip_prefix}
use artesian.Headrace.Store.{worker}
use artesian.Basin.Worker.{first_line}
use artesian.Aquifer.Reconcile.{to_ascii_lowercase}
use artesian.Flume.Redact.Marks.{occurs}
use artesian.Flume.Redact.Clean.{redact_secrets-occurs}
use artesian.Flume.Redact.{
  secret_prefixes, begins_with, redact_token, read_value, redact_value, redact_secrets,
}
use artesian.Flume.Envelope.{unlimited}
use artesian.Flume.Delegation.{Delegation, new_delegation, with_lane_budget}
use artesian.Flume.Receipts.{
  truthy_env, check_admission, task_boundary_from_instruction, trim_dashes_end, trim_dashes_start,
  label_chars, sanitize_run_label,
}
use artesian.Flume.Dispatch.{
  Processes, Act, wrote_spawn, started, wrote_return, Registry, classify_stop_reason,
  resolve_receipt_budget, open_writer, append, write_return_receipt, answer, run_worker,
  execute_delegation_via_process,
}
use artesian.Flume.Dispatch.Recorded.{Extends, Recorded, execute_delegation_via_process-Recorded}

instance abbrev word_text : TextOps
word_text = record { tokenizer = some count; lowercase = λ s. s; split_words = λ s. s ∷ [] }

-- A line is written unless the world is 1, where it fails once.
abbrev flaky : ℕ → ℕ × Result String (Unit {0})
flaky zero = (zero, ok tt)
flaky (suc zero) = (zero, err "disk full")
flaky (suc (suc n)) = (suc n, ok tt)

abbrev processes : Processes (Unit {0}) String ℕ
processes = record {
  spawn = λ w _ request. (w, ok request.agent);
  send = λ w session content.
      (w, record { kind = "text"; text = "token: abc"; raw = "" } ∷ [], ok content);
  open_receipts = λ w. (w, ok tt);
  append_line = flaky;
  write_trace = λ w _ _. (w, none);
  now = λ _. 0;
  elapsed = λ _. 5;
}

abbrev asked : Delegation ℕ
asked =
    with_lane_budget
      (new_delegation
        (record {
          role = worker;
          agent = "codex";
          model = none;
          command = none;
          args = [];
          timeout_seconds = none;
        })
        "Fix it\nsoon")
      (let none_set = unlimited in record none_set { max_turns = some 3 })

program : Unit {0}
unfolding any trim trim_start trim_end take_chars join in_base decimal count_tokens text_contains
    strip_prefix first_line to_ascii_lowercase begins_with redact_token read_value redact_value
    redact_secrets truthy_env check_admission task_boundary_from_instruction trim_dashes_end
    trim_dashes_start label_chars sanitize_run_label classify_stop_reason resolve_receipt_budget
    open_writer append write_return_receipt answer run_worker execute_delegation_via_process
program = tt

abbrev fresh : ℕ → Registry ℕ ℕ
fresh world = record { world = world; lines = 0; seq = none; acts = [] }

abbrev dispatched : Registry ℕ ℕ → Registry ℕ ℕ
dispatched reg =
    (execute_delegation_via_process processes reg none none asked "/repo" "team-x" "a").0

-- The ids of the receipts, in their order.
abbrev ids : List (Act ℕ) → List String
ids [] = []
ids (wrote_spawn r ∷ acts) = r.receipt_id ∷ ids acts
ids (started request ∷ acts) = ids acts
ids (wrote_return r ∷ acts) = r.receipt_id ∷ ids acts

writes_both : ids (dispatched (fresh 0)).acts ≡ "rc_team-x_000001" ∷ "rc_team-x_000002" ∷ []
unfolding program
writes_both = refl

-- Of the first dispatch, no line is written, and of the second both are, as 2 and 3. A new process
-- counts two lines and gives 3 again.
abbrev restarted : Registry ℕ ℕ → Registry ℕ ℕ
restarted reg = record reg { seq = none }

repeats_id_after_restart :
    ids (dispatched (restarted (dispatched (dispatched (fresh 1))))).acts
    ≡ "rc_team-x_000002" ∷ "rc_team-x_000003" ∷ "rc_team-x_000003" ∷ "rc_team-x_000004" ∷ []
unfolding program
repeats_id_after_restart = refl

-- The value of the first key ends at a blank, so the secret behind it stays, and the key `bearer`
-- is gone when its turn comes.
leaves_bearer : redact_secrets "Authorization: Bearer abc123" ≡ "Authorization: [REDACTED] abc123"
unfolding program
leaves_bearer = refl

execute_delegation_via_process-Recorded_example :
    Extends (Recorded (truthy_env (some "on"))) (fresh 0) (
      execute_delegation_via_process processes
        (fresh 0)
        (some "on")
        none
        asked
        "/repo"
        "team-x"
        "a")
execute_delegation_via_process-Recorded_example =
    execute_delegation_via_process-Recorded processes (fresh 0) (some "on") none asked "/repo"
      "team-x" "a"

redact_secrets-occurs_example :
    All (λ p. occurs p (redact_secrets "key sk-abc, ghp_1") ≡ false) secret_prefixes
redact_secrets-occurs_example = redact_secrets-occurs "key sk-abc, ghp_1"
