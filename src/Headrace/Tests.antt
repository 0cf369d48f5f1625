-- ===== src/Headrace/Tests.antt =====
-- Headrace at concrete inputs. The YAML of the tests has one text per status: `t`, `d` and `f` for
-- the front matter of one task that is to do, at work and done.
use Prim.Native.Char.{Char, code}
use Prim.Native.String
use Prim.Native.String.append
use artesian.Base.{
  ℕ, ◌≡◌, ◌≢◌, ◌⊎◌, refl, ap, ◌∙◌, String, true, false, none, some, [], ◌∷◌, All, any, ◌==◌, all,
  filter, find, arith, str_eq, if◌then◌else◌,
}
use artesian.Base.Results.{ok, err, ◌>>=◌}
use artesian.Headrace.Store.{
  TaskError, encode, worker, TaskStatus, todo, doing, done, blocked, primitive, Task, NewTask,
  ClaimRequest, is_finished, is_dispatch_eligible,
}
use artesian.Headrace.Format.{
  YamlOps, header_of, task_of, render_task, parse_task, parse_front, read_header, strip_prefix,
  split_once, eq_ignore_ascii_case,
}
use artesian.Base.Texts.{trim, trim_end, trim_start}
use artesian.Headrace.Format.Roundtrip.{ReadsBack, parse_task-render_task}
use artesian.Headrace.Files.{
  TaskFile, FileSystem, lookup, remove, write, find_canonical, find_held, find_path, holds_id,
  write_task_at, is_markdown, read_dir, read_dirs, insert_by_id, sort_by_id, list_blocking, get,
  new_task, create, import_task, transition, candidate, claimed, claim_task, claim,
}
use artesian.Headrace.Files.Moves.{relocated, transition-relocated}
use artesian.Headrace.Files.Claims.{is_sole, claim-Exclusive}
use artesian.Headrace.Files.Duplicates.{get-create}
use artesian.Headrace.Verifier.{Verifier, verify, mark_done, Passes, mark_done-Passes}

abbrev task : Task ℕ
task = record {
  id = "t1";
  title = "Write";
  description = " Do it.";
  role = worker;
  status = todo;
  kind = primitive;
  blockers = [];
  children = [];
  claimed_by = none;
  verifier_names = [];
  created_at = 1;
  updated_at = 1;
  extra = [];
}

abbrev request : ClaimRequest
request = record { task_id = none; claimant = "w" }

abbrev task_doing : Task ℕ
task_doing = record task { status = doing; claimed_by = some "w"; updated_at = 5 }

abbrev task_done : Task ℕ
task_done = record task { status = done; updated_at = 7 }

program : Unit {0}
unfolding any all filter find is_finished is_dispatch_eligible header_of task_of render_task
    parse_task parse_front read_header trim trim_end trim_start strip_prefix split_once
    eq_ignore_ascii_case lookup remove write find_canonical find_held find_path holds_id
    write_task_at is_markdown read_dir read_dirs insert_by_id sort_by_id list_blocking get new_task
    create import_task transition candidate claim_task claim verify mark_done
program = tt

instance abbrev yaml : YamlOps ℕ
unfolding header_of
yaml = record {
  to_string = λ h. elim h.status [
    | todo ↦ ok "t\n"
    | doing ↦ ok "d\n"
    | done ↦ ok "f\n"
    | blocked ↦ err (encode "blocked")
  ];
  from_str = λ s.
      if str_eq s "t"
      then ok (header_of task)
      else if str_eq s "d"
      then ok (header_of task_doing)
      else if str_eq s "f"
      then ok (header_of task_done)
      else err (encode s);
}

-- A body of one letter has no line of dashes.
letter_clear :
    (c : Char)
    → (code "\n" == code c) ≡ false
    → (after : String)
    → strip_prefix "\n---\n" (String.◌++◌ (String.◌∷◌ c "") (String.◌++◌ "\n---\n" after)) ≡ none
unfolding strip_prefix
letter_clear c h after =
    ap (strip_prefix "\n---\n") (append.cons c "" (String.◌++◌ "\n---\n" after)) ∙ ground arith

todo_reads : ReadsBack yaml (header_of task)
unfolding program
todo_reads = record { body = "t"; written = refl; clear = (letter_clear "t" refl, tt); back = refl }

doing_reads : ReadsBack yaml (header_of task_doing)
unfolding program
doing_reads = record {
  body = "d";
  written = refl;
  clear = (letter_clear "d" refl, tt);
  back = refl;
}

done_text : render_task task_done ≡ ok "---\nf\n---\n\n Do it.\n"
unfolding program
done_text = refl

task_text_of : render_task task ≡ ok "---\nt\n---\n\n Do it.\n"
unfolding program
task_text_of = refl

abbrev board : FileSystem
board = record { dir = todo; name = "t1-write.md"; text = "---\nt\n---\n\n Do it.\n" } ∷ []

board_listed : list_blocking board ≡ ok (record task { description = "Do it." } ∷ [])
unfolding program
board_listed = refl

abbrev found : Task ℕ
found = record task { description = "Do it." }

abbrev done_found : Task ℕ
done_found = record found { status = done; updated_at = 7 }

abbrev card : TaskFile
card = record { dir = todo; name = "t1-write.md"; text = "---\nt\n---\n\n Do it.\n" }

-- The store finds the file by its front matter, not by its name.
card_found : find_path yaml board "t1" ≡ some card
unfolding program
card_found = refl

found_chosen : candidate request (found ∷ []) ≡ some found
unfolding program
found_chosen = refl

card_sole : is_sole yaml board "t1" card ≡ true
unfolding program
card_sole = refl

found_reads : ReadsBack yaml (header_of (claimed 5 request found))
unfolding program
found_reads = record {
  body = "d";
  written = refl;
  clear = (letter_clear "d" refl, tt);
  back = refl;
}

claim-Exclusive_example :
    let fs' = (claim {V = ℕ} 5 board request).0 in
    let again : ClaimRequest = record { task_id = some "t1"; claimant = "v" } in
    ((claim 5 board request).1 ≡ ok (some (claimed 5 request found)))
    × ((claim {V = ℕ} 9 fs' again).0 ≡ fs')
    × ((t : Task ℕ) → (claim 9 fs' again).1 ≢ ok (some t))
claim-Exclusive_example =
    claim-Exclusive 5 board request (found ∷ []) found card found_reads board_listed found_chosen
      card_found card_sole 9 "v"

card_read : parse_task card.text ≡ ok found
unfolding program
card_read = refl

found_done_text : render_task done_found ≡ ok "---\nf\n---\n\nDo it.\n"
unfolding program
found_done_text = refl

transition-relocated_example :
    ((transition 7 board (record { id = "t1"; status = done })).1 ≡ ok done_found)
    × ((d : TaskStatus) (n : String)
        → lookup (transition {V = ℕ} 7 board (record { id = "t1"; status = done })).0 d n
          ≡ relocated board card done "---\nf\n---\n\nDo it.\n" d n)
transition-relocated_example =
    transition-relocated 7 board (record { id = "t1"; status = done }) card found
      "---\nf\n---\n\nDo it.\n" card_found card_read found_done_text

parse_task-render_task_example :
    (render_task task >>= λ text. parse_task text)
    ≡ ok (record task { description = trim " Do it." })
parse_task-render_task_example = parse_task-render_task task todo_reads

abbrev new : NewTask
new = record {
  id = some "t1";
  title = "Write";
  description = " Do it.";
  role = worker;
  kind = primitive;
  blockers = [];
  children = [];
  verifier_names = [];
}

abbrev no_digest : String → ℕ → String
no_digest title now = title

new_reads : ReadsBack yaml (header_of (new_task {V = ℕ} no_digest 1 new))
unfolding program
new_reads = record { body = "t"; written = refl; clear = (letter_clear "t" refl, tt); back = refl }

no_todo : lookup [] todo "t1.md" ≡ none
unfolding program
no_todo = refl

new_id : (new_task {V = ℕ} no_digest 1 new).id ≡ "t1"
unfolding program
new_id = refl

get-create_example :
    let made = new_task {V = ℕ} no_digest 1 new in
    ((create no_digest 1 [] new).1 ≡ ok made)
    × (get (create {V = ℕ} no_digest 1 [] new).0 made.id
        ≡ ok (some (record made { description = trim made.description })))
unfolding program
get-create_example = get-create no_digest 1 [] new new_reads no_todo

abbrev busy : TaskFile
busy = record { dir = doing; name = "t1.md"; text = "the first worker's task" }

busy_free : lookup (busy ∷ []) todo "t1.md" ≡ none
unfolding program
busy_free = refl

busy_taken : lookup (busy ∷ []) doing "t1.md" ≡ some busy
unfolding program
busy_taken = refl

busy_text :
    render_task (claimed 5 request (new_task {V = ℕ} no_digest 1 new))
    ≡ ok "---\nd\n---\n\n Do it.\n"
unfolding program
busy_text = refl

not_held : find_path yaml [] "t1" ≡ none
unfolding program
not_held = refl

-- A verifier that reads the description.
abbrev checks : Verifier ℕ
checks t = ok (record { name = "ci"; passed = str_eq t.description "Do it."; output = "" })

board_holds : get board "t1" ≡ ok (some found)
unfolding program
board_holds = refl

mark_done-Passes_example :
    (All (Passes found) (checks ∷ [])
      × (mark_done 7 (checks ∷ []) board "t1"
          ≡ transition 7 board (record { id = "t1"; status = done })))
    ⊎ ((¬ All (Passes found) (checks ∷ []))
        × ((e : TaskError) × (mark_done {V = ℕ} 7 (checks ∷ []) board "t1" ≡ (board, err e))))
mark_done-Passes_example = mark_done-Passes 7 (checks ∷ []) board "t1" found board_holds
