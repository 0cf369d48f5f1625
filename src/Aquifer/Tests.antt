-- ===== src/Aquifer/Tests.antt =====
-- Aquifer at concrete inputs: the backend is a list of texts that refuses the empty text.
use artesian.Base.{
  ℕ, ◌+◌, ◌%◌, ◌≡◌, ◌↔◌, refl, String, Bool, true, false, none, some, List, [], ◌∷◌, ◌++◌, length,
  arith, str_eq, if◌then◌else◌, ◌==◌,
}
use artesian.Base.Results.{Result, ok, err}
use artesian.Aquifer.Types.{l1_atom}
use artesian.Aquifer.Txn.{
  u64_mod, conflict, storage, Backend, Shared, Event, cas, put, Around, try_commit, put_memory,
  step, run, begin_write, store_committed, finish_commit, commit, is_conflict, attempt,
  commit_with_retry, store, database,
}
use artesian.Aquifer.Txn.Conflicts.{successes, commit-successes, commit_refused, commit_overtaken}
use artesian.Aquifer.Txn.Retries.{before_attempt, commit_with_retry-successes}
use artesian.Aquifer.Txn.Sync.{
  SyncReport, store_all, sync_file, sync_files, sync_headwater_directory, held, failed, memories_of,
  failures_of, store_each, sync_headwater_directory-stored,
}
use artesian.Aquifer.LaneLock.{
  Lane, LockEvent, acts, times_out, idle, holding, create_lock, write_owner, judge_owner, next, act,
  give_up, run_lane, has_lane, free_lane,
}
use artesian.Aquifer.LaneLock.Exclusion.{run_lane-excludes}
use artesian.Aquifer.LaneLock.Stale.{takeover, run_lane-takeover}
use artesian.Aquifer.Working.{
  WorkingTurn, summary_buffer, InMemoryWorkingMemory, summary_of, pending_summary, push, view,
  view_covers,
}

abbrev notes : Backend (List String) String ℕ
notes = record {
  store = λ s m. if str_eq m "" then (s, err "empty") else (s ++ m ∷ [], ok (length s));
}

program : Unit {0}
unfolding try_commit put_memory step run begin_write store_committed finish_commit commit
    is_conflict attempt commit_with_retry store successes before_attempt store_all sync_file
    create_lock write_owner judge_owner next act give_up run_lane sync_files
    sync_headwater_directory held failed memories_of failures_of store_each
program = tt

abbrev fresh : Shared (List String)
fresh = record { seq = 0; memory = [] }

abbrev others : List (Event String)
others = put "x" ∷ cas 7 ∷ []

others_fail : successes notes fresh others ≡ 0
unfolding program
others_fail = refl

commit-successes_example :
    (is_conflict (commit notes (run notes fresh others) [] 0 "plan").1 ≡ false)
    ↔ (successes notes fresh others ≡ 0)
unfolding begin_write
commit-successes_example =
    commit-successes notes fresh others [] "plan" (omega arith) (omega (arith, others_fail))

-- A second writer with the old counter meets a conflict.
stale_conflict : (commit notes (run notes fresh (cas 0 ∷ [])) [] 0 "plan").1 ≡ err (conflict 0 1)
unfolding program
stale_conflict = refl

-- As a backend it reports the conflict as an error of the database, with no retry.
store_conflict :
    (store notes fresh (record { before = cas 0 ∷ []; between = [] }) "plan").1
    ≡ err (database (conflict 0 1))
unfolding program
store_conflict = refl

refuses_empty :
    (notes.store (run notes (record { seq = 1; memory = [] }) others).memory "").1 ≡ err "empty"
unfolding program
refuses_empty = refl

commit_refused_example :
    ((commit notes fresh others 0 "").1 ≡ err (storage "empty"))
    × ((commit notes fresh others 0 "").0.seq
        ≡ (0 + 1 + successes notes (record { seq = 1; memory = [] }) others) % u64_mod)
commit_refused_example = commit_refused notes fresh others "" (omega arith) refuses_empty

takes_b : (notes.store [] "b").1 ≡ ok 0
takes_b = refl

takes_a : (notes.store (notes.store [] "b").0 "a").1 ≡ ok 1
unfolding program
takes_a = refl

commit_overtaken_example :
    (commit notes (record { seq = 1; memory = [] }) [] 1 "b"
      ≡ (run notes (record { seq = 1; memory = [] }) (cas 1 ∷ put "b" ∷ []), ok 2))
    × (commit notes fresh (cas 1 ∷ put "b" ∷ []) 0 "a"
        ≡ (record { seq = 2; memory = "b" ∷ "a" ∷ [] }, ok 1))
unfolding program
commit_overtaken_example = commit_overtaken notes fresh "a" "b" (omega arith) takes_b takes_a

-- Another writer wins before the first attempt, and none before the second.
abbrev contended : ℕ → Around String
contended i = record { before = if i == 0 then cas 0 ∷ [] else []; between = [] }

second_quiet :
    successes notes (before_attempt notes contended "plan" 0 1 fresh) (contended 1).before ≡ 0
unfolding program
second_quiet = refl

commit_with_retry-successes_example :
    is_conflict (commit_with_retry notes contended 0 1 fresh "plan").1 ≡ false
commit_with_retry-successes_example =
    commit_with_retry-successes notes contended 1 1 fresh "plan" (omega arith) (omega arith)
      second_quiet

-- A file is named by the memory in it; the file "?" does not parse.
abbrev parse : String → Result String (List String)
parse path = if str_eq path "?" then err "no front matter" else ok (path ∷ [])

abbrev listing : Result String (List String)
listing = ok ("a" ∷ "?" ∷ "b" ∷ [])

abbrev report : SyncReport
report = record { files_scanned = 3; records_indexed = 2; parse_failures = 1 }

sync_returns : (sync_headwater_directory notes parse [] listing).1 ≡ ok report
unfolding program
sync_returns = refl

sync_headwater_directory-stored_example :
    (paths : List String) × (listing ≡ ok paths)
    × ((sync_headwater_directory notes parse [] listing).0
        ≡ store_each notes parse [] (memories_of notes parse paths))
    × (report ≡ record {
      files_scanned = length paths;
      records_indexed = length (memories_of notes parse paths);
      parse_failures = failures_of notes parse paths;
    })
sync_headwater_directory-stored_example =
    sync_headwater_directory-stored notes parse [] listing sync_returns

-- Process 7 has died with the lock; 1 and 2 wait for it.
abbrev alive_but_seven : ℕ → Bool
alive_but_seven p = if p == 7 then false else true

abbrev stale_lane : Lane
stale_lane = record { file = some (7, true); phase = λ _. idle }

run_lane-takeover_example :
    ((run_lane alive_but_seven (takeover 1 2) stale_lane).phase 1 ≡ holding)
    × ((run_lane alive_but_seven (takeover 1 2) stale_lane).phase 2 ≡ holding)
run_lane-takeover_example =
    run_lane-takeover alive_but_seven stale_lane 7 1 2 refl refl refl refl refl

abbrev contest : List LockEvent
contest = acts 1 ∷ acts 2 ∷ acts 1 ∷ acts 2 ∷ times_out 2 ∷ []

one_has_lane : has_lane ((run_lane (λ _. true) contest free_lane).phase 1) ≡ true
unfolding program
one_has_lane = refl

run_lane-excludes_example : has_lane ((run_lane (λ _. true) contest free_lane).phase 2) ≡ false
run_lane-excludes_example = run_lane-excludes (λ _. true) contest 1 2 (λ r. refl) one_has_lane refl

abbrev said : String → WorkingTurn
said content = record { role = "user"; content = content; timestamp = 0 }

abbrev talk : InMemoryWorkingMemory
talk = record { mode = summary_buffer 1 (some l1_atom); turns = said "a" ∷ said "b" ∷ [] }

view_covers_example :
    (older : List WorkingTurn) × (older ++ (view (push talk (said "c"))).turns
      ≡ said "a" ∷ said "b" ∷ said "c" ∷ [])
    × (length (view (push talk (said "c"))).turns ≡ 1)
    × ((view (push talk (said "c"))).pending_summary
        ≡ (if length older == 0 then none else some (summary_of l1_atom older)))
view_covers_example = view_covers talk (said "c") 1 l1_atom refl

talk_summary :
    (view (push talk (said "c"))).pending_summary
    ≡ some (record {
      content = "user: a\nuser: b";
      tier = l1_atom;
      tags = "working-memory-summary" ∷ [];
    })
unfolding view push pending_summary
talk_summary = refl
