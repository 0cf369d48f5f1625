-- ===== src/Lib.antt =====
-- Artesian governs what an agent loop holds in force: a qualify-gate decides what enters a bounded
-- committed context, and a durable memory keeps the rest. This library models the parts below,
-- from the Rust sources, and proves what makes them correct.
--
-- Parts, and where they are modelled:
--
--   Base                the shared names: Boolean tests, lists over the native numbers, `Result`, and
--                       the interface of the 32-bit floats with the laws of IEEE 754 used here.
--   Headgate/Text       crates/headgate/src/metrics.rs (count_tokens) and the word sets of ccs.rs.
--   Headgate/Ccs        crates/headgate/src/ccs.rs: the committed context state. Ccs/Eviction and
--                       Ccs/Lowest are about evict_lowest and lowest_score.
--   Headgate/Gate       crates/headgate/src/gate.rs: reason codes and decisions; Gate/Audit the
--                       audit, Gate/Default the default gate, Gate/Verdicts and Gate/Routing its laws.
--   Headgate/Cycle      crates/headgate/src/controller.rs: its types and the state of a cycle.
--   Headgate/Controller crates/headgate/src/controller.rs: `cycle` as a function from a controller to
--                       a controller and a result. Its loop body is `consider`, its eviction loop
--                       `evict_below`. Controller/Invariants has the invariant rule of the loop, which
--                       Budget, Accounting and Identities use; Rounds and Evictions are about the
--                       eviction loop, Oversized about a candidate that cannot fit, Reasons about the
--                       texts by which gate and controller understand each other.
--   Headgate/Compressor crates/headgate/src/compressor.rs: the extractive compressor; Compressor/Fits
--                       is about its size, Compressor/Admits about its use by the controller.
--   Headgate/Tier       crates/headgate/src/tier.rs: the gate that chooses between two by stakes;
--                       Tier/Cycles is about it in a cycle.
--   Headrace/Store      crates/headrace/src/store.rs: tasks, statuses, errors, dispatch eligibility.
--   Headrace/Format     crates/headrace/src/files.rs (render_task, parse_task) with the functions of
--                       `str` they call; Format/Roundtrip relates the two.
--   Headrace/Files      crates/headrace/src/files.rs (FilesTaskStore): create, claim, transition, get,
--                       list and import over a list of files. Files/Paths has what stands at a path
--                       after a write, Files/Moves where a task is after a call, Files/Listing and
--                       Files/Claims who gets a task, Files/Duplicates and Files/Imports what happens
--                       to an id that comes twice.
--   Headrace/Verifier   crates/headrace/src/verifier.rs (VerifierGate).
--   Aquifer/Txn         crates/aquifer/src/txn.rs: the commit log and the transactional memory, with
--                       the other writers as explicit events; Txn/Conflicts, Txn/Retries, Txn/Sync.
--   Aquifer/LaneLock    crates/aquifer/src/lane_lock.rs: the calls of the file system that processes
--                       make for one lane, in any order; LaneLock/Exclusion, LaneLock/Stale.
--   Aquifer/Working     crates/aquifer/src/working.rs: the working memory of a session.
--   Aquifer/Types       crates/aquifer/src/types.rs: the records, hits and queries of the memory.
--   Aquifer/Mmr         crates/aquifer/src/mmr.rs: the choice of diverse hits; Mmr/Positions has lists
--                       of positions, Mmr/Choice what is chosen.
--   Aquifer/Chunking    crates/aquifer/src/chunking.rs: the splitting of long records; Chunking/Pieces
--                       is about the recursive split, Chunking/Sizes about the merged chunks.
--   Aquifer/Reconcile   crates/aquifer/src/reconcile.rs: the decision on a memory like an old one;
--                       Reconcile/Order has the order of texts, Reconcile/Overlap the similarity.
--   Aquifer/Decay       crates/aquifer/src/decay.rs: how strongly a record is remembered.
--   Aquifer/Eviction    crates/aquifer/src/eviction.rs (evict): the records that a pass archives or
--                       deletes; Eviction/Remaining is about what it leaves.
--   Flume/Lane          crates/flume/src/lane.rs: the lanes of a team. Lane/Calls has what each call
--                       does, Lane/Owners who has a task, Lane/Counts and Lane/Slots how many tasks a
--                       lane has. The ordered maps and sets are those of Base/Maps.
--   Flume/Delegation    crates/flume/src/lib.rs: what a worker is asked to do; Flume/Envelope has the
--                       budgets, Flume/Redact redact_secrets (Redact/Marks, Passes and Clean are
--                       about what it leaves), Flume/Receipts the receipts and their
--                       writer's names, of crates/flume/src/receipts.rs.
--   Flume/Dispatch      crates/flume/src/lib.rs (execute_delegation_via_process): the receipts around
--                       a worker's process, over an interface of processes and files (`Processes`);
--                       the state is the file's lines, the counter of ids and the acts so far.
--                       Dispatch/Recorded is about the acts.
--   Flume/Loop          crates/flume/src/loop_core.rs (run_loop_core): a turn is the chain of
--                       check_brakes, check_quota, work, verify_turn and conclude, each of which ends
--                       the run or goes on. Flume/State has its state and the interface of the world,
--                       Flume/Run its options, report and log, Flume/Packet and Flume/Memories what it
--                       reads from and stores in a memory, Flume/Quota the events of
--                       crates/flume/src/quota.rs. Loop/Logs, Phases and Verdicts lead to the ways a
--                       run ends, in Outcomes; Reports draws from them.
--   Basin               crates/basin/src/lib.rs: Config its configuration, state, quotas and retries,
--                       Worker the dispatch of a task, Claiming and Settling the two halves of
--                       run_once, Orchestrator run_once and run_until_idle. Claiming/Limits,
--                       Claiming/Requests and Settling/Soundness keep the limits, Settling/Accounts
--                       the counts; they meet in Orchestrator/Budgets and Orchestrator/Ticks.
--
-- How they interact: the controller calls a recall store, a gate and a compressor, which are
-- function arguments; the default gate is one such gate, and the laws of the controller hold for
-- any, or for any with a named property that the default gate is shown to have. The verifier gate
-- reads a task from the task store and then asks for its transition. A transactional memory wraps
-- any backend, given as a state and a store function. The autonomous loop reads hits from a backend
-- and passes them through the choice of Aquifer/Mmr; its world is an interface (`Environment`). The
-- orchestrator claims tasks that Headrace/Store finds eligible, runs the verifiers of
-- Headrace/Verifier, and asks a task store, an interface (`TaskStore`), for the transitions.
--
-- Conventions and bounds. A number of the source is a natural number; `usize` sums of token counts
-- do not wrap in the model, as they stay far below 2^64. The sequence number of the commit log
-- wraps at 2^64. A score is of any type with the operations of `Float`; where a result rests on
-- the order, the laws of IEEE 754 for numbers that are not NaN are a hypothesis (`IsOrdered`), and
-- where it rests on `f32::max`, that of `MaxReaches`. The sort of strengths is that of floats that
-- are not NaN, and a strength is clamped between a floor and a boost that are in order.
-- Ids and names of tasks have no path separator. Whether the owner of a lane is alive is the answer
-- of `kill -0`, as on Unix.
-- Texts are native strings; the tokenizer, lowercasing and splitting at what is not alphanumeric
-- are the fields of `TextOps`. The eviction loop runs on as much fuel as there are entries, which
-- is enough since each round removes one: `evict_below_ends`. The loop that shortens a text runs
-- on its number of bytes, and each round takes one: `tighten_fits`. The retry loop recurs on the
-- retries that are left. The task directories are one list of files in the order of their listing,
-- a time is a number, and serde_yaml is a parameter (`YamlOps`), of which `ReadsBack` says what is
-- documented for the header at hand. The turns of the autonomous loop recur on `max_turns`, and the
-- ticks of the orchestrator on `max_ticks`. The recursive split runs on as many units of fuel as its
-- text has characters, which is enough as a part is shorter than its text: `recursive_split-AtMost`;
-- the selection of hits on as many as there are, and the walk along two lists on their lengths
-- together, a round taking one: `mmr_diversify-ChosenFrom`, `reconcile-set_similarity`. A 64-bit hash
-- wraps at 2^64; counters of turns, requests and tokens stay far below their width. A duration is a
-- number of milliseconds, the backoff of the orchestrator one of nanoseconds. The file of a run's log is taken to be writable.
--
-- Not modelled: rendering of the committed state, the gates and compressors that ask a model, the
-- file of the savings log (its entries are kept as a list of the calls), the vector stores, the
-- log file of evictions, rank fusion, the teams of crates/flume/src/lib.rs (TeamRuntime) and the
-- choice of a dispatch strategy, the consolidation of memories, the command line and the servers.
-- The processes of workers, verifiers and agents, the files of quotas and anchors, and progress
-- calls are outside; the interleavings of concurrent dispatches are reduced to one order.
pub mod Base
pub mod Headgate
pub mod Headrace
pub mod Aquifer
pub mod Flume
pub mod Basin
