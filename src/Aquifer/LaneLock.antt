-- ===== src/Aquifer/LaneLock.antt =====
-- The lock file of a session's lane: crates/aquifer/src/lane_lock.rs. Processes act in any order, one
-- call of the file system at a time.
pub mod Exclusion
pub mod Stale
use artesian.Base.{
  ℕ, Bool, true, false, not, ◌&&◌, Option, none, some, List, [], ◌∷◌, ◌==◌, if◌then◌else◌,
}

-- Where a process is in `acquire` and `release`: before the creation of the file; with the file
-- created and its owner still to be written; with the guard; after a creation that failed; and after
-- it has read that the owner is dead.
pub data Phase : Type 0 where
  idle created holding blocked judged : Phase

-- The file at the lane's path: the process that created it, and whether its owner is written.
abbrev pub LockFile : Type 0
LockFile = Option (ℕ × Bool)

pub record Lane : Type 0 where
  pub file : LockFile
  pub phase : ℕ → Phase

abbrev pub set : (ℕ → Phase) → ℕ → Phase → ℕ → Phase
set phases p phase q = if p == q then phase else phases q

-- `create_new`.
unfoldable pub create_lock : ℕ → LockFile → LockFile × Phase
create_lock p none = (some (p, false), created)
create_lock p (some f) = (some f, blocked)

-- The owner is written to the file that was created, which may be gone from the path.
unfoldable pub write_owner : ℕ → LockFile → LockFile
write_owner p none = none
write_owner p (some (q, written)) = if q == p then some (p, true) else some (q, written)

-- The reading of `remove_stale_lock`: a file that is gone, or that has no owner yet, is left alone.
-- `alive` is the answer of the Unix `process_alive`, a `kill -0`, which may fail for a living process
-- of another user; the branch for other systems, on which only the own process is alive, is left out.
unfoldable pub judge_owner : (ℕ → Bool) → LockFile → Phase
judge_owner alive none = idle
judge_owner alive (some (q, written)) = if written && not (alive q) then judged else idle

-- The next call of process `p`. `remove_file` takes whatever is at the path.
unfoldable pub next : (ℕ → Bool) → ℕ → LockFile → Phase → LockFile × Phase
unfolding create_lock write_owner judge_owner
next alive p file idle = create_lock p file
next alive p file created = (write_owner p file, holding)
next alive p file holding = (none, idle)
next alive p file blocked = (file, judge_owner alive file)
next alive p file judged = (none, idle)

unfoldable pub act : (ℕ → Bool) → ℕ → Lane → Lane
act alive p lane =
    let after = next alive p lane.file (lane.phase p) in
    record { file = after.0; phase = set lane.phase p after.1 }

-- A time-out ends a blocked `acquire`.
abbrev pub unblock : Phase → Phase
unblock idle = idle
unblock created = created
unblock holding = holding
unblock blocked = idle
unblock judged = judged

unfoldable pub give_up : ℕ → Lane → Lane
give_up p lane = record lane { phase = set lane.phase p (unblock (lane.phase p)) }

pub data LockEvent : Type 0 where
  acts times_out : ℕ → LockEvent

unfoldable pub run_lane : (ℕ → Bool) → List LockEvent → Lane → Lane
unfolding act give_up
run_lane alive [] lane = lane
run_lane alive (acts p ∷ events) lane = run_lane alive events (act alive p lane)
run_lane alive (times_out p ∷ events) lane = run_lane alive events (give_up p lane)

-- Past the creation of the file: the process has the lane, or will without a further test.
abbrev pub has_lane : Phase → Bool
has_lane idle = false
has_lane created = true
has_lane holding = true
has_lane blocked = false
has_lane judged = false

abbrev pub free_lane : Lane
free_lane = record { file = none; phase = λ _. idle }
