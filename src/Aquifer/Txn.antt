-- ===== src/Aquifer/Txn.antt =====
-- Optimistic concurrency over a memory backend: crates/aquifer/src/txn.rs. The atomic counter and
-- the backend are shared by all writers; what other writers do between two steps of one is an
-- explicit list of events.
pub mod Conflicts
pub mod Retries
pub mod Sync
use artesian.Base.{
  ℕ, zero, suc, ◌+◌, ◌%◌, ◌^◌, String, Bool, true, false, Option, none, some, List, [], ◌∷◌, length,
  ltb, ◌==◌, if◌then◌else◌,
}
use artesian.Base.Results.{Result, ok, err}

abbrev pub u64_mod : ℕ
u64_mod = 18446744073709551616

pub data TxnError : Type 0 where
  conflict : ℕ → ℕ → TxnError
  storage : String → TxnError

-- An error of `TransactionalMemory::store`: a conflict as `MemoryError::Database`, or the backend's.
pub data StoreError : Type 0 where
  database : TxnError → StoreError
  backend : String → StoreError

from_backend : {R : Type 0} → Result String R → Result StoreError R
from_backend (ok r) = ok r
from_backend (err e) = err (backend e)

-- The `store` of the `MemoryBackend` trait, on a backend's state: the new state and the record.
pub record Backend (B M R : Type 0) : Type 0 where
  pub store : B → M → B × Result String R

pub record Shared (B : Type 0) : Type 0 where
  pub seq : ℕ
  pub memory : B

-- `compare_exchange` of the expected value and its successor, which wraps.
unfoldable pub try_commit : ℕ → ℕ → ℕ × Result TxnError ℕ
try_commit seq expected =
    if seq == expected
    then ((expected + 1) % u64_mod, ok ((seq + 1) % u64_mod))
    else (seq, err (conflict expected seq))

-- A step of another writer: its compare-and-swap, or the call of the backend after it.
pub data Event (M : Type 0) : Type 0 where
  cas : ℕ → Event M
  put : M → Event M

-- What others do around one attempt: before its compare-and-swap, and before its store.
pub record Around (M : Type 0) : Type 0 where
  pub before : List (Event M)
  pub between : List (Event M)

unfoldable pub is_conflict : Result TxnError ℕ → Bool
is_conflict (ok n) = false
is_conflict (err (conflict e a)) = true
is_conflict (err (storage m)) = false

module _ {B M R : Type 0} (b : Backend B M R) where
  unfoldable pub put_memory : Shared B → M → Shared B
  put_memory s m = record s { memory = (b.store s.memory m).0 }

  unfoldable pub step : Shared B → Event M → Shared B
  unfolding try_commit put_memory
  step s (cas expected) = record s { seq = (try_commit s.seq expected).0 }
  step s (put m) = put_memory s m

  unfoldable pub run : Shared B → List (Event M) → Shared B
  run s [] = s
  run s (e ∷ es) = run (step s e) es

  unfoldable pub begin_write : Shared B → M → ℕ × M
  begin_write s m = (s.seq, m)

  -- The call of the backend after a compare-and-swap that gave `new_seq`.
  unfoldable pub store_committed : Shared B → M → ℕ → Shared B × Result TxnError ℕ
  unfolding put_memory
  store_committed s m new_seq =
      (put_memory s m, elim (b.store s.memory m).1 [ ok _ ↦ ok new_seq | err e ↦ err (storage e) ])

  -- What follows the compare-and-swap of a commit.
  unfoldable pub finish_commit :
      Shared B → List (Event M) → M → ℕ × Result TxnError ℕ → Shared B × Result TxnError ℕ
  finish_commit s between m (seq, err e) = (record s { seq = seq }, err e)
  finish_commit s between m (seq, ok new_seq) =
      store_committed (run (record s { seq = seq }) between) m new_seq

  -- `commit`, with the events of others between its compare-and-swap and its store.
  unfoldable pub commit : Shared B → List (Event M) → ℕ → M → Shared B × Result TxnError ℕ
  commit s between expected m = finish_commit s between m (try_commit s.seq expected)

  -- One round of `commit_with_retry`.
  unfoldable pub attempt : Shared B → Around M → M → Shared B × Result TxnError ℕ
  unfolding begin_write
  attempt s a m = let (seq, mem) = begin_write s m in commit (run s a.before) a.between seq mem

  -- The loop: as many retries as are left, the i-th attempt among the events `around i`.
  unfoldable pub commit_with_retry :
      (ℕ → Around M) → ℕ → ℕ → Shared B → M → Shared B × Result TxnError ℕ
  commit_with_retry around i zero s m = attempt s (around i) m
  commit_with_retry around i (suc left) s m = elim (is_conflict (attempt s (around i) m).1) [
    | false ↦ attempt s (around i) m
    | true ↦ commit_with_retry around (suc i) left (attempt s (around i) m).0 m
  ]

  -- The `store` that a `TransactionalMemory` has as a backend: one attempt, no retry.
  unfoldable pub store : Shared B → Around M → M → Shared B × Result StoreError R
  unfolding from_backend
  store s a m =
      let s' = run s a.before in
      let (seq, r) = try_commit s'.seq s.seq in
      elim r [
        | err e ↦ (record s' { seq = seq }, err (database e))
        | ok _ ↦
            let s'' = run (record s' { seq = seq }) a.between in
            (put_memory s'' m, from_backend (b.store s''.memory m).1)
      ]
