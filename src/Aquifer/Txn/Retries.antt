-- ===== src/Aquifer/Txn/Retries.antt =====
-- The retry loop of crates/aquifer/src/txn.rs.
use artesian.Base.{
  ℕ, zero, suc, ◌+◌, ◌≤◌, ◌<◌, ◌≡◌, subst, false, List, arith, Bool-cases, inl, inr,
}
use artesian.Base.Results.{Result, ok, err}
use artesian.Aquifer.Txn.{
  u64_mod, TxnError, Backend, Shared, Event, Around, run, commit, is_conflict, attempt,
  commit_with_retry, finish_commit, store_committed, put_memory,
}
use native.Mathlib.Nat.{add-zero}
use artesian.Aquifer.Txn.Conflicts.{successes, run-lt, try_commit-lt, commit-successes}

module _ {B M R : Type 0} (b : Backend B M R) (around : ℕ → Around M) (m : M) where
  -- The state before the i-th attempt after `n` attempts that all ran from `s`.
  unfoldable pub before_attempt : ℕ → ℕ → Shared B → Shared B
  before_attempt i zero s = s
  before_attempt i (suc n) s = before_attempt (suc i) n (attempt b s (around i) m).0

  ClearAt : ℕ → ℕ → Shared B → Type 0
  ClearAt i k s = is_conflict (attempt b (before_attempt i k s) (around (i + k)) m).1 ≡ false

  -- An allowed attempt that would not conflict keeps the loop from ending in a conflict.
  retry-clear :
      (i left k : ℕ) (s : Shared B)
      → k ≤ left
      → ClearAt i k s
      → is_conflict (commit_with_retry b around i left s m).1 ≡ false
  unfolding commit_with_retry before_attempt ClearAt
  retry-clear i zero zero s h c =
      subst (λ j. is_conflict (attempt b s (around j) m).1 ≡ false) (omega arith) c
  retry-clear i zero (suc k) s h c = absurd (omega arith)
  retry-clear i (suc left) zero s h c =
      let clear = subst (λ j. is_conflict (attempt b s (around j) m).1 ≡ false) (add-zero i) c in
      rw (clear, commit_with_retry) clear
  retry-clear i (suc left) (suc k) s h c =
      elim (Bool-cases (is_conflict (attempt b s (around i) m).1)) [
        | inr clear ↦ rw (clear, commit_with_retry) clear
        | inl again ↦
            rw (again, commit_with_retry)
              (retry-clear (suc i) left k (attempt b s (around i) m).0 (omega arith) (
                subst
                  (λ j.
                    is_conflict
                      (attempt b (before_attempt (suc i) k (attempt b s (around i) m).0) (around j)
                        m).1
                    ≡ false)
                  (omega arith) c))
      ]

  finish-lt :
      (s : Shared B) (between : List (Event M)) (r : ℕ × Result TxnError ℕ)
      → r.0 < u64_mod
      → (finish_commit b s between m r).0.seq < u64_mod
  unfolding finish_commit store_committed put_memory
  finish-lt s between (seq, err e) h = h
  finish-lt s between (seq, ok n) h = run-lt b (record s { seq = seq }) between h

  -- The counter stays within its width.
  before_attempt-lt :
      (i n : ℕ) (s : Shared B) → s.seq < u64_mod → (before_attempt i n s).seq < u64_mod
  unfolding before_attempt attempt commit
  before_attempt-lt i zero s h = h
  before_attempt-lt i (suc n) s h = before_attempt-lt (suc i) n (attempt b s (around i) m).0 (
      finish-lt (run b s (around i).before) (around i).between _
        (try_commit-lt _ s.seq (run-lt b s (around i).before h)))

-- If at an attempt `k` that is still allowed no other writer's compare-and-swap succeeds between the
-- read and the commit (the state being that after `k` attempts), the loop does not end in a
-- conflict, whatever the others do around the other attempts.
pub commit_with_retry-successes :
    {B M R : Type 0} (b : Backend B M R) (around : ℕ → Around M) (max_retries k : ℕ) (s : Shared B)
    (m : M)
    → s.seq < u64_mod
    → k ≤ max_retries
    → successes b (before_attempt b around m 0 k s) (around k).before ≡ 0
    → is_conflict (commit_with_retry b around 0 max_retries s m).1 ≡ false
unfolding ClearAt attempt
commit_with_retry-successes {B} b around max_retries k s m h allowed quiet =
    retry-clear b around m 0 max_retries k s allowed (
      subst (λ j. is_conflict (attempt b s' (around j) m).1 ≡ false) (omega arith)
        ((commit-successes b s' (around k).before (around k).between m
            (before_attempt-lt b around m 0 k s h) (omega arith)).1
          quiet))
  where
    s' : Shared B
    s' = before_attempt b around m 0 k s
