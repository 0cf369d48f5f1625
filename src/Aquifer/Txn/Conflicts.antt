-- ===== src/Aquifer/Txn/Conflicts.antt =====
-- When a commit of crates/aquifer/src/txn.rs succeeds.
use artesian.Base.{
  ℕ, ◌+◌, ◌%◌, ◌<◌, ◌≡◌, refl, ◌∙◌, ap, false, not, ◌↔◌, List, [], ◌∷◌, arith, ◌==◌, if◌then◌else◌,
  String,
}
use artesian.Base.Results.{ok, err}
use artesian.Aquifer.Txn.{
  u64_mod, storage, Backend, Shared, try_commit, Event, cas, put, put_memory, step, run,
  begin_write, store_committed, finish_commit, commit, is_conflict,
}

pub try_commit-lt : (seq expected : ℕ) → seq < u64_mod → (try_commit seq expected).0 < u64_mod
unfolding try_commit
try_commit-lt seq expected h = ground arith

module _ {B M R : Type 0} (b : Backend B M R) where
  -- The compare-and-swaps among the events that succeed.
  unfoldable pub successes : Shared B → List (Event M) → ℕ
  successes s [] = 0
  successes s (cas expected ∷ es) =
      (if s.seq == expected then 1 else 0) + successes (step b s (cas expected)) es
  successes s (put m ∷ es) = successes (step b s (put m)) es

  step-cas-seq :
      (s : Shared B) (expected : ℕ)
      → s.seq < u64_mod
      → (step b s (cas expected)).seq ≡ (s.seq + (if s.seq == expected then 1 else 0)) % u64_mod
  unfolding step try_commit
  step-cas-seq s expected h = ground arith

  step-put-seq : (s : Shared B) (m : M) → (step b s (put m)).seq ≡ s.seq
  unfolding step put_memory
  step-put-seq s m = refl

  -- The counter counts the successes, modulo its width.
  run-successes :
      (s : Shared B) (es : List (Event M))
      → s.seq < u64_mod
      → (run b s es).seq ≡ (s.seq + successes s es) % u64_mod
  unfolding successes run
  run-successes s [] h = omega arith
  run-successes s (cas expected ∷ es) h =
      let seq = step-cas-seq s expected h in
      omega (arith, seq, run-successes (step b s (cas expected)) es (omega (arith, seq)))
  run-successes s (put m ∷ es) h =
      let seq = step-put-seq s m in
      omega (arith, seq, run-successes (step b s (put m)) es (omega (arith, seq)))

  pub run-lt : (s : Shared B) (es : List (Event M)) → s.seq < u64_mod → (run b s es).seq < u64_mod
  run-lt s es h = omega (arith, run-successes s es h)

  -- A commit conflicts exactly if the counter is no longer what was expected.
  is_conflict-commit :
      (s : Shared B) (between : List (Event M)) (expected : ℕ) (m : M)
      → is_conflict (commit b s between expected m).1 ≡ not (s.seq == expected)
  unfolding commit finish_commit try_commit store_committed is_conflict
  is_conflict-commit s between expected m = ground arith

-- A writer that read the counter at `s`, while others then ran the events `es`, of which fewer than
-- 2^64 compare-and-swaps succeeded, meets a conflict exactly if one of them succeeded: the commit
-- goes through just where nobody else committed since the read, whatever happens afterwards.
pub commit-successes :
    {B M R : Type 0} (b : Backend B M R) (s : Shared B) (es between : List (Event M)) (m : M)
    → s.seq < u64_mod
    → successes b s es < u64_mod
    → let (expected, mem) = begin_write b s m in
      (is_conflict (commit b (run b s es) between expected mem).1 ≡ false) ↔ (successes b s es ≡ 0)
unfolding begin_write
commit-successes b s es between m h few = (
  λ e. ground (arith, is_conflict-commit b (run b s es) between s.seq m, run-successes b s es h),
  λ e. ground (arith, is_conflict-commit b (run b s es) between s.seq m, run-successes b s es h),
)

try_commit_self : (n : ℕ) → n + 1 < u64_mod → try_commit n n ≡ (n + 1, ok (n + 1))
unfolding try_commit
try_commit_self n h = ground arith

module _ {B M R : Type 0} (b : Backend B M R) (s : Shared B) (m : M) (n : ℕ) where
  store_seq : (store_committed b s m n).0.seq ≡ s.seq
  unfolding store_committed put_memory
  store_seq = refl

  store_refused :
      {e : String} → (b.store s.memory m).1 ≡ err e → (store_committed b s m n).1 ≡ err (storage e)
  unfolding store_committed
  store_refused h = rw (h, store_committed)

-- A commit that finds its counter and whose memory the backend refuses, after the other writers'
-- events between, returns the storage error, although the counter has moved on by one and by the
-- others' successes: the sequence number is used up by a write that is not there.
pub commit_refused :
    {B M R : Type 0} (b : Backend B M R) (s : Shared B) (between : List (Event M)) (m : M)
    {e : String}
    → s.seq + 1 < u64_mod
    → (b.store (run b (record s { seq = s.seq + 1 }) between).memory m).1 ≡ err e
    → let (s', r) = commit b s between s.seq m in
      (r ≡ err (storage e))
      × (s'.seq ≡ (s.seq + 1 + successes b (record s { seq = s.seq + 1 }) between) % u64_mod)
unfolding commit finish_commit
commit_refused {B} {R = R} b s between m {e} h refused =
    rw (try_commit_self s.seq h, commit)
      (
        store_refused b (run b moved between) m (s.seq + 1) refused,
        store_seq b (run b moved between) m (s.seq + 1) ∙ run-successes b moved between h,
      )
  where
    moved : Shared B
    moved = record s { seq = s.seq + 1 }

try_commit_next : (n : ℕ) → n + 2 < u64_mod → try_commit (n + 1) (n + 1) ≡ (n + 2, ok (n + 2))
try_commit_next n h = try_commit_self (n + 1) (omega (arith, h)) ∙ ap (λ k. (k, ok k)) (omega arith)

-- A commit whose memory the backend takes, on the counter of the state.
commit_stored :
    {B M R : Type 0} (b : Backend B M R) (s : Shared B) (between : List (Event M)) (m : M) {r : R}
    → s.seq + 1 < u64_mod
    → (b.store (run b (record s { seq = s.seq + 1 }) between).memory m).1 ≡ ok r
    → commit b s between s.seq m
      ≡ (put_memory b (run b (record s { seq = s.seq + 1 }) between) m, ok (s.seq + 1))
unfolding commit finish_commit store_committed
commit_stored b s between m h stored = rw (try_commit_self s.seq h, commit, stored) refl

-- A commit that nothing disturbs.
commit_alone :
    {B M R : Type 0} (b : Backend B M R) (s : Shared B) (m : M) {r : R} {n : ℕ}
    → try_commit s.seq s.seq ≡ (n, ok n)
    → (b.store s.memory m).1 ≡ ok r
    → commit b s [] s.seq m ≡ (put_memory b (record s { seq = n }) m, ok n)
unfolding commit finish_commit store_committed run
commit_alone b s m k stored = rw (k, commit, stored) refl

commit_events :
    {B M R : Type 0} (b : Backend B M R) (s : Shared B) (m : M)
    → s.seq + 2 < u64_mod
    → run b (record s { seq = s.seq + 1 }) (cas (s.seq + 1) ∷ put m ∷ [])
      ≡ put_memory b (record s { seq = s.seq + 2 }) m
unfolding run step
commit_events b s m h = rw (try_commit_next s.seq h) refl

-- The swap comes before the store, so a writer B that begins between the two of a writer A commits on
-- a memory without A's write. Where the backend takes both memories and the counter does not wrap
-- around, B, whose two steps `cas` and `put` are those of an undisturbed commit, sees A's counter and
-- the memory from before A, and its commit meets no conflict; A's commit succeeds as well, with the
-- lower sequence number, and its memory is stored behind B's.
pub commit_overtaken :
    {B M R : Type 0} (b : Backend B M R) (s : Shared B) (ma mb : M) {ra rb : R}
    → s.seq + 2 < u64_mod
    → (b.store s.memory mb).1 ≡ ok rb
    → (b.store (b.store s.memory mb).0 ma).1 ≡ ok ra
    → let sa = record s { seq = s.seq + 1 } in
      let (expected, mem) = begin_write b sa mb in
      let own = cas expected ∷ put mem ∷ [] in
      (commit b sa [] expected mem ≡ (run b sa own, ok (s.seq + 2)))
      × (commit b s own s.seq ma ≡ (
        record { seq = s.seq + 2; memory = (b.store (b.store s.memory mb).0 ma).0 },
        ok (s.seq + 1),
      ))
unfolding begin_write put_memory
commit_overtaken b s ma mb {ra} {rb} h stored_b stored_a =
    let sa = record s { seq = s.seq + 1 } in
    let own = cas (s.seq + 1) ∷ put mb ∷ [] in
    let events = commit_events b s mb h in
    (
      commit_alone b sa mb (try_commit_next s.seq h) stored_b ∙ rw events refl,
      commit_stored b s own ma {r = ra} (omega arith) (rw events stored_a) ∙ rw events refl,
    )
