-- ===== src/Aquifer/LaneLock/Exclusion.antt =====
-- Where every owner lives, at most one process has the lane.
use artesian.Base.{
  ℕ, ◌≡◌, refl, Bool, true, false, Option, none, some, List, [], ◌∷◌, ◌==◌, arith, if_cases,
  Bool-cases, inl, inr, subst,
}
use artesian.Aquifer.LaneLock.{
  Phase, idle, created, holding, blocked, judged, LockFile, Lane, create_lock, write_owner,
  judge_owner, next, act, unblock, give_up, run_lane, LockEvent, acts, times_out, has_lane,
  free_lane,
}

-- Who created the file at the path.
abbrev creator : LockFile → Option ℕ
creator none = none
creator (some (p, written)) = some p

abbrev is_judged : Phase → Bool
is_judged idle = false
is_judged created = false
is_judged holding = false
is_judged blocked = false
is_judged judged = true

-- A process with the lane created the file at the path, and none has found a dead owner.
record IsExclusive (lane : Lane) : Type 0 where
  owns : (p : ℕ) → has_lane (lane.phase p) ≡ true → creator lane.file ≡ some p
  calm : (p : ℕ) → is_judged (lane.phase p) ≡ false

same-eq : (p q : ℕ) → (p == q) ≡ true → p ≡ q
same-eq p q h = ground arith

has_lane-unblock : (a : Phase) → has_lane (unblock a) ≡ true → has_lane a ≡ true
has_lane-unblock a h = ground arith

is_judged-unblock : (a : Phase) → is_judged a ≡ false → is_judged (unblock a) ≡ false
is_judged-unblock a h = ground arith

give_up-IsExclusive : (p : ℕ) (lane : Lane) → IsExclusive lane → IsExclusive (give_up p lane)
unfolding give_up
give_up-IsExclusive p lane v = record {
  owns = λ q.
      if_cases (λ b. has_lane b ≡ true → creator lane.file ≡ some q) (p == q)
        (λ same h.
          subst (λ r. creator lane.file ≡ some r) (same-eq p q same)
            (v.owns p (has_lane-unblock (lane.phase p) h)))
        (λ apart h. v.owns q h);
  calm = λ q.
      if_cases (λ b. is_judged b ≡ false) (p == q)
        (λ same. is_judged-unblock (lane.phase p) (v.calm p)) (λ apart. v.calm q);
}

module _ (alive : ℕ → Bool) (lives : (p : ℕ) → alive p ≡ true) where
  -- After the process's own step it has the lane only with its file, and it has not judged.
  next_owns :
      (p : ℕ) (file : LockFile) (a : Phase)
      → (has_lane a ≡ true → creator file ≡ some p)
      → is_judged a ≡ false
      → has_lane (next alive p file a).1 ≡ true
      → creator (next alive p file a).0 ≡ some p
  unfolding next create_lock write_owner judge_owner
  next_owns p none idle own calm h = ground (arith)
  next_owns p (some (r, w)) idle own calm h = ground (arith, lives r)
  next_owns p none created own calm h = ground (arith)
  next_owns p (some (r, w)) created own calm h = ground (arith, lives r)
  next_owns p none holding own calm h = ground (arith)
  next_owns p (some (r, w)) holding own calm h = ground (arith, lives r)
  next_owns p none blocked own calm h = ground (arith)
  next_owns p (some (r, w)) blocked own calm h = ground (arith, lives r)
  next_owns p none judged own calm h = ground (arith)
  next_owns p (some (r, w)) judged own calm h = ground (arith, lives r)

  next_calm :
      (p : ℕ) (file : LockFile) (a : Phase)
      → is_judged a ≡ false
      → is_judged (next alive p file a).1 ≡ false
  unfolding next create_lock write_owner judge_owner
  next_calm p none idle calm = ground (arith)
  next_calm p (some (r, w)) idle calm = ground (arith, lives r)
  next_calm p none created calm = ground (arith)
  next_calm p (some (r, w)) created calm = ground (arith, lives r)
  next_calm p none holding calm = ground (arith)
  next_calm p (some (r, w)) holding calm = ground (arith, lives r)
  next_calm p none blocked calm = ground (arith)
  next_calm p (some (r, w)) blocked calm = ground (arith, lives r)
  next_calm p none judged calm = ground (arith)
  next_calm p (some (r, w)) judged calm = ground (arith, lives r)

  -- It leaves the file of any other process that has the lane.
  next_keeps :
      (p q : ℕ) (file : LockFile) (a : Phase)
      → (p == q) ≡ false
      → (has_lane a ≡ true → creator file ≡ some p)
      → is_judged a ≡ false
      → creator file ≡ some q
      → creator (next alive p file a).0 ≡ some q
  unfolding next create_lock write_owner judge_owner
  next_keeps p q none idle apart own calm theirs = ground (arith)
  next_keeps p q (some (r, w)) idle apart own calm theirs = ground (arith, lives r)
  next_keeps p q none created apart own calm theirs = ground (arith)
  next_keeps p q (some (r, w)) created apart own calm theirs = ground (arith, lives r)
  next_keeps p q none holding apart own calm theirs = ground (arith)
  next_keeps p q (some (r, w)) holding apart own calm theirs = ground (arith, lives r)
  next_keeps p q none blocked apart own calm theirs = ground (arith)
  next_keeps p q (some (r, w)) blocked apart own calm theirs = ground (arith, lives r)
  next_keeps p q none judged apart own calm theirs = ground (arith)
  next_keeps p q (some (r, w)) judged apart own calm theirs = ground (arith, lives r)

  act-IsExclusive : (p : ℕ) (lane : Lane) → IsExclusive lane → IsExclusive (act alive p lane)
  unfolding act
  act-IsExclusive p lane v =
      let file = lane.file in
      let a = lane.phase p in
      let file' : LockFile = (next alive p file a).0 in
      record {
        owns = λ q.
            if_cases (λ b. has_lane b ≡ true → creator file' ≡ some q) (p == q)
              (λ same h.
                subst (λ r. creator file' ≡ some r) (same-eq p q same)
                  (next_owns p file a (v.owns p) (v.calm p) h))
              (λ apart h. next_keeps p q file a apart (v.owns p) (v.calm p) (v.owns q h));
        calm = λ q.
            if_cases (λ b. is_judged b ≡ false) (p == q) (λ same. next_calm p file a (v.calm p))
              (λ apart. v.calm q);
      }

  run_lane-IsExclusive :
      (events : List LockEvent) (lane : Lane)
      → IsExclusive lane
      → IsExclusive (run_lane alive events lane)
  unfolding run_lane
  run_lane-IsExclusive [] lane v = v
  run_lane-IsExclusive (acts p ∷ events) lane v =
      run_lane-IsExclusive events (act alive p lane) (act-IsExclusive p lane v)
  run_lane-IsExclusive (times_out p ∷ events) lane v =
      run_lane-IsExclusive events (give_up p lane) (give_up-IsExclusive p lane v)

free_lane-IsExclusive : IsExclusive free_lane
free_lane-IsExclusive = record { owns = λ p h. cc; calm = λ p. refl }

-- If every process lives on, then in whatever order the processes act and time out, from the free
-- lane on, while one is past the creation of the file no other is.
pub run_lane-excludes :
    (alive : ℕ → Bool) (events : List LockEvent) (p q : ℕ)
    → ((r : ℕ) → alive r ≡ true)
    → has_lane ((run_lane alive events free_lane).phase p) ≡ true
    → (p == q) ≡ false
    → has_lane ((run_lane alive events free_lane).phase q) ≡ false
run_lane-excludes alive events p q lives left apart =
    let lane = run_lane alive events free_lane in
    let v = run_lane-IsExclusive alive lives events free_lane free_lane-IsExclusive in
    elim (Bool-cases (has_lane (lane.phase q))) [
      | inr e ↦ e
      | inl right ↦ absurd (ground (arith, v.owns p left, v.owns q right))
    ]
