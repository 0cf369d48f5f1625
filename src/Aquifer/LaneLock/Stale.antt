-- ===== src/Aquifer/LaneLock/Stale.antt =====
-- A lock whose owner is dead: two waiting processes can take it over at once.
use artesian.Base.{ℕ, subst, ◌≡◌, refl, Bool, true, false, none, some, List, [], ◌∷◌, ◌==◌, arith}
use artesian.Aquifer.LaneLock.{
  Phase, idle, created, holding, blocked, judged, LockFile, Lane, create_lock, write_owner,
  judge_owner, next, act, run_lane, LockEvent, acts,
}

-- The file and the phases of two processes.
abbrev At : Lane → ℕ → ℕ → LockFile → Phase → Phase → Type 0
At lane p q file a b = (lane.file ≡ file) × (lane.phase p ≡ a) × (lane.phase q ≡ b)

same_process : (p : ℕ) → (p == p) ≡ true
same_process p = ground arith

act_left :
    (alive : ℕ → Bool) (lane : Lane) (p q : ℕ) (file : LockFile) (a b : Phase)
    → (p == q) ≡ false
    → At lane p q file a b
    → At (act alive p lane) p q (next alive p file a).0 (next alive p file a).1 b
unfolding act
act_left alive lane p q file a b apart (f, l, r) =
    rw (f, l, r, same_process p, apart) (refl, refl, refl)

act_right :
    (alive : ℕ → Bool) (lane : Lane) (p q : ℕ) (file : LockFile) (a b : Phase)
    → (q == p) ≡ false
    → At lane p q file a b
    → At (act alive q lane) p q (next alive q file b).0 a (next alive q file b).1
unfolding act
act_right alive lane p q file a b apart (f, l, r) =
    rw (f, l, r, same_process q, apart) (refl, refl, refl)

judge_dead :
    (alive : ℕ → Bool) (d : ℕ) → alive d ≡ false → judge_owner alive (some (d, true)) ≡ judged
unfolding judge_owner
judge_dead alive d dead = rw dead

-- Both find the file, both read that its owner is dead; `p` removes it, creates its own and has the
-- lane; then `q` removes that one and creates its own.
abbrev pub takeover : ℕ → ℕ → List LockEvent
takeover p q =
    acts p ∷ acts q ∷ acts p ∷ acts q ∷ acts p ∷ acts p ∷ acts p ∷ acts q ∷ acts q ∷ acts q ∷ []

-- From every state where the lock names a dead owner and two processes are about to acquire it,
-- there is an order of their calls after which both hold the guard.
pub run_lane-takeover :
    (alive : ℕ → Bool) (lane : Lane) (d p q : ℕ)
    → alive d ≡ false
    → lane.file ≡ some (d, true)
    → lane.phase p ≡ idle
    → lane.phase q ≡ idle
    → (p == q) ≡ false
    → ((run_lane alive (takeover p q) lane).phase p ≡ holding)
      × ((run_lane alive (takeover p q) lane).phase q ≡ holding)
unfolding run_lane next create_lock write_owner judge_owner
run_lane-takeover alive lane d p q dead file left right apart =
    let apart' : (q == p) ≡ false = ground (arith, apart) in
    let stale : LockFile = some (d, true) in
    let s1 = act alive p lane in
    let s2 = act alive q s1 in
    let s3 = act alive p s2 in
    let s4 = act alive q s3 in
    let s5 = act alive p s4 in
    let s6 = act alive p s5 in
    let s7 = act alive p s6 in
    let s8 = act alive q s7 in
    let s9 = act alive q s8 in
    let h1 : At s1 p q stale blocked idle =
      act_left alive lane p q stale idle idle apart (file, left, right) in
    let h2 : At s2 p q stale blocked blocked =
      act_right alive s1 p q stale blocked idle apart' h1 in
    let h3 : At s3 p q stale judged blocked =
      subst (λ a. At s3 p q stale a blocked) (judge_dead alive d dead)
        (act_left alive s2 p q stale blocked blocked apart h2) in
    let h4 : At s4 p q stale judged judged =
      subst (λ b. At s4 p q stale judged b) (judge_dead alive d dead)
        (act_right alive s3 p q stale judged blocked apart' h3) in
    let h5 : At s5 p q none idle judged = act_left alive s4 p q stale judged judged apart h4 in
    let h6 : At s6 p q (some (p, false)) created judged =
      act_left alive s5 p q none idle judged apart h5 in
    let h7 = act_left alive s6 p q (some (p, false)) created judged apart h6 in
    let h8 : At s8 p q none holding idle = act_right alive s7 p q _ holding judged apart' h7 in
    let h9 : At s9 p q (some (q, false)) holding created =
      act_right alive s8 p q none holding idle apart' h8 in
    let h10 = act_right alive s9 p q (some (q, false)) holding created apart' h9 in (h10.1, h10.2)
