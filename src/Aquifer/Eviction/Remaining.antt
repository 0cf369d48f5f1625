-- ===== src/Aquifer/Eviction/Remaining.antt =====
-- How many records an eviction of crates/aquifer/src/eviction.rs leaves, and that it archives an id once.
use artesian.Base.{
  ℕ, zero, suc, ◌-◌, ◌≤◌, ◌≡◌, refl, sym, ◌∙◌, ap, inl, inr, String, Bool, true, false, ◌||◌, some,
  List, [], ◌∷◌, ◌++◌, filter, any, ltb, ltb_false→le, str_eq, if◌then◌else◌, if_cases, Bool-cases,
  arith, subst, eq_iff,
}
use artesian.Base.Floats.{Float, FloatMath}
use artesian.Aquifer.Types.{MemoryRecord}
use artesian.Aquifer.Decay.{is_some}
use artesian.Aquifer.Eviction.{
  EvictionPolicy, Pass, max_keep_reason, is_active, is_known, archive_record, hard_deletes,
  score_records, insert_scored, sort_scored, apply_ttl, apply_min_strength, apply_lru,
  count_remaining, evict_weakest, apply_max_keep, run_policies,
}

any-append : (p : String → Bool) (xs ys : List String) → any p (xs ++ ys) ≡ (any p xs || any p ys)
unfolding any
any-append p [] ys = refl
any-append p (x ∷ xs) ys = let rest = any-append p xs ys in ground (arith, rest)

is_known_grows :
    (ids : List String) (id : String) (r : MemoryRecord)
    → is_known ids r ≡ true
    → is_known (ids ++ id ∷ []) r ≡ true
unfolding any
is_known_grows ids id r h = let e = any-append (str_eq r.id) ids (id ∷ []) in ground (arith, e, h)

is_known_itself : (ids : List String) (r : MemoryRecord) → is_known (ids ++ r.id ∷ []) r ≡ true
unfolding any
is_known_itself ids r =
    let e = any-append (str_eq r.id) ids (r.id ∷ []) in
    let same : str_eq r.id r.id ≡ true = (eq_iff r.id r.id).1 refl in ground (arith, e, same)

-- Every id of the one list is in the other.
abbrev Grows : List String → List String → Type 0
Grows a b = (r : MemoryRecord) → is_known a r ≡ true → is_known b r ≡ true

true_ne_false : ¬ (true ≡ false)
true_ne_false h = cc

module _ {F : Type 0} ⦃f : Float F⦄ ⦃m : FloatMath F⦄ where
  count_remaining-Grows :
      (a b : List String) (scored : List (MemoryRecord × F))
      → Grows a b
      → count_remaining b scored ≤ count_remaining a scored
  unfolding count_remaining
  count_remaining-Grows a b [] h = omega arith
  count_remaining-Grows a b ((r, s) ∷ rest) h =
      let ih = count_remaining-Grows a b rest h in
      if_cases
        (λ n. n ≤ (if is_known a r then count_remaining a rest else suc (count_remaining a rest)))
        (is_known b r)
        (λ _.
          if_cases (λ n. count_remaining b rest ≤ n) (is_known a r) (λ _. ih)
            (λ _. omega (arith, ih)))
        (λ off. elim (Bool-cases (is_known a r)) [
          | inl on ↦ absurd (true_ne_false (sym (h r on) ∙ off))
          | inr out ↦ rw out (omega (arith, ih))
        ])

  archive_record-Grows :
      (now : ℕ) (r : MemoryRecord) (reason : String) (strength : F) (pass : Pass F)
      → Grows pass.archived_ids (archive_record now r reason strength pass).archived_ids
  unfolding archive_record
  archive_record-Grows now r reason strength pass q h =
      if_cases (λ (p : Pass F). is_known p.archived_ids q ≡ true) (is_known pass.archived_ids r)
        (λ _. h) (λ _. is_known_grows pass.archived_ids r.id q h)

  archive_record-is_known :
      (now : ℕ) (r : MemoryRecord) (reason : String) (strength : F) (pass : Pass F)
      → is_known (archive_record now r reason strength pass).archived_ids r ≡ true
  unfolding archive_record
  archive_record-is_known now r reason strength pass =
      if_cases (λ (p : Pass F). is_known p.archived_ids r ≡ true) (is_known pass.archived_ids r)
        (λ on. on) (λ _. is_known_itself pass.archived_ids r)

  evict_weakest-Grows :
      (now : ℕ) (reason : F → String) (left : ℕ) (scored : List (MemoryRecord × F)) (pass : Pass F)
      → Grows pass.archived_ids (evict_weakest now reason left scored pass).archived_ids
  unfolding evict_weakest
  evict_weakest-Grows now reason left [] pass q h = h
  evict_weakest-Grows now reason zero (x ∷ rest) pass q h = h
  evict_weakest-Grows now reason (suc left) ((r, s) ∷ rest) pass q h =
      elim (Bool-cases (is_known pass.archived_ids r)) [
        | inl on ↦ rw (evict_weakest, on) (evict_weakest-Grows now reason (suc left) rest pass q h)
        | inr off ↦
            rw (evict_weakest, off)
              (evict_weakest-Grows now reason left rest (archive_record now r (reason s) s pass) q
                (archive_record-Grows now r (reason s) s pass q h))
      ]

  evict_weakest-is_known :
      (now : ℕ) (reason : F → String) (left : ℕ) (r : MemoryRecord) (s : F)
      → (rest : List (MemoryRecord × F)) (pass : Pass F) → is_known pass.archived_ids r ≡ true
      → evict_weakest now reason (suc left) ((r, s) ∷ rest) pass
        ≡ evict_weakest now reason (suc left) rest pass
  unfolding evict_weakest
  evict_weakest-is_known now reason left r s rest pass on = rw (evict_weakest, on) refl

  evict_weakest-archive_record :
      (now : ℕ) (reason : F → String) (left : ℕ) (r : MemoryRecord) (s : F)
      → (rest : List (MemoryRecord × F)) (pass : Pass F) → is_known pass.archived_ids r ≡ false
      → evict_weakest now reason (suc left) ((r, s) ∷ rest) pass
        ≡ evict_weakest now reason left rest (archive_record now r (reason s) s pass)
  unfolding evict_weakest
  evict_weakest-archive_record now reason left r s rest pass off =
      let after = evict_weakest now reason left rest (archive_record now r (reason s) s pass) in
      let passed = evict_weakest now reason (suc left) rest pass in
      ap (λ (known : Bool). elim known [ true ↦ passed | false ↦ after ]) off

  count_remaining-is_known :
      (ids : List String) (r : MemoryRecord) (s : F) (rest : List (MemoryRecord × F))
      → is_known ids r ≡ true
      → count_remaining ids ((r, s) ∷ rest) ≡ count_remaining ids rest
  unfolding count_remaining
  count_remaining-is_known ids r s rest on = rw on refl

  count_remaining-nil : (pass : Pass F) → count_remaining {F = F} pass.archived_ids [] ≡ 0
  unfolding count_remaining
  count_remaining-nil pass = refl

  count_remaining-suc :
      (ids : List String) (r : MemoryRecord) (s : F) (rest : List (MemoryRecord × F))
      → is_known ids r ≡ false
      → count_remaining ids ((r, s) ∷ rest) ≡ suc (count_remaining ids rest)
  unfolding count_remaining
  count_remaining-suc ids r s rest off = rw off refl

  evict_weakest-nil :
      (now : ℕ) (reason : F → String) (left : ℕ) (pass : Pass F)
      → evict_weakest now reason left [] pass ≡ pass
  unfolding evict_weakest
  evict_weakest-nil now reason left pass = refl

  evict_weakest-zero :
      (now : ℕ) (reason : F → String) (scored : List (MemoryRecord × F)) (pass : Pass F)
      → evict_weakest now reason zero scored pass ≡ pass
  unfolding evict_weakest
  evict_weakest-zero now reason [] pass = refl
  evict_weakest-zero now reason (x ∷ rest) pass = refl

  evict_weakest-count_remaining :
      (now : ℕ) (reason : F → String) (left : ℕ) (scored : List (MemoryRecord × F)) (pass : Pass F)
      → count_remaining (evict_weakest now reason left scored pass).archived_ids scored
        ≤ count_remaining pass.archived_ids scored - left
  evict_weakest-count_remaining now reason left [] pass =
      let none_left = count_remaining-nil (evict_weakest now reason left [] pass) in
      omega (arith, none_left)
  evict_weakest-count_remaining now reason zero (x ∷ rest) pass =
      rw (evict_weakest-zero now reason (x ∷ rest) pass) (omega arith)
  evict_weakest-count_remaining now reason (suc left) ((r, s) ∷ rest) pass =
      elim (Bool-cases (is_known pass.archived_ids r)) [
        | inl on ↦
            let later = evict_weakest now reason (suc left) rest pass in
            let still = evict_weakest-Grows now reason (suc left) rest pass r on in
            let ih = evict_weakest-count_remaining now reason (suc left) rest pass in
            let before = count_remaining-is_known pass.archived_ids r s rest on in
            let left_over = count_remaining-is_known later.archived_ids r s rest still in
            rw (evict_weakest-is_known now reason left r s rest pass on)
              (omega (arith, ih, before, left_over))
        | inr off ↦
            let after = archive_record now r (reason s) s pass in
            let later = evict_weakest now reason left rest after in
            let gone =
              evict_weakest-Grows now reason left rest after r
                (archive_record-is_known now r (reason s) s pass) in
            let ih = evict_weakest-count_remaining now reason left rest after in
            let fewer =
              count_remaining-Grows pass.archived_ids after.archived_ids rest
                (archive_record-Grows now r (reason s) s pass) in
            let before = count_remaining-suc pass.archived_ids r s rest off in
            let left_over = count_remaining-is_known later.archived_ids r s rest gone in
            rw (evict_weakest-archive_record now reason left r s rest pass off)
              (omega (arith, ih, fewer, before, left_over))
      ]

  count_remaining-cong :
      (ids : List String) (x : MemoryRecord × F) (a b : List (MemoryRecord × F))
      → count_remaining ids a ≡ count_remaining ids b
      → count_remaining ids (x ∷ a) ≡ count_remaining ids (x ∷ b)
  unfolding count_remaining
  count_remaining-cong ids (r, s) a b e = rw e refl

  count_remaining-swap :
      (ids : List String) (x y : MemoryRecord × F) (rest : List (MemoryRecord × F))
      → count_remaining ids (x ∷ y ∷ rest) ≡ count_remaining ids (y ∷ x ∷ rest)
  unfolding count_remaining
  count_remaining-swap ids (r, s) (q, t) rest = elim (Bool-cases (is_known ids r)) [
    | inl a ↦ elim (Bool-cases (is_known ids q)) [ inl b ↦ rw (a, b) refl | inr b ↦ rw (a, b) refl ]
    | inr a ↦ elim (Bool-cases (is_known ids q)) [ inl b ↦ rw (a, b) refl | inr b ↦ rw (a, b) refl ]
  ]

  count_remaining-insert_scored :
      (ids : List String) (x : MemoryRecord × F) (l : List (MemoryRecord × F))
      → count_remaining ids (insert_scored x l) ≡ count_remaining ids (x ∷ l)
  unfolding insert_scored count_remaining
  count_remaining-insert_scored ids x [] = refl
  count_remaining-insert_scored ids x (y ∷ ys) =
      if_cases
        (λ (l : List (MemoryRecord × F)). count_remaining ids l ≡ count_remaining ids (x ∷ y ∷ ys))
        (f.lt y.1 x.1)
        (λ _.
          count_remaining-cong ids y (insert_scored x ys) (x ∷ ys)
            (count_remaining-insert_scored ids x ys)
          ∙ count_remaining-swap ids y x ys)
        (λ _. refl)

  count_remaining-sort_scored :
      (ids : List String) (l : List (MemoryRecord × F))
      → count_remaining ids (sort_scored l) ≡ count_remaining ids l
  unfolding sort_scored
  count_remaining-sort_scored ids [] = refl
  count_remaining-sort_scored ids (x ∷ xs) =
      count_remaining-insert_scored ids x (sort_scored xs)
      ∙ count_remaining-cong ids x (sort_scored xs) xs (count_remaining-sort_scored ids xs)

  apply_max_keep-count_remaining :
      (policy : EvictionPolicy F) (now k : ℕ) (scored : List (MemoryRecord × F)) (pass : Pass F)
      → policy.max_keep ≡ some k
      → count_remaining (apply_max_keep policy now scored pass).archived_ids scored ≤ k
  unfolding apply_max_keep
  apply_max_keep-count_remaining policy now k scored pass cap =
      let before = count_remaining pass.archived_ids scored in
      rw cap (
        if_cases (λ (p : Pass F). count_remaining p.archived_ids scored ≤ k) (ltb k before)
          (λ _.
            let left =
              evict_weakest-count_remaining now (max_keep_reason before k) (before - k) scored
                pass in
            omega (arith, left))
          (λ out. ltb_false→le k before out))

  count_remaining-sorted :
      (sorts : Bool) (ids : List String) (l : List (MemoryRecord × F))
      → count_remaining ids (if sorts then sort_scored l else l) ≡ count_remaining ids l
  count_remaining-sorted sorts ids l =
      if_cases (λ (s : List (MemoryRecord × F)). count_remaining ids s ≡ count_remaining ids l)
        sorts (λ _. count_remaining-sort_scored ids l) (λ _. refl)

  -- With a cap of k records, at most k of the active records are left whose id the policies have
  -- not archived, whatever the other policies and the records.
  pub run_policies-count_remaining :
      (policy : EvictionPolicy F) (now k : ℕ) (records : List MemoryRecord)
      → policy.max_keep ≡ some k
      → count_remaining
          (run_policies policy now records).archived_ids
          (score_records policy now (filter (λ r. is_active r.state) records))
        ≤ k
  unfolding run_policies
  run_policies-count_remaining policy now k records cap =
      let scored = score_records policy now (filter (λ r. is_active r.state) records) in
      let sorts = policy.lru || is_some policy.max_keep in
      let deleted = (if policy.hard then hard_deletes policy now records else []) in
      let start : Pass F = record { archived_ids = []; log_entries = deleted } in
      let aged = apply_min_strength policy now scored (apply_ttl policy now scored start) in
      let sorted = (if sorts then sort_scored scored else scored) in
      let pass = apply_lru policy now sorted aged in
      subst (λ n. n ≤ k)
        (count_remaining-sorted sorts (apply_max_keep policy now sorted pass).archived_ids scored)
        (apply_max_keep-count_remaining policy now k sorted pass cap)
