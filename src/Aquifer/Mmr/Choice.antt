-- ===== src/Aquifer/Mmr/Choice.antt =====
-- The hits that mmr_diversify, crates/aquifer/src/mmr.rs, selects: as many as asked for, none twice.
use artesian.Base.{
  ℕ, zero, suc, ◌+◌, ◌≤◌, ◌<◌, ◌≡◌, refl, ◌∙◌, ap, inl, inr, true, false, not, ◌||◌, Option, some,
  List, [], ◌∷◌, ◌++◌, map, length, length-append, get_elem?, take, range, filter-All, ltb, ltb→lt,
  ltb_false→le, leb, ◌==◌, if◌then◌else◌, if_cases, Bool-cases, All, All-append, All-map₂, arith,
}
use artesian.Base.Floats.{Float}
use artesian.Headgate.Text.{TextOps}
use artesian.Aquifer.Types.{SearchHit}
use artesian.Aquifer.Mmr.{
  clamp, slot_at, clear_slot, take_slots, pick, select, mmr_score, mmr_diversify,
}
use artesian.Aquifer.Mmr.Positions.{
  Absent, Distinct, Among, without, All-Among, Among-All, Distinct-snoc, without-All,
  without-Distinct, length-without, get_elem?-some, clear_slot-other, range-in_range,
  range-Distinct, length-range,
}

pick-All :
    {F : Type 0} ⦃f : Float F⦄ (P : ℕ → Type 0) (mmr : ℕ → F) (best : ℕ) (best_score : F)
    (candidates : List ℕ)
    → P best
    → All P candidates
    → P (pick mmr best best_score candidates)
unfolding pick
pick-All P mmr best best_score [] h k = h
pick-All ⦃f⦄ P mmr best best_score (c ∷ cs) h k =
    pick-All P mmr _ _ cs (if_cases P (f.lt best_score (mmr c)) (λ _. k.0) (λ _. h)) k.1

-- What is selected and what remains, of `n` numbers.
record IsSplit (n : ℕ) (selected remaining : List ℕ) : Type 0 where
  distinct : Distinct selected
  in_range : All (λ i. i < n) selected
  left_distinct : Distinct remaining
  left_in_range : All (λ i. i < n) remaining
  apart : All (λ i. Absent i selected) remaining
  counted : length selected + length remaining ≡ n

-- As many numbers below `n` as asked for, or all of them, none twice.
pub record IsChoice (n limit : ℕ) (chosen : List ℕ) : Type 0 where
  pub distinct : Distinct chosen
  pub in_range : All (λ i. i < n) chosen
  pub sized : length chosen ≡ (if leb limit n then limit else n)

IsSplit-take :
    {n : ℕ} {selected remaining : List ℕ} (best : ℕ)
    → Among best remaining
    → IsSplit n selected remaining
    → IsSplit n (selected ++ best ∷ []) (without best remaining)
IsSplit-take {n} {selected} {remaining} best a h = record {
  distinct =
      Distinct-snoc selected best h.distinct
        (Among-All (λ i. Absent i selected) best remaining a h.apart);
  in_range =
      All-append (λ i. i < n) selected (best ∷ []) h.in_range
        (Among-All (λ i. i < n) best remaining a h.left_in_range, tt);
  left_distinct = without-Distinct best remaining h.left_distinct;
  left_in_range = without-All (λ i. i < n) best remaining h.left_in_range;
  apart =
      filter-All {Q = λ i. Absent i (selected ++ best ∷ [])} (λ index. not (index == best))
        (λ a on p.
          All-append (λ j. (j == a) ≡ false) selected (best ∷ []) p (ground (arith, on), tt))
        remaining h.apart;
  counted = omega (
    arith,
    h.counted,
    length-append selected (best ∷ []),
    length-without best remaining h.left_distinct a,
  );
}

chosen_size :
    (m r n limit : ℕ) → m + r ≡ n → m ≤ limit → limit ≤ m → m ≡ (if leb limit n then limit else n)
chosen_size m r n limit e a b = ground arith

all_taken :
    {n : ℕ} {selected : List ℕ} (limit : ℕ)
    → length selected ≤ limit
    → IsSplit n selected []
    → IsChoice n limit selected
all_taken {n} {selected} limit k h = record {
  distinct = h.distinct;
  in_range = h.in_range;
  sized = let e = h.counted in ground (arith, e, k);
}

module _ {F : Type 0} ⦃f : Float F⦄ where
  select-IsChoice :
      (fuel : ℕ) (mmr : List ℕ → ℕ → F) (n limit : ℕ) (selected remaining : List ℕ)
      → length remaining ≤ fuel
      → length selected ≤ limit
      → IsSplit n selected remaining
      → IsChoice n limit (select fuel mmr limit selected remaining)
  unfolding select
  select-IsChoice zero mmr n limit selected [] m k h = all_taken limit k h
  select-IsChoice zero mmr n limit selected (x ∷ rest) m k h = absurd (omega (arith, m))
  select-IsChoice (suc fuel) mmr n limit selected [] m k h = all_taken limit k h
  select-IsChoice (suc fuel) mmr n limit selected (first ∷ rest) m k h =
      let best = pick (mmr selected) first f.lowest (first ∷ rest) in
      let among : Among best (first ∷ rest) =
        pick-All (λ i. Among i (first ∷ rest)) (mmr selected) first f.lowest (first ∷ rest)
          (inl refl) (All-Among (first ∷ rest)) in
      if_cases (IsChoice n limit) (ltb (length selected) limit)
        (λ more.
          select-IsChoice fuel mmr n limit (selected ++ best ∷ []) (without best (first ∷ rest))
            (omega (arith, m, length-without best (first ∷ rest) h.left_distinct among))
            (omega (arith, length-append selected (best ∷ []), ltb→lt (length selected) limit more))
            (IsSplit-take best among h))
        (λ full. record {
          distinct = h.distinct;
          in_range = h.in_range;
          sized =
              chosen_size (length selected) (suc (length rest)) n limit h.counted k
                (ltb_false→le (length selected) limit full);
        })

-- The slots that are still to be taken hold their hits.
take_slots-get_elem? :
    {A : Type 0} (xs : List A) (slots : List (Option A)) (chosen : List ℕ)
    → Distinct chosen
    → All (λ i. i < length xs) chosen
    → All (λ i. slot_at slots i ≡ get_elem? xs i) chosen
    → map some (take_slots slots chosen) ≡ map (get_elem? xs) chosen
unfolding take_slots
take_slots-get_elem? xs slots [] d m h = refl
take_slots-get_elem? xs slots (i ∷ rest) d m h =
    let (x, found) = get_elem?-some xs i m.0 in
    let rest_kept =
      All-map₂
        (λ j (absent : (j == i) ≡ false) (k : slot_at slots j ≡ get_elem? xs j).
          clear_slot-other i j slots absent ∙ k)
        rest d.0 h.1 in
    let ih = take_slots-get_elem? xs (clear_slot i slots) rest d.1 m.1 rest_kept in
    rw (take_slots, h.0, found) (ap (λ l. some x ∷ l) ih)

none_selected : (xs : List ℕ) → All (λ i. Absent i []) xs
none_selected [] = tt
none_selected (x ∷ xs) = (tt, none_selected xs)

range-IsSplit : (n : ℕ) → IsSplit n [] (range 0 n)
range-IsSplit n = record {
  distinct = tt;
  in_range = tt;
  left_distinct = range-Distinct 0 n;
  left_in_range = range-in_range 0 n n (omega arith);
  apart = none_selected (range 0 n);
  counted = omega (arith, length-range 0 n);
}

slots_hold : {A : Type 0} (xs : List A) (i : ℕ) → slot_at (map some xs) i ≡ get_elem? xs i
slots_hold [] i = refl
slots_hold (x ∷ xs) zero = refl
slots_hold (x ∷ xs) (suc i) = slots_hold xs i

-- The hits are those at the positions of a choice.
abbrev pub ChosenFrom : {A : Type 0} → List A → ℕ → List A → Type 0
ChosenFrom xs limit out =
    (chosen : List ℕ) × IsChoice (length xs) limit chosen
    × (map some out ≡ map (get_elem? xs) chosen)

long_list :
    {A : Type 0} (xs : List A) (n : ℕ)
    → ¬ (leb (suc (suc (length xs))) 1 || leb (suc (suc n)) 1 ≡ true)
long_list xs n h = ground (arith, h)

short_choice :
    {A : Type 0} (xs : List A) (limit : ℕ)
    → leb (length xs) 1 || leb limit 1 ≡ true
    → ChosenFrom xs limit (take limit xs)
short_choice [] zero h = ([], record { distinct = tt; in_range = tt; sized = refl }, refl)
short_choice [] (suc limit) h =
    ([], record { distinct = tt; in_range = tt; sized = ground arith }, refl)
short_choice (x ∷ xs) zero h =
    ([], record { distinct = tt; in_range = tt; sized = ground arith }, refl)
short_choice (x ∷ xs) (suc zero) h = (
  0 ∷ [],
  record { distinct = (tt, tt); in_range = (omega arith, tt); sized = ground arith },
  refl,
)
short_choice (x ∷ []) (suc (suc n)) h = (
  0 ∷ [],
  record { distinct = (tt, tt); in_range = (omega arith, tt); sized = ground arith },
  refl,
)
short_choice (x ∷ y ∷ xs) (suc (suc n)) h = absurd (long_list xs n h)

every_slot :
    {A : Type 0} (xs : List A) (chosen : List ℕ)
    → All (λ i. slot_at (map some xs) i ≡ get_elem? xs i) chosen
every_slot xs [] = tt
every_slot xs (i ∷ rest) = (slots_hold xs i, every_slot xs rest)

-- The hits that are returned are hits that were given, at positions of which none comes twice, and
-- there are as many as asked for, or all where fewer were given. This holds for any scores, NaN
-- included.
pub mmr_diversify-ChosenFrom :
    {F : Type 0} ⦃f : Float F⦄ ⦃t : TextOps⦄ (hits : List (SearchHit F)) (limit : ℕ) (lambda : F)
    → ChosenFrom hits limit (mmr_diversify hits limit lambda)
unfolding mmr_diversify
mmr_diversify-ChosenFrom ⦃f⦄ hits limit lambda =
    elim (Bool-cases (leb (length hits) 1 || leb limit 1)) [
      | inl short ↦ rw (mmr_diversify, short) (short_choice hits limit short)
      | inr long ↦
          let n = length hits in
          let score = mmr_score (clamp f.zero f.one lambda) hits in
          let chosen = select n score limit [] (range 0 n) in
          let choice : IsChoice n limit chosen =
            select-IsChoice n score n limit [] (range 0 n) (omega (arith, length-range 0 n))
              (omega arith) (range-IsSplit n) in
          rw (mmr_diversify, long)
            (
              chosen,
              choice,
              take_slots-get_elem? hits (map some hits) chosen choice.distinct choice.in_range
                  (every_slot hits chosen),
            )
    ]
