-- ===== src/Aquifer/Mmr/Positions.antt =====
-- Lists of positions, and slots, as mmr_diversify of crates/aquifer/src/mmr.rs takes hits by them.
use artesian.Base.{
  ℕ, zero, suc, ◌+◌, ◌≤◌, ◌<◌, ◌≡◌, refl, ap, ◌⊎◌, inl, inr, false, not, Option, some, List, [],
  ◌∷◌, ◌++◌, length, get_elem?, range, filter, filter-All, ◌==◌, if_cases, Bool-cases, All,
  All-append, All-map, arith, subst,
}
use artesian.Aquifer.Mmr.{slot_at, clear_slot}

-- The number is not in the list, and no number comes twice.
abbrev pub Absent : ℕ → List ℕ → Type 0
Absent i = All (λ j. (j == i) ≡ false)

abbrev pub Distinct : List ℕ → Type 0
Distinct [] = Unit
Distinct (x ∷ xs) = Absent x xs × Distinct xs

abbrev pub Among : ℕ → List ℕ → Type 0
Among i [] = ⊥
Among i (x ∷ xs) = (x ≡ i) ⊎ Among i xs

pub All-Among : (xs : List ℕ) → All (λ i. Among i xs) xs
All-Among [] = tt
All-Among (x ∷ xs) = (inl refl, All-map (λ i h. inr h) xs (All-Among xs))

pub Among-All : (P : ℕ → Type 0) (i : ℕ) (xs : List ℕ) → Among i xs → All P xs → P i
Among-All P i [] h k = absurd h
Among-All P i (x ∷ xs) (inl e) k = subst P e k.0
Among-All P i (x ∷ xs) (inr h) k = Among-All P i xs h k.1

pub Distinct-snoc : (xs : List ℕ) (i : ℕ) → Distinct xs → Absent i xs → Distinct (xs ++ i ∷ [])
Distinct-snoc [] i h k = (tt, tt)
Distinct-snoc (x ∷ xs) i h k = (
  All-append (λ j. (j == x) ≡ false) xs (i ∷ []) h.0 (ground arith, tt),
  Distinct-snoc xs i h.1 k.1,
)

-- What is left when one number is taken out.
abbrev pub without : ℕ → List ℕ → List ℕ
without best = filter (λ index. not (index == best))

pub without-Absent : (i : ℕ) (xs : List ℕ) → Absent i (without i xs)
unfolding filter
without-Absent i [] = tt
without-Absent i (x ∷ xs) =
    if_cases (Absent i) (not (x == i)) (λ on. (ground arith, without-Absent i xs))
      (λ _. without-Absent i xs)

pub without-All : (P : ℕ → Type 0) (i : ℕ) (xs : List ℕ) → All P xs → All P (without i xs)
without-All P i xs h = filter-All {Q = P} (λ index. not (index == i)) (λ a _ p. p) xs h

pub without-Distinct : (i : ℕ) (xs : List ℕ) → Distinct xs → Distinct (without i xs)
unfolding filter
without-Distinct i [] h = tt
without-Distinct i (x ∷ xs) h =
    if_cases Distinct (not (x == i))
      (λ _. (without-All (λ j. (j == x) ≡ false) i xs h.0, without-Distinct i xs h.1))
      (λ _. without-Distinct i xs h.1)

pub length-without-Absent : (i : ℕ) (xs : List ℕ) → Absent i xs → length (without i xs) ≡ length xs
unfolding filter
length-without-Absent i [] h = refl
length-without-Absent i (x ∷ xs) h =
    let rest = length-without-Absent i xs h.1 in let same = h.0 in ground (arith, rest, same)

pub length-without_later :
    (i x : ℕ) (xs : List ℕ)
    → Distinct (x ∷ xs)
    → (x == i) ≡ false
    → Among i (x ∷ xs)
    → (Distinct xs → Among i xs → suc (length (without i xs)) ≡ length xs)
    → suc (suc (length (without i xs))) ≡ suc (length xs)
length-without_later i x xs h e (inl same) rest = ground (arith, e, same)
length-without_later i x xs h e (inr later) rest = ap (λ n. suc n) (rest h.1 later)

pub length-without :
    (i : ℕ) (xs : List ℕ) → Distinct xs → Among i xs → suc (length (without i xs)) ≡ length xs
unfolding filter
length-without i [] h k = absurd k
length-without i (x ∷ xs) h k = elim (Bool-cases (x == i)) [
  | inl e ↦
      let same : x ≡ i = ground (arith, e) in
      let absent : Absent i xs = subst (λ j. Absent j xs) same h.0 in
      let rest = length-without-Absent i xs absent in rw e (ap (λ n. suc n) rest)
  | inr e ↦ rw e (length-without_later i x xs h e k (length-without i xs))
]

pub get_elem?-some :
    {A : Type 0} (xs : List A) (i : ℕ) → i < length xs → (x : A) × (get_elem? xs i ≡ some x)
get_elem?-some [] i h = absurd (omega (arith, h))
get_elem?-some (x ∷ xs) zero h = (x, refl)
get_elem?-some (x ∷ xs) (suc i) h = get_elem?-some xs i (omega (arith, h))

pub clear_slot-other :
    {A : Type 0} (i j : ℕ) (slots : List (Option A))
    → (j == i) ≡ false
    → slot_at (clear_slot i slots) j ≡ slot_at slots j
clear_slot-other i j [] h = refl
clear_slot-other zero zero (x ∷ xs) h = cc
clear_slot-other zero (suc j) (x ∷ xs) h = refl
clear_slot-other (suc i) zero (x ∷ xs) h = refl
clear_slot-other (suc i) (suc j) (x ∷ xs) h = clear_slot-other i j xs (ground (arith, h))

pub range-in_range : (start n bound : ℕ) → start + n ≤ bound → All (λ i. i < bound) (range start n)
range-in_range start zero bound h = tt
range-in_range start (suc n) bound h =
    (omega (arith, h), range-in_range (suc start) n bound (omega (arith, h)))

pub range-Absent : (i start n : ℕ) → i < start → Absent i (range start n)
range-Absent i start zero h = tt
range-Absent i start (suc n) h =
    (ground (arith, h), range-Absent i (suc start) n (omega (arith, h)))

pub range-Distinct : (start n : ℕ) → Distinct (range start n)
range-Distinct start zero = tt
range-Distinct start (suc n) =
    (range-Absent start (suc start) n (omega arith), range-Distinct (suc start) n)

pub length-range : (start n : ℕ) → length (range start n) ≡ n
length-range start zero = refl
length-range start (suc n) = omega (arith, length-range (suc start) n)
