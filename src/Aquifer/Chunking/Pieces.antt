-- ===== src/Aquifer/Chunking/Pieces.antt =====
-- The pieces of recursive_split, crates/aquifer/src/chunking.rs: the recursion ends, and no piece is
-- too long.
use Prim.Native.Char.{Char}
use artesian.Base.{
  ℕ, zero, suc, ◌-◌, ◌≤◌, ◌<◌, ◌≡◌, inl, inr, String, true, none, List, [], ◌∷◌, find, leb, leb→le,
  if_cases, Option-cases, All, All-append, All-map, arith, find-All,
}
use artesian.Base.Texts.{take_chars, is_empty}
use artesian.Headrace.Format.{strip_prefix}
use artesian.Aquifer.Chunking.{
  char_len, has_part, cons_head, split_text, drop_chars, windows, separators, is_blank, split_parts,
  recursive_split,
}

abbrev pub AtMost : ℕ → String → Type 0
AtMost n s = char_len s ≤ n

cons_head-AtMost :
    (c : Char) (parts : List String) (n : ℕ)
    → All (AtMost n) parts
    → All (AtMost (suc n)) (cons_head c parts)
cons_head-AtMost c [] n h = (omega arith, tt)
cons_head-AtMost c (part ∷ parts) n h =
    (omega (arith, h.0), All-map (λ s k. omega (arith, k)) parts h.1)

split_text-AtMost :
    (sep : String) (skip : ℕ) (s : String) → All (AtMost (char_len s)) (split_text sep skip s)
unfolding split_text
split_text-AtMost sep zero String.[] = (omega arith, tt)
split_text-AtMost sep (suc skip) String.[] = (omega arith, tt)
split_text-AtMost sep (suc skip) (String.◌∷◌ c s) =
    All-map (λ p k. omega (arith, k)) (split_text sep skip s) (split_text-AtMost sep skip s)
split_text-AtMost sep zero (String.◌∷◌ c s) =
    elim (Option-cases (strip_prefix sep (String.◌∷◌ c s))) [
      | inl e ↦
          rw (split_text, e)
            (cons_head-AtMost c (split_text sep zero s) (char_len s) (split_text-AtMost sep zero s))
      | inr (rest, e) ↦
          rw (split_text, e)
            (
              omega arith,
              All-map (λ p k. omega (arith, k)) (split_text sep (char_len sep - 1) s)
                  (split_text-AtMost sep (char_len sep - 1) s),
            )
    ]

-- A text that has a part that is not empty is not empty.
has_part-nonempty : (sep s : String) → 0 < char_len sep → has_part sep s ≡ true → 1 ≤ char_len s
unfolding has_part strip_prefix
has_part-nonempty String.[] s nonempty h = absurd (omega (arith, nonempty))
has_part-nonempty (String.◌∷◌ p sep) String.[] nonempty h = cc
has_part-nonempty (String.◌∷◌ p sep) (String.◌∷◌ c s) nonempty h = omega arith

abbrev pub Shorter : ℕ → String → Type 0
Shorter n s = char_len s < n

cons_head-Shorter :
    (c : Char) (parts : List String) (n : ℕ)
    → 1 ≤ n
    → All (Shorter n) parts
    → All (Shorter (suc n)) (cons_head c parts)
cons_head-Shorter c [] n m h = (omega (arith, m), tt)
cons_head-Shorter c (part ∷ parts) n m h =
    (omega (arith, h.0), All-map (λ s k. omega (arith, k)) parts h.1)

has_part-none :
    (sep : String) (c : Char) (s : String)
    → strip_prefix sep (String.◌∷◌ c s) ≡ none
    → has_part sep (String.◌∷◌ c s) ≡ true
    → has_part sep s ≡ true
unfolding has_part
has_part-none sep c s e h = ground (arith, e, h)

-- A text is longer than its parts at a separator that it has.
split_text-Shorter :
    (sep s : String)
    → 0 < char_len sep
    → has_part sep s ≡ true
    → All (Shorter (char_len s)) (split_text sep zero s)
unfolding split_text has_part
split_text-Shorter sep String.[] nonempty h =
    absurd (omega (arith, has_part-nonempty sep String.[] nonempty h))
split_text-Shorter sep (String.◌∷◌ c s) nonempty h =
    elim (Option-cases (strip_prefix sep (String.◌∷◌ c s))) [
      | inl e ↦
          let later : has_part sep s ≡ true = has_part-none sep c s e h in
          rw (split_text, e)
            (cons_head-Shorter c (split_text sep zero s) (char_len s)
              (has_part-nonempty sep s nonempty later) (split_text-Shorter sep s nonempty later))
      | inr (rest, e) ↦
          rw (split_text, e)
            (
              omega arith,
              All-map (λ p k. omega (arith, k)) (split_text sep (char_len sep - 1) s)
                  (split_text-AtMost sep (char_len sep - 1) s),
            )
    ]

take_chars-AtMost : (n : ℕ) (s : String) → AtMost n (take_chars n s)
unfolding take_chars
take_chars-AtMost zero s = omega arith
take_chars-AtMost (suc n) String.[] = omega arith
take_chars-AtMost (suc n) (String.◌∷◌ c s) = omega (arith, take_chars-AtMost n s)

windows-AtMost : (fuel n : ℕ) (s : String) → All (AtMost n) (windows fuel n s)
unfolding windows
windows-AtMost zero n s = tt
windows-AtMost (suc fuel) n s =
    if_cases (All (AtMost n)) (is_empty s) (λ _. tt)
      (λ _. (take_chars-AtMost n s, windows-AtMost fuel n (drop_chars n s)))

split_parts-AtMost :
    (again : String → List String) (max_chars fuel : ℕ) (parts : List String)
    → ((s : String) → char_len s ≤ fuel → All (AtMost max_chars) (again s))
    → All (AtMost fuel) parts
    → All (AtMost max_chars) (split_parts again max_chars parts)
unfolding split_parts
split_parts-AtMost again max_chars fuel [] h k = tt
split_parts-AtMost again max_chars fuel (part ∷ parts) h k =
    All-append (AtMost max_chars) _ (split_parts again max_chars parts)
      (if_cases (All (AtMost max_chars)) (leb (char_len part) max_chars)
        (λ on.
          if_cases (All (AtMost max_chars)) (is_blank part) (λ _. tt) (λ _. (leb→le _ _ on, tt)))
        (λ _. h part k.0))
      (split_parts-AtMost again max_chars fuel parts h k.1)

-- The separators are not empty.
separators-nonempty : All (λ sep. 0 < char_len sep) separators
separators-nonempty = (omega arith, (omega arith, (omega arith, (omega arith, tt))))

-- On as much fuel as the text has characters, no piece has more than `max_chars`.
pub recursive_split-AtMost :
    (fuel max_chars : ℕ) (text : String)
    → char_len text ≤ fuel
    → All (AtMost max_chars) (recursive_split fuel max_chars text)
unfolding recursive_split
recursive_split-AtMost zero max_chars text h = (omega (arith, h), tt)
recursive_split-AtMost (suc fuel) max_chars text h =
    if_cases (All (AtMost max_chars)) (leb (char_len text) max_chars) (λ on. (leb→le _ _ on, tt))
      (λ _. elim (Option-cases (find (λ sep. has_part sep text) separators)) [
        | inl e ↦ rw e (windows-AtMost (char_len text) max_chars text)
        | inr (sep, e) ↦
            let (nonempty, has) =
              find-All (λ sep. 0 < char_len sep) (λ sep. has_part sep text) separators e
                separators-nonempty in
            rw e (
              split_parts-AtMost (recursive_split fuel max_chars) max_chars fuel
                (split_text sep zero text) (recursive_split-AtMost fuel max_chars)
                (All-map (λ p k. omega (arith, k, h)) (split_text sep zero text)
                  (split_text-Shorter sep text nonempty has)))
      ])
