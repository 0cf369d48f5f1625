-- ===== src/Base/Lists.antt =====
-- Lists measured by native numbers, with Boolean filters that run in a test.
use Prim.Native.Nat.{ℕ, zero, suc, ◌+◌}
use mathlib.Core.Path.{◌≡◌, refl, subst, ap}
use mathlib.Core.Logic.{◌⊎◌, inl, inr}
use mathlib.Core.Bool.{Bool, true, false, ◌&&◌, ◌||◌}
use mathlib.Core.Option.{Option, none, some}
use mathlib.Core.List.{List, [], ◌∷◌, ◌++◌}
use native.Mathlib.Omega.{arith}
use artesian.Base.Tests.{if◌then◌else◌, if_cases}

module _ {ℓ} {A : Type ℓ} where
  abbrev pub length : List A → ℕ
  length [] = 0
  length (x ∷ xs) = suc (length xs)

  pub length-append : (xs ys : List A) → length (xs ++ ys) ≡ length xs + length ys
  length-append [] ys = omega arith
  length-append (x ∷ xs) ys = omega (arith, length-append xs ys)

  abbrev pub get_elem? : List A → ℕ → Option A
  get_elem? [] i = none
  get_elem? (x ∷ xs) zero = some x
  get_elem? (x ∷ xs) (suc i) = get_elem? xs i

  -- `Iterator::any`, `Iterator::all`, `Iterator::filter` and `Iterator::find`.
  unfoldable pub any : (A → Bool) → List A → Bool
  any p [] = false
  any p (x ∷ xs) = p x || any p xs

  unfoldable pub all : (A → Bool) → List A → Bool
  all p [] = true
  all p (x ∷ xs) = p x && all p xs

  unfoldable pub filter : (A → Bool) → List A → List A
  filter p [] = []
  filter p (x ∷ xs) = if p x then x ∷ filter p xs else filter p xs

  unfoldable pub find : (A → Bool) → List A → Option A
  find p [] = none
  find p (x ∷ xs) = if p x then some x else find p xs

  -- Every item of the list has the property.
  abbrev pub All {κ} : (A → Type κ) → List A → Type κ
  All P [] = Unit
  All P (x ∷ xs) = P x × All P xs

  pub All-append {κ} : (P : A → Type κ) (xs ys : List A) → All P xs → All P ys → All P (xs ++ ys)
  All-append P [] ys h k = k
  All-append P (x ∷ xs) ys h k = (h.0, All-append P xs ys h.1 k)

  pub All-map {κ μ} :
      {P : A → Type κ} {Q : A → Type μ} (f : (a : A) → P a → Q a) (xs : List A)
      → All P xs
      → All Q xs
  All-map f [] h = tt
  All-map f (x ∷ xs) h = (f x h.0, All-map f xs h.1)

  pub All-map₂ {κ μ ν} :
      {P : A → Type κ} {Q : A → Type μ} {R : A → Type ν} (f : (a : A) → P a → Q a → R a)
      (xs : List A)
      → All P xs
      → All Q xs
      → All R xs
  All-map₂ f [] h k = tt
  All-map₂ f (x ∷ xs) h k = (f x h.0 k.0, All-map₂ f xs h.1 k.1)

  pub List-cases : (xs : List A) → (xs ≡ []) ⊎ ((x : A) × (rest : List A) × (xs ≡ x ∷ rest))
  List-cases [] = inl refl
  List-cases (x ∷ xs) = inr (x, xs, refl)

  find-nil : (p : A → Bool) {a : A} → ¬ (find p [] ≡ some a)
  unfolding find
  find-nil p e = cc

  find-cons :
      (p : A → Bool) (x : A) (xs : List A) {a : A}
      → find p (x ∷ xs) ≡ some a
      → ((p x ≡ true) × (x ≡ a)) ⊎ (find p xs ≡ some a)
  unfolding find
  find-cons p x xs e = ground arith

  pub find-All {κ} :
      (P : A → Type κ) (p : A → Bool) (xs : List A) {a : A}
      → find p xs ≡ some a
      → All P xs
      → P a × (p a ≡ true)
  find-All P p [] e h = absurd (find-nil p e)
  find-All P p (x ∷ xs) e h = elim (find-cons p x xs e) [
    | inl (on, same) ↦ subst (λ a. P a × (p a ≡ true)) same (h.0, on)
    | inr later ↦ find-All P p xs later h.1
  ]

  pub filter-All {κ μ} :
      {P : A → Type κ} {Q : A → Type μ} (q : A → Bool) (f : (a : A) → q a ≡ true → P a → Q a)
      (xs : List A)
      → All P xs
      → All Q (filter q xs)
  unfolding filter
  filter-All q f [] h = tt
  filter-All {Q = Q} q f (x ∷ xs) h =
      if_cases (All Q) (q x) (λ on. (f x on h.0, filter-All q f xs h.1))
        (λ off. filter-All q f xs h.1)

  pub all-All : (p : A → Bool) (xs : List A) → all p xs ≡ true → All (λ a. p a ≡ true) xs
  unfolding all
  all-All p [] h = tt
  all-All p (x ∷ xs) h = (ground arith, all-All p xs (ground arith))

-- `Iterator::take`.
abbrev pub take {ℓ} : {A : Type ℓ} → ℕ → List A → List A
take zero xs = []
take (suc n) [] = []
take (suc n) (x ∷ xs) = x ∷ take n xs

-- The numbers from `start` on.
abbrev pub range : ℕ → ℕ → List ℕ
range start zero = []
range start (suc n) = start ∷ range (suc start) n

pub range-suc : (start n : ℕ) → range start (suc n) ≡ range start n ++ (start + n) ∷ []
range-suc start zero = ap (λ m. m ∷ []) (omega arith)
range-suc start (suc n) =
    let e : suc start + n ≡ start + suc n = omega arith in
    ap (λ l. start ∷ l) (rw (range-suc (suc start) n, e) refl)

pub append_nil {ℓ} : {A : Type ℓ} (xs : List A) → xs ++ [] ≡ xs
append_nil [] = refl
append_nil (x ∷ xs) = ap (λ l. x ∷ l) (append_nil xs)
