-- ===== src/Aquifer/Reconcile/Order.antt =====
-- The order of texts, and the lists that are sorted by it, as crates/aquifer/src/reconcile.rs uses them.
use Prim.Native.Char.{Char, code}
use Prim.Native.String
use Prim.Native.String.compare
use Prim.Native.Nat.{Ordering}
use Prim.Native.Nat
use text.Mathlib.TextEquality.{path_by_compare}
use text.Mathlib.TextPositions.{compare_refl}
use artesian.Headgate.Text.{TextOps}
use artesian.Aquifer.Reconcile.{
  insert_text, sort_texts, dedup_after, dedup_texts, tokenize, to_ascii_lowercase,
}
use artesian.Base.{
  ℕ, ◌≡◌, refl, sym, ◌∙◌, ◌⊎◌, inl, inr, String, false, List, [], ◌∷◌, str_eq, map, filter, leb,
  if_cases, Bool-cases, All, All-map, arith, subst, eq_iff,
}

abbrev pub Below : String → String → Type 0
Below s t = String.compare s t ≡ Ordering.lt

nil_least : (c : Char) (s : String) → ¬ (Below (String.◌∷◌ c s) String.[])
nil_least c s h = let e = compare.cons-nil c s in cc

then_trans :
    (a b c : ℕ) (o p q : Ordering)
    → String.then (Nat.compare a b) o ≡ Ordering.lt
    → String.then (Nat.compare b c) p ≡ Ordering.lt
    → (o ≡ Ordering.lt → p ≡ Ordering.lt → q ≡ Ordering.lt)
    → String.then (Nat.compare a c) q ≡ Ordering.lt
then_trans a b c o p q h k f = ground arith

pub Below-trans : (s t u : String) → Below s t → Below t u → Below s u
Below-trans String.[] String.[] u h k = k
Below-trans String.[] (String.◌∷◌ d t) String.[] h k = absurd (nil_least d t k)
Below-trans String.[] (String.◌∷◌ d t) (String.◌∷◌ e u) h k = compare.nil-cons e u
Below-trans (String.◌∷◌ c s) String.[] u h k = absurd (nil_least c s h)
Below-trans (String.◌∷◌ c s) (String.◌∷◌ d t) String.[] h k = absurd (nil_least d t k)
Below-trans (String.◌∷◌ c s) (String.◌∷◌ d t) (String.◌∷◌ e u) h k =
    compare.cons-cons c e s u
    ∙ then_trans (code c) (code d) (code e) _ _ (String.compare s u)
        (sym (compare.cons-cons c d s t) ∙ h) (sym (compare.cons-cons d e t u) ∙ k)
        (Below-trans s t u)

then_flip :
    (a b : ℕ) (o p : Ordering)
    → String.then (Nat.compare a b) o ≡ Ordering.gt
    → (o ≡ Ordering.gt → p ≡ Ordering.lt)
    → String.then (Nat.compare b a) p ≡ Ordering.lt
then_flip a b o p h f = ground arith

-- A text that is above another has the other below it.
pub Below-flip : (s t : String) → String.compare s t ≡ Ordering.gt → Below t s
Below-flip String.[] String.[] h = let e = compare.nil-nil in cc
Below-flip String.[] (String.◌∷◌ d t) h = let e = compare.nil-cons d t in cc
Below-flip (String.◌∷◌ c s) String.[] h = compare.nil-cons c s
Below-flip (String.◌∷◌ c s) (String.◌∷◌ d t) h =
    compare.cons-cons d c t s
    ∙ then_flip (code c) (code d) _ (String.compare t s) (sym (compare.cons-cons c d s t) ∙ h)
        (Below-flip s t)

pub Below-str_eq : (s t : String) → Below s t → str_eq s t ≡ false
Below-str_eq s t h = ground (arith, h)

lt-ne-eq : ¬ (Ordering.lt ≡ Ordering.eq)
lt-ne-eq h = cc

pub Below-str_eq₂ : (s t : String) → Below t s → str_eq s t ≡ false
Below-str_eq₂ s t h = elim (Bool-cases (str_eq s t)) [
  | inr e ↦ e
  | inl e ↦
      let same : Below s s = subst (λ u. Below u s) (sym ((eq_iff s t).0 e)) h in
      let refl_eq = compare_refl s in absurd (lt-ne-eq (sym same ∙ refl_eq))
]

pub Ordering-cases : (o : Ordering) → (o ≡ Ordering.lt) ⊎ ((o ≡ Ordering.eq) ⊎ (o ≡ Ordering.gt))
Ordering-cases Ordering.lt = inl refl
Ordering-cases Ordering.eq = inr (inl refl)
Ordering-cases Ordering.gt = inr (inr refl)

-- Below a text, or the text itself.
abbrev pub AtMost : String → String → Type 0
AtMost s t = Below s t ⊎ (s ≡ t)

AtMost-trans : (s t u : String) → AtMost s t → AtMost t u → AtMost s u
AtMost-trans s t u (inl h) (inl k) = inl (Below-trans s t u h k)
AtMost-trans s t u (inl h) (inr e) = inl (subst (λ v. Below s v) e h)
AtMost-trans s t u (inr e) k = subst (λ v. AtMost v u) (sym e) k

-- Sorted, where a text may come twice; and strictly sorted.
abbrev pub Sorted : List String → Type 0
Sorted [] = Unit
Sorted (x ∷ xs) = All (AtMost x) xs × Sorted xs

abbrev pub StrictlySorted : List String → Type 0
StrictlySorted [] = Unit
StrictlySorted (x ∷ xs) = All (Below x) xs × StrictlySorted xs

insert_text-All :
    (P : String → Type 0) (x : String) (xs : List String)
    → P x
    → All P xs
    → All P (insert_text x xs)
unfolding insert_text
insert_text-All P x [] h k = (h, tt)
insert_text-All P x (y ∷ ys) h k = elim (Ordering-cases (String.compare x y)) [
  | inl e ↦ rw (insert_text, e) (h, k)
  | inr (inl e) ↦ rw (insert_text, e) (h, k)
  | inr (inr e) ↦ rw (insert_text, e) (k.0, insert_text-All P x ys h k.1)
]

insert_text-Sorted : (x : String) (xs : List String) → Sorted xs → Sorted (insert_text x xs)
unfolding insert_text
insert_text-Sorted x [] h = (tt, tt)
insert_text-Sorted x (y ∷ ys) h =
    let later = λ (first : AtMost x y).
      All-map {P = AtMost y} {Q = AtMost x} (λ z k. AtMost-trans x y z first k) ys h.0 in
    elim (Ordering-cases (String.compare x y)) [
      | inl e ↦ rw (insert_text, e) ((inl e, later (inl e)), h)
      | inr (inl e) ↦
          let same : AtMost x y = inr (path_by_compare x y e) in
          rw (insert_text, e) ((same, later same), h)
      | inr (inr e) ↦
          rw (insert_text, e)
            (
              insert_text-All (AtMost y) x ys (inl (Below-flip x y e)) h.0,
              insert_text-Sorted x ys h.1,
            )
    ]

strictly : (s t : String) → AtMost s t → str_eq s t ≡ false → Below s t
strictly s t (inl h) e = h
strictly s t (inr same) e = ground (arith, eq_iff s t, same, e)

sort_texts-Sorted : (xs : List String) → Sorted (sort_texts xs)
unfolding sort_texts
sort_texts-Sorted [] = tt
sort_texts-Sorted (x ∷ xs) = insert_text-Sorted x (sort_texts xs) (sort_texts-Sorted xs)

dedup_after-StrictlySorted :
    (last : String) (xs : List String)
    → Sorted (last ∷ xs)
    → StrictlySorted (last ∷ dedup_after last xs)
unfolding dedup_after
dedup_after-StrictlySorted last [] h = (tt, tt)
dedup_after-StrictlySorted last (x ∷ xs) h =
    if_cases (λ r. StrictlySorted (last ∷ r)) (str_eq last x)
      (λ _. dedup_after-StrictlySorted last xs (h.0.1, h.1.1))
      (λ other.
        let rest = dedup_after-StrictlySorted x xs h.1 in
        let below : Below last x = strictly last x h.0.0 other in
        (
          (
            below,
            All-map {P = Below x} {Q = Below last} (λ z k. Below-trans last x z below k)
                (dedup_after x xs) rest.0,
          ),
          rest,
        ))

pub dedup_texts-StrictlySorted : (xs : List String) → Sorted xs → StrictlySorted (dedup_texts xs)
unfolding dedup_texts
dedup_texts-StrictlySorted [] h = tt
dedup_texts-StrictlySorted (x ∷ xs) h = dedup_after-StrictlySorted x xs h

pub tokenize-StrictlySorted : ⦃t : TextOps⦄ (text : String) → StrictlySorted (tokenize text)
unfolding tokenize
tokenize-StrictlySorted ⦃t⦄ text =
    let tokens =
      map to_ascii_lowercase (filter (λ token. leb 2 (String.len token)) (t.split_words text)) in
    dedup_texts-StrictlySorted (sort_texts tokens) (sort_texts-Sorted tokens)
