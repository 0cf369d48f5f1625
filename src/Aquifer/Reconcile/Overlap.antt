-- ===== src/Aquifer/Reconcile/Overlap.antt =====
-- The similarity of crates/aquifer/src/reconcile.rs against the texts that two lists have in common.
use Prim.Native.String.{compare}
use text.Mathlib.TextEquality.{path_by_compare}
use artesian.Base.{
  ℕ, zero, suc, ◌+◌, ◌≤◌, ◌≡◌, refl, sym, ◌∙◌, ap, inl, inr, String, true, false, List, [], ◌∷◌,
  any, filter, length, str_eq, All, All-map, arith, subst, eq_iff,
}
use mathlib.Core.Path.{fun_ext}
use artesian.Base.Floats.{Float}
use artesian.Headgate.Text.{TextOps}
use artesian.Aquifer.Types.{MemoryRecord}
use artesian.Aquifer.Reconcile.{
  ReconcileConfig, walk, similarity, jaccard, tokenize, reconcile_by, reconcile,
}
use artesian.Aquifer.Reconcile.Order.{
  Below, Below-trans, Below-flip, Below-str_eq, Below-str_eq₂, Ordering-cases, StrictlySorted,
  tokenize-StrictlySorted,
}

-- The number of the texts of the one list that are in the other.
unfoldable pub shared : List String → List String → ℕ
unfolding filter any
shared a b = length (filter (λ x. any (str_eq x) b) a)

shared-nil : (a : List String) → shared a [] ≡ 0
unfolding shared
shared-nil [] = refl
shared-nil (x ∷ a) = shared-nil a

shared_of_nil : (b : List String) → shared [] b ≡ 0
unfolding shared
shared_of_nil b = refl

-- The first text is in the other list, or is not.
shared-in :
    (x : String) (a b : List String) → any (str_eq x) b ≡ true → shared (x ∷ a) b ≡ suc (shared a b)
unfolding shared
shared-in x a b h = rw h refl

shared-out :
    (x : String) (a b : List String) → any (str_eq x) b ≡ false → shared (x ∷ a) b ≡ shared a b
unfolding shared
shared-out x a b h = rw h refl

any-first : (x y : String) (b : List String) → x ≡ y → any (str_eq x) (y ∷ b) ≡ true
unfolding any
any-first x y b e = let same = (eq_iff x y).1 e in ground (arith, same)

any-none : (x : String) (b : List String) → All (Below x) b → any (str_eq x) b ≡ false
unfolding any
any-none x [] h = refl
any-none x (y ∷ b) h =
    let rest = any-none x b h.1 in let first = Below-str_eq x y h.0 in ground (arith, rest, first)

-- A text that is in none of the others' places makes no difference.
shared-drop :
    (a : List String) (y : String) (b : List String)
    → All (Below y) a
    → shared a (y ∷ b) ≡ shared a b
unfolding shared
shared-drop [] y b h = refl
shared-drop (x ∷ a) y b h =
    let rest = shared-drop a y b h.1 in
    let first = Below-str_eq₂ x y h.0 in ground (arith, rest, first)

walk-shared :
    (fuel : ℕ) (a b : List String)
    → length a + length b ≤ fuel
    → StrictlySorted a
    → StrictlySorted b
    → walk fuel a b ≡ shared a b
unfolding walk
walk-shared zero [] b m h k = sym (shared_of_nil b)
walk-shared zero (x ∷ a) b m h k = absurd (omega (arith, m))
walk-shared (suc fuel) [] b m h k = sym (shared_of_nil b)
walk-shared (suc fuel) (x ∷ a) [] m h k = sym (shared-nil (x ∷ a))
walk-shared (suc fuel) (x ∷ a) (y ∷ b) m h k = elim (Ordering-cases (compare x y)) [
  | inl e ↦
      let above = All-map {P = Below y} {Q = Below x} (λ z l. Below-trans x y z e l) b k.0 in
      let missing = any-none x (y ∷ b) (e, above) in
      rw (walk, e)
        (walk-shared fuel a (y ∷ b) (omega (arith, m)) h.1 k ∙ sym (shared-out x a (y ∷ b) missing))
  | inr (inl e) ↦
      let same = path_by_compare x y e in
      let above : All (Below y) a = subst (λ z. All (Below z) a) same h.0 in
      rw (walk, e)
        (ap (λ n. suc n)
            (walk-shared fuel a b (omega (arith, m)) h.1 k.1 ∙ sym (shared-drop a y b above))
          ∙ sym (shared-in x a (y ∷ b) (any-first x y b same)))
  | inr (inr e) ↦
      let below = Below-flip x y e in
      let above = All-map {P = Below x} {Q = Below y} (λ z l. Below-trans y x z below l) a h.0 in
      rw (walk, e)
        (walk-shared fuel (x ∷ a) b (omega (arith, m)) h k.1
          ∙ sym (shared-drop (x ∷ a) y b (below, above)))
]

module _ {F : Type 0} ⦃f : Float F⦄ ⦃t : TextOps⦄ where
  -- The similarity of the sets of two texts' words: what they share over what they have together.
  unfoldable pub set_similarity : String → String → F
  set_similarity left right =
      let a = tokenize left in let b = tokenize right in similarity a b (shared a b)

  jaccard-set_similarity :
      (left right : String)
      → jaccard {F = F} (tokenize left) (tokenize right) ≡ set_similarity left right
  unfolding jaccard set_similarity
  jaccard-set_similarity left right =
      let a = tokenize left in
      let b = tokenize right in
      ap (similarity a b) (
        walk-shared (length a + length b) a b (omega arith) (tokenize-StrictlySorted left)
          (tokenize-StrictlySorted right))

  -- The walk along the sorted words counts the words that two texts share, so the decision is the
  -- one that the similarity of the sets of words gives.
  pub reconcile-set_similarity :
      (incoming : String) (candidates : List MemoryRecord) (config : ReconcileConfig F)
      → reconcile incoming candidates config
        ≡ reconcile_by set_similarity incoming candidates config
  unfolding reconcile
  reconcile-set_similarity incoming candidates config =
      ap (λ (sim : String → String → F). reconcile_by sim incoming candidates config)
        (fun_ext (λ left. fun_ext (λ right. jaccard-set_similarity left right)))
