-- ===== src/Aquifer/Reconcile.antt =====
-- The decision on a new memory that is like an old one: crates/aquifer/src/reconcile.rs.
pub mod Order
pub mod Overlap
use Prim.Native.Char.{Char, code}
use Prim.Native.String
use Prim.Native.Nat.{Ordering}
use artesian.Base.{
  ℕ, zero, suc, ◌+◌, ◌-◌, String, Bool, true, false, not, ◌&&◌, ◌||◌, Option, none, some, List, [],
  ◌∷◌, map, filter, any, length, ltb, leb, ◌==◌, str_eq, if◌then◌else◌,
}
use artesian.Base.Floats.{Float}
use artesian.Base.Texts.{trim, join}
use artesian.Headgate.Text.{TextOps}
use artesian.Aquifer.Types.{MemoryRecord}

pub record ReconcileConfig (F : Type 0) : Type 0 where
  pub reconcile_on_write : Bool
  pub similarity_threshold : F
  pub noop_threshold : F

pub data ReconcileDecision : Type 0 where
  add : ReconcileDecision
  update : (existing_id : String) (merged_content : String) → ReconcileDecision
  supersede : (superseded_id : String) → ReconcileDecision
  noop : (covered_by_id : String) → ReconcileDecision

-- `str::to_ascii_lowercase`.
abbrev pub lower_char : Char → Char
lower_char c =
    if leb 65 (code c) && leb (code c) 90
    then String.char_at "abcdefghijklmnopqrstuvwxyz" (code c - 65)
    else c

unfoldable pub to_ascii_lowercase : String → String
to_ascii_lowercase String.[] = String.[]
to_ascii_lowercase (String.◌∷◌ c s) = String.◌∷◌ (lower_char c) (to_ascii_lowercase s)

-- `sort_unstable`: equal texts are the same text, so any sort gives this list.
unfoldable pub insert_text : String → List String → List String
insert_text x [] = x ∷ []
insert_text x (y ∷ ys) = elim (String.compare x y) [
  | Ordering.lt ↦ x ∷ y ∷ ys
  | Ordering.eq ↦ x ∷ y ∷ ys
  | Ordering.gt ↦ y ∷ insert_text x ys
]

unfoldable pub sort_texts : List String → List String
unfolding insert_text
sort_texts [] = []
sort_texts (x ∷ xs) = insert_text x (sort_texts xs)

-- `Vec::dedup`, behind the text `last`.
unfoldable pub dedup_after : String → List String → List String
dedup_after last [] = []
dedup_after last (x ∷ xs) =
    let same = dedup_after last xs in
    let other = dedup_after x xs in if str_eq last x then same else x ∷ other

unfoldable pub dedup_texts : List String → List String
unfolding dedup_after
dedup_texts [] = []
dedup_texts (x ∷ xs) = x ∷ dedup_after x xs

unfoldable pub tokenize : ⦃t : TextOps⦄ → String → List String
unfolding filter to_ascii_lowercase sort_texts dedup_texts
tokenize ⦃t⦄ text = dedup_texts (
    sort_texts
      (map to_ascii_lowercase (filter (λ token. leb 2 (String.len token)) (t.split_words text))))

-- The walk along two sorted lists, on fuel: a step leaves a text of one of them behind.
unfoldable pub walk : ℕ → List String → List String → ℕ
walk zero a b = 0
walk (suc fuel) [] b = 0
walk (suc fuel) (x ∷ a) [] = 0
walk (suc fuel) (x ∷ a) (y ∷ b) = elim (String.compare x y) [
  | Ordering.eq ↦ suc (walk fuel a b)
  | Ordering.lt ↦ walk fuel a (y ∷ b)
  | Ordering.gt ↦ walk fuel (x ∷ a) b
]

abbrev pub is_nil : {A : Type 0} → List A → Bool
is_nil [] = true
is_nil (x ∷ xs) = false

unfoldable pub merged_with : String → String → String
merged_with incoming existing =
    if str_eq (trim incoming) (trim existing)
    then existing
    else join "" (trim existing ∷ "\n\n" ∷ trim incoming ∷ [])

module _ {F : Type 0} ⦃f : Float F⦄ where
  -- The similarity of two lists with `inter` texts in common.
  abbrev pub similarity : List String → List String → ℕ → F
  similarity a b inter =
      let union = length a + length b - inter in
      if is_nil a && is_nil b
      then f.one
      else if union == 0
      then f.one
      else f.div (f.from_usize inter) (f.from_usize union)

  unfoldable pub jaccard : List String → List String → F
  unfolding walk
  jaccard a b = similarity a b (walk (length a + length b) a b)

  -- The most similar record, and its similarity.
  unfoldable pub best_match :
      (String → F) → F → Option MemoryRecord → List MemoryRecord → F × Option MemoryRecord
  best_match sim best_sim best [] = (best_sim, best)
  best_match sim best_sim best (candidate ∷ candidates) =
      let better = f.lt best_sim (sim candidate.content) in
      best_match sim (if better then sim candidate.content else best_sim)
        (if better then some candidate else best) candidates

  unfoldable pub decide_on : String → ReconcileConfig F → F → MemoryRecord → ReconcileDecision
  unfolding merged_with
  decide_on incoming config best_sim best =
      if f.lt best_sim config.similarity_threshold
      then add
      else if f.le config.noop_threshold best_sim
      then noop best.id
      else if ltb (String.count best.content + 20) (String.count incoming)
      then supersede best.id
      else update best.id (merged_with incoming best.content)

  -- The decision by a similarity of texts.
  unfoldable pub reconcile_by :
      (String → String → F) → String → List MemoryRecord → ReconcileConfig F → ReconcileDecision
  unfolding best_match decide_on
  reconcile_by sim incoming candidates config =
      if not config.reconcile_on_write || is_nil candidates
      then add
      else let (best_sim, best) = best_match (sim incoming) f.zero none candidates in
        elim best [ none ↦ add | some best ↦ decide_on incoming config best_sim best ]

  unfoldable pub reconcile :
      ⦃t : TextOps⦄ → String → List MemoryRecord → ReconcileConfig F → ReconcileDecision
  unfolding reconcile_by tokenize jaccard
  reconcile incoming candidates config =
      reconcile_by (λ a b. jaccard (tokenize a) (tokenize b)) incoming candidates config
