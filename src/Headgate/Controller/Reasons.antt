-- ===== src/Headgate/Controller/Reasons.antt =====
-- How the controller of crates/headgate/src/controller.rs reads the reasons of the default gate.
use Prim.Native.Char.{Char, code}
use Prim.Native.String
use text.Mathlib.Text.{starts_with}
use text.Mathlib.TextEquality.{starts_with_iff, eq_iff}
use text.Mathlib.TextLemmas.{head-eq_of_cons-eq, append_assoc, cons-append}
use text.Mathlib.TextPositions.{starts_with-append}
use artesian.Base.{
  ◌≡◌, refl, ap, sym, subst, ◌∙◌, ◌↔◌, ◌<◌, String, Bool, true, false, ◌||◌, arith, if_cases,
}
use artesian.Base.Floats.{Float}
use artesian.Headgate.Text.{TextOps}
use artesian.Headgate.Ccs.{CommittedContextState, contains, max_overlap}
use artesian.Headgate.Gate.{RecallItem, QualifyDecision, redundant, below_relevance_threshold}
use artesian.Headgate.Gate.Default.{DefaultQualifyGate, relevance_reason, redundant_reason, decide}
use artesian.Headgate.Controller.{is_redundant_reason}

-- Two texts that begin with different characters differ.
heads_differ :
    (a b : Char) (l m s t : String)
    → code a < code b
    → ¬ (String.◌++◌ (String.◌∷◌ a l) s ≡ String.◌++◌ (String.◌∷◌ b m) t)
heads_differ a b l m s t h e = absurd (omega (arith, ap code (head-eq_of_cons-eq heads)))
  where
    heads : String.◌∷◌ a (String.◌++◌ l s) ≡ String.◌∷◌ b (String.◌++◌ m t)
    heads = sym (cons-append a l s) ∙ e ∙ cons-append b m t

true-or : (b c : Bool) → b ≡ true → (b || c) ≡ true
true-or b c h = ground arith

neither : (b c : Bool) → ¬ (b ≡ true) → ¬ (c ≡ true) → (b || c) ≡ false
neither b c h k = ground arith

starts_redundant : (r : String) → is_redundant_reason (String.◌++◌ "redundant (overlap " r) ≡ true
unfolding is_redundant_reason
starts_redundant r = true-or (starts_with (String.◌++◌ "redundant (overlap " r) "redundant") _ (
    subst (λ s. starts_with s "redundant" ≡ true) (sym (append_assoc "redundant" " (overlap " r))
      (starts_with-append "redundant" (String.◌++◌ " (overlap " r)))

starts_below :
    (r : String) → is_redundant_reason (String.◌++◌ "below relevance threshold (" r) ≡ false
unfolding is_redundant_reason
starts_below r =
    neither _ _
      (λ h.
        let (u, e) =
          (starts_with_iff (String.◌++◌ "below relevance threshold (" r) "redundant").0 h in
        heads_differ "b" "r" "elow relevance threshold (" "edundant" r u (omega arith) (sym e))
      (λ h.
        let e = (eq_iff (String.◌++◌ "below relevance threshold (" r) "already committed").0 h in
        heads_differ "a" "b" "lready committed" "elow relevance threshold (" "" r (omega arith)
          (sym e))

reads_redundant :
    {F : Type 0} ⦃f : Float F⦄ (o th : F) → is_redundant_reason (redundant_reason o th) ≡ true
unfolding redundant_reason
reads_redundant o th = starts_redundant _

reads_relevance :
    {F : Type 0} ⦃f : Float F⦄ (s m : F) → is_redundant_reason (relevance_reason s m) ≡ false
unfolding relevance_reason
reads_relevance s m = starts_below _

-- The reason is read as redundant exactly if the code says so.
abbrev ReadsWell : {F : Type 0} → QualifyDecision F → Type 0
ReadsWell d = (is_redundant_reason d.reason ≡ true) ↔ (d.reason_code ≡ redundant)

-- Of the candidates that the default gate rejects, the controller counts as redundant exactly those
-- that the gate's reason code calls redundant.
pub is_redundant_reason-decide :
    {F : Type 0} ⦃f : Float F⦄ ⦃t : TextOps⦄ (gate : DefaultQualifyGate F) (item : RecallItem F)
    (ccs : CommittedContextState F)
    → (decide gate item ccs).admitted ≡ false
    → (is_redundant_reason (decide gate item ccs).reason ≡ true)
      ↔ ((decide gate item ccs).reason_code ≡ redundant)
unfolding decide is_redundant_reason
is_redundant_reason-decide {F} ⦃f⦄ gate item ccs =
    if_cases Good (f.lt item.score gate.min_score) (λ _ _. below)
      (λ _.
        if_cases Good (contains ccs item.id) (λ _ _. (λ _. refl, λ _. refl))
          (λ _.
            if_cases Good (f.le gate.redundancy_threshold (max_overlap ccs item.content))
              (λ _ _. (
                λ _. refl,
                λ _. reads_redundant (max_overlap ccs item.content) gate.redundancy_threshold,
              ))
              (λ _ h. absurd (cc h))))
  where
    Good : QualifyDecision F → Type 0
    Good d = d.admitted ≡ false → ReadsWell d

    below :
        (is_redundant_reason (relevance_reason item.score gate.min_score) ≡ true)
        ↔ (below_relevance_threshold ≡ redundant)
    below = (λ h. absurd (cc (h, reads_relevance item.score gate.min_score)), λ h. absurd (cc h))
