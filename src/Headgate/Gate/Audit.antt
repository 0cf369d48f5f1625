-- ===== src/Headgate/Gate/Audit.antt =====
-- The audit of a decision: `QualifyAudit::from_signals` of crates/headgate/src/gate.rs.
use artesian.Base.{
  String, Bool, true, false, not, Option, none, some, List, [], ◌∷◌, map, length, filter, ltb, ◌==◌,
  if◌then◌else◌,
}
use artesian.Base.Floats.{Float}
use artesian.Headgate.Gate.{QualifySignal, QualifyAudit}

unfoldable pub bool_eq : Bool → Bool → Bool
bool_eq true b = b
bool_eq false b = not b

module _ {F : Type 0} ⦃f : Float F⦄ where
  -- `f32::clamp`.
  unfoldable pub clamp : F → F → F → F
  clamp x lo hi = let low = if f.lt x lo then lo else x in if f.lt hi low then hi else low

  unfoldable pub normalized_margin : F → F → F
  unfolding clamp
  normalized_margin value threshold =
      let scale = f.max (f.max (f.abs value) (f.abs threshold)) f.one in
      clamp (f.div (f.abs (f.sub value threshold)) scale) f.zero f.one

  unfoldable pub new_signal : String → F → F → Bool → QualifySignal F
  unfolding normalized_margin
  new_signal name value threshold passed = record {
    name = name;
    value = value;
    threshold = threshold;
    passed = passed;
    margin = normalized_margin value threshold;
  }

  unfoldable pub signal_agreement : Bool → List (QualifySignal F) → F
  unfolding filter bool_eq
  signal_agreement admitted [] = f.one
  signal_agreement admitted (s ∷ ss) =
      f.div (f.from_usize (length (filter (λ x. bool_eq x.passed admitted) (s ∷ ss))))
        (f.from_usize (length (s ∷ ss)))

  unfoldable pub binary_pairwise_kappa_alpha : List Bool → F
  unfolding filter clamp
  binary_pairwise_kappa_alpha votes =
      let ayes = f.from_usize (length (filter (λ v. v) votes)) in
      let total = f.from_usize (length votes) in
      let noes = f.sub total ayes in
      let observed =
        f.div (f.mul_add ayes (f.sub ayes f.one) (f.mul noes (f.sub noes f.one)))
          (f.mul total (f.sub total f.one)) in
      let aye_rate = f.div ayes total in
      let no_rate = f.div noes total in
      let expected = f.mul_add aye_rate aye_rate (f.mul no_rate no_rate) in
      let denominator = f.sub f.one expected in
      if f.le (f.abs denominator) f.epsilon
      then f.one
      else clamp (f.div (f.sub observed expected) denominator) (f.sub f.zero f.one) f.one

  -- The folds of `decision_confidence`.
  unfoldable pub fold_min : F → List (QualifySignal F) → F
  fold_min acc [] = acc
  fold_min acc (s ∷ ss) = fold_min (f.min acc s.margin) ss

  unfoldable pub fold_max : Option F → List (QualifySignal F) → Option F
  fold_max acc [] = acc
  fold_max none (s ∷ ss) = fold_max (some s.margin) ss
  fold_max (some current) (s ∷ ss) = fold_max (some (f.max current s.margin)) ss

  unfoldable pub decisive_margin : Bool → List (QualifySignal F) → F
  unfolding fold_min fold_max filter
  decisive_margin admitted [] = f.one
  decisive_margin true (s ∷ ss) = fold_min f.one (s ∷ ss)
  decisive_margin false (s ∷ ss) = elim (fold_max none (filter (λ x. not x.passed) (s ∷ ss))) [
    | none ↦ f.zero
    | some m ↦ m
  ]

  unfoldable pub decision_confidence : Bool → F → List (QualifySignal F) → F
  unfolding decisive_margin clamp
  decision_confidence admitted agreement signals =
      clamp
        (f.div
          (f.add (clamp agreement f.zero f.one)
            (clamp (decisive_margin admitted signals) f.zero f.one))
          (f.from_usize 2))
        f.zero f.one

  unfoldable pub from_signals : Bool → List (QualifySignal F) → QualifyAudit F
  unfolding signal_agreement binary_pairwise_kappa_alpha decision_confidence
  from_signals admitted signals =
      let votes = map (λ s. s.passed) signals in
      let n = length votes in
      let statistic = if ltb n 2 then none else some (binary_pairwise_kappa_alpha votes) in
      let agreement = signal_agreement admitted signals in
      record {
        signals = signals;
        agreement = agreement;
        chance_corrected_agreement = statistic;
        cohen_kappa = if n == 2 then statistic else none;
        krippendorff_alpha = if n == 2 then none else statistic;
        chance_corrected_method =
            if ltb n 2
            then none
            else if n == 2
            then some "cohen_kappa"
            else some "krippendorff_alpha";
        position_bias = none;
        position_bias_threshold = none;
        position_bias_flagged = none;
        judge_tier = none;
        judge_costs = [];
        confidence = decision_confidence admitted agreement signals;
      }
