-- ===== src/Headgate/Compressor/Admits.antt =====
-- The controller with the extractive compressor.
use text.Mathlib.TextEquality.{eq_iff}
use artesian.Base.{
  ℕ, ◌+◌, ◌≤◌, ◌<◌, ◌≡◌, refl, ap, String, true, false, none, arith, ltb, str_eq, Bool-cases, inl,
  inr, lt→ltb,
}
use artesian.Base.Floats.{Float}
use artesian.Base.Results.{ok}
use artesian.Headgate.Text.{TextOps, count_tokens}
use artesian.Headgate.Ccs.{headroom}
use artesian.Headgate.Gate.{RecallItem, QualifyDecision}
use artesian.Headgate.Cycle.{Headgate, CycleState}
use artesian.Headgate.Controller.{
  compress_to_fit, keep_compressed, settle, admit_candidate, squeeze_candidate,
}
use artesian.Headgate.Compressor.{compress, extractive}
use artesian.Headgate.Compressor.Fits.{compress_fits}

le→ltb_false : (a b : ℕ) → b ≤ a → ltb a b ≡ false
le→ltb_false a b h = ground arith

shortened :
    ⦃t : TextOps⦄ (content : String) (room : ℕ)
    → count_tokens "" ≤ room
    → room < count_tokens content
    → str_eq (compress content room) content ≡ false
shortened content room base over = elim (Bool-cases (str_eq (compress content room) content)) [
  | inr e ↦ e
  | inl same ↦ absurd (
      omega (
        arith,
        over,
        compress_fits content room base,
        ap (λ c. count_tokens c) ((eq_iff (compress content room) content).0 same),
      ))
]

module _ {F : Type 0} ⦃f : Float F⦄ ⦃t : TextOps⦄ where
  -- The state with one more compressed candidate.
  abbrev pub with_compressed : CycleState F → CycleState F
  with_compressed st = record st {
    metrics = record st.metrics { compressed = st.metrics.compressed + 1 };
  }

  keep_compressed-shortened :
      (content : String) (room : ℕ) (st : CycleState F)
      → count_tokens "" ≤ room
      → room < count_tokens content
      → keep_compressed content (compress content room) (count_tokens content) st
        ≡ ok (compress content room, count_tokens (compress content room), with_compressed st)
  unfolding keep_compressed
  keep_compressed-shortened content room st base over = rw (shortened content room base over) refl

  compress_to_fit-extractive :
      (h : Headgate F) (i : ℕ) (content : String) (st : CycleState F)
      → h.compressor ≡ extractive
      → h.config.compress_on_saturation ≡ true
      → 0 < headroom st.ccs
      → headroom st.ccs < count_tokens content
      → compress_to_fit h i content (count_tokens content) st
        ≡ keep_compressed content (compress content (headroom st.ccs)) (count_tokens content) st
  unfolding compress_to_fit headroom
  compress_to_fit-extractive h i content st uses on some_room over =
      rw (compress_to_fit, lt→ltb _ _ over, on, lt→ltb _ _ some_room, uses) refl

  settle-fits :
      (h : Headgate F) (i : ℕ) (item : RecallItem F) (decision : QualifyDecision F)
      (content : String) (tokens : ℕ) (st : CycleState F)
      → tokens ≤ headroom st.ccs
      → settle h i item decision content tokens st ≡ admit_candidate h i item decision content st
  unfolding settle headroom
  settle-fits h i item decision content tokens st fits = rw (settle, le→ltb_false _ _ fits) refl

  -- With compression on, the extractive compressor and some headroom left, a candidate that is too
  -- large is shortened to the headroom and admitted, and never rejected as saturated, if the empty
  -- text costs no token.
  pub squeeze_candidate-extractive :
      (h : Headgate F) (i : ℕ) (item : RecallItem F) (decision : QualifyDecision F)
      (st : CycleState F)
      → h.compressor ≡ extractive
      → h.config.compress_on_saturation ≡ true
      → count_tokens "" ≡ 0
      → 0 < headroom st.ccs
      → headroom st.ccs < count_tokens item.content
      → squeeze_candidate h i item decision st ≡ (
        admit_candidate h i item decision
            (compress item.content (headroom st.ccs))
            (with_compressed st),
        none,
      )
  unfolding squeeze_candidate
  squeeze_candidate-extractive h i item decision st uses on base some_room over =
      let room = headroom st.ccs in
      rw
        (
          squeeze_candidate,
          compress_to_fit-extractive h i item.content st uses on some_room over,
          keep_compressed-shortened item.content room st (omega arith) over,
          settle-fits h i item decision (compress item.content room)
              (count_tokens (compress item.content room)) (with_compressed st)
              (compress_fits item.content room (omega arith)),
        )
        refl
