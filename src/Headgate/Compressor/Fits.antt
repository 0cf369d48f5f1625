-- ===== src/Headgate/Compressor/Fits.antt =====
-- What the compressor returns fits the target.
use Prim.Native.String
use text.Mathlib.TextEquality.{eq_iff}
use text.Mathlib.TextPositions.{len_utf8-pos, slice-zero-zero}
use artesian.Base.{
  ℕ, zero, suc, ◌-◌, ◌*◌, ◌≤◌, ◌≡◌, refl, sym, ap, String, not, ◌&&◌, List, [], ◌∷◌, arith, ltb,
  leb, str_eq, ◌==◌, if◌then◌else◌, if_cases, subst, ltb_false→le, Bool-cases, inl, inr,
}
use artesian.Headgate.Text.{TextOps, count_tokens}
use artesian.Headgate.Compressor.{
  split_sentences, floor_boundary, cut, tighten, truncate_to_tokens, joined, keep_sentences,
  compress,
}

no_bytes : (text : String) → String.len text ≤ 0 → text ≡ ""
no_bytes String.[] h = refl
no_bytes (String.◌∷◌ c s) h =
    let (k, long) = len_utf8-pos c in absurd (omega (arith, long, String.len.cons c s))

-- The cut ends at the position that was found, so it has that many bytes.
len-floor :
    (text : String) (end : ℕ)
    → String.len (cut text (floor_boundary text end)) ≡ floor_boundary text end
unfolding floor_boundary
len-floor text zero = ap String.len (slice-zero-zero text)
len-floor text (suc end) = ground (arith, len-floor text end)

floor-le : (text : String) (end : ℕ) → floor_boundary text end ≤ end
unfolding floor_boundary
floor-le text zero = omega arith
floor-le text (suc end) = ground (arith, floor-le text end)

end_within :
    (content : String) (target : ℕ)
    → (if leb (target * 4) (String.len content) then target * 4 else String.len content)
      ≤ String.len content
end_within content target = ground arith

module _ ⦃t : TextOps⦄ where
  -- With as much fuel as bytes the loop ends at a text that fits, if the empty one does.
  tighten_fits :
      (fuel target : ℕ) (text : String)
      → count_tokens "" ≤ target
      → String.len text ≤ fuel
      → count_tokens (tighten fuel target text) ≤ target
  unfolding tighten
  tighten_fits zero target text base enough =
      subst (λ u. count_tokens u ≤ target) (sym (no_bytes text enough)) base
  tighten_fits (suc fuel) target text base enough =
      let shorter = cut text (floor_boundary text (String.len text - 8)) in
      if_cases (λ r. count_tokens r ≤ target)
        (ltb target (count_tokens text) && not (str_eq text ""))
        (λ on. tighten_fits fuel target shorter base (
          omega (arith, len-floor text (String.len text - 8), floor-le text (String.len text - 8))))
        (λ off. elim (Bool-cases (str_eq text "")) [
          | inl none_left ↦
              subst (λ u. count_tokens u ≤ target) (sym ((eq_iff text "").0 none_left)) base
          | inr some_left ↦ ground arith
        ])

  keep_sentences_fits :
      (target : ℕ) (kept : String) (sentences : List String)
      → count_tokens kept ≤ target
      → count_tokens (keep_sentences target kept sentences) ≤ target
  unfolding keep_sentences
  keep_sentences_fits target kept [] h = h
  keep_sentences_fits target kept (s ∷ rest) h =
      if_cases (λ r. count_tokens r ≤ target) (ltb target (count_tokens (joined kept s))) (λ on. h)
        (λ off. keep_sentences_fits target (joined kept s) rest (ltb_false→le target _ off))

  truncate_to_tokens_fits :
      (content : String) (target : ℕ)
      → count_tokens "" ≤ target
      → count_tokens (truncate_to_tokens content target) ≤ target
  unfolding truncate_to_tokens
  truncate_to_tokens_fits content target base =
      let end : ℕ =
        if leb (target * 4) (String.len content) then target * 4 else String.len content in
      if_cases (λ r. count_tokens r ≤ target) (target == 0) (λ on. base)
        (λ off.
          tighten_fits (String.len content) target (cut content (floor_boundary content end)) base
            (omega (arith, len-floor content end, floor-le content end, end_within content target)))

  -- Where the empty text fits, so does what is returned for any text.
  pub compress_fits :
      (content : String) (target : ℕ)
      → count_tokens "" ≤ target
      → count_tokens (compress content target) ≤ target
  unfolding compress
  compress_fits content target base =
      if_cases (λ r. count_tokens r ≤ target) (leb (count_tokens content) target)
        (λ on. ground arith)
        (λ off.
          if_cases (λ r. count_tokens r ≤ target)
            (str_eq (keep_sentences target "" (split_sentences content)) "")
            (λ on. truncate_to_tokens_fits content target base)
            (λ off. keep_sentences_fits target "" (split_sentences content) base))
