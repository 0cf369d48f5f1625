-- ===== src/Headgate/Compressor.antt =====
-- The extractive compressor: crates/headgate/src/compressor.rs. It keeps leading sentences while they
-- fit, and cuts the text itself where not even the first does.
pub mod Fits
pub mod Admits
use Prim.Native.Char.{code}
use Prim.Native.String
use text.Mathlib.Text.{is_char_boundary}
use artesian.Base.{
  ℕ, zero, suc, ◌+◌, ◌-◌, ◌*◌, String, Bool, true, false, not, ◌&&◌, ◌||◌, List, [], ◌∷◌, map,
  filter, ltb, leb, str_eq, ◌==◌, if◌then◌else◌,
}
use artesian.Base.Texts.{trim}
use artesian.Base.Results.{Result, ok}
use artesian.Headgate.Text.{TextOps, count_tokens}
use artesian.Headgate.Cycle.{Compressor}

abbrev pub is_sentence_end : ℕ → Bool
is_sentence_end c = c == 46 || c == 33 || c == 63 || c == 10

-- `str::split_inclusive`.
unfoldable pub split_inclusive : String → List String
split_inclusive String.[] = []
split_inclusive (String.◌∷◌ c s) =
    let rest = split_inclusive s in
    if is_sentence_end (code c)
    then String.◌∷◌ c String.[] ∷ rest
    else elim rest [ [] ↦ String.◌∷◌ c String.[] ∷ [] | part ∷ parts ↦ String.◌∷◌ c part ∷ parts ]

unfoldable pub split_sentences : String → List String
unfolding split_inclusive filter trim
split_sentences text =
    filter (λ sentence. not (str_eq sentence "")) (map trim (split_inclusive text))

-- A position moved back to where a character begins.
unfoldable pub floor_boundary : String → ℕ → ℕ
floor_boundary text zero = zero
floor_boundary text (suc end) =
    if is_char_boundary text (suc end) then suc end else floor_boundary text end

abbrev pub cut : String → ℕ → String
cut text end = String.slice text 0 end

-- The loop that tightens the text, on fuel: a round takes at least a byte, so the bytes are enough.
unfoldable pub tighten : ⦃t : TextOps⦄ → ℕ → ℕ → String → String
unfolding floor_boundary
tighten zero target text = text
tighten (suc fuel) target text =
    let rest = tighten fuel target (cut text (floor_boundary text (String.len text - 8))) in
    if ltb target (count_tokens text) && not (str_eq text "") then rest else text

unfoldable pub truncate_to_tokens : ⦃t : TextOps⦄ → String → ℕ → String
unfolding floor_boundary
truncate_to_tokens text target =
    if target == 0
    then ""
    else let end = (if leb (target * 4) (String.len text) then target * 4 else String.len text) in
      tighten (String.len text) target (cut text (floor_boundary text end))

abbrev pub joined : String → String → String
joined kept sentence =
    if str_eq kept "" then sentence else String.◌++◌ kept (String.◌++◌ " " sentence)

-- The loop over the sentences, which ends where one does not fit.
unfoldable pub keep_sentences : ⦃t : TextOps⦄ → ℕ → String → List String → String
keep_sentences target kept [] = kept
keep_sentences target kept (sentence ∷ rest) =
    let more = keep_sentences target (joined kept sentence) rest in
    if ltb target (count_tokens (joined kept sentence)) then kept else more

unfoldable pub compress : ⦃t : TextOps⦄ → String → ℕ → String
compress content target =
    if leb (count_tokens content) target
    then content
    else let kept = keep_sentences target "" (split_sentences content) in
      if str_eq kept "" then truncate_to_tokens content target else kept

abbrev pub extractive : ⦃t : TextOps⦄ → Compressor
extractive i content target = ok (compress content target)

-- The compressor that returns its input.
abbrev pub noop : Compressor
noop i content target = ok content
