-- ===== src/Flume/Redact/Marks.antt =====
-- Texts in which parts are replaced by the mark of crates/flume/src/lib.rs (redact_secrets).
use Prim.Native.Char.{Char, code}
use Prim.Native.String
use text.Mathlib.TextLemmas.{nil-append, cons-append}
use artesian.Base.{
  String, Bool, true, false, not, ◌&&◌, ◌||◌, leb, ◌==◌, ◌≡◌, refl, sym, ◌∙◌, ap, ◌⊎◌, inl, inr,
  arith,
}
use artesian.Base.Texts.{is_empty}
use artesian.Headrace.Format.{strip_prefix}
use artesian.Flume.Redact.{redacted, begins_with}

-- A character that does not stand in the mark: no capital and no bracket.
abbrev pub is_plain : Char → Bool
is_plain c = not (leb 65 (code c) && leb (code c) 93)

abbrev pub IsPlain : String → Type 0
IsPlain String.[] = Unit
IsPlain (String.◌∷◌ c s) = (is_plain c ≡ true) × IsPlain s

abbrev pub IsMark : String → Type 0
IsMark String.[] = Unit
IsMark (String.◌∷◌ c s) = (is_plain c ≡ false) × IsMark s

-- The text stands somewhere in the other, as for `str::contains`.
unfoldable pub occurs : String → String → Bool
unfolding begins_with
occurs q String.[] = begins_with q String.[]
occurs q (String.◌∷◌ c s) = begins_with q (String.◌∷◌ c s) || occurs q s

pub redacted-IsMark : IsMark redacted
redacted-IsMark = (refl, (refl, (refl, (refl, (refl, (refl, (refl, (refl, (refl, (refl, tt))))))))))

redacted_some : ¬ (redacted ≡ String.[])
redacted_some e = cc

pub true_ne_false : ¬ (true ≡ false)
true_ne_false e = cc

begins_with-cons :
    (d : Char) (q : String) (c : Char) (s : String)
    → begins_with (String.◌∷◌ d q) (String.◌∷◌ c s) ≡ (code d == code c && begins_with q s)
unfolding begins_with strip_prefix
begins_with-cons d q c s = ground arith

-- What a pass makes of a text: it copies characters, and where it drops some, the mark stands first.
mutual
  pub data Copied : String → String → Type 0 where
    ends : Copied String.[] String.[]
    keeps : (c : Char) {s o : String} → Copied s o → Copied (String.◌∷◌ c s) (String.◌∷◌ c o)
    marks : {s o out : String} → out ≡ String.◌++◌ redacted o → Dropped s o → Copied s out

  pub data Dropped : String → String → Type 0 where
    skips : (c : Char) {s o : String} → Dropped s o → Dropped (String.◌∷◌ c s) o
    resumes : {s o : String} → Copied s o → Dropped s o

begins_with-nil : (s : String) → begins_with String.[] s ≡ true
unfolding begins_with strip_prefix
begins_with-nil s = refl

marked_front :
    (d : Char) (q r o : String)
    → is_plain d ≡ true
    → IsMark r
    → (r ≡ String.[]) ⊎ (begins_with (String.◌∷◌ d q) (String.◌++◌ r o) ≡ false)
marked_front d q String.[] o plain mark = inl refl
marked_front d q (String.◌∷◌ c r) o plain mark =
    let first = begins_with-cons d q c (String.◌++◌ r o) in
    inr (rw (cons-append c r o, first) (ground (arith, plain, mark.0)))

not_marked :
    (d : Char) (q o : String)
    → is_plain d ≡ true
    → begins_with (String.◌∷◌ d q) (String.◌++◌ redacted o) ≡ false
not_marked d q o plain = elim (marked_front d q redacted o plain redacted-IsMark) [
  | inl e ↦ absurd (redacted_some e)
  | inr h ↦ h
]

pub Copied-begins_with :
    (q : String) {s o : String}
    → IsPlain q
    → Copied s o
    → begins_with q o ≡ true
    → begins_with q s ≡ true
Copied-begins_with String.[] plain copied h = begins_with-nil _
Copied-begins_with (String.◌∷◌ d q) plain ends h = h
Copied-begins_with (String.◌∷◌ d q) plain (keeps c {s = s} {o = o} copied) h =
    let before = begins_with-cons d q c s in
    let after = begins_with-cons d q c o in
    let ih = Copied-begins_with q plain.1 copied in ground (arith, before, after, ih, h)
Copied-begins_with (String.◌∷◌ d q) plain (marks {o = o} e dropped) h =
    let none_there = not_marked d q o plain.0 in
    absurd (true_ne_false (sym h ∙ ap (begins_with (String.◌∷◌ d q)) e ∙ none_there))

pub occurs-mark :
    (d : Char) (q r o : String)
    → is_plain d ≡ true
    → IsMark r
    → occurs (String.◌∷◌ d q) (String.◌++◌ r o) ≡ occurs (String.◌∷◌ d q) o
unfolding occurs
occurs-mark d q String.[] o plain mark = ap (occurs (String.◌∷◌ d q)) (nil-append o)
occurs-mark d q (String.◌∷◌ c r) o plain mark =
    let first = begins_with-cons d q c (String.◌++◌ r o) in
    let later = occurs-mark d q r o plain mark.1 in
    ap (occurs (String.◌∷◌ d q)) (cons-append c r o) ∙ ground (arith, plain, mark.0, first, later)

mutual
  unfolding occurs

  pub Copied-occurs :
      (d : Char) (q : String) {s o : String}
      → IsPlain (String.◌∷◌ d q)
      → Copied s o
      → occurs (String.◌∷◌ d q) o ≡ true
      → occurs (String.◌∷◌ d q) s ≡ true
  Copied-occurs d q plain ends h = h
  Copied-occurs d q plain (keeps c {s = s} {o = o} copied) h =
      let here = Copied-begins_with (String.◌∷◌ d q) plain (keeps c copied) in
      let later = Copied-occurs d q plain copied in ground (arith, here, later, h)
  Copied-occurs d q plain (marks {o = o} e dropped) h = Dropped-occurs d q plain dropped (
      sym (occurs-mark d q redacted o plain.0 redacted-IsMark)
      ∙ ap (occurs (String.◌∷◌ d q)) (sym e)
      ∙ h)

  Dropped-occurs :
      (d : Char) (q : String) {s o : String}
      → IsPlain (String.◌∷◌ d q)
      → Dropped s o
      → occurs (String.◌∷◌ d q) o ≡ true
      → occurs (String.◌∷◌ d q) s ≡ true
  Dropped-occurs d q plain (skips c dropped) h =
      let later = Dropped-occurs d q plain dropped h in ground (arith, later)
  Dropped-occurs d q plain (resumes copied) h = Copied-occurs d q plain copied h

pub not_true : {b : Bool} → ¬ (b ≡ true) → b ≡ false
not_true {b = true} h = absurd (h refl)
not_true {b = false} h = refl

-- A pass brings in no prefix that was not there.
pub Copied-clean :
    (p : String) {s o : String}
    → is_empty p ≡ false
    → IsPlain p
    → Copied s o
    → occurs p s ≡ false
    → occurs p o ≡ false
Copied-clean String.[] nonempty plain copied none_before = cc
Copied-clean (String.◌∷◌ d q) nonempty plain copied none_before =
    not_true (λ h. true_ne_false (sym (Copied-occurs d q plain copied h) ∙ none_before))
