-- ===== src/Flume/Redact/Passes.antt =====
-- That each pass of redact_secrets (crates/flume/src/lib.rs) copies, or drops behind a mark.
use Prim.Native.Char.{Char, code}
use Prim.Native.String
use text.Mathlib.TextLemmas.{nil-append, append-nil}
use artesian.Base.{ℕ, zero, suc, ◌-◌, String, true, false, refl, sym, inl, inr, Bool-cases}
use artesian.Aquifer.Reconcile.{to_ascii_lowercase}
use artesian.Flume.Redact.{
  redacted, begins_with, TokenMode, copies, drops, redact_token, ValueMode, reads_key, separates,
  is_separator, ends_value, read_value, redact_value, is_token_char, settle_mode,
}
use artesian.Flume.Redact.Marks.{Copied, Dropped, ends, keeps, marks, skips, resumes}

-- What a mode makes of the text before it.
abbrev pub Made : TokenMode → String → String → Type 0
Made copies s o = Copied s o
Made (drops n) s o = Dropped s o

redact_token-copies :
    (prefix : String) (c : Char) (s : String)
    → ((mode : TokenMode) → Made mode s (redact_token prefix mode s))
    → Copied (String.◌∷◌ c s) (redact_token prefix copies (String.◌∷◌ c s))
unfolding redact_token
redact_token-copies prefix c s made = elim (Bool-cases (begins_with prefix (String.◌∷◌ c s))) [
  | inl on ↦ rw (redact_token, on) (marks refl (skips c (made (drops (String.count prefix - 1)))))
  | inr off ↦ rw (redact_token, off) (keeps c (made copies))
]

pub redact_token-Made :
    (prefix : String) (mode : TokenMode) (s : String) → Made mode s (redact_token prefix mode s)
unfolding redact_token
redact_token-Made prefix copies String.[] = ends
redact_token-Made prefix (drops zero) String.[] = resumes ends
redact_token-Made prefix (drops (suc n)) String.[] = resumes ends
redact_token-Made prefix copies (String.◌∷◌ c s) =
    redact_token-copies prefix c s (λ mode. redact_token-Made prefix mode s)
redact_token-Made prefix (drops zero) (String.◌∷◌ c s) =
    let copied = redact_token-copies prefix c s (λ mode. redact_token-Made prefix mode s) in
    elim (Bool-cases (is_token_char (code c))) [
      | inl on ↦ rw (redact_token, on) (skips c (redact_token-Made prefix (drops zero) s))
      | inr off ↦ rw (redact_token, off) (resumes copied)
    ]
redact_token-Made prefix (drops (suc n)) (String.◌∷◌ c s) =
    skips c (redact_token-Made prefix (drops n) s)

abbrev pub Settled : ValueMode → String → String → Type 0
Settled ValueMode.copies s o = Copied s o
Settled ValueMode.drops s o = Dropped s o
Settled (reads_key n) s o = Copied s o
Settled (separates seen) s o = Copied s o

read_value-Settled :
    (key : String) (rest : ValueMode → String) (c : Char) (s : String) (mode : ValueMode)
    → ((next : ValueMode) → Settled next s (rest next))
    → Settled mode (String.◌∷◌ c s) (read_value key rest c s mode)
unfolding read_value
read_value-Settled key rest c s ValueMode.copies made =
    elim (Bool-cases (begins_with key (to_ascii_lowercase (String.◌∷◌ c s)))) [
      | inl on ↦ rw (read_value, on) (keeps c (made (reads_key (String.count key - 1))))
      | inr off ↦ rw (read_value, off) (keeps c (made ValueMode.copies))
    ]
read_value-Settled key rest c s ValueMode.drops made = skips c (made ValueMode.drops)
read_value-Settled key rest c s (reads_key zero) made = keeps c (made (reads_key zero))
read_value-Settled key rest c s (reads_key (suc n)) made = keeps c (made (reads_key n))
read_value-Settled key rest c s (separates seen) made = keeps c (made (separates true))

-- The step of a mode, once the mode of the next character is known.
settle_mode-Settled :
    (mode : ValueMode) (c : ℕ) (text : String) (step : ValueMode → String)
    → ((now : ValueMode) → Settled now text (step now))
    → Settled mode text (String.◌++◌ (settle_mode mode c).1 (step (settle_mode mode c).0))
settle_mode-Settled ValueMode.copies c text step made =
    rw (nil-append (step ValueMode.copies)) (made ValueMode.copies)
settle_mode-Settled ValueMode.drops c text step made = elim (Bool-cases (ends_value c)) [
  | inl on ↦
      rw (settle_mode, on, nil-append (step ValueMode.copies)) (resumes (made ValueMode.copies))
  | inr off ↦ rw (settle_mode, off, nil-append (step ValueMode.drops)) (made ValueMode.drops)
]
settle_mode-Settled (reads_key (suc n)) c text step made =
    rw (nil-append (step (reads_key (suc n)))) (made (reads_key (suc n)))
settle_mode-Settled (reads_key zero) c text step made = elim (Bool-cases (is_separator c)) [
  | inl on ↦ rw (settle_mode, on, nil-append (step (separates false))) (made (separates false))
  | inr off ↦ rw (settle_mode, off, nil-append (step ValueMode.copies)) (made ValueMode.copies)
]
settle_mode-Settled (separates true) c text step made = elim (Bool-cases (is_separator c)) [
  | inl on ↦ rw (settle_mode, on, nil-append (step (separates true))) (made (separates true))
  | inr off ↦ elim (Bool-cases (ends_value c)) [
    | inl on ↦ rw (settle_mode, off, on) (marks refl (resumes (made ValueMode.copies)))
    | inr still ↦ rw (settle_mode, off, still) (marks refl (made ValueMode.drops))
  ]
]
settle_mode-Settled (separates false) c text step made = elim (Bool-cases (is_separator c)) [
  | inl on ↦ rw (settle_mode, on, nil-append (step (separates false))) (made (separates false))
  | inr off ↦ rw (settle_mode, off, nil-append (step ValueMode.copies)) (made ValueMode.copies)
]

pub redact_value-Settled :
    (key : String) (mode : ValueMode) (s : String) → Settled mode s (redact_value key mode s)
unfolding redact_value
redact_value-Settled key ValueMode.copies String.[] = ends
redact_value-Settled key ValueMode.drops String.[] = resumes ends
redact_value-Settled key (reads_key n) String.[] = ends
redact_value-Settled key (separates true) String.[] =
    marks (sym (append-nil redacted)) (resumes ends)
redact_value-Settled key (separates false) String.[] = ends
redact_value-Settled key mode (String.◌∷◌ c s) =
    settle_mode-Settled mode (code c) (String.◌∷◌ c s)
      (read_value key (λ next. redact_value key next s) c s)
      (λ now.
        read_value-Settled key (λ next. redact_value key next s) c s now
          (λ next. redact_value-Settled key next s))
