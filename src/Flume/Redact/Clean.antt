-- ===== src/Flume/Redact/Clean.antt =====
-- That redact_secrets of crates/flume/src/lib.rs leaves no prefix of a token.
use Prim.Native.String
use Prim.Native.Char.{Char, code}
use artesian.Base.{
  zero, suc, ◌-◌, String, true, false, List, [], ◌∷◌, ◌≡◌, refl, sym, ◌∙◌, inl, inr, All,
  Bool-cases, arith,
}
use artesian.Base.Texts.{is_empty}
use artesian.Flume.Redact.{
  redacted, begins_with, TokenMode, copies, drops, redact_token, redact_prefixed_token, ValueMode,
  redact_key_value_token, redact_each, secret_prefixes, secret_keys, redact_secrets, is_token_char,
}
use artesian.Flume.Redact.Marks.{
  IsPlain, occurs, true_ne_false, redacted-IsMark, Copied, keeps, Copied-begins_with, occurs-mark,
  not_true, Copied-clean,
}
use artesian.Flume.Redact.Passes.{redact_token-Made, redact_value-Settled}

redact_token-copied_clean :
    (d : Char) (q : String) (c : Char) (s : String)
    → IsPlain (String.◌∷◌ d q)
    → ((mode : TokenMode) → occurs (String.◌∷◌ d q) (redact_token (String.◌∷◌ d q) mode s) ≡ false)
    → occurs (String.◌∷◌ d q) (redact_token (String.◌∷◌ d q) copies (String.◌∷◌ c s)) ≡ false
unfolding redact_token occurs
redact_token-copied_clean d q c s plain clean =
    let p = String.◌∷◌ d q in
    elim (Bool-cases (begins_with p (String.◌∷◌ c s))) [
      | inl on ↦
          let rest = redact_token p (drops (String.count p - 1)) s in
          rw (redact_token, on)
            (occurs-mark d q redacted rest plain.0 redacted-IsMark
              ∙ clean (drops (String.count p - 1)))
      | inr off ↦
          let rest = redact_token p copies s in
          let here = not_true (λ (h : begins_with p (String.◌∷◌ c rest) ≡ true).
            true_ne_false (
              sym (Copied-begins_with p plain (keeps c (redact_token-Made p copies s)) h) ∙ off)) in
          let later = clean copies in rw (redact_token, off) (ground (arith, here, later))
    ]

redact_token-clean :
    (d : Char) (q : String) (mode : TokenMode) (s : String)
    → IsPlain (String.◌∷◌ d q)
    → occurs (String.◌∷◌ d q) (redact_token (String.◌∷◌ d q) mode s) ≡ false
unfolding redact_token occurs
redact_token-clean d q copies String.[] plain = refl
redact_token-clean d q (drops zero) String.[] plain = refl
redact_token-clean d q (drops (suc n)) String.[] plain = refl
redact_token-clean d q copies (String.◌∷◌ c s) plain =
    redact_token-copied_clean d q c s plain (λ mode. redact_token-clean d q mode s plain)
redact_token-clean d q (drops zero) (String.◌∷◌ c s) plain =
    let copied =
      redact_token-copied_clean d q c s plain (λ mode. redact_token-clean d q mode s plain) in
    elim (Bool-cases (is_token_char (code c))) [
      | inl on ↦ rw (redact_token, on) (redact_token-clean d q (drops zero) s plain)
      | inr off ↦ rw (redact_token, off) copied
    ]
redact_token-clean d q (drops (suc n)) (String.◌∷◌ c s) plain =
    redact_token-clean d q (drops n) s plain

-- Passes that only copy, drop and mark keep a text clean of a prefix.
redact_each-clean :
    (redact : String → String → String) (p text : String) (xs : List String)
    → ((s x : String) → Copied s (redact s x))
    → is_empty p ≡ false
    → IsPlain p
    → occurs p text ≡ false
    → occurs p (redact_each redact text xs) ≡ false
redact_each-clean redact p text [] copied nonempty plain clean = clean
redact_each-clean redact p text (x ∷ xs) copied nonempty plain clean =
    redact_each-clean redact p (redact text x) xs copied nonempty plain
      (Copied-clean p nonempty plain (copied text x) clean)

redact_prefixed_token-clean :
    (p s : String) → is_empty p ≡ false → IsPlain p → occurs p (redact_prefixed_token s p) ≡ false
redact_prefixed_token-clean String.[] s nonempty plain = cc
redact_prefixed_token-clean (String.◌∷◌ d q) s nonempty plain =
    redact_token-clean d q copies s plain

prefixes-clean :
    (text : String) (ps : List String)
    → All (λ p. (is_empty p ≡ false) × IsPlain p) ps
    → All (λ p. occurs p (redact_each redact_prefixed_token text ps) ≡ false) ps
prefixes-clean text [] plain = tt
prefixes-clean text (p ∷ ps) plain = (
  redact_each-clean redact_prefixed_token p (redact_prefixed_token text p) ps
      (λ s x. redact_token-Made x copies s) plain.0.0 plain.0.1
      (redact_prefixed_token-clean p text plain.0.0 plain.0.1),
  prefixes-clean (redact_prefixed_token text p) ps plain.1,
)

keys-clean :
    (text : String) (keys ps : List String)
    → All (λ p. (is_empty p ≡ false) × IsPlain p) ps
    → All (λ p. occurs p text ≡ false) ps
    → All (λ p. occurs p (redact_each redact_key_value_token text keys) ≡ false) ps
keys-clean text keys [] plain clean = tt
keys-clean text keys (p ∷ ps) plain clean = (
  redact_each-clean redact_key_value_token p text keys
      (λ s x. redact_value-Settled x ValueMode.copies s) plain.0.0 plain.0.1 clean.0,
  keys-clean text keys ps plain.1 clean.1,
)

secret_prefixes-IsPlain : All (λ p. (is_empty p ≡ false) × IsPlain p) secret_prefixes
secret_prefixes-IsPlain = ground arith

-- What `redact_secrets` returns, for any text, has none of the prefixes of tokens that it looks for,
-- at any place: no pass leaves one, and no later pass brings one back.
pub redact_secrets-occurs :
    (input : String) → All (λ p. occurs p (redact_secrets input) ≡ false) secret_prefixes
unfolding redact_secrets
redact_secrets-occurs input =
    let prefixed = redact_each redact_prefixed_token input secret_prefixes in
    keys-clean prefixed secret_keys secret_prefixes secret_prefixes-IsPlain
      (prefixes-clean input secret_prefixes secret_prefixes-IsPlain)
