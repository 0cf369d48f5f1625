-- ===== src/Flume/Redact.antt =====
-- What is kept out of events and answers: redact_secrets of crates/flume/src/lib.rs. Each pass reads
-- its text once, from the left; a mode says what it does with the next character.
pub mod Marks
pub mod Passes
pub mod Clean
use Prim.Native.Char.{Char, code}
use Prim.Native.String
use artesian.Base.{
  ℕ, zero, suc, ◌-◌, String, Bool, true, false, ◌&&◌, ◌||◌, none, some, List, [], ◌∷◌, leb, ◌==◌,
}
use artesian.Base.Texts.{is_whitespace}
use artesian.Headrace.Format.{strip_prefix}
use artesian.Aquifer.Reconcile.{to_ascii_lowercase}

abbrev pub redacted : String
redacted = "[REDACTED]"

-- `str::starts_with`.
unfoldable pub begins_with : String → String → Bool
unfolding strip_prefix
begins_with prefix s = elim (strip_prefix prefix s) [ none ↦ false | some _ ↦ true ]

-- `char::is_ascii_alphanumeric`.
abbrev pub is_ascii_alphanumeric : ℕ → Bool
is_ascii_alphanumeric c =
    (leb 48 c && leb c 57) || (leb 65 c && leb c 90) || (leb 97 c && leb c 122)

abbrev pub is_token_char : ℕ → Bool
is_token_char c = is_ascii_alphanumeric c || c == 95 || c == 45 || c == 46

-- The pass copies, or drops the rest of a prefix of so many characters and the token behind it.
pub data TokenMode : Type 0 where
  copies : TokenMode
  drops : ℕ → TokenMode

unfoldable pub redact_token : String → TokenMode → String → String
unfolding begins_with
redact_token prefix mode String.[] = String.[]
redact_token prefix (drops (suc n)) (String.◌∷◌ c s) = redact_token prefix (drops n) s
redact_token prefix (drops zero) (String.◌∷◌ c s) = elim (is_token_char (code c)) [
  | true ↦ redact_token prefix (drops zero) s
  | false ↦ elim (begins_with prefix (String.◌∷◌ c s)) [
    | true ↦ String.◌++◌ redacted (redact_token prefix (drops (String.count prefix - 1)) s)
    | false ↦ String.◌∷◌ c (redact_token prefix copies s)
  ]
]
redact_token prefix copies (String.◌∷◌ c s) = elim (begins_with prefix (String.◌∷◌ c s)) [
  | true ↦ String.◌++◌ redacted (redact_token prefix (drops (String.count prefix - 1)) s)
  | false ↦ String.◌∷◌ c (redact_token prefix copies s)
]

abbrev pub redact_prefixed_token : String → String → String
redact_prefixed_token input prefix = redact_token prefix copies input

-- Blank, tab, colon, equals sign.
abbrev pub is_separator : ℕ → Bool
is_separator c = c == 32 || c == 9 || c == 58 || c == 61

-- What ends a value: a blank, a comma, a semicolon or a quote.
abbrev pub ends_value : ℕ → Bool
ends_value c = is_whitespace c || c == 44 || c == 59 || c == 34 || c == 39

-- The pass copies, reads the rest of a key, reads the separators behind it (some are read), or
-- drops a value.
pub data ValueMode : Type 0 where
  copies drops : ValueMode
  reads_key : ℕ → ValueMode
  separates : Bool → ValueMode

-- The text that a key that ends the input, with separators, is followed by.
abbrev pub at_end : ValueMode → String
at_end ValueMode.copies = String.[]
at_end ValueMode.drops = String.[]
at_end (reads_key n) = String.[]
at_end (separates true) = redacted
at_end (separates false) = String.[]

-- The mode in which the next character is read, and the text that stands before it.
abbrev pub settle_mode : ValueMode → ℕ → ValueMode × String
settle_mode ValueMode.copies c = (ValueMode.copies, String.[])
settle_mode ValueMode.drops c = elim (ends_value c) [
  | true ↦ (ValueMode.copies, String.[])
  | false ↦ (ValueMode.drops, String.[])
]
settle_mode (reads_key (suc n)) c = (reads_key (suc n), String.[])
settle_mode (reads_key zero) c = elim (is_separator c) [
  | true ↦ (separates false, String.[])
  | false ↦ (ValueMode.copies, String.[])
]
settle_mode (separates seen) c = elim (is_separator c) [
  | true ↦ (separates seen, String.[])
  | false ↦ elim seen [
    | false ↦ (ValueMode.copies, String.[])
    | true ↦ elim (ends_value c) [
      | true ↦ (ValueMode.copies, redacted)
      | false ↦ (ValueMode.drops, redacted)
    ]
  ]
]

-- The character in its mode, with the rest of the text in the next one.
unfoldable pub read_value : String → (ValueMode → String) → Char → String → ValueMode → String
unfolding begins_with to_ascii_lowercase
read_value key rest c s ValueMode.copies =
    elim (begins_with key (to_ascii_lowercase (String.◌∷◌ c s))) [
      | true ↦ String.◌∷◌ c (rest (reads_key (String.count key - 1)))
      | false ↦ String.◌∷◌ c (rest ValueMode.copies)
    ]
read_value key rest c s ValueMode.drops = rest ValueMode.drops
read_value key rest c s (reads_key zero) = String.◌∷◌ c (rest (reads_key zero))
read_value key rest c s (reads_key (suc n)) = String.◌∷◌ c (rest (reads_key n))
read_value key rest c s (separates seen) = String.◌∷◌ c (rest (separates true))

unfoldable pub redact_value : String → ValueMode → String → String
unfolding read_value
redact_value key mode String.[] = at_end mode
redact_value key mode (String.◌∷◌ c s) =
    let (now, before) = settle_mode mode (code c) in
    String.◌++◌ before (read_value key (λ next. redact_value key next s) c s now)

abbrev pub redact_key_value_token : String → String → String
redact_key_value_token input key = redact_value key ValueMode.copies input

abbrev pub redact_each : (String → String → String) → String → List String → String
redact_each redact text [] = text
redact_each redact text (x ∷ xs) = redact_each redact (redact text x) xs

abbrev pub secret_prefixes : List String
secret_prefixes = "sk-" ∷ "ghp_" ∷ "gho_" ∷ "github_pat_" ∷ "xoxb-" ∷ "xoxp-" ∷ "hf_" ∷ []

abbrev pub secret_keys : List String
secret_keys =
    "api_key" ∷ "api-key" ∷ "apikey" ∷ "access_token" ∷ "access-token" ∷ "authorization" ∷ "bearer"
    ∷ "password" ∷ "secret" ∷ "token" ∷ []

unfoldable pub redact_secrets : String → String
unfolding redact_token redact_value
redact_secrets input =
    redact_each redact_key_value_token (redact_each redact_prefixed_token input secret_prefixes)
      secret_keys
