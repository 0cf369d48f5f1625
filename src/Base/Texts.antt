-- ===== src/Base/Texts.antt =====
-- What the sources use of Rust's `str` and `char`, on native strings.
use Prim.Native.Char.{Char, code}
use Prim.Native.String.{String, ◌++◌}
use Prim.Native.Nat.{ℕ, zero, suc, ◌/◌, ◌%◌}
use mathlib.Core.List.{List, [], ◌∷◌}
use mathlib.Core.Bool.{Bool, true, false, ◌&&◌, ◌||◌}
use artesian.Base.Tests.{leb, ltb, ◌==◌, if◌then◌else◌}
use artesian.Base.Lists.{get_elem?}
use mathlib.Core.Option.{none, some}

-- `char::is_whitespace`.
abbrev pub is_whitespace : ℕ → Bool
is_whitespace c =
    (leb 9 c && leb c 13)
    || c == 32
    || c == 133
    || c == 160
    || c == 5760
    || (leb 8192 c && leb c 8202)
    || c == 8232
    || c == 8233
    || c == 8239
    || c == 8287
    || c == 12288

-- `str::trim`, from the end and then from the start.
abbrev pub cons_unless_blank : Char → String → String
cons_unless_blank c String.[] = if is_whitespace (code c) then String.[] else String.◌∷◌ c String.[]
cons_unless_blank c (String.◌∷◌ d s) = String.◌∷◌ c (String.◌∷◌ d s)

unfoldable pub trim_end : String → String
trim_end String.[] = String.[]
trim_end (String.◌∷◌ c s) = cons_unless_blank c (trim_end s)

unfoldable pub trim_start : String → String
trim_start String.[] = String.[]
trim_start (String.◌∷◌ c s) = if is_whitespace (code c) then trim_start s else String.◌∷◌ c s

unfoldable pub trim : String → String
unfolding trim_end trim_start
trim s = trim_start (trim_end s)

-- `str::split_whitespace`: the word that is being read, and the words behind it.
abbrev pub is_empty : String → Bool
is_empty String.[] = true
is_empty (String.◌∷◌ c s) = false

abbrev pub close_word : String × List String → List String
close_word (word, words) = if is_empty word then words else word ∷ words

unfoldable pub read_words : String → String × List String
read_words String.[] = (String.[], [])
read_words (String.◌∷◌ c s) =
    let (word, words) = read_words s in
    if is_whitespace (code c)
    then (String.[], close_word (word, words))
    else (String.◌∷◌ c word, words)

unfoldable pub split_whitespace : String → List String
unfolding read_words
split_whitespace s = close_word (read_words s)

-- `join`.
unfoldable pub join : String → List String → String
join sep [] = String.[]
join sep (part ∷ []) = part
join sep (part ∷ next ∷ parts) = part ++ (sep ++ join sep (next ∷ parts))

-- `chars().take(n).collect()`.
unfoldable pub take_chars : ℕ → String → String
take_chars zero s = String.[]
take_chars (suc n) String.[] = String.[]
take_chars (suc n) (String.◌∷◌ c s) = String.◌∷◌ c (take_chars n s)

-- `replace` of one character by a text.
unfoldable pub replace_char : ℕ → String → String → String
replace_char from to String.[] = String.[]
replace_char from to (String.◌∷◌ c s) =
    let rest = replace_char from to s in if code c == from then to ++ rest else String.◌∷◌ c rest

-- The text of a number in a base of at most sixteen. The fuel is the number itself, and a step
-- divides it.
abbrev pub digits : List String
digits =
    "0" ∷ "1" ∷ "2" ∷ "3" ∷ "4" ∷ "5" ∷ "6" ∷ "7" ∷ "8" ∷ "9" ∷ "a" ∷ "b" ∷ "c" ∷ "d" ∷ "e" ∷ "f"
    ∷ []

abbrev pub digit : ℕ → String
digit n = elim (get_elem? digits n) [ none ↦ String.[] | some d ↦ d ]

unfoldable pub in_base : ℕ → ℕ → ℕ → String
in_base zero base n = digit n
in_base (suc fuel) base n =
    let rest = in_base fuel base (n / base) in
    if ltb n base then digit n else rest ++ digit (n % base)

-- `u32::to_string`.
unfoldable pub decimal : ℕ → String
unfolding in_base
decimal n = in_base n 10 n
