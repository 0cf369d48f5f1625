-- ===== src/Aquifer/Chunking.antt =====
-- The splitting of long records: crates/aquifer/src/chunking.rs.
pub mod Pieces
pub mod Sizes
use Prim.Native.Char.{Char, code}
use Prim.Native.String
use artesian.Base.{
  ℕ, zero, suc, ◌+◌, ◌-◌, ◌/◌, String, Bool, true, false, not, ◌&&◌, Option, none, some, List, [],
  ◌∷◌, ◌++◌, find, filter, length, ltb, leb, ◌==◌, if◌then◌else◌,
}
use artesian.Base.Texts.{trim, join, take_chars, is_empty}
use artesian.Headrace.Format.{strip_prefix}

pub record ChunkConfig : Type 0 where
  pub max_chars : ℕ
  pub overlap_chars : ℕ

pub record Chunk : Type 0 where
  pub content : String
  pub index : ℕ
  pub heading : Option String

abbrev pub char_len : String → ℕ
char_len String.[] = 0
char_len (String.◌∷◌ c s) = suc (char_len s)

-- `str::contains`.
unfoldable pub has_part : String → String → Bool
has_part sep String.[] = elim (strip_prefix sep String.[]) [ none ↦ false | some _ ↦ true ]
has_part sep (String.◌∷◌ c s) = elim (strip_prefix sep (String.◌∷◌ c s)) [
  | none ↦ has_part sep s
  | some _ ↦ true
]

abbrev pub cons_head : Char → List String → List String
cons_head c [] = String.◌∷◌ c String.[] ∷ []
cons_head c (part ∷ parts) = String.◌∷◌ c part ∷ parts

-- `str::split` at a text: `skip` characters of a separator are still to be passed over.
unfoldable pub split_text : String → ℕ → String → List String
split_text sep skip String.[] = String.[] ∷ []
split_text sep (suc skip) (String.◌∷◌ c s) = split_text sep skip s
split_text sep zero (String.◌∷◌ c s) = elim (strip_prefix sep (String.◌∷◌ c s)) [
  | none ↦ cons_head c (split_text sep zero s)
  | some _ ↦ String.[] ∷ split_text sep (char_len sep - 1) s
]

abbrev pub drop_chars : ℕ → String → String
drop_chars zero s = s
drop_chars (suc n) String.[] = String.[]
drop_chars (suc n) (String.◌∷◌ c s) = drop_chars n s

-- `chars.chunks(max_chars)`, on fuel: a window takes at least one character.
unfoldable pub windows : ℕ → ℕ → String → List String
windows zero max_chars s = []
windows (suc fuel) max_chars s =
    let rest = windows fuel max_chars (drop_chars max_chars s) in
    if is_empty s then [] else take_chars max_chars s ∷ rest

abbrev pub separators : List String
separators = "\n\n" ∷ "\n" ∷ ". " ∷ " " ∷ []

abbrev pub is_blank : String → Bool
is_blank s = is_empty (trim s)

-- The parts at a separator, the long ones split again.
unfoldable pub split_parts : (String → List String) → ℕ → List String → List String
split_parts again max_chars [] = []
split_parts again max_chars (part ∷ parts) =
    (if leb (char_len part) max_chars
      then (if is_blank part then [] else part ∷ [])
      else again part)
    ++ split_parts again max_chars parts

-- On fuel: a part is shorter than its text, so the characters of the text are enough.
unfoldable pub recursive_split : ℕ → ℕ → String → List String
unfolding find has_part split_text windows split_parts
recursive_split zero max_chars text = text ∷ []
recursive_split (suc fuel) max_chars text =
    if leb (char_len text) max_chars
    then text ∷ []
    else elim (find (λ sep. has_part sep text) separators) [
      | none ↦ windows (char_len text) max_chars text
      | some sep ↦ split_parts (recursive_split fuel max_chars) max_chars (split_text sep zero text)
    ]

unfoldable pub tail : String → ℕ → String
tail s n = drop_chars (char_len s - n) s

-- The chunk so far does not take the piece.
abbrev pub is_full : ℕ → String → String → Bool
is_full max_chars current piece =
    not (is_empty current) && ltb max_chars (char_len current + 1 + char_len piece)

abbrev pub joined : String → String → String
joined current piece =
    if is_empty current then piece else String.◌++◌ current (String.◌++◌ " " piece)

unfoldable pub merge_piece : ℕ → ℕ → List String × String → String → List String × String
unfolding tail
merge_piece max_chars overlap (chunks, current) piece =
    let piece = trim piece in
    if is_empty piece
    then (chunks, current)
    else if is_full max_chars current piece
    then (chunks ++ current ∷ [], joined (if ltb 0 overlap then tail current overlap else "") piece)
    else (chunks, joined current piece)

unfoldable pub merge_pieces : ℕ → ℕ → List String × String → List String → List String × String
unfolding merge_piece
merge_pieces max_chars overlap state [] = state
merge_pieces max_chars overlap state (piece ∷ pieces) =
    merge_pieces max_chars overlap (merge_piece max_chars overlap state piece) pieces

unfoldable pub merge_with_overlap : List String → ℕ → ℕ → List String
unfolding merge_pieces
merge_with_overlap pieces max_chars overlap =
    let (chunks, current) = merge_pieces max_chars overlap ([], "") pieces in
    if is_blank current then chunks else chunks ++ trim current ∷ []

abbrev pub starts_newline : String → Bool
starts_newline String.[] = false
starts_newline (String.◌∷◌ c s) = code c == 10

-- `str::lines`.
unfoldable pub lines : String → List String
lines String.[] = []
lines (String.◌∷◌ c s) =
    let rest = lines s in
    if code c == 10
    then String.[] ∷ rest
    else if (code c == 13) && starts_newline s
    then rest
    else cons_head c rest

-- `trim_start_matches('#')`.
unfoldable pub trim_hashes : String → String
trim_hashes String.[] = String.[]
trim_hashes (String.◌∷◌ c s) = if code c == 35 then trim_hashes s else String.◌∷◌ c s

abbrev pub starts_space : String → Bool
starts_space String.[] = false
starts_space (String.◌∷◌ c s) = code c == 32

unfoldable pub is_heading : String → Bool
unfolding trim_hashes
is_heading line =
    let rest = trim_hashes line in ltb (char_len rest) (char_len line) && starts_space rest

pub record Sections : Type 0 where
  pub sections : List (Option String × String)
  pub heading : Option String
  pub current : List String

-- The section that is being read goes to the others, where it has a line.
abbrev pub close_section : Sections → List (Option String × String)
close_section st = elim st.current [
  | [] ↦ st.sections
  | line ∷ more ↦ st.sections ++ (st.heading, join "\n" (line ∷ more)) ∷ []
]

unfoldable pub read_line : Sections → String → Sections
unfolding is_heading
read_line st line =
    if is_heading line
    then record {
      sections = close_section st;
      heading = some (trim (trim_hashes line));
      current = line ∷ [];
    }
    else record st { current = st.current ++ line ∷ [] }

unfoldable pub read_lines : Sections → List String → Sections
unfolding read_line
read_lines st [] = st
read_lines st (line ∷ rest) = read_lines (read_line st line) rest

unfoldable pub markdown_sections : String → List (Option String × String)
unfolding lines read_lines filter
markdown_sections text =
    let start : Sections = record { sections = []; heading = none; current = [] } in
    filter (λ section. not (is_blank section.1)) (close_section (read_lines start (lines text)))

unfoldable pub number_chunks : Option String → List String → List Chunk → List Chunk
number_chunks heading [] chunks = chunks
number_chunks heading (text ∷ texts) chunks =
    number_chunks heading texts
      (chunks ++ record { content = text; index = length chunks + 1; heading = heading } ∷ [])

unfoldable pub chunk_sections : ℕ → ℕ → List (Option String × String) → List Chunk → List Chunk
unfolding recursive_split merge_with_overlap number_chunks
chunk_sections max_chars overlap [] chunks = chunks
chunk_sections max_chars overlap ((heading, body) ∷ rest) chunks =
    chunk_sections max_chars overlap rest (
      number_chunks heading
        (merge_with_overlap (recursive_split (char_len body) max_chars body) max_chars overlap)
        chunks)

abbrev pub max_chars_of : ChunkConfig → ℕ
max_chars_of cfg = if ltb cfg.max_chars 1 then 1 else cfg.max_chars

abbrev pub overlap_of : ChunkConfig → ℕ
overlap_of cfg =
    let half = max_chars_of cfg / 2 in
    if ltb half cfg.overlap_chars then half else cfg.overlap_chars

abbrev pub or_whole : String → List Chunk → List Chunk
or_whole content [] = record { content = content; index = 1; heading = none } ∷ []
or_whole content (chunk ∷ chunks) = chunk ∷ chunks

unfoldable pub chunk_text : String → ChunkConfig → List Chunk
unfolding chunk_sections markdown_sections
chunk_text content cfg =
    or_whole content
      (chunk_sections (max_chars_of cfg) (overlap_of cfg) (markdown_sections content) [])
