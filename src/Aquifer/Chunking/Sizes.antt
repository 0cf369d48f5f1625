-- ===== src/Aquifer/Chunking/Sizes.antt =====
-- The sizes and numbers of the chunks of chunk_text, crates/aquifer/src/chunking.rs.
use Prim.Native.Char.{Char, code}
use Prim.Native.String
use Prim.Native.String.append
use artesian.Base.{
  ℕ, zero, suc, ◌+◌, ◌-◌, ◌≤◌, ◌≡◌, refl, sym, ◌∙◌, ap, ◌⊎◌, inl, inr, String, false, Option, none,
  List, [], ◌∷◌, ◌++◌, map, length, range, range-suc, length-append, ltb, ltb_false→le,
  if◌then◌else◌, if_cases, List-cases, All, All-append, arith, subst,
}
use artesian.Base.Texts.{trim, trim_end, trim_start, cons_unless_blank, is_whitespace, is_empty}
use artesian.Aquifer.Chunking.{
  ChunkConfig, Chunk, char_len, drop_chars, is_blank, recursive_split, tail, is_full, joined,
  merge_piece, merge_pieces, merge_with_overlap, markdown_sections, number_chunks, chunk_sections,
  max_chars_of, overlap_of, chunk_text,
}
use artesian.Aquifer.Chunking.Pieces.{AtMost, recursive_split-AtMost}

char_len-append : (s t : String) → char_len (String.◌++◌ s t) ≡ char_len s + char_len t
char_len-append String.[] t = rw (append.nil t) (omega arith)
char_len-append (String.◌∷◌ c s) t = rw (append.cons c s t) (omega (arith, char_len-append s t))

cons_unless_blank-AtMost :
    (c : Char) (s : String) → char_len (cons_unless_blank c s) ≤ suc (char_len s)
cons_unless_blank-AtMost c String.[] =
    if_cases (λ r. char_len r ≤ 1) (is_whitespace (code c)) (λ _. omega arith) (λ _. omega arith)
cons_unless_blank-AtMost c (String.◌∷◌ d s) = omega arith

trim_end-AtMost : (s : String) → char_len (trim_end s) ≤ char_len s
unfolding trim_end
trim_end-AtMost String.[] = omega arith
trim_end-AtMost (String.◌∷◌ c s) =
    omega (arith, cons_unless_blank-AtMost c (trim_end s), trim_end-AtMost s)

trim_start-AtMost : (s : String) → char_len (trim_start s) ≤ char_len s
unfolding trim_start
trim_start-AtMost String.[] = omega arith
trim_start-AtMost (String.◌∷◌ c s) =
    if_cases (λ r. char_len r ≤ suc (char_len s)) (is_whitespace (code c))
      (λ _. omega (arith, trim_start-AtMost s)) (λ _. omega arith)

trim-AtMost : (s : String) → char_len (trim s) ≤ char_len s
unfolding trim
trim-AtMost s = omega (arith, trim_start-AtMost (trim_end s), trim_end-AtMost s)

drop_chars-length : (n : ℕ) (s : String) → char_len (drop_chars n s) ≡ char_len s - n
drop_chars-length zero s = omega arith
drop_chars-length (suc n) String.[] = omega arith
drop_chars-length (suc n) (String.◌∷◌ c s) = omega (arith, drop_chars-length n s)

tail-AtMost : (s : String) (n : ℕ) → AtMost n (tail s n)
unfolding tail
tail-AtMost s n = omega (arith, drop_chars-length (char_len s - n) s)

-- A chunk takes a piece behind it, and a space.
joined-AtMost :
    (current piece : String)
    → char_len (joined current piece) ≤ char_len current + 1 + char_len piece
joined-AtMost current piece =
    if_cases (λ r. char_len r ≤ char_len current + 1 + char_len piece) (is_empty current)
      (λ _. omega arith)
      (λ _.
        omega (arith, char_len-append current (String.◌++◌ " " piece), char_len-append " " piece))

indices-append :
    (xs : List Chunk) (x : Chunk)
    → map (λ chunk. chunk.index) (xs ++ x ∷ []) ≡ map (λ chunk. chunk.index) xs ++ x.index ∷ []
indices-append [] x = refl
indices-append (y ∷ xs) x = ap (λ l. y.index ∷ l) (indices-append xs x)

next_number :
    {numbers : List ℕ} (n more : ℕ)
    → numbers ≡ range 1 n
    → more ≡ n + 1
    → numbers ++ (n + 1) ∷ [] ≡ range 1 more
next_number n more h e =
    let last : n + 1 ≡ 1 + n = omega arith in
    let count : more ≡ suc n = omega (arith, e) in rw (h, count, last) (sym (range-suc 1 n))

module _ (max_chars overlap : ℕ) where
  abbrev Bounded : String → Type 0
  Bounded = AtMost (max_chars + overlap + 1)

  -- A piece that finds room makes a chunk of at most `max_chars`, and one that starts a chunk stands
  -- behind the overlap and a space.
  joined-Bounded :
      (current piece : String)
      → is_full max_chars current piece ≡ false
      → AtMost max_chars piece
      → Bounded (joined current piece)
  joined-Bounded String.[] piece h k = omega (arith, k)
  joined-Bounded (String.◌∷◌ c s) piece h k =
      let current = String.◌∷◌ c s in
      omega (
        arith,
        joined-AtMost current piece,
        ltb_false→le max_chars (char_len current + 1 + char_len piece) h,
      )

  overlap-AtMost :
      (current : String) → AtMost overlap (if ltb 0 overlap then tail current overlap else "")
  overlap-AtMost current =
      if_cases (AtMost overlap) (ltb 0 overlap) (λ _. tail-AtMost current overlap)
        (λ _. omega arith)

  abbrev AllBounded : List String × String → Type 0
  AllBounded (chunks, current) = All Bounded chunks × Bounded current

  merge_piece-AllBounded :
      (state : List String × String) (piece : String)
      → AtMost max_chars piece
      → AllBounded state
      → AllBounded (merge_piece max_chars overlap state piece)
  unfolding merge_piece
  merge_piece-AllBounded (chunks, current) piece m h =
      let short : AtMost max_chars (trim piece) = omega (arith, trim-AtMost piece, m) in
      let seed = (if ltb 0 overlap then tail current overlap else "") in
      if_cases AllBounded (is_empty (trim piece)) (λ _. h)
        (λ _.
          if_cases AllBounded (is_full max_chars current (trim piece))
            (λ full. (
              All-append Bounded chunks (current ∷ []) h.0 (h.1, tt),
              omega (arith, joined-AtMost seed (trim piece), overlap-AtMost current, short),
            ))
            (λ room. (h.0, joined-Bounded current (trim piece) room short)))

  merge_pieces-AllBounded :
      (state : List String × String) (pieces : List String)
      → All (AtMost max_chars) pieces
      → AllBounded state
      → AllBounded (merge_pieces max_chars overlap state pieces)
  unfolding merge_pieces
  merge_pieces-AllBounded state [] m h = h
  merge_pieces-AllBounded state (piece ∷ pieces) m h =
      merge_pieces-AllBounded (merge_piece max_chars overlap state piece) pieces m.1
        (merge_piece-AllBounded state piece m.0 h)

  merge_with_overlap-Bounded :
      (pieces : List String)
      → All (AtMost max_chars) pieces
      → All Bounded (merge_with_overlap pieces max_chars overlap)
  unfolding merge_with_overlap
  merge_with_overlap-Bounded pieces m =
      let merged = merge_pieces max_chars overlap ([], "") pieces in
      let (chunks, current) = merge_pieces-AllBounded ([], "") pieces m (tt, omega arith) in
      if_cases (All Bounded) (is_blank merged.1) (λ _. chunks)
        (λ _.
          All-append Bounded merged.0 (trim merged.1 ∷ []) chunks
            (omega (arith, trim-AtMost merged.1, current), tt))

  -- Chunks within the bound, numbered from 1.
  pub record IsNumbered (chunks : List Chunk) : Type 0 where
    pub bounded : All (λ chunk. AtMost (max_chars + overlap + 1) chunk.content) chunks
    pub numbered : map (λ chunk. chunk.index) chunks ≡ range 1 (length chunks)

  number_chunks-IsNumbered :
      (heading : Option String) (texts : List String) (chunks : List Chunk)
      → All Bounded texts
      → IsNumbered chunks
      → IsNumbered (number_chunks heading texts chunks)
  unfolding number_chunks
  number_chunks-IsNumbered heading [] chunks m h = h
  number_chunks-IsNumbered heading (text ∷ texts) chunks m h =
      let chunk : Chunk = record { content = text; index = length chunks + 1; heading = heading } in
      number_chunks-IsNumbered heading texts (chunks ++ chunk ∷ []) m.1 (record {
        bounded = All-append _ chunks (chunk ∷ []) h.bounded (m.0, tt);
        numbered =
            indices-append chunks chunk
            ∙ next_number (length chunks) (length (chunks ++ chunk ∷ [])) h.numbered
                (length-append chunks (chunk ∷ []));
      })

  chunk_sections-IsNumbered :
      (sections : List (Option String × String)) (chunks : List Chunk)
      → IsNumbered chunks
      → IsNumbered (chunk_sections max_chars overlap sections chunks)
  unfolding chunk_sections
  chunk_sections-IsNumbered [] chunks h = h
  chunk_sections-IsNumbered ((heading, body) ∷ rest) chunks h =
      let texts =
        merge_with_overlap (recursive_split (char_len body) max_chars body) max_chars overlap in
      chunk_sections-IsNumbered rest (number_chunks heading texts chunks) (
        number_chunks-IsNumbered heading texts chunks
          (merge_with_overlap-Bounded (recursive_split (char_len body) max_chars body)
            (recursive_split-AtMost (char_len body) max_chars body (omega arith)))
          h)

-- A chunk of a text that has one in its sections is at most `max_chars` plus the overlap plus one
-- character long, with both as the configuration is clamped, and the chunks are numbered from 1. Else
-- the one chunk is the whole text, however long.
pub chunk_text-IsNumbered :
    (content : String) (cfg : ChunkConfig)
    → IsNumbered (max_chars_of cfg) (overlap_of cfg) (chunk_text content cfg)
      ⊎ ((chunk_sections (max_chars_of cfg) (overlap_of cfg) (markdown_sections content) [] ≡ [])
          × (chunk_text content cfg ≡ record { content = content; index = 1; heading = none } ∷ []))
unfolding chunk_text
chunk_text-IsNumbered content cfg =
    let chunks =
      chunk_sections (max_chars_of cfg) (overlap_of cfg) (markdown_sections content) [] in
    let numbered : IsNumbered (max_chars_of cfg) (overlap_of cfg) chunks =
      chunk_sections-IsNumbered (max_chars_of cfg) (overlap_of cfg) (markdown_sections content) []
        (record { bounded = tt; numbered = refl }) in
    elim (List-cases chunks) [
      | inl e ↦ inr (e, rw (chunk_text, e) refl)
      | inr (chunk, rest, e) ↦
          inl
            (rw (chunk_text, e) (subst (IsNumbered (max_chars_of cfg) (overlap_of cfg)) e numbered))
    ]
