-- ===== src/Headrace/Format/Roundtrip.antt =====
-- What parse_task reads of the text that render_task writes.
use Prim.Native.Char.{Char}
use Prim.Native.String
use Prim.Native.String.append
use text.Mathlib.TextLemmas.{append_assoc}
use artesian.Base.{◌≡◌, refl, sym, ap, ◌∙◌, String, none, some, arith}
use artesian.Base.Results.{ok, err, ◌>>=◌}
use artesian.Headrace.Store.{invalid_file, Task}
use artesian.Headrace.Format.{
  YamlOps, TaskHeader, header_of, task_of, render_task, parse_task, parse_front, read_header,
  strip_prefix, split_once, eq_ignore_ascii_case,
}
use artesian.Base.Texts.{trim, trim_end, trim_start, cons_unless_blank}

infixr 6 ◌<>◌
abbrev ◌<>◌ : String → String → String
s <> t = String.◌++◌ s t

strip_prefix-cons :
    (c : Char) (p s : String) → strip_prefix (String.◌∷◌ c p) (String.◌∷◌ c s) ≡ strip_prefix p s
unfolding strip_prefix
strip_prefix-cons c p s = ground arith

strip_prefix-append : (p s : String) → strip_prefix p (p <> s) ≡ some s
unfolding strip_prefix
strip_prefix-append String.[] s = rw (append.nil s)
strip_prefix-append (String.◌∷◌ c p) s =
    ap (strip_prefix (String.◌∷◌ c p)) (append.cons c p s)
    ∙ strip_prefix-cons c p (p <> s)
    ∙ strip_prefix-append p s

-- A line break at the end is blank, and so is one at the start.
trim_end-append : (s : String) → trim_end (s <> "\n") ≡ trim_end s
unfolding trim_end
trim_end-append String.[] = refl
trim_end-append (String.◌∷◌ c s) = rw (append.cons c s "\n", trim_end-append s)

drop_break : (s : String) → trim_start (cons_unless_blank "\n" s) ≡ trim_start s
unfolding trim_start
drop_break String.[] = refl
drop_break (String.◌∷◌ c s) = refl

trim_end-break : (s : String) → trim_end ("\n" <> s) ≡ cons_unless_blank "\n" (trim_end s)
unfolding trim_end
trim_end-break s = ap trim_end (append.cons "\n" "" s ∙ ap (String.◌∷◌ "\n") (append.nil s))

trim-lines : (s : String) → trim ("\n" <> s <> "\n") ≡ trim s
unfolding trim
trim-lines s =
    ap trim_start (trim_end-break (s <> "\n"))
    ∙ drop_break (trim_end (s <> "\n"))
    ∙ ap trim_start (trim_end-append s)

-- No line of the text, whatever follows it, is the separator.
abbrev pub HasNoRule : String → Type 0
HasNoRule String.[] = Unit
HasNoRule (String.◌∷◌ c s) =
    ((after : String) → strip_prefix "\n---\n" (String.◌∷◌ c s <> "\n---\n" <> after) ≡ none)
    × HasNoRule s

split_once_here :
    (sep s rest : String) → strip_prefix sep s ≡ some rest → split_once sep s ≡ some ("", rest)
unfolding split_once
split_once_here sep String.[] rest h = rw (h, split_once) refl
split_once_here sep (String.◌∷◌ c s) rest h = rw (h, split_once) refl

split_once_later :
    (sep : String) (c : Char) (s : String) (before rest : String)
    → strip_prefix sep (String.◌∷◌ c s) ≡ none
    → split_once sep s ≡ some (before, rest)
    → split_once sep (String.◌∷◌ c s) ≡ some (String.◌∷◌ c before, rest)
unfolding split_once
split_once_later sep c s before rest h k = rw (split_once, h, k) refl

split_once-append :
    (body after : String)
    → HasNoRule body
    → split_once "\n---\n" (body <> "\n---\n" <> after) ≡ some (body, after)
split_once-append String.[] after clear =
    ap (split_once "\n---\n") (append.nil ("\n---\n" <> after))
    ∙ split_once_here "\n---\n" ("\n---\n" <> after) after (strip_prefix-append "\n---\n" after)
split_once-append (String.◌∷◌ c s) after clear =
    ap (split_once "\n---\n") (append.cons c s ("\n---\n" <> after))
    ∙ split_once_later "\n---\n" c (s <> "\n---\n" <> after) s after
        (ap (strip_prefix "\n---\n") (sym (append.cons c s ("\n---\n" <> after))) ∙ clear.0 after)
        (split_once-append s after clear.1)

-- What serde_yaml promises of a header that it writes: the text ends in a line break, none of its
-- lines is `---`, and without the last break it is read as that header.
pub record ReadsBack {V : Type 0} (y : YamlOps V) (h : TaskHeader V) : Type 0 where
  pub body : String
  pub written : y.to_string h ≡ ok (body <> "\n")
  pub clear : HasNoRule body
  pub back : y.from_str body ≡ ok h

regroup : (body d : String) → (body <> "\n") <> "---\n\n" <> d ≡ body <> "\n---\n" <> "\n" <> d
regroup body d =
    append_assoc body "\n" ("---\n\n" <> d)
    ∙ ap (λ u. body <> u) (sym (append_assoc "\n" "---\n\n" d) ∙ append_assoc "\n---\n" "\n" d)

module _ {V : Type 0} ⦃y : YamlOps V⦄ where
  parse_front-append :
      (h : TaskHeader V) (r : ReadsBack y h) (d : String)
      → parse_front ((r.body <> "\n") <> "---\n\n" <> d <> "\n") ≡ read_header h ("\n" <> d <> "\n")
  unfolding parse_front read_header
  parse_front-append h r d =
      rw
        (
          regroup r.body (d <> "\n"),
          parse_front,
          split_once-append r.body ("\n" <> d <> "\n") r.clear,
          r.back,
        )
        refl

  read_header-of :
      (t : Task V) (d : String)
      → read_header (header_of t) ("\n" <> d <> "\n") ≡ ok (record t { description = trim d })
  unfolding read_header header_of task_of eq_ignore_ascii_case
  read_header-of t d = rw (trim-lines d)

  -- The text of a task.
  abbrev pub task_text : (t : Task V) → ReadsBack y (header_of t) → String
  task_text t r = "---\n" <> (r.body <> "\n") <> "---\n\n" <> t.description <> "\n"

  pub render_task-written :
      (t : Task V) (r : ReadsBack y (header_of t)) → render_task t ≡ ok (task_text t r)
  unfolding render_task
  render_task-written t r = rw r.written

  pub parse_task-text :
      (t : Task V) (r : ReadsBack y (header_of t))
      → parse_task (task_text t r) ≡ ok (record t { description = trim t.description })
  unfolding parse_task
  parse_task-text t r =
      ap
        (λ o. elim o [
          | none ↦ err (invalid_file "missing task front matter")
          | some rest ↦ parse_front rest
        ])
        (strip_prefix-append "---\n" ((r.body <> "\n") <> "---\n\n" <> t.description <> "\n"))
      ∙ parse_front-append (header_of t) r t.description
      ∙ read_header-of t t.description

  -- A task whose front matter serde_yaml reads back is written, and what is written is read as the
  -- same task, with the blanks at the ends of its description gone and all else kept.
  pub parse_task-render_task :
      (t : Task V) (r : ReadsBack y (header_of t))
      → (render_task t >>= λ text. parse_task text)
        ≡ ok (record t { description = trim t.description })
  parse_task-render_task t r =
      ap (λ w. w >>= λ text. parse_task text) (render_task-written t r) ∙ parse_task-text t r
