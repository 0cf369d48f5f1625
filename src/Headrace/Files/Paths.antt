-- ===== src/Headrace/Files/Paths.antt =====
-- What stands at a path after a file is removed or written.
use text.Mathlib.TextEquality.{eq_iff}
use text.Mathlib.TextPositions.{eq_refl}
use artesian.Base.{
  ◌≡◌, refl, ap, ◌∙◌, String, Bool, true, false, not, ◌&&◌, Option, none, some, List, [], ◌∷◌, ◌++◌,
  arith, find, filter, str_eq, inl, inr, if◌then◌else◌, Bool-cases,
}
use artesian.Headrace.Store.{TaskStatus, same_status}
use artesian.Headrace.Files.{TaskFile, FileSystem, at_path, lookup, remove, write}

pub same_status-eq : (a b : TaskStatus) → same_status a b ≡ true → a ≡ b
same_status-eq a b h = ground arith

pub same_status_refl : (a : TaskStatus) → same_status a a ≡ true
same_status_refl a = ground arith

pub at_path-eq :
    (d : TaskStatus) (n : String) (f : TaskFile) → at_path d n f ≡ true → (f.dir ≡ d) × (f.name ≡ n)
at_path-eq d n f h = ground (arith, eq_iff f.name n, same_status-eq f.dir d)

pub at_path_refl : (f : TaskFile) → at_path f.dir f.name f ≡ true
at_path_refl f = ground (arith, eq_refl f.name, same_status_refl f.dir)

module _ {ℓ} {A : Type ℓ} where
  find-filter_keep :
      (p q : A → Bool) (xs : List A)
      → ((a : A) → p a ≡ true → q a ≡ true)
      → find p (filter q xs) ≡ find p xs
  unfolding find filter
  find-filter_keep p q [] h = refl
  find-filter_keep p q (x ∷ xs) h = ground (arith, h x, find-filter_keep p q xs h)

  find-filter_drop :
      (p q : A → Bool) (xs : List A)
      → ((a : A) → p a ≡ true → q a ≡ false)
      → find p (filter q xs) ≡ none
  unfolding find filter
  find-filter_drop p q [] h = refl
  find-filter_drop p q (x ∷ xs) h = ground (arith, h x, find-filter_drop p q xs h)

  find-append_one :
      (p : A → Bool) (xs : List A) (a : A)
      → find p (xs ++ a ∷ [])
        ≡ elim (find p xs) [ some x ↦ some x | none ↦ if p a then some a else none ]
  unfolding find
  find-append_one p [] a = refl
  find-append_one p (x ∷ xs) a = ground (arith, find-append_one p xs a)

-- Two paths that differ in the directory or in the name.
abbrev pub is_same_path : TaskStatus → String → TaskStatus → String → Bool
is_same_path d n d' n' = same_status d' d && str_eq n' n

not_both :
    (d d' : TaskStatus) (n n' : String) (f : TaskFile)
    → is_same_path d n d' n' ≡ false
    → at_path d' n' f ≡ true
    → not (at_path d n f) ≡ true
not_both d d' n n' f h k = ap not (
    ap (λ s. same_status s d && str_eq f.name n) (at_path-eq d' n' f k).0
    ∙ ap (λ m. same_status d' d && str_eq m n) (at_path-eq d' n' f k).1
    ∙ h)

pub lookup-remove_self :
    (fs : FileSystem) (d : TaskStatus) (n : String) → lookup (remove fs d n) d n ≡ none
unfolding lookup remove
lookup-remove_self fs d n =
    find-filter_drop (at_path d n) (λ f. not (at_path d n f)) fs (λ f h. ap not h)

pub lookup-remove_other :
    (fs : FileSystem) (d d' : TaskStatus) (n n' : String)
    → is_same_path d n d' n' ≡ false
    → lookup (remove fs d n) d' n' ≡ lookup fs d' n'
unfolding lookup remove
lookup-remove_other fs d d' n n' h =
    find-filter_keep (at_path d' n') (λ f. not (at_path d n f)) fs (λ f. not_both d d' n n' f h)

pub lookup-write_self :
    (fs : FileSystem) (d : TaskStatus) (n text : String)
    → lookup (write fs d n text) d n ≡ some (record { dir = d; name = n; text = text })
unfolding write lookup remove
lookup-write_self fs d n text =
    let new : TaskFile = record { dir = d; name = n; text = text } in
    find-append_one (at_path d n) (remove fs d n) new
    ∙ ap (λ o. elim o [ some x ↦ some x | none ↦ if at_path d n new then some new else none ])
        (lookup-remove_self fs d n)
    ∙ ap (λ b. if b then some new else none) (at_path_refl new)

is_same_path_comm :
    (d d' : TaskStatus) (n n' text : String)
    → is_same_path d n d' n' ≡ false
    → at_path d' n' (record { dir = d; name = n; text = text }) ≡ false
is_same_path_comm d d' n n' text h = ground (
  arith,
  eq_iff n n',
  eq_iff n' n,
  same_status-eq d d',
  same_status-eq d' d,
  same_status_refl d,
  at_path-eq d' n' (record { dir = d; name = n; text = text }),
)

none_kept : {A : Type 0} (o : Option A) → elim o [ some x ↦ some x | none ↦ none ] ≡ o
none_kept none = refl
none_kept (some x) = refl

pub lookup-write_other :
    (fs : FileSystem) (d d' : TaskStatus) (n n' text : String)
    → is_same_path d n d' n' ≡ false
    → lookup (write fs d n text) d' n' ≡ lookup fs d' n'
unfolding write lookup remove
lookup-write_other fs d d' n n' text h =
    let new : TaskFile = record { dir = d; name = n; text = text } in
    let fits = at_path d' n' in
    find-append_one fits (remove fs d n) new
    ∙ ap
        (λ b. elim (find fits (remove fs d n)) [
          | some x ↦ some x
          | none ↦ if b then some new else none
        ])
        (is_same_path_comm d d' n n' text h)
    ∙ none_kept (find fits (remove fs d n))
    ∙ lookup-remove_other fs d d' n n' h

pub lookup-remove :
    (fs : FileSystem) (d d' : TaskStatus) (n n' : String)
    → lookup (remove fs d n) d' n' ≡ (if is_same_path d n d' n' then none else lookup fs d' n')
lookup-remove fs d d' n n' = elim (Bool-cases (is_same_path d n d' n')) [
  | inr e ↦ rw e (lookup-remove_other fs d d' n n' e)
  | inl e ↦
      let same = at_path-eq d n (record { dir = d'; name = n'; text = "" }) e in
      rw (e, same.0, same.1) (lookup-remove_self fs d n)
]

pub lookup-write :
    (fs : FileSystem) (d d' : TaskStatus) (n n' text : String)
    → lookup (write fs d n text) d' n' ≡ (
        if is_same_path d n d' n'
        then some (record { dir = d; name = n; text = text })
        else lookup fs d' n')
lookup-write fs d d' n n' text = elim (Bool-cases (is_same_path d n d' n')) [
  | inr e ↦ rw e (lookup-write_other fs d d' n n' text e)
  | inl e ↦
      let same = at_path-eq d n (record { dir = d'; name = n'; text = "" }) e in
      rw (e, same.0, same.1) (lookup-write_self fs d n text)
]
