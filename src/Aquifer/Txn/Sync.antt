-- ===== src/Aquifer/Txn/Sync.antt =====
-- The re-indexing of a directory: `sync_headwater_directory` of crates/aquifer/src/txn.rs. The
-- listing of the directory and the parser of a file are parameters.
use artesian.Base.{
  ℕ, ◌+◌, ◌≡◌, refl, ap, sym, subst, ◌∙◌, String, Option, none, some, List, [], ◌∷◌, ◌++◌, length,
  length-append, arith, inl, inr, Option-cases,
}
use artesian.Base.Results.{Result, ok, err}
use artesian.Aquifer.Txn.{Backend}

pub record SyncReport : Type 0 where
  pub files_scanned : ℕ
  pub records_indexed : ℕ
  pub parse_failures : ℕ

module _ {B M R Path' : Type 0} (b : Backend B M R) (parse : Path' → Result String (List M)) where
  -- The inner loop: the backend after it, the report, and the error that ended it, if any.
  unfoldable pub store_all : B → SyncReport → List M → B × SyncReport × Option String
  store_all s r [] = (s, r, none)
  store_all s r (m ∷ ms) = elim (b.store s m).1 [
    | err e ↦ ((b.store s m).0, r, some e)
    | ok _ ↦ store_all (b.store s m).0 (record r { records_indexed = r.records_indexed + 1 }) ms
  ]

  -- One file: a parse failure is counted and skipped, an error of the backend ends the sync.
  unfoldable pub sync_file : B → SyncReport → Path' → B × SyncReport × Option String
  sync_file s r path = elim (parse path) [
    | ok memories ↦ store_all s (record r { files_scanned = r.files_scanned + 1 }) memories
    | err _ ↦ (
      s,
      record r { files_scanned = r.files_scanned + 1; parse_failures = r.parse_failures + 1 },
      none,
    )
  ]

  unfoldable pub sync_files : B → SyncReport → List Path' → B × SyncReport × Option String
  sync_files s r [] = (s, r, none)
  sync_files s r (path ∷ paths) = elim (sync_file s r path).2 [
    | some e ↦ sync_file s r path
    | none ↦ sync_files (sync_file s r path).0 (sync_file s r path).1 paths
  ]

  -- The backend after the sync, and the report or the error.
  unfoldable pub sync_headwater_directory :
      B → Result String (List Path') → B × Result String SyncReport
  sync_headwater_directory s (err e) = (s, err e)
  sync_headwater_directory s (ok paths) =
      let (s', r, failure) =
        sync_files s (record { files_scanned = 0; records_indexed = 0; parse_failures = 0 })
          paths in
      (s', elim failure [ some e ↦ err e | none ↦ ok r ])

  -- What the files hold: the memories of those that parse, in order, and how many do not.
  unfoldable pub held : Path' → List M
  held path = elim (parse path) [ ok memories ↦ memories | err _ ↦ [] ]

  unfoldable pub failed : Path' → ℕ
  failed path = elim (parse path) [ ok _ ↦ 0 | err _ ↦ 1 ]

  unfoldable pub memories_of : List Path' → List M
  memories_of [] = []
  memories_of (path ∷ paths) = held path ++ memories_of paths

  unfoldable pub failures_of : List Path' → ℕ
  failures_of [] = 0
  failures_of (path ∷ paths) = failed path + failures_of paths

  -- The backend after storing the memories one after the other, whatever it answers.
  unfoldable pub store_each : B → List M → B
  store_each s [] = s
  store_each s (m ∷ ms) = store_each (b.store s m).0 ms

  store_all-each :
      (s : B) (r : SyncReport) (ms : List M)
      → (store_all s r ms).2 ≡ none
      → ((store_all s r ms).0 ≡ store_each s ms)
        × ((store_all s r ms).1 ≡ record r { records_indexed = r.records_indexed + length ms })
  unfolding store_all store_each
  store_all-each s r [] h = (refl, ground arith)
  store_all-each s r (m ∷ ms) h = ground (
    arith,
    store_all-each (b.store s m).0 (record r { records_indexed = r.records_indexed + 1 }) ms,
  )

  store_each-append :
      (s : B) (xs ys : List M) → store_each s (xs ++ ys) ≡ store_each (store_each s xs) ys
  unfolding store_each
  store_each-append s [] ys = refl
  store_each-append s (x ∷ xs) ys = store_each-append (b.store s x).0 xs ys

  -- From `s` and `r` to `s'` and `r'` the memories `ms` of `n` files were stored, `f` files failed.
  record Synced (s : B) (r : SyncReport) (ms : List M) (n f : ℕ) (s' : B) (r' : SyncReport)
      : Type 0 where
    stored : s' ≡ store_each s ms
    scanned : r'.files_scanned ≡ r.files_scanned + n
    indexed : r'.records_indexed ≡ r.records_indexed + length ms
    failures : r'.parse_failures ≡ r.parse_failures + f

  file-Synced :
      (s : B) (r : SyncReport) (path : Path')
      → (sync_file s r path).2 ≡ none
      → Synced s r (held path) 1 (failed path) (sync_file s r path).0 (sync_file s r path).1
  unfolding sync_file held failed store_each
  file-Synced s r path h = go (parse path) refl
    where
      go :
          (p : Result String (List M))
          → parse path ≡ p
          → Synced s r (held path) 1 (failed path) (sync_file s r path).0 (sync_file s r path).1
      go (err e) q = ground arith
      go (ok ms) q =
          ground (arith, store_all-each s (record r { files_scanned = r.files_scanned + 1 }) ms)

  join-Synced :
      {s s' s'' : B} {r r' r'' : SyncReport} {ms ms' : List M} {n n' f f' : ℕ}
      → Synced s r ms n f s' r'
      → Synced s' r' ms' n' f' s'' r''
      → Synced s r (ms ++ ms') (n + n') (f + f') s'' r''
  join-Synced {s} {ms = ms} {ms' = ms'} v w = record {
    stored = w.stored ∙ ap (λ z. store_each z ms') v.stored ∙ sym (store_each-append s ms ms');
    scanned = omega (arith, v.scanned, w.scanned);
    indexed = omega (arith, v.indexed, w.indexed, length-append ms ms');
    failures = omega (arith, v.failures, w.failures);
  }

  files-Synced :
      (s : B) (r : SyncReport) (paths : List Path')
      → (sync_files s r paths).2 ≡ none
      → Synced s r
          (memories_of paths)
          (length paths)
          (failures_of paths)
          (sync_files s r paths).0
          (sync_files s r paths).1
  unfolding sync_files memories_of failures_of store_each
  files-Synced s r [] h = ground arith
  files-Synced s r (path ∷ paths) h = elim (Option-cases (sync_file s r path).2) [
    | inr (e, failure) ↦ absurd (ground arith)
    | inl fine ↦
        rw (fine, sync_files)
          (subst
            (λ n.
              Synced s r (held path ++ memories_of paths) n (failed path + failures_of paths)
                (sync_files (sync_file s r path).0 (sync_file s r path).1 paths).0
                (sync_files (sync_file s r path).0 (sync_file s r path).1 paths).1)
            (omega arith)
            (join-Synced (file-Synced s r path fine)
              (files-Synced (sync_file s r path).0 (sync_file s r path).1 paths (ground arith))))
  ]

  -- A sync that returns a report has stored, in the order of the listing, every memory of every file
  -- that parses, one after the other; the report counts all files, those memories, and the files
  -- that do not parse.
  pub sync_headwater_directory-stored :
      (s : B) (listing : Result String (List Path')) {r : SyncReport}
      → (sync_headwater_directory s listing).1 ≡ ok r
      → (paths : List Path') × (listing ≡ ok paths)
        × ((sync_headwater_directory s listing).0 ≡ store_each s (memories_of paths))
        × (r ≡ record {
          files_scanned = length paths;
          records_indexed = length (memories_of paths);
          parse_failures = failures_of paths;
        })
  unfolding sync_headwater_directory
  sync_headwater_directory-stored s (err e) h = absurd (cc)
  sync_headwater_directory-stored s (ok paths) {r} h =
      elim (Option-cases (sync_files s start paths).2) [
        | inr (e, failure) ↦ absurd (ground arith)
        | inl fine ↦
            let v = files-Synced s start paths fine in
            (paths, refl, v.stored, ground (arith, v.scanned, v.indexed, v.failures))
      ]
    where
      start : SyncReport
      start = record { files_scanned = 0; records_indexed = 0; parse_failures = 0 }
