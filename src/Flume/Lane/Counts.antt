-- ===== src/Flume/Lane/Counts.antt =====
-- How many tasks a lane has, by its own set and by the list of owners: crates/flume/src/lane.rs.
use artesian.Base.{
  ℕ, suc, ◌+◌, ◌<◌, String, ◌&&◌, none, some, List, [], ◌∷◌, ◌++◌, find, length, ◌≡◌, refl, str_eq,
  if◌then◌else◌, eq_iff, arith,
}
use artesian.Base.Maps.{set_insert, set_remove}
use artesian.Flume.Lane.{LaneTaskEntry, is_same_task, remove_owner}

abbrev pub occurrences : String → List String → ℕ
occurrences t [] = 0
occurrences t (x ∷ xs) = if str_eq x t then suc (occurrences t xs) else occurrences t xs

-- The entries of the task that name the lane, and all the entries that name the lane.
abbrev pub held : String → String → List LaneTaskEntry → ℕ
held t l [] = 0
held t l (e ∷ rest) =
    if str_eq e.task_id t && str_eq e.lane_name l then suc (held t l rest) else held t l rest

abbrev pub owned : String → List LaneTaskEntry → ℕ
owned l [] = 0
owned l (e ∷ rest) = if str_eq e.lane_name l then suc (owned l rest) else owned l rest

pub set_insert-occurrences :
    (j t : String) (xs : List String)
    → occurrences t xs ≡ 0
    → occurrences j (set_insert t xs) ≡ occurrences j xs + (if str_eq t j then 1 else 0)
unfolding set_insert
set_insert-occurrences j t [] h = ground arith
set_insert-occurrences j t (x ∷ xs) h =
    let ih = set_insert-occurrences j t xs in ground (arith, ih, h)

pub set_insert-length :
    (t : String) (xs : List String)
    → occurrences t xs ≡ 0
    → length (set_insert t xs) ≡ suc (length xs)
unfolding set_insert
set_insert-length t [] h = refl
set_insert-length t (x ∷ xs) h = let ih = set_insert-length t xs in ground (arith, ih, h)

pub set_remove-occurrences :
    (j t : String) (xs : List String)
    → 0 < occurrences t xs
    → occurrences j (set_remove t xs) + (if str_eq t j then 1 else 0) ≡ occurrences j xs
unfolding set_remove
set_remove-occurrences j t [] h = omega arith
set_remove-occurrences j t (x ∷ xs) h =
    let ih = set_remove-occurrences j t xs in let same = eq_iff x t in ground (arith, ih, h, same)

pub set_remove-length :
    (t : String) (xs : List String)
    → 0 < occurrences t xs
    → suc (length (set_remove t xs)) ≡ length xs
unfolding set_remove
set_remove-length t [] h = omega arith
set_remove-length t (x ∷ xs) h = let ih = set_remove-length t xs in ground (arith, ih, h)

pub held-append :
    (j l : String) (owners : List LaneTaskEntry) (new : LaneTaskEntry)
    → held j l (owners ++ new ∷ [])
      ≡ held j l owners + (if str_eq new.task_id j && str_eq new.lane_name l then 1 else 0)
held-append j l [] new = ground arith
held-append j l (e ∷ rest) new = let ih = held-append j l rest new in ground (arith, ih)

pub owned-append :
    (l : String) (owners : List LaneTaskEntry) (new : LaneTaskEntry)
    → owned l (owners ++ new ∷ []) ≡ owned l owners + (if str_eq new.lane_name l then 1 else 0)
owned-append l [] new = ground arith
owned-append l (e ∷ rest) new = let ih = owned-append l rest new in ground (arith, ih)

pub held-find_none :
    (t l title : String) (owners : List LaneTaskEntry)
    → find (is_same_task t title) owners ≡ none
    → held t l owners ≡ 0
unfolding find
held-find_none t l title [] h = refl
held-find_none t l title (e ∷ rest) h =
    let ih = held-find_none t l title rest in ground (arith, ih, h)

pub held-remove_owner :
    (j l t : String) (owners : List LaneTaskEntry) (e : LaneTaskEntry)
    → find (λ (e : LaneTaskEntry). str_eq e.task_id t) owners ≡ some e
    → held j l (remove_owner t owners) + (if str_eq t j && str_eq e.lane_name l then 1 else 0)
      ≡ held j l owners
unfolding find remove_owner
held-remove_owner j l t [] e h = cc
held-remove_owner j l t (x ∷ rest) e h =
    let ih = held-remove_owner j l t rest e in
    let same = eq_iff x.task_id t in ground (arith, ih, h, same)

pub owned-remove_owner :
    (l t : String) (owners : List LaneTaskEntry) (e : LaneTaskEntry)
    → find (λ (e : LaneTaskEntry). str_eq e.task_id t) owners ≡ some e
    → owned l (remove_owner t owners) + (if str_eq e.lane_name l then 1 else 0) ≡ owned l owners
unfolding find remove_owner
owned-remove_owner l t [] e h = cc
owned-remove_owner l t (x ∷ rest) e h =
    let ih = owned-remove_owner l t rest e in ground (arith, ih, h)
