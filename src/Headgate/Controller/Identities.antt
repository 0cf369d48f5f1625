-- ===== src/Headgate/Controller/Identities.antt =====
-- No id is committed twice by crates/headgate/src/controller.rs, if the gate looks for it.
use artesian.Base.{
  ℕ, ◌≡◌, ◌≢◌, sym, subst, String, true, false, Option, none, some, List, [], ◌∷◌, ◌++◌, length,
  All, All-append, arith, any, str_eq, eq_iff, inl, inr,
}
use artesian.Base.Floats.{Float}
use artesian.Headgate.Text.{TextOps}
use artesian.Headgate.Ccs.{CommittedEntry, CommittedContextState, contains}
use artesian.Headgate.Ccs.Eviction.{Without, here, there, Without-All}
use artesian.Headgate.Gate.{RecallItem}
use artesian.Headgate.Gate.Default.{DefaultQualifyGate, decide}
use artesian.Headgate.Controller.Invariants.{Rule, Ends, loop_inv, cycle_cases}
use artesian.Headgate.Cycle.{Headgate, CycleState, HeadgateError, QualifyGate}
use artesian.Headgate.Controller.{admit_candidate, reject_candidate, start_state, finish, cycle}

module _ {F : Type 0} where
  -- The id differs from every entry's.
  abbrev pub Fresh : String → List (CommittedEntry F) → Type 0
  Fresh id = All (λ e. e.id ≢ id)

  -- No two entries have one id.
  abbrev pub Distinct : List (CommittedEntry F) → Type 0
  Distinct [] = Unit
  Distinct (e ∷ es) = Fresh e.id es × Distinct es

  Fresh-contains :
      (id : String) (es : List (CommittedEntry F))
      → any (λ e. str_eq e.id id) es ≡ false
      → Fresh id es
  unfolding any
  Fresh-contains id [] h = tt
  Fresh-contains id (e ∷ es) h =
      (λ same. absurd (ground (arith, eq_iff e.id id)), Fresh-contains id es (ground arith))

  Without-Distinct :
      {x : CommittedEntry F} {es rest : List (CommittedEntry F)}
      → Without x es rest
      → Distinct es
      → Distinct rest
  Without-Distinct here d = d.1
  Without-Distinct (there w) d = ((Without-All _ w d.0).1, Without-Distinct w d.1)

  append-Distinct :
      (es : List (CommittedEntry F)) (e : CommittedEntry F)
      → Distinct es
      → Fresh e.id es
      → Distinct (es ++ e ∷ [])
  append-Distinct [] e d f = (tt, tt)
  append-Distinct (x ∷ es) e d f =
      (All-append _ es (e ∷ []) d.0 (λ same. f.0 (sym same), tt), append-Distinct es e d.1 f.1)

  -- The gate admits no candidate whose id is committed.
  abbrev pub LooksForId : QualifyGate F → Type 0
  LooksForId gate =
      (i : ℕ) (item : RecallItem F) (ccs : CommittedContextState F)
      → (gate i item ccs).admitted ≡ true
      → contains ccs item.id ≡ false

  Distinct-rule :
      ⦃t : TextOps⦄ ⦃f : Float F⦄ (h : Headgate F)
      → LooksForId h.gate
      → Rule h
          (λ _ st. Distinct st.ccs.entries)
          (λ _ item _ st. Distinct st.ccs.entries × Fresh item.id st.ccs.entries)
          (λ st. Distinct st.ccs.entries)
  unfolding reject_candidate admit_candidate contains
  Distinct-rule h looks = record {
    rejects = λ i item st bad v. v;
    qualifies =
        λ i item st good v. (v, Fresh-contains item.id st.ccs.entries (looks i item st.ccs good));
    evicts = λ i item d st st' r v.
        subst (λ (s : CycleState F). Distinct s.ccs.entries × Fresh item.id s.ccs.entries)
          (sym r.after) (Without-Distinct r.without v.0, (Without-All _ r.without v.1).1);
    compresses = λ i item d st v. v;
    saturates = λ i item d st v. v.0;
    admits = λ i item d content st fits v. append-Distinct st.ccs.entries _ v.0 v.1;
    fails = λ i item d st v. v.0;
  }

  finish-Distinct :
      (h : Headgate F) (n : ℕ) (r : CycleState F × Option HeadgateError)
      → Ends (λ _ st. Distinct st.ccs.entries) (λ st. Distinct st.ccs.entries) n r
      → Distinct (finish h r).0.ccs.entries
  unfolding finish
  finish-Distinct h n (st, none) v = v
  finish-Distinct h n (st, some e) v = v

  -- With a gate that admits no committed id, a cycle leaves no two entries with one id, also where
  -- the store names one id several times, and where the cycle fails.
  pub cycle-Distinct :
      ⦃t : TextOps⦄ ⦃f : Float F⦄ (h : Headgate F) (query : String)
      → LooksForId h.gate
      → Distinct h.ccs.entries
      → Distinct (cycle h query).0.ccs.entries
  unfolding start_state
  cycle-Distinct h query looks v = elim (cycle_cases h query) [
    | inl (e, _, p) ↦ rw p v
    | inr (items, _, p) ↦ rw p (
        finish-Distinct h (length items) _
          (loop_inv h (Distinct-rule h looks) items (start_state h items) v))
  ]

-- The default gate is one.
pub decide-LooksForId :
    {F : Type 0} ⦃t : TextOps⦄ ⦃f : Float F⦄ (gate : DefaultQualifyGate F)
    → LooksForId (λ _ item ccs. decide gate item ccs)
unfolding decide
decide-LooksForId gate i item ccs good = ground arith
