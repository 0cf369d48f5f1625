-- ===== src/Flume/Quota.antt =====
-- The quota of the coding agents: QuotaWindowStatus, QuotaLoopConfig and quota_threshold_events of
-- crates/flume/src/quota.rs. A percentage is of any type with the operations of a float; what is
-- only printed of a status is left out.
use artesian.Base.{String, Bool, Option, none, some, List, [], ◌∷◌, if◌then◌else◌, find}
use artesian.Base.Floats.{Float}

pub record QuotaWindowStatus (G : Type 0) : Type 0 where
  pub agent : String
  pub window : String
  pub pct : Option G

pub record QuotaThresholdEvent (G : Type 0) : Type 0 where
  pub status : QuotaWindowStatus G
  pub threshold_pct : G
  pub high : Bool

pub record QuotaLoopConfig (G : Type 0) : Type 0 where
  pub warn_pct : G
  pub high_pct : G
  pub checkpoint_on_quota : Bool

module _ {G : Type 0} ⦃g : Float G⦄ where
  unfoldable pub quota_threshold_events :
      List (QuotaWindowStatus G) → G → G → List (QuotaThresholdEvent G)
  quota_threshold_events [] warn_pct high_pct = []
  quota_threshold_events (status ∷ rest) warn_pct high_pct =
      let events = quota_threshold_events rest warn_pct high_pct in
      elim status.pct [
        | none ↦ events
        | some pct ↦
            if g.le warn_pct pct
            then record { status = status; threshold_pct = warn_pct; high = g.le high_pct pct }
              ∷ events
            else events
      ]

  abbrev pub first : List (QuotaThresholdEvent G) → Option (QuotaThresholdEvent G)
  first [] = none
  first (event ∷ events) = some event

  -- The event for which a checkpoint is written: the first high one, else the first one where the
  -- configuration asks for it.
  unfoldable pub checkpoint_event :
      Bool → List (QuotaThresholdEvent G) → Option (QuotaThresholdEvent G)
  unfolding find
  checkpoint_event checkpoint_on_quota events = elim (find (λ event. event.high) events) [
    | some event ↦ some event
    | none ↦ if checkpoint_on_quota then first events else none
  ]
