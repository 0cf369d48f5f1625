-- ===== src/Aquifer/Decay.antt =====
-- The strength of a memory: crates/aquifer/src/decay.rs, with the age and the protection of
-- crates/aquifer/src/eviction.rs. A time is a number of seconds.
use artesian.Base.{
  ℕ, ◌-◌, Bool, true, false, not, ◌&&◌, Option, none, some, ltb, ◌==◌, if◌then◌else◌,
}
use artesian.Base.Floats.{Float, FloatMath}
use artesian.Aquifer.Types.{MemoryRecord}
use artesian.Aquifer.Mmr.{clamp}

pub record DecayConfig (F : Type 0) : Type 0 where
  pub decay_enabled : Bool
  pub half_life_days : F
  pub floor : F
  pub access_boost : F

abbrev pub is_some : {A : Type 0} → Option A → Bool
is_some none = false
is_some (some a) = true

module _ {F : Type 0} ⦃f : Float F⦄ ⦃m : FloatMath F⦄ where
  abbrev pub days : ℕ → F
  days seconds = f.div (f.from_usize seconds) (m.literal 86400 1)

  abbrev pub age_score : Option ℕ → DecayConfig F → ℕ → F
  age_score none config now = f.one
  age_score (some last) config now =
      let lambda = f.div m.ln_2 (f.max config.half_life_days f.one) in
      f.max (m.exp (f.mul (m.neg lambda) (days (now - last)))) config.floor

  abbrev pub utility_signal : MemoryRecord → F
  utility_signal r =
      let access = f.min (f.div (f.from_usize r.access_count) (m.literal 50 1)) f.one in
      let useful = f.min (f.div (f.from_usize r.useful_count) (m.literal 10 1)) f.one in
      let weighted = f.add (f.mul (m.literal 7 10) useful) (f.mul (m.literal 3 10) access) in
      f.min (f.max (f.max useful (f.mul access (m.literal 8 10))) weighted) f.one

  abbrev pub boosted : DecayConfig F → F → F → F
  boosted config age utility =
      let boost = f.add f.one (f.mul (f.sub config.access_boost f.one) utility) in
      let dampener = f.add (m.literal 7 10) (f.mul (m.literal 3 10) age) in
      clamp config.floor config.access_boost (f.mul boost dampener)

  -- `f32::clamp` panics where `floor` is above `access_boost` or one of them is NaN; the model is of the
  -- configurations where it does not.
  unfoldable pub retrieval_strength : MemoryRecord → DecayConfig F → ℕ → F
  retrieval_strength r config now =
      if not config.decay_enabled
      then f.one
      else if not (is_some r.last_access) && (r.access_count == 0 && r.useful_count == 0)
      then f.one
      else let age = age_score r.last_access config now in
        let utility = utility_signal r in
        if f.le utility f.zero && f.le f.zero utility
        then clamp config.floor config.access_boost age
        else boosted config age utility

  abbrev pub age_in_days : MemoryRecord → ℕ → F
  age_in_days r now = elim r.last_access [
    | none ↦ days (now - r.created_at)
    | some last ↦ days (now - last)
  ]

  abbrev pub utility_protected : MemoryRecord → F → Bool
  utility_protected r strength = ltb 0 r.useful_count && f.le f.one strength
