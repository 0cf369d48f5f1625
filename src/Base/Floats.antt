-- ===== src/Base/Floats.antt =====
-- `f32`: the operations of the hardware's floats that the code calls, and the laws of IEEE 754
-- that some of its results rest on. `Float` is an instance argument of what computes with scores.
use Prim.Native.Nat.{ℕ}
use Prim.Native.String.{String}
use mathlib.Core.Path.{◌≡◌}
use mathlib.Core.Bool.{Bool, true, false}

pub record Float (F : Type 0) : Type 0 where
  pub lt : F → F → Bool
  pub le : F → F → Bool
  pub is_nan : F → Bool
  pub zero : F
  pub one : F
  pub half : F
  pub epsilon : F
  pub lowest : F
  pub from_usize : ℕ → F
  pub add : F → F → F
  pub sub : F → F → F
  pub mul : F → F → F
  pub div : F → F → F
  pub mul_add : F → F → F → F
  pub abs : F → F
  pub min : F → F → F
  pub max : F → F → F
  pub show : F → String

-- The order of IEEE 754 on floats that are not NaN: `<=` is total and transitive, and `<` is the
-- converse of `<=` denied.
pub record IsOrdered (F : Type 0) (f : Float F) : Type 0 where
  pub lt_of_not_le :
      (a b : F) → f.is_nan a ≡ false → f.is_nan b ≡ false → f.le b a ≡ false → f.lt a b ≡ true
  pub not_le_of_lt :
      (a b : F) → f.is_nan a ≡ false → f.is_nan b ≡ false → f.lt a b ≡ true → f.le b a ≡ false
  pub le_trans :
      (a b c : F)
      → f.is_nan a ≡ false
      → f.is_nan b ≡ false
      → f.is_nan c ≡ false
      → f.le a b ≡ true
      → f.le b c ≡ true
      → f.le a c ≡ true
  pub le_refl : (a : F) → f.is_nan a ≡ false → f.le a a ≡ true
  pub le_of_lt :
      (a b : F) → f.is_nan a ≡ false → f.is_nan b ≡ false → f.lt a b ≡ true → f.le a b ≡ true

-- The functions and literals of `f32` that only some of the code uses: `literal a b` is the literal of
-- the value a / b, and `fixed d x` the text of `x` with `d` digits behind the point.
pub record FloatMath (F : Type 0) : Type 0 where
  pub exp : F → F
  pub neg : F → F
  pub ln_2 : F
  pub literal : ℕ → ℕ → F
  pub fixed : ℕ → F → String
