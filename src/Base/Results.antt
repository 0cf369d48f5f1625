-- ===== src/Base/Results.antt =====
-- `Result<T, E>` with its early return, the `?` operator.
use mathlib.Core.Path.{◌≡◌, refl}
use mathlib.Core.Logic.{◌⊎◌, inl, inr}

-- The error stands first: it is the value a function leaves with.
pub data Result {ℓ κ} (E : Type κ) (A : Type ℓ) : Type (ℓ ⊔ κ) where
  err : E → Result E A
  ok : A → Result E A

pub ok-injective {ℓ} :
    {E : Type 0} {A : Type ℓ} {a b : A} → ◌≡◌ {A = Result E A} (ok a) (ok b) → a ≡ b
ok-injective h = cc

pub err-ne-ok {ℓ} :
    {E : Type 0} {A : Type ℓ} {e : E} {a : A} → ¬ (◌≡◌ {A = Result E A} (err e) (ok a))
err-ne-ok h = cc

infixl 5 ◌>>=◌
abbrev pub ◌>>=◌ {κ ℓ} :
    {E : Type 0} {A : Type κ} {B : Type ℓ}
    → (early : Result E A) (rest : A → Result E B) → Result E B
(err reason) >>= rest = err reason
(ok value) >>= rest = rest value

-- A chain that succeeds has a first step that did.
pub ok-of->>= {κ ℓ} :
    {E : Type 0} {A : Type κ} {B : Type ℓ} {out : B} {early : Result E A} {rest : A → Result E B}
    → (early >>= rest) ≡ ok out
    → (value : A) × (early ≡ ok value) × (rest value ≡ ok out)
ok-of->>= {early = err reason} done = cc
ok-of->>= {early = ok value} done = (value, refl, done)

pub Result-cases {κ ℓ} :
    {E : Type κ} {A : Type ℓ} (r : Result E A) → ((e : E) × (r ≡ err e)) ⊎ ((a : A) × (r ≡ ok a))
Result-cases (err e) = inl (e, refl)
Result-cases (ok a) = inr (a, refl)

-- A property of the value of a success.
abbrev pub OnOk {κ ℓ μ} : {E : Type κ} {A : Type ℓ} → (A → Type μ) → Result E A → Type μ
OnOk P (err e) = Unit
OnOk P (ok a) = P a

pub OnOk-map {κ ℓ μ ν} :
    {E : Type κ} {A : Type ℓ} {P : A → Type μ} {Q : A → Type ν} (r : Result E A)
    → ((a : A) → P a → Q a)
    → OnOk P r
    → OnOk Q r
OnOk-map (err e) f h = tt
OnOk-map (ok a) f h = f a h
