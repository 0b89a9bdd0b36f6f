-- ===== src/Prelude/Results.antt =====
-- The result of a step that may throw, and the chaining of such steps.

pub data Result {ℓ κ} (E : Type ℓ) (A : Type κ) : Type (ℓ ⊔ κ) where
  ok : A → Result E A
  err : E → Result E A

infixl 5 ◌>>=◌
abbrev pub ◌>>=◌ {ℓ κ} : {E : Type ℓ} {A B : Type κ} → Result E A → (A → Result E B) → Result E B
ok a >>= f = f a
err e >>= f = err e

-- What holds of the value, or of the error.
pub data Ends {ℓ κ μ ν} {E : Type ℓ} {A : Type κ} (P : A → Type μ) (Q : E → Type ν)
    : Result E A → Type (ℓ ⊔ κ ⊔ μ ⊔ ν) where
  done : {a : A} → P a → Ends P Q (ok a)
  threw : {e : E} → Q e → Ends P Q (err e)

pub Ends-bind {ℓ κ μ ρ ν} :
    {E : Type ℓ} {A B : Type κ} {O : A → Type ρ} {P : B → Type μ} {Q : E → Type ν} {r : Result E A}
    (f : A → Result E B)
    → Ends O Q r
    → ((a : A) → O a → Ends P Q (f a))
    → Ends P Q (r >>= f)
Ends-bind f (done {a} p) h = h a p
Ends-bind f (threw q) h = threw q
