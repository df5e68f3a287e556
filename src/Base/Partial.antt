-- ===== src/Base/Partial.antt =====
-- Chains of results that may be missing.
use mathlib.Core.Option.{Option, none, some}
use mathlib.Core.Path.{◌≡◌, refl, subst}

infixl 55 ◌>>=◌
abbrev pub ◌>>=◌ {ℓ κ} : {A : Type ℓ} {B : Type κ} → Option A → (A → Option B) → Option B
none >>= f = none
some a >>= f = f a

-- What holds of a result, if there is one.
abbrev pub Post {ℓ κ} : {A : Type ℓ} → (A → Type κ) → Option A → Type κ
Post P none = Unit
Post P (some a) = P a

pub Post-bind {ℓ κ μ} :
    {A : Type ℓ} {B : Type κ} (P : B → Type μ) (o : Option A) (f : A → Option B)
    → ((a : A) → o ≡ some a → Post P (f a))
    → Post P (o >>= f)
Post-bind P none f h = tt
Post-bind P (some a) f h = h a refl

pub Post-some {ℓ κ} :
    {A : Type ℓ} (P : A → Type κ) (o : Option A) (a : A) → Post P o → o ≡ some a → P a
Post-some P none a p e = absurd cc
Post-some P (some b) a p e = let same : b ≡ a = cc in subst P same p

pub Post-map {ℓ κ μ} :
    {A : Type ℓ} (P : A → Type κ) (Q : A → Type μ) (o : Option A)
    → ((a : A) → P a → Q a)
    → Post P o
    → Post Q o
Post-map P Q none h p = tt
Post-map P Q (some a) h p = h a p
