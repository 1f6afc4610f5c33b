-- ===== src/Base/Defined.antt =====
-- What holds of the result of a call that is defined: `none` is undefined behaviour.
use mathlib.Core.Option
use mathlib.Core.Option.{Option, none, some}
use mathlib.Core.Path.{◌≡◌, refl}

abbrev pub IfDefined {ℓ κ} : {A : Type ℓ} → (A → Type κ) → Option A → Type κ
IfDefined P none = Unit
IfDefined P (some a) = P a

module _ {ℓ κ μ} {A : Type ℓ} {B : Type κ} (Q : B → Type μ) where
  pub IfDefined-bind :
      (o : Option A) (g : A → Option B)
      → IfDefined (λ a. IfDefined Q (g a)) o
      → IfDefined Q (Option.bind o g)
  unfolding Option.bind
  IfDefined-bind none g h = tt
  IfDefined-bind (some a) g h = h

  pub IfDefined-map :
      (g : A → B) (o : Option A) → IfDefined (λ a. Q (g a)) o → IfDefined Q (Option.map g o)
  IfDefined-map g none h = tt
  IfDefined-map g (some a) h = h

pub IfDefined-imp {ℓ κ μ} :
    {A : Type ℓ} (P : A → Type κ) (Q : A → Type μ) (o : Option A)
    → ((a : A) → P a → Q a)
    → IfDefined P o
    → IfDefined Q o
IfDefined-imp P Q none h p = tt
IfDefined-imp P Q (some a) h p = h a p

pub IfDefined-of_all {ℓ κ} :
    {A : Type ℓ} (P : A → Type κ) (o : Option A) → ((a : A) → P a) → IfDefined P o
IfDefined-of_all P none h = tt
IfDefined-of_all P (some a) h = h a

-- A call that is defined.
abbrev pub IsDefined {ℓ} : {A : Type ℓ} → Option A → Type 0
IsDefined none = ⊥
IsDefined (some a) = Unit

module _ {ℓ κ} {A : Type ℓ} {B : Type κ} where
  pub bind-IsDefined :
      (o : Option A) (g : A → Option B)
      → IsDefined o
      → ((a : A) → IsDefined (g a))
      → IsDefined (Option.bind o g)
  unfolding Option.bind
  bind-IsDefined none g h k = absurd h
  bind-IsDefined (some a) g h k = k a

  pub map-IsDefined : (g : A → B) (o : Option A) → IsDefined o → IsDefined (Option.map g o)
  map-IsDefined g none h = absurd h
  map-IsDefined g (some a) h = tt

-- The result of a call that is defined.
pub IsDefined-result {ℓ} : {A : Type ℓ} (o : Option A) → IsDefined o → (a : A) × (o ≡ some a)
IsDefined-result none h = absurd h
IsDefined-result (some a) h = (a, refl)
