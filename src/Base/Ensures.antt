-- ===== src/Base/Ensures.antt =====
-- What a result satisfies: where there is one, and that there is one.
use mathlib.Core.Path.{◌≡◌, refl, subst}
use mathlib.Core.Bool.{Bool, true, false}
use mathlib.Core.Option.{Option, none, some}
use roadsend_php.Base.Tests.{if◌then◌else◌, ◌>>=◌}

abbrev pub Ensures {ℓ κ} : {A : Type ℓ} → (A → Type κ) → Option A → Type κ
Ensures P none = Unit
Ensures P (some a) = P a

module _ {ℓ κ} {A : Type ℓ} {B : Type ℓ} where
  pub Ensures-bind :
      (P : A → Type κ) (Q : B → Type κ) (m : Option A) (f : A → Option B)
      → Ensures P m
      → ((a : A) → P a → Ensures Q (f a))
      → Ensures Q (m >>= f)
  Ensures-bind P Q none f h k = tt
  Ensures-bind P Q (some a) f h k = k a h

module _ {ℓ κ} {A : Type ℓ} where
  pub Ensures-if :
      (P : A → Type κ) (b : Bool) (x y : Option A)
      → Ensures P x
      → Ensures P y
      → Ensures P (if b then x else y)
  Ensures-if P true x y h k = h
  Ensures-if P false x y h k = k

  -- Nothing is known of a result.
  pub Ensures-any : (m : Option A) → Ensures (λ _. Unit {κ}) m
  Ensures-any none = tt
  Ensures-any (some a) = tt

  pub Ensures-some : (P : A → Type κ) (m : Option A) (a : A) → Ensures P m → m ≡ some a → P a
  Ensures-some P none a h e = cc
  Ensures-some P (some b) a h e = let k : b ≡ a = cc in subst P k h

  pub Ensures-mono :
      (P Q : A → Type κ) (m : Option A) → Ensures P m → ((a : A) → P a → Q a) → Ensures Q m
  Ensures-mono P Q none h k = tt
  Ensures-mono P Q (some a) h k = k a h

-- There is a result, and it has the property.
abbrev pub Returns {ℓ} : {A : Type ℓ} → (A → Type 0) → Option A → Type 0
Returns P none = ⊥
Returns P (some a) = P a

module _ {ℓ} {A : Type ℓ} {B : Type ℓ} where
  pub Returns-bind :
      (P : A → Type 0) (Q : B → Type 0) (m : Option A) (f : A → Option B)
      → Returns P m
      → ((a : A) → P a → Returns Q (f a))
      → Returns Q (m >>= f)
  Returns-bind P Q none f h k = absurd h
  Returns-bind P Q (some a) f h k = k a h

module _ {ℓ} {A : Type ℓ} where
  pub Returns-if :
      (P : A → Type 0) (b : Bool) (x y : Option A)
      → (b ≡ true → Returns P x)
      → (b ≡ false → Returns P y)
      → Returns P (if b then x else y)
  Returns-if P true x y h k = h refl
  Returns-if P false x y h k = k refl

  pub Returns-some : (P : A → Type 0) (m : Option A) → Returns P m → (a : A) × (m ≡ some a) × P a
  Returns-some P none h = absurd h
  Returns-some P (some a) h = (a, refl, h)
