-- ===== src/Base/Faults.antt =====
-- Code that dereferences pointers: it comes to an end, or it faults on memory that is not there.
use mathlib.Core.Path.{◌≡◌, refl}

pub data Run {ℓ} (A : Type ℓ) : Type ℓ where
  done : A → Run A
  fault : Run A

infixl 5 ◌>>=◌
abbrev pub ◌>>=◌ {ℓ κ} : {A : Type ℓ} {B : Type κ} → Run A → (A → Run B) → Run B
done a >>= f = f a
fault >>= f = fault

-- Total correctness: the code does not fault, and its result satisfies `P`.
abbrev pub Ensures {ℓ} : {A : Type ℓ} → (A → Type 0) → Run A → Type 0
Ensures P (done a) = P a
Ensures P fault = ⊥

module _ {ℓ} {A : Type ℓ} where
  pub Ensures-mono :
      (P Q : A → Type 0) (r : Run A) → ((a : A) → P a → Q a) → Ensures P r → Ensures Q r
  Ensures-mono P Q (done a) weaken p = weaken a p
  Ensures-mono P Q fault weaken p = p

  pub Ensures-bind {κ} :
      {B : Type κ} (P : A → Type 0) (Q : B → Type 0) (r : Run A) (f : A → Run B)
      → ((a : A) → P a → Ensures Q (f a))
      → Ensures P r
      → Ensures Q (r >>= f)
  Ensures-bind P Q (done a) f next p = next a p
  Ensures-bind P Q fault f next p = absurd p

  -- A run that ensures something ends with a value.
  pub Ensures-ends : (P : A → Type 0) (r : Run A) → Ensures P r → (a : A) × (r ≡ done a) × P a
  Ensures-ends P (done a) p = (a, refl, p)
  Ensures-ends P fault p = absurd p

-- What holds of a result, where there is one.
abbrev pub IfDone {ℓ} : {A : Type ℓ} → (A → Type 0) → Run A → Type 0
IfDone P (done a) = P a
IfDone P fault = Unit

pub IfDone-bind {ℓ κ} :
    {A : Type ℓ} {B : Type κ} (P : A → Type 0) (Q : B → Type 0) (m : Run A) (f : A → Run B)
    → IfDone P m
    → ((a : A) → P a → IfDone Q (f a))
    → IfDone Q (m >>= f)
IfDone-bind P Q (done a) f p next = next a p
IfDone-bind P Q fault f p next = tt

pub IfDone-any {ℓ} : {A : Type ℓ} (m : Run A) → IfDone (λ a. Unit) m
IfDone-any (done a) = tt
IfDone-any fault = tt

pub IfDone-mono {ℓ} :
    {A : Type ℓ} (P Q : A → Type 0) (m : Run A) → IfDone P m → ((a : A) → P a → Q a) → IfDone Q m
IfDone-mono P Q (done a) p weaken = weaken a p
IfDone-mono P Q fault p weaken = tt
