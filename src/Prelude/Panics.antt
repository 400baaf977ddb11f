-- ===== src/Prelude/Panics.antt =====
-- The outcome of code that may panic (`panic!`, `todo!`, `unreachable!`, `expect`, `unwrap`).
use mathlib.Core.Path.{◌≡◌, refl}
use mathlib.Core.Logic.{◌⊎◌, inl, inr}
use mathlib.Core.Bool.{Bool, true, false}
use ossa.Prelude.Tests.{if◌then◌else◌}
use native.Mathlib.Omega.{arith}

pub data Run {ℓ} (A : Type ℓ) : Type ℓ where
  done : A → Run A
  panic : Run A

infixl 5 ◌>>=◌ ◌>>◌
abbrev pub ◌>>=◌ {ℓ κ} : {A : Type ℓ} {B : Type κ} → Run A → (A → Run B) → Run B
done a >>= f = f a
panic >>= f = panic

abbrev pub ◌>>◌ {ℓ} : {B : Type ℓ} → Run (Unit {0}) → Run B → Run B
m >> k = m >>= λ _. k

pub Run-cases {ℓ} : {A : Type ℓ} (r : Run A) → ((a : A) × (r ≡ done a)) ⊎ (r ≡ panic)
Run-cases (done a) = inl (a, refl)
Run-cases panic = inr refl

-- inversion of a successful bind
pub >>=-eq-done {ℓ κ} :
    {A : Type ℓ} {B : Type κ} (m : Run A) (f : A → Run B) {b : B}
    → (m >>= f) ≡ done b
    → (a : A) × (m ≡ done a) × (f a ≡ done b)
>>=-eq-done (done a) f h = (a, refl, h)
>>=-eq-done panic f h = absurd (cc)

-- If the code ends without a panic, `P` holds of what it returns.
abbrev pub Ends {ℓ κ} : {A : Type ℓ} → (A → Type κ) → Run A → Type κ
Ends P (done a) = P a
Ends P panic = Unit

pub Ends-bind {ℓ κ μ ν} :
    {A : Type ℓ} {B : Type κ} (P : A → Type μ) (Q : B → Type ν) (m : Run A) (f : A → Run B)
    → Ends P m
    → ((a : A) → P a → Ends Q (f a))
    → Ends Q (m >>= f)
Ends-bind P Q (done a) f p k = k a p
Ends-bind P Q panic f p k = tt

pub Ends-after {ℓ κ ν} :
    {A : Type ℓ} {B : Type κ} (Q : B → Type ν) (m : Run A) (f : A → Run B)
    → ((a : A) → Ends Q (f a))
    → Ends Q (m >>= f)
Ends-after Q (done a) f k = k a
Ends-after Q panic f k = tt

pub Ends-imp {ℓ κ μ} :
    {A : Type ℓ} (P : A → Type κ) (Q : A → Type μ) (m : Run A)
    → ((a : A) → P a → Q a)
    → Ends P m
    → Ends Q m
Ends-imp P Q (done a) k p = k a p
Ends-imp P Q panic k p = tt

pub Ends-if {ℓ κ} :
    {A : Type ℓ} (P : A → Type κ) (b : Bool) (x y : Run A)
    → Ends P x
    → Ends P y
    → Ends P (if b then x else y)
Ends-if P true x y p q = p
Ends-if P false x y p q = q

pub Ends-done {ℓ κ} :
    {A : Type ℓ} (P : A → Type κ) (m : Run A) (a : A) → Ends P m → m ≡ done a → P a
Ends-done P (done b) a p e = ground arith
Ends-done P panic a p e = absurd (cc)
