-- ===== src/Prelude/Results.antt =====
-- What a function gives that may raise: its result, or the reason of the exception.
use mathlib.Core.Path.{◌≡◌, refl}
use mathlib.Core.Bool.{Bool, true, false}

pub data Result {ε ℓ} (E : Type ε) (A : Type ℓ) : Type (ε ⊔ ℓ) where
  ok : A → Result E A
  problem : E → Result E A

-- An exception leaves the calls that it passes.
infixl 5 ◌>>=◌ ◌>>◌
abbrev pub ◌>>=◌ {ε ℓ κ} :
    {E : Type ε} {A : Type ℓ} {B : Type κ} (first : Result E A) (later : A → Result E B)
    → Result E B
problem reason >>= later = problem reason
ok value >>= later = later value

abbrev pub ◌>>◌ {ε ℓ} :
    {E : Type ε} {B : Type ℓ} (check : Result E (Unit {0})) (later : Result E B) → Result E B
check >> later = check >>= λ _. later

-- `if b: raise ...(r)`
abbrev pub raise_if {ε} : {E : Type ε} → Bool → E → Result E (Unit {0})
raise_if true r = problem r
raise_if false r = ok tt

-- A call that returns has had a first part that returned.
pub >>=-eq-ok {ε ℓ κ} :
    {E : Type ε} {A : Type ℓ} {B : Type κ} (first : Result E A) (later : A → Result E B)
    {result : B} (returned : (first >>= later) ≡ ok result)
    → (value : A) × (first ≡ ok value) × (later value ≡ ok result)
>>=-eq-ok (problem reason) later returned = cc
>>=-eq-ok (ok value) later returned = (value, refl, returned)

pub ok_injective {ε ℓ} :
    {E : Type ε} {A : Type ℓ} {a b : A} → ◌≡◌ {A = Result E A} (ok a) (ok b) → a ≡ b
ok_injective h = cc

pub bind_assoc {ε ℓ κ μ} :
    {E : Type ε} {A : Type ℓ} {B : Type κ} {C : Type μ} (m : Result E A) (f : A → Result E B)
    (g : B → Result E C)
    → (m >>= f >>= g) ≡ (m >>= λ a. f a >>= g)
bind_assoc (ok a) f g = refl
bind_assoc (problem r) f g = refl
