-- ===== src/Prelude/Lists.antt =====
-- Lists measured by native numbers, and searched by Boolean tests.
use Prim.Native.Nat.{ℕ, zero, suc, ◌+◌, ◌≤◌}
use mathlib.Core.Path.{◌≡◌, refl, sym, subst}
use mathlib.Core.Logic.{◌↔◌, ◌⊎◌, inl, inr}
use mathlib.Core.Bool.{Bool, true, false, ◌&&◌, ◌||◌}
use mathlib.Core.Option.{Option, none, some}
use mathlib.Core.List.{List, [], ◌∷◌, ◌++◌}
use native.Mathlib.Omega.{arith}
use paper_radar.Prelude.Tests.{Bool-cases, if◌then◌else◌}

module _ {ℓ} {A : Type ℓ} where
  abbrev pub length : List A → ℕ
  length [] = 0
  length (x ∷ xs) = suc (length xs)

  -- Python's `not xs`.
  abbrev pub is_nil : List A → Bool
  is_nil [] = true
  is_nil (x ∷ xs) = false

  abbrev pub any : (A → Bool) → List A → Bool
  any p [] = false
  any p (x ∷ xs) = p x || any p xs

  abbrev pub all : (A → Bool) → List A → Bool
  all p [] = true
  all p (x ∷ xs) = p x && all p xs

  -- The comprehension `[x for x in xs if p(x)]`.
  abbrev pub keep : (A → Bool) → List A → List A
  keep p [] = []
  keep p (x ∷ xs) = let rest = keep p xs in if p x then x ∷ rest else rest

  abbrev pub get_last? : List A → Option A
  get_last? [] = none
  get_last? (x ∷ []) = some x
  get_last? (x ∷ y ∷ xs) = get_last? (y ∷ xs)

  abbrev pub take : ℕ → List A → List A
  take zero xs = []
  take (suc n) [] = []
  take (suc n) (x ∷ xs) = x ∷ take n xs

  abbrev pub drop : ℕ → List A → List A
  drop zero xs = xs
  drop (suc n) [] = []
  drop (suc n) (x ∷ xs) = drop n xs

  -- One element when the test holds: `if b: xs.add(x)`.
  abbrev pub when : Bool → A → List A
  when b x = if b then x ∷ [] else []

  abbrev pub All {κ} : (A → Type κ) → List A → Type κ
  All P [] = Unit
  All P (x ∷ xs) = P x × All P xs

module _ {ℓ} {A : Type ℓ} where
  pub length-append : (xs ys : List A) → length (xs ++ ys) ≡ length xs + length ys
  length-append [] ys = omega arith
  length-append (x ∷ xs) ys = omega (arith, length-append xs ys)

  pub length-keep-le : (p : A → Bool) (xs : List A) → length (keep p xs) ≤ length xs
  length-keep-le p [] = omega arith
  length-keep-le p (x ∷ xs) = ground (arith, length-keep-le p xs)

  -- A union is empty exactly when both of its parts are.
  pub append-eq-nil : (xs ys : List A) → xs ++ ys ≡ [] → (xs ≡ []) × (ys ≡ [])
  append-eq-nil [] ys h = (refl, h)
  append-eq-nil (x ∷ xs) ys h = cc

  pub append-nil_nil : (xs ys : List A) → xs ≡ [] → ys ≡ [] → xs ++ ys ≡ []
  append-nil_nil [] ys p q = q
  append-nil_nil (x ∷ xs) ys p q = cc

  pub is_nil→eq : (xs : List A) → is_nil xs ≡ true → xs ≡ []
  is_nil→eq [] h = refl
  is_nil→eq (x ∷ xs) h = cc

pub when_nil_iff {ℓ} : {A : Type ℓ} (b : Bool) (a : A) → (when b a ≡ []) ↔ (b ≡ false)
when_nil_iff true a = (λ h. cc, λ h. cc)
when_nil_iff false a = (λ h. refl, λ h. refl)

pub append_nil_iff {ℓ} : {A : Type ℓ} (xs ys : List A) → (xs ++ ys ≡ []) ↔ ((xs ≡ []) × (ys ≡ []))
append_nil_iff xs ys = (append-eq-nil xs ys, λ h. append-nil_nil xs ys h.0 h.1)

-- Membership, by recursion on the list.
abbrev pub Among : {A : Type 0} → A → List A → Type 0
Among a [] = ⊥
Among a (x ∷ xs) = (a ≡ x) ⊎ Among a xs

pub Among-keep :
    {A : Type 0} (p : A → Bool) (xs : List A) (a : A)
    → Among a (keep p xs)
    → Among a xs × (p a ≡ true)
Among-keep p [] a m = absurd m
Among-keep p (x ∷ xs) a m = elim (Bool-cases (p x)) [
  | inl e ↦ ground (arith, Among-keep p xs a)
  | inr e ↦ ground (arith, Among-keep p xs a)
]

pub All-Among : {A : Type 0} (P : A → Type 0) (xs : List A) (a : A) → All P xs → Among a xs → P a
All-Among P [] a h m = absurd m
All-Among P (x ∷ xs) a h (inl e) = subst P (sym e) h.0
All-Among P (x ∷ xs) a h (inr m) = All-Among P xs a h.1 m

pub any-false-All :
    {A : Type 0} (p : A → Bool) (xs : List A) → any p xs ≡ false → All (λ x. p x ≡ false) xs
any-false-All p [] h = tt
any-false-All p (x ∷ xs) h = (ground arith, any-false-All p xs (ground arith))

-- What holds of all that a comprehension keeps, holds of every element under its test.
pub All-keep :
    {A : Type 0} (P : A → Type 0) (p : A → Bool) (xs : List A)
    → All P (keep p xs)
    → All (λ x. p x ≡ true → P x) xs
All-keep P p [] h = tt
All-keep P p (x ∷ xs) h = elim (Bool-cases (p x)) [
  | inl e ↦ let h' : P x × All P (keep p xs) = rw e at h in (λ _. h'.0, All-keep P p xs h'.1)
  | inr e ↦ let h' : All P (keep p xs) = rw e at h in (λ t. cc, All-keep P p xs h')
]

pub All-zip_with :
    {A : Type 0} (P Q R : A → Type 0) (xs : List A)
    → ((x : A) → P x → Q x → R x)
    → All P xs
    → All Q xs
    → All R xs
All-zip_with P Q R [] f p q = tt
All-zip_with P Q R (x ∷ xs) f p q = (f x p.0 q.0, All-zip_with P Q R xs f p.1 q.1)

pub keep-eq-nil_All :
    {A : Type 0} (p : A → Bool) (xs : List A) → keep p xs ≡ [] → All (λ x. p x ≡ false) xs
keep-eq-nil_All p [] h = tt
keep-eq-nil_All p (x ∷ xs) h = elim (Bool-cases (p x)) [
  | inl e ↦ let h' : x ∷ keep p xs ≡ [] = rw e at h in cc
  | inr e ↦ let h' : keep p xs ≡ [] = rw e at h in (e, keep-eq-nil_All p xs h')
]

pub All-map :
    {A : Type 0} (P Q : A → Type 0) (xs : List A) → ((a : A) → P a → Q a) → All P xs → All Q xs
All-map P Q [] f h = tt
All-map P Q (x ∷ xs) f h = (f x h.0, All-map P Q xs f h.1)

pub All-self : {A : Type 0} (xs : List A) → All (λ a. Among a xs) xs
All-self [] = tt
All-self (x ∷ xs) = (inl refl, All-map _ _ xs (λ a m. inr m) (All-self xs))

-- Where a test holds of some element, there is such an element.
pub any-Among :
    {A : Type 0} (p : A → Bool) (xs : List A)
    → any p xs ≡ true
    → (a : A) × Among a xs × (p a ≡ true)
any-Among p [] h = cc
any-Among p (x ∷ xs) h = elim (Bool-cases (p x)) [
  | inl e ↦ (x, inl refl, e)
  | inr e ↦
      let h' : any p xs ≡ true = rw e at h in
      let (a, among, holds) = any-Among p xs h' in (a, inr among, holds)
]
