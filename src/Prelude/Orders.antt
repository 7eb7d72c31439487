-- ===== src/Prelude/Orders.antt =====
-- Python's order of tuples: by the first component, then by the rest. An order is its test `a <= b`.
use mathlib.Core.Path.{◌≡◌, refl}
use mathlib.Core.Logic.{◌⊎◌, inl}
use mathlib.Core.Bool.{Bool, true, ◌||◌, ◌&&◌, not}
use native.Mathlib.Omega.{arith}
use paper_radar.Prelude.Tests.{leb}
use paper_radar.Prelude.Int.{ltb_ℤ, ℤ}
use paper_radar.Prelude.Text.{text_leb, text_leb_total, text_leb_trans}

abbrev pub Order : Type 0 → Type 0
Order A = A → A → Bool

pub record IsOrder {A : Type 0} (le : Order A) : Type 0 where
  pub total : (a b : A) → (le a b ≡ true) ⊎ (le b a ≡ true)
  pub trans : (a b c : A) → le a b ≡ true → le b c ≡ true → le a c ≡ true

-- By a component, and by the rest where it does not differ.
unfoldable pub lex_by : {A B : Type 0} → (A → B) → Order B → Order A → Order A
lex_by f le rest a b = le (f a) (f b) && (not (le (f b) (f a)) || rest a b)

abbrev pub equal_all : {A : Type 0} → Order A
equal_all a b = true

abbrev pub leb_ℤ : Order ℤ
leb_ℤ a b = not (ltb_ℤ b a)

pub leb-IsOrder : IsOrder leb
leb-IsOrder = record { total = λ a b. ground arith; trans = λ a b c h k. ground arith }

pub leb_ℤ-IsOrder : IsOrder leb_ℤ
leb_ℤ-IsOrder = record { total = λ a b. ground arith; trans = λ a b c h k. ground arith }

pub text_leb-IsOrder : IsOrder text_leb
text_leb-IsOrder = record { total = text_leb_total; trans = text_leb_trans }

pub equal_all-IsOrder : {A : Type 0} → IsOrder (equal_all {A = A})
equal_all-IsOrder = record { total = λ a b. inl refl; trans = λ a b c h k. refl }

pub lex_by-IsOrder :
    {A B : Type 0} (f : A → B) (le : Order B) (rest : Order A)
    → IsOrder le
    → IsOrder rest
    → IsOrder (lex_by f le rest)
unfolding lex_by
lex_by-IsOrder f le rest l r = record {
  total = λ a b. ground (arith, l.total (f a) (f b), r.total a b);
  trans = λ a b c h k. ground (
    arith,
    l.trans (f a) (f b) (f c),
    l.trans (f c) (f a) (f b),
    l.trans (f b) (f c) (f a),
    r.trans a b c,
  );
}

-- The first component is at most that of what is greater.
pub lex_by-first :
    {A B : Type 0} (f : A → B) (le : Order B) (rest : Order A) (a b : A)
    → lex_by f le rest a b ≡ true
    → le (f a) (f b) ≡ true
unfolding lex_by
lex_by-first f le rest a b h = ground arith

pub lex_by-rest :
    {A B : Type 0} (f : A → B) (le : Order B) (rest : Order A) (a b : A)
    → lex_by f le rest a b ≡ true
    → le (f b) (f a) ≡ true
    → rest a b ≡ true
unfolding lex_by
lex_by-rest f le rest a b h k = ground arith
