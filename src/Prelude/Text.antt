-- ===== src/Prelude/Text.antt =====
-- Python's texts: equality is the native `str_eq`, the order is by code points.
use Prim.Native.Char.{code}
use Prim.Native.Nat.{ℕ}
use Prim.Native.String.{String}
use mathlib.Core.Path.{◌≡◌, refl}
use mathlib.Core.Logic.{◌⊎◌, inl, inr, ◌↔◌}
use mathlib.Core.Bool.{Bool, true, false, ◌||◌, ◌&&◌}
use mathlib.Core.Option.{Option, none, some}
use mathlib.Core.List.{List, [], ◌∷◌}
use native.Mathlib.Omega.{arith}
use text.Mathlib.Text.{◌==◌ as str_eq}
use text.Mathlib.TextEquality.{eq_iff}
use text.Mathlib.TextPositions.{eq_refl}
use paper_radar.Prelude.Tests.{ltb, ◌==◌}

abbrev pub codes : String → List ℕ
codes String.[] = []
codes (String.◌∷◌ c s) = code c ∷ codes s

-- Python's `not s`.
abbrev pub is_empty : String → Bool
is_empty s = str_eq s ""

-- Python's `o == s`, for an optional text `o` and a text `s`.
abbrev pub opt_is : Option String → String → Bool
opt_is none s = false
opt_is (some t) s = str_eq t s

-- Python's `o == p` on optional texts.
abbrev pub opt_eq : Option String → Option String → Bool
opt_eq none none = true
opt_eq none (some s) = false
opt_eq (some t) p = opt_is p t

-- Python's `not o`: absent or empty.
abbrev pub opt_is_empty : Option String → Bool
opt_is_empty none = true
opt_is_empty (some s) = is_empty s

-- Lexicographic `a <= b` on code points.
abbrev pub codes_leb : List ℕ → List ℕ → Bool
codes_leb [] ys = true
codes_leb (x ∷ xs) [] = false
codes_leb (x ∷ xs) (y ∷ ys) = ltb x y || ((x == y) && codes_leb xs ys)

unfoldable pub text_leb : String → String → Bool
text_leb a b = codes_leb (codes a) (codes b)

codes_leb_total : (xs ys : List ℕ) → (codes_leb xs ys ≡ true) ⊎ (codes_leb ys xs ≡ true)
codes_leb_total [] ys = ground arith
codes_leb_total (x ∷ xs) [] = ground arith
codes_leb_total (x ∷ xs) (y ∷ ys) = ground (arith, codes_leb_total xs ys)

pub text_leb_total : (a b : String) → (text_leb a b ≡ true) ⊎ (text_leb b a ≡ true)
unfolding text_leb
text_leb_total a b = codes_leb_total (codes a) (codes b)

pub text_leb_other : (a b : String) → text_leb a b ≡ false → text_leb b a ≡ true
text_leb_other a b h = elim (text_leb_total a b) [ inl e ↦ cc | inr e ↦ e ]

codes_leb_trans :
    (xs ys zs : List ℕ) → codes_leb xs ys ≡ true → codes_leb ys zs ≡ true → codes_leb xs zs ≡ true
codes_leb_trans [] ys zs p q = refl
codes_leb_trans (x ∷ xs) [] zs p q = cc
codes_leb_trans (x ∷ xs) (y ∷ ys) [] p q = cc
codes_leb_trans (x ∷ xs) (y ∷ ys) (z ∷ zs) p q = ground (arith, codes_leb_trans xs ys zs)

pub text_leb_trans :
    (a b c : String) → text_leb a b ≡ true → text_leb b c ≡ true → text_leb a c ≡ true
unfolding text_leb
text_leb_trans a b c p q = codes_leb_trans (codes a) (codes b) (codes c) p q

pub opt_eq_refl : (o : Option String) → opt_eq o o ≡ true
opt_eq_refl none = refl
opt_eq_refl (some s) = eq_refl s

pub opt_is_iff : (o : Option String) (s : String) → (opt_is o s ≡ true) ↔ (o ≡ some s)
opt_is_iff none s = ground arith
opt_is_iff (some t) s = ground (arith, eq_iff t s)
