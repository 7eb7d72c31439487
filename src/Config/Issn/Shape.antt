-- ===== src/Config/Issn/Shape.antt =====
-- config/journals.py: what the pattern of an ISSN lets through.
use paper_radar.Prelude.{
  All, Bool, Bool-cases, List, [], ap, arith, false, inl, inr, length, refl, true, ℕ, ◌&&◌, ◌++◌,
  ◌==◌, ◌∷◌, ◌≡◌,
}
use paper_radar.Config.Issn.{
  compact, dash, is_check, is_digit, is_format, is_tail, lower_x, not_dash, skip_dash, upper,
}

-- Seven digits and a check character.
pub record IsIssn (cs : List ℕ) : Type 0 where
  pub digits : List ℕ
  pub check : ℕ
  pub seven : length digits ≡ 7
  pub all_digits : All (λ c. is_digit c ≡ true) digits
  pub is_last : is_check check ≡ true
  pub parts : cs ≡ digits ++ check ∷ []

pub compact-dash : (xs ys : List ℕ) → compact (xs ++ dash ∷ ys) ≡ compact (xs ++ ys)
unfolding compact
compact-dash [] ys = refl
compact-dash (x ∷ xs) ys = elim (Bool-cases (not_dash x)) [
  | inl e ↦ rw e (ap (λ cs. upper x ∷ cs) (compact-dash xs ys))
  | inr e ↦ rw e (compact-dash xs ys)
]

check_not_dash : (c : ℕ) → is_check c ≡ true → not_dash c ≡ true
check_not_dash c h = ground arith

pub compact-plain :
    (xs : List ℕ) (c : ℕ)
    → All (λ c. is_digit c ≡ true) xs
    → is_check c ≡ true
    → compact (xs ++ c ∷ []) ≡ xs ++ upper c ∷ []
unfolding compact
compact-plain [] c h k = rw (check_not_dash c k) refl
compact-plain (x ∷ xs) c h k =
    let kept : not_dash x ≡ true = ground (arith, h.0) in
    let same : (x == lower_x) ≡ false = ground (arith, h.0) in
    rw (kept, same) (ap (λ cs. x ∷ cs) (compact-plain xs c h.1 k))

and_split : (a b : Bool) → (a && b) ≡ true → (a ≡ true) × (b ≡ true)
and_split true b h = (refl, h)
and_split false b h = cc

is_tail-IsIssn :
    (a b c d : ℕ) (rest : List ℕ)
    → is_digit a ≡ true
    → is_digit b ≡ true
    → is_digit c ≡ true
    → is_digit d ≡ true
    → is_tail rest ≡ true
    → IsIssn (a ∷ b ∷ c ∷ d ∷ rest)
is_tail-IsIssn a b c d (e ∷ f ∷ g ∷ h ∷ []) p q r s t =
    let (t₁, last) = and_split (is_digit e && is_digit f && is_digit g) (is_check h) t in
    let (t₂, third) = and_split (is_digit e && is_digit f) (is_digit g) t₁ in
    let (first, second) = and_split (is_digit e) (is_digit f) t₂ in
    record {
      digits = a ∷ b ∷ c ∷ d ∷ e ∷ f ∷ g ∷ [];
      check = h;
      seven = omega arith;
      all_digits = (p, (q, (r, (s, (first, (second, (third, tt)))))));
      is_last = last;
      parts = refl;
    }
is_tail-IsIssn a b c d [] p q r s t = cc
is_tail-IsIssn a b c d (e ∷ []) p q r s t = cc
is_tail-IsIssn a b c d (e ∷ f ∷ []) p q r s t = cc
is_tail-IsIssn a b c d (e ∷ f ∷ g ∷ []) p q r s t = cc
is_tail-IsIssn a b c d (e ∷ f ∷ g ∷ h ∷ i ∷ rest) p q r s t = cc

-- Without its dash, a value of the format is an ISSN.
pub is_format-IsIssn :
    (value : List ℕ)
    → is_format value ≡ true
    → (cs : List ℕ) × IsIssn cs × (compact value ≡ compact cs)
unfolding is_format
is_format-IsIssn [] h = cc
is_format-IsIssn (a ∷ []) h = cc
is_format-IsIssn (a ∷ b ∷ []) h = cc
is_format-IsIssn (a ∷ b ∷ c ∷ []) h = cc
is_format-IsIssn (a ∷ b ∷ c ∷ d ∷ rest) h =
    let (h₁, tail) =
      and_split (is_digit a && is_digit b && is_digit c && is_digit d) (is_tail (skip_dash rest))
        h in
    let (h₂, s) = and_split (is_digit a && is_digit b && is_digit c) (is_digit d) h₁ in
    let (h₃, r) = and_split (is_digit a && is_digit b) (is_digit c) h₂ in
    let (p, q) = and_split (is_digit a) (is_digit b) h₃ in
    (
      a ∷ b ∷ c ∷ d ∷ skip_dash rest,
      is_tail-IsIssn a b c d (skip_dash rest) p q r s tail,
      skipped rest,
    )
  where
    skipped :
        (rest : List ℕ) → compact (a ∷ b ∷ c ∷ d ∷ rest) ≡ compact (a ∷ b ∷ c ∷ d ∷ skip_dash rest)
    skipped [] = refl
    skipped (x ∷ xs) = elim (Bool-cases (x == dash)) [
      | inl e ↦
          let same : x ≡ dash = ground arith in rw (e, same) (compact-dash (a ∷ b ∷ c ∷ d ∷ []) xs)
      | inr e ↦ rw e refl
    ]
