-- ===== src/Config/Issn/Checked.antt =====
-- config/journals.py: a normalised ISSN, and what its check digit detects.
use Prim.Native.Nat.{◌%◌}
use paper_radar.Prelude.{
  ==_iff, All, Bool-cases, List, [], ap, arith, drop, inl, inr, length, refl, subst, suc, sym, take,
  true, zero, ℕ, ◌++◌, ◌+◌, ◌==◌, ◌∙◌, ◌∷◌, ◌≡◌, ◌≤◌,
}
use paper_radar.Prelude.Results.{Result, ok, ok_injective, problem}
use paper_radar.Config.Issn.{
  IssnReason, check_digit, compact, is_check, is_digit, is_format, issn_checksum_invalid,
  issn_format_invalid, issn_sum, normalize_issn, upper, weighted, with_dash,
}
use paper_radar.Config.Issn.Shape.{compact-dash, compact-plain, is_format-IsIssn}

take-drop : {A : Type 0} (n : ℕ) (xs : List A) → take n xs ++ drop n xs ≡ xs
take-drop zero xs = refl
take-drop (suc n) [] = refl
take-drop (suc n) (x ∷ xs) = ap (λ ys. x ∷ ys) (take-drop n xs)

compact-with_dash : (cs : List ℕ) → compact (with_dash cs) ≡ compact cs
compact-with_dash cs = compact-dash (take 4 cs) (drop 4 cs) ∙ ap compact (take-drop 4 cs)

with_dash-is_format :
    (xs : List ℕ) (k : ℕ)
    → length xs ≡ 7
    → All (λ c. is_digit c ≡ true) xs
    → is_check k ≡ true
    → is_format (with_dash (xs ++ k ∷ [])) ≡ true
unfolding is_format
with_dash-is_format (a ∷ b ∷ c ∷ d ∷ e ∷ f ∷ g ∷ []) k n h last =
    rw (h.0, h.1.0, h.1.1.0, h.1.1.1.0, h.1.1.1.1.0, h.1.1.1.1.1.0, h.1.1.1.1.1.1.0, last) refl
with_dash-is_format [] k n h last = absurd (omega arith)
with_dash-is_format (a ∷ []) k n h last = absurd (omega arith)
with_dash-is_format (a ∷ b ∷ []) k n h last = absurd (omega arith)
with_dash-is_format (a ∷ b ∷ c ∷ []) k n h last = absurd (omega arith)
with_dash-is_format (a ∷ b ∷ c ∷ d ∷ []) k n h last = absurd (omega arith)
with_dash-is_format (a ∷ b ∷ c ∷ d ∷ e ∷ []) k n h last = absurd (omega arith)
with_dash-is_format (a ∷ b ∷ c ∷ d ∷ e ∷ f ∷ []) k n h last = absurd (omega arith)
with_dash-is_format (a ∷ b ∷ c ∷ d ∷ e ∷ f ∷ g ∷ i ∷ xs) k n h last = absurd (omega arith)

check_upper :
    (c : ℕ) → is_check c ≡ true → (is_check (upper c) ≡ true) × (upper (upper c) ≡ upper c)
check_upper c h = ground arith

-- What an accepted value has: seven digits and a check character in upper case, and a right sum.
record IsAccepted (value w : List ℕ) : Type 0 where
  digits : List ℕ
  check : ℕ
  seven : length digits ≡ 7
  all_digits : All (λ c. is_digit c ≡ true) digits
  is_last : is_check check ≡ true
  is_upper : upper check ≡ check
  parts : compact value ≡ digits ++ check ∷ []
  summed : (issn_sum (compact value) % 11 == 0) ≡ true
  result : w ≡ with_dash (compact value)

normalize_issn-IsAccepted : (value w : List ℕ) → normalize_issn value ≡ ok w → IsAccepted value w
unfolding normalize_issn
normalize_issn-IsAccepted value w h = elim (Bool-cases (is_format value)) [
  | inr e ↦ let h' : problem issn_format_invalid ≡ ok w = rw e at h in cc
  | inl e ↦ elim (Bool-cases (issn_sum (compact value) % 11 == 0)) [
    | inr s ↦ let h' : problem issn_checksum_invalid ≡ ok w = rw (e, s) at h in cc
    | inl s ↦
        let (cs, i, same) = is_format-IsIssn value e in
        let (last, twice) = check_upper i.check i.is_last in
        record {
          digits = i.digits;
          check = upper i.check;
          seven = i.seven;
          all_digits = i.all_digits;
          is_last = last;
          is_upper = twice;
          parts = same ∙ ap compact i.parts ∙ compact-plain i.digits i.check i.all_digits i.is_last;
          summed = s;
          result =
              let h' : ◌≡◌ {A = Result IssnReason (List ℕ)} (ok (with_dash (compact value)))
                  (ok w) =
                rw (e, s) at h in
              sym (ok_injective h');
        }
  ]
]

-- An accepted ISSN is normalised: it is accepted again, and not changed.
pub normalize_issn-normalize_issn :
    (value w : List ℕ) → normalize_issn value ≡ ok w → normalize_issn w ≡ ok w
unfolding normalize_issn
normalize_issn-normalize_issn value w h =
    let i = normalize_issn-IsAccepted value w h in
    let shown : w ≡ with_dash (i.digits ++ i.check ∷ []) = i.result ∙ ap with_dash i.parts in
    let format : is_format w ≡ true =
      ap is_format shown ∙ with_dash-is_format i.digits i.check i.seven i.all_digits i.is_last in
    let again : compact w ≡ compact value =
      ap compact shown
      ∙ compact-with_dash (i.digits ++ i.check ∷ [])
      ∙ compact-plain i.digits i.check i.all_digits i.is_last
      ∙ ap (λ c. i.digits ++ c ∷ []) i.is_upper
      ∙ sym i.parts in
    rw (format, again, i.summed) (ap ok (sym i.result))

-- One character exchanged.
abbrev pub set_at : ℕ → ℕ → List ℕ → List ℕ
set_at i x [] = []
set_at zero x (c ∷ cs) = x ∷ cs
set_at (suc i) x (c ∷ cs) = c ∷ set_at i x cs

same_check :
    (x y r : ℕ)
    → is_check x ≡ true
    → is_check y ≡ true
    → upper x ≡ x
    → upper y ≡ y
    → ((r + check_digit x) % 11 == 0) ≡ true
    → ((r + check_digit y) % 11 == 0) ≡ true
    → x ≡ y
same_check x y r p q u v h k =
    let values : check_digit x ≡ check_digit y =
      equal (check_digit x) (check_digit y) (below x p u) (below y q v) (ground (arith, h))
        (ground (arith, k)) in
    shown x y p q u v values
  where
    shown :
        (x y : ℕ)
        → is_check x ≡ true
        → is_check y ≡ true
        → upper x ≡ x
        → upper y ≡ y
        → check_digit x ≡ check_digit y
        → x ≡ y
    shown x y p q u v e = ground arith

    below : (c : ℕ) → is_check c ≡ true → upper c ≡ c → check_digit c ≤ 10
    below c p u = ground arith

    equal : (a b : ℕ) → a ≤ 10 → b ≤ 10 → (r + a) % 11 ≡ 0 → (r + b) % 11 ≡ 0 → a ≡ b
    equal a b p q h k = omega arith

-- Eight characters as an accepted value has them.
abbrev IsChecked : List ℕ → Type 0
IsChecked (a ∷ b ∷ c ∷ d ∷ e ∷ f ∷ g ∷ k ∷ []) =
    All (λ c. is_digit c ≡ true) (a ∷ b ∷ c ∷ d ∷ e ∷ f ∷ g ∷ [])
    × (is_check k ≡ true)
    × (upper k ≡ k)
    × (issn_sum (a ∷ b ∷ c ∷ d ∷ e ∷ f ∷ g ∷ k ∷ []) % 11 ≡ 0)
IsChecked _ = ⊥

digit_bounds : (c : ℕ) → is_digit c ≡ true → (48 ≤ c) × (c ≤ 57)
digit_bounds c h = ground arith

exchange :
    (i x a b c d e f g k : ℕ)
    → IsChecked (a ∷ b ∷ c ∷ d ∷ e ∷ f ∷ g ∷ k ∷ [])
    → IsChecked (set_at i x (a ∷ b ∷ c ∷ d ∷ e ∷ f ∷ g ∷ k ∷ []))
    → set_at i x (a ∷ b ∷ c ∷ d ∷ e ∷ f ∷ g ∷ k ∷ []) ≡ a ∷ b ∷ c ∷ d ∷ e ∷ f ∷ g ∷ k ∷ []
unfolding issn_sum weighted
exchange zero x a b c d e f g k p q =
    let (l, u) = digit_bounds x q.0.0 in
    let (l', u') = digit_bounds a p.0.0 in
    let h = p.3 in
    let h' = q.3 in
    let same : x ≡ a = omega arith in ap (λ y. y ∷ b ∷ c ∷ d ∷ e ∷ f ∷ g ∷ k ∷ []) same
exchange (suc zero) x a b c d e f g k p q =
    let (l, u) = digit_bounds x q.0.1.0 in
    let (l', u') = digit_bounds b p.0.1.0 in
    let h = p.3 in
    let h' = q.3 in
    let same : x ≡ b = omega arith in ap (λ y. a ∷ y ∷ c ∷ d ∷ e ∷ f ∷ g ∷ k ∷ []) same
exchange (suc (suc zero)) x a b c d e f g k p q =
    let (l, u) = digit_bounds x q.0.1.1.0 in
    let (l', u') = digit_bounds c p.0.1.1.0 in
    let h = p.3 in
    let h' = q.3 in
    let same : x ≡ c = omega arith in ap (λ y. a ∷ b ∷ y ∷ d ∷ e ∷ f ∷ g ∷ k ∷ []) same
exchange (suc (suc (suc zero))) x a b c d e f g k p q =
    let (l, u) = digit_bounds x q.0.1.1.1.0 in
    let (l', u') = digit_bounds d p.0.1.1.1.0 in
    let h = p.3 in
    let h' = q.3 in
    let same : x ≡ d = omega arith in ap (λ y. a ∷ b ∷ c ∷ y ∷ e ∷ f ∷ g ∷ k ∷ []) same
exchange (suc (suc (suc (suc zero)))) x a b c d e f g k p q =
    let (l, u) = digit_bounds x q.0.1.1.1.1.0 in
    let (l', u') = digit_bounds e p.0.1.1.1.1.0 in
    let h = p.3 in
    let h' = q.3 in
    let same : x ≡ e = omega arith in ap (λ y. a ∷ b ∷ c ∷ d ∷ y ∷ f ∷ g ∷ k ∷ []) same
exchange (suc (suc (suc (suc (suc zero))))) x a b c d e f g k p q =
    let (l, u) = digit_bounds x q.0.1.1.1.1.1.0 in
    let (l', u') = digit_bounds f p.0.1.1.1.1.1.0 in
    let h = p.3 in
    let h' = q.3 in
    let same : x ≡ f = omega arith in ap (λ y. a ∷ b ∷ c ∷ d ∷ e ∷ y ∷ g ∷ k ∷ []) same
exchange (suc (suc (suc (suc (suc (suc zero)))))) x a b c d e f g k p q =
    let (l, u) = digit_bounds x q.0.1.1.1.1.1.1.0 in
    let (l', u') = digit_bounds g p.0.1.1.1.1.1.1.0 in
    let h = p.3 in
    let h' = q.3 in
    let same : x ≡ g = omega arith in ap (λ y. a ∷ b ∷ c ∷ d ∷ e ∷ f ∷ y ∷ k ∷ []) same
exchange (suc (suc (suc (suc (suc (suc (suc zero))))))) x a b c d e f g k p q =
    ap (λ y. a ∷ b ∷ c ∷ d ∷ e ∷ f ∷ g ∷ y ∷ [])
      (same_check x k (weighted 8 (a ∷ b ∷ c ∷ d ∷ e ∷ f ∷ g ∷ [])) q.1 p.1 q.2 p.2
        (ground (arith, q.3)) (ground (arith, p.3)))
exchange (suc (suc (suc (suc (suc (suc (suc (suc i)))))))) x a b c d e f g k p q = refl

exchange-IsChecked :
    (i x : ℕ) (cs : List ℕ) → IsChecked cs → IsChecked (set_at i x cs) → set_at i x cs ≡ cs
exchange-IsChecked i x (a ∷ b ∷ c ∷ d ∷ e ∷ f ∷ g ∷ k ∷ []) p q = exchange i x a b c d e f g k p q
exchange-IsChecked i x [] p q = absurd p
exchange-IsChecked i x (a ∷ []) p q = absurd p
exchange-IsChecked i x (a ∷ b ∷ []) p q = absurd p
exchange-IsChecked i x (a ∷ b ∷ c ∷ []) p q = absurd p
exchange-IsChecked i x (a ∷ b ∷ c ∷ d ∷ []) p q = absurd p
exchange-IsChecked i x (a ∷ b ∷ c ∷ d ∷ e ∷ []) p q = absurd p
exchange-IsChecked i x (a ∷ b ∷ c ∷ d ∷ e ∷ f ∷ []) p q = absurd p
exchange-IsChecked i x (a ∷ b ∷ c ∷ d ∷ e ∷ f ∷ g ∷ []) p q = absurd p
exchange-IsChecked i x (a ∷ b ∷ c ∷ d ∷ e ∷ f ∷ g ∷ k ∷ l ∷ cs) p q = absurd p

seven-IsChecked :
    (xs : List ℕ) (k : ℕ)
    → length xs ≡ 7
    → All (λ c. is_digit c ≡ true) xs
    → is_check k ≡ true
    → upper k ≡ k
    → issn_sum (xs ++ k ∷ []) % 11 ≡ 0
    → IsChecked (xs ++ k ∷ [])
seven-IsChecked (a ∷ b ∷ c ∷ d ∷ e ∷ f ∷ g ∷ []) k n h p u s = (h, p, u, s)
seven-IsChecked [] k n h p u s = absurd (omega arith)
seven-IsChecked (a ∷ []) k n h p u s = absurd (omega arith)
seven-IsChecked (a ∷ b ∷ []) k n h p u s = absurd (omega arith)
seven-IsChecked (a ∷ b ∷ c ∷ []) k n h p u s = absurd (omega arith)
seven-IsChecked (a ∷ b ∷ c ∷ d ∷ []) k n h p u s = absurd (omega arith)
seven-IsChecked (a ∷ b ∷ c ∷ d ∷ e ∷ []) k n h p u s = absurd (omega arith)
seven-IsChecked (a ∷ b ∷ c ∷ d ∷ e ∷ f ∷ []) k n h p u s = absurd (omega arith)
seven-IsChecked (a ∷ b ∷ c ∷ d ∷ e ∷ f ∷ g ∷ i ∷ xs) k n h p u s = absurd (omega arith)

compact-IsChecked : (value w : List ℕ) → IsAccepted value w → IsChecked (compact value)
compact-IsChecked value w i = subst IsChecked (sym i.parts) (
    seven-IsChecked i.digits i.check i.seven i.all_digits i.is_last i.is_upper (
      subst (λ cs. issn_sum cs % 11 ≡ 0) i.parts
        ((==_iff (issn_sum (compact value) % 11) 0).0 i.summed)))

-- The check digit detects a wrong character: two accepted values whose characters, without dashes and
-- in upper case, differ in one place at most, are the same ISSN.
pub normalize_issn-set_at :
    (value other w w' : List ℕ) (i x : ℕ)
    → normalize_issn value ≡ ok w
    → normalize_issn other ≡ ok w'
    → compact other ≡ set_at i x (compact value)
    → w ≡ w'
normalize_issn-set_at value other w w' i x h k e =
    let p = normalize_issn-IsAccepted value w h in
    let q = normalize_issn-IsAccepted other w' k in
    let same =
      exchange-IsChecked i x (compact value) (compact-IsChecked value w p)
        (subst IsChecked e (compact-IsChecked other w' q)) in
    p.result ∙ ap with_dash (sym same ∙ sym e) ∙ sym q.result
