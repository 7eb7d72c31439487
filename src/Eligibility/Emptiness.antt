-- ===== src/Eligibility/Emptiness.antt =====
-- eligibility/rules.py: sets of reasons that are empty, and what `_result` makes of a set.
use paper_radar.Prelude.{
  Bool, List, String, [], any, arith, false, keep, refl, some, true, ◌↔◌, ◌∷◌, ◌≡◌, ◌≢◌,
}
use paper_radar.Eligibility.Models.{
  EligibilityReason, Support, all_reasons, canonical_unknown, contains, reason_eq,
}
use paper_radar.Eligibility.Facts.{Reasons, result}

module _ {ℓ} {A : Type ℓ} where
  any-keep_nil : (p : A → Bool) (xs : List A) → keep p xs ≡ [] → any p xs ≡ false
  any-keep_nil p [] h = refl
  any-keep_nil p (x ∷ xs) h = ground (arith, any-keep_nil p xs)

  any_mono :
      (p q : A → Bool) (xs : List A)
      → ((x : A) → p x ≡ true → q x ≡ true)
      → any p xs ≡ true
      → any q xs ≡ true
  any_mono p q [] f h = h
  any_mono p q (x ∷ xs) f h = ground (arith, f x, any_mono p q xs f)

  keep_none : (p : A → Bool) (xs : List A) → ((x : A) → p x ≡ false) → keep p xs ≡ []
  keep_none p [] h = refl
  keep_none p (x ∷ xs) h = ground (arith, h x, keep_none p xs h)

-- Every reason stands in the enumeration.
all_reasons_complete : (r : EligibilityReason) → any (λ q. reason_eq q r) all_reasons ≡ true
unfolding reason_eq
all_reasons_complete canonical_unknown = refl
all_reasons_complete _ = refl

ordered-cons-ne-nil :
    (r : EligibilityReason) (rs : Reasons) → keep (λ q. contains q (r ∷ rs)) all_reasons ≢ []
unfolding contains
ordered-cons-ne-nil r rs h = cc (
  any-keep_nil (λ q. contains q (r ∷ rs)) all_reasons h,
  any_mono (λ q. reason_eq q r) (λ q. contains q (r ∷ rs)) all_reasons (λ q e. ground arith)
      (all_reasons_complete r),
)

-- The tuple of reasons that a result shows is empty exactly when the set is.
pub reasons-result_nil :
    (rs : Reasons) (level : Support) (scope : String)
    → (result rs level scope).reasons ≡ []
    → rs ≡ []
unfolding result
reasons-result_nil [] level scope h = refl
reasons-result_nil (r ∷ rs) level scope h = absurd (ordered-cons-ne-nil r rs h)

pub reasons-result-nil : (level : Support) (scope : String) → (result [] level scope).reasons ≡ []
unfolding result contains
reasons-result-nil level scope = keep_none (λ q. contains q []) all_reasons (λ x. refl)

pub eligible-result_iff :
    (rs : Reasons) (level : Support) (scope : String)
    → ((result rs level scope).eligible ≡ some true) ↔ (rs ≡ [])
unfolding result
eligible-result_iff rs level scope = ground arith
