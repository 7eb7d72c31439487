-- ===== src/Screening/Validation/Outcome.antt =====
-- screening/validation.py, `validate_output`: what is returned, and what is raised.
use paper_radar.Prelude.{List, [], ap, refl, some, subst, ◌↔◌, ◌∙◌, ◌∷◌, ◌≡◌}
use paper_radar.Prelude.Results.{>>=-eq-ok, ok, ok_injective}
use paper_radar.Screening.Loading.{
  Context, Library, Payload, validate_model, validate_reuse_context, validate_value_context,
}
use paper_radar.Screening.Outputs.{
  OutputValidationIssue, ReuseAssessmentContext, ReuseAssessmentOutput, TextOps,
  ValuePredictionContext, ValuePredictionOutput,
}
use paper_radar.Screening.Validation.{
  Output, reuse_assessment, reuse_output, unless_issues, validate_output, value_output,
  value_prediction,
}
use paper_radar.Screening.Validation.Accepted.{
  IsAcceptableReuse, IsAcceptableValue, reuse_assessment_business_issues-nil_iff,
  value_prediction_business_issues-nil_iff,
}

unless_issues_iff :
    (issues : List OutputValidationIssue) (output o : Output)
    → (unless_issues issues output ≡ ok o) ↔ ((issues ≡ []) × (output ≡ o))
unless_issues_iff [] output o = (λ h. (refl, ok_injective h), λ h. ap ok h.1)
unless_issues_iff (i ∷ issues) output o = (λ h. cc, λ h. cc)

module _ {Value : Type 0} (ops : TextOps) (lib : Library Value) (payload : Payload Value)
    (given : Context Value) where
  -- A value prediction is returned exactly when its context and its payload are valid and the output
  -- meets the business rules in this context.
  pub validate_output-value_iff :
      (o : ValuePredictionOutput)
      → (validate_output ops lib (some value_prediction) payload given ≡ ok (value_output o)) ↔ (
          (context : ValuePredictionContext) × (validate_value_context lib given ≡ ok context)
          × (validate_model lib lib.value_model payload ≡ ok o)
          × IsAcceptableValue ops context o)
  unfolding validate_output
  validate_output-value_iff o = (
    (λ h.
        let (context, c, h₁) = >>=-eq-ok (validate_value_context lib given) _ h in
        let (output, p, h₂) = >>=-eq-ok (validate_model lib lib.value_model payload) _ h₁ in
        let (clear, same) = (unless_issues_iff _ _ _).0 h₂ in
        let equal : output ≡ o = cc in
        (
          context,
          c,
          p ∙ ap ok equal,
          subst (IsAcceptableValue ops context) equal
              ((value_prediction_business_issues-nil_iff ops output context).0 clear),
        )),
    (λ (context, c, p, a).
        rw (c, p)
          ((unless_issues_iff _ _ _).1
            ((value_prediction_business_issues-nil_iff ops o context).1 a, refl))),
  )

  -- A reuse assessment is returned exactly when its context and its payload are valid and the output
  -- meets the business rules in this context.
  pub validate_output-reuse_iff :
      (o : ReuseAssessmentOutput)
      → (validate_output ops lib (some reuse_assessment) payload given ≡ ok (reuse_output o)) ↔ (
          (context : ReuseAssessmentContext) × (validate_reuse_context lib given ≡ ok context)
          × (validate_model lib lib.reuse_model payload ≡ ok o)
          × IsAcceptableReuse ops context o)
  unfolding validate_output
  validate_output-reuse_iff o = (
    (λ h.
        let (context, c, h₁) = >>=-eq-ok (validate_reuse_context lib given) _ h in
        let (output, p, h₂) = >>=-eq-ok (validate_model lib lib.reuse_model payload) _ h₁ in
        let (clear, same) = (unless_issues_iff _ _ _).0 h₂ in
        let equal : output ≡ o = cc in
        (
          context,
          c,
          p ∙ ap ok equal,
          subst (IsAcceptableReuse ops context) equal
              ((reuse_assessment_business_issues-nil_iff ops output context).0 clear),
        )),
    (λ (context, c, p, a).
        rw (c, p)
          ((unless_issues_iff _ _ _).1
            ((reuse_assessment_business_issues-nil_iff ops o context).1 a, refl))),
  )
