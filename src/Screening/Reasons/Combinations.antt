-- ===== src/Screening/Reasons/Combinations.antt =====
-- screening/reasons.py: the combination models against the definitions they are made from.
use paper_radar.Prelude.{arith, if◌then◌else◌, is_nil, none, some, ◌≡◌}
use paper_radar.Screening.Reasons.{
  DecisionReason, ScreeningReasonInput, ScreeningResult, ScreeningSource, build_screening_reason,
  high_research_value, identity_model, invalid_combination_fields,
}

abbrev triple : DecisionReason → ScreeningSource → ScreeningResult → ScreeningReasonInput
triple reason source result = record { result = result; source = source; reason = reason }

abbrev Agrees : ScreeningReasonInput → Type 0
Agrees i =
    build_screening_reason i
    ≡ (if is_nil (invalid_combination_fields i) then some (identity_model i.source) else none)

triple-Agrees :
    (reason : DecisionReason) (source : ScreeningSource) (result : ScreeningResult)
    → Agrees (triple reason source result)
unfolding build_screening_reason invalid_combination_fields identity_model
triple-Agrees high_research_value source result = ground arith
triple-Agrees _ source result = ground arith

-- A triple has a model exactly when it names no invalid field, and the model's class is the one of
-- its source.
pub build_screening_reason-eq :
    (i : ScreeningReasonInput)
    → build_screening_reason i
      ≡ (if is_nil (invalid_combination_fields i) then some (identity_model i.source) else none)
build_screening_reason-eq i = triple-Agrees i.reason i.source i.result
