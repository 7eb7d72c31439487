-- ===== src/Screening/Reasons.antt =====
-- screening/reasons.py: which combinations of result, source and reason are legal, and what kind of
-- record each source makes. A frozen set of sources is a list in the order of its sorted values.
use paper_radar.Prelude.{
  Bool, List, Option, [], any, false, if◌then◌else◌, none, not, some, true, when, ℕ, ◌&&◌, ◌++◌,
  ◌==◌, ◌∷◌,
}
pub mod Combinations

pub data ScreeningResult : Type 0 where
  accepted pending denied : ScreeningResult

pub data ScreeningSource : Type 0 where
  suggestion_rule blind_calibration regular_review direct_manual_decision : ScreeningSource
  metadata_abandonment manual_read_request : ScreeningSource
  fixed_calibration_member_projection failure_queue_projection : ScreeningSource

pub data DecisionReason : Type 0 where
  high_research_value research_and_reuse out_of_scope boundary_uncertain : DecisionReason
  value_reuse_conflict reuse_unknown reuse_escalation_unavailable low_value : DecisionReason
  low_reuse_feasibility user_judgment unclear_from_available_input : DecisionReason
  defer_judgment outside_current_focus insufficient_metadata : DecisionReason
  manual_read_request model_failure : DecisionReason

pub record DecisionReasonDefinition : Type 0 where
  pub result : ScreeningResult
  pub sources : List ScreeningSource

abbrev suggestion_sources : List ScreeningSource
suggestion_sources = suggestion_rule ∷ []

abbrev general_human_judgment_sources : List ScreeningSource
general_human_judgment_sources = blind_calibration ∷ direct_manual_decision ∷ regular_review ∷ []

abbrev defined_as : ScreeningResult → List ScreeningSource → DecisionReasonDefinition
defined_as result sources = record { result = result; sources = sources }

-- `DECISION_REASON_DEFINITIONS[reason]`
unfoldable pub definition_of : DecisionReason → DecisionReasonDefinition
definition_of high_research_value = defined_as accepted suggestion_sources
definition_of research_and_reuse = defined_as accepted suggestion_sources
definition_of out_of_scope =
    defined_as denied (general_human_judgment_sources ++ suggestion_sources)
definition_of boundary_uncertain = defined_as pending suggestion_sources
definition_of value_reuse_conflict = defined_as pending suggestion_sources
definition_of reuse_unknown = defined_as pending suggestion_sources
definition_of reuse_escalation_unavailable = defined_as pending suggestion_sources
definition_of low_value = defined_as denied (general_human_judgment_sources ++ suggestion_sources)
definition_of low_reuse_feasibility =
    defined_as denied (general_human_judgment_sources ++ suggestion_sources)
definition_of user_judgment = defined_as accepted general_human_judgment_sources
definition_of unclear_from_available_input = defined_as pending general_human_judgment_sources
definition_of defer_judgment = defined_as pending general_human_judgment_sources
definition_of outside_current_focus = defined_as pending general_human_judgment_sources
definition_of insufficient_metadata = defined_as denied (metadata_abandonment ∷ [])
definition_of DecisionReason.manual_read_request =
    defined_as accepted (ScreeningSource.manual_read_request ∷ [])
definition_of model_failure =
    defined_as pending (failure_queue_projection ∷ fixed_calibration_member_projection ∷ [])

unfoldable pub result_eq : ScreeningResult → ScreeningResult → Bool
result_eq accepted accepted = true
result_eq pending pending = true
result_eq denied denied = true
result_eq _ _ = false

unfoldable pub source_eq : ScreeningSource → ScreeningSource → Bool
source_eq suggestion_rule suggestion_rule = true
source_eq blind_calibration blind_calibration = true
source_eq regular_review regular_review = true
source_eq direct_manual_decision direct_manual_decision = true
source_eq metadata_abandonment metadata_abandonment = true
source_eq ScreeningSource.manual_read_request ScreeningSource.manual_read_request = true
source_eq fixed_calibration_member_projection fixed_calibration_member_projection = true
source_eq failure_queue_projection failure_queue_projection = true
source_eq _ _ = false

pub record ScreeningReasonInput : Type 0 where
  pub result : ScreeningResult
  pub source : ScreeningSource
  pub reason : DecisionReason

pub data CombinationField : Type 0 where
  result_field source_field : CombinationField

unfoldable pub invalid_combination_fields : ScreeningReasonInput → List CombinationField
unfolding definition_of result_eq source_eq
invalid_combination_fields i =
    let definition = definition_of i.reason in
    when (not (result_eq i.result definition.result)) result_field
    ++ when (not (any (source_eq i.source) definition.sources)) source_field

-- The classes `ScreeningSuggestion`, `ScreeningDecision` and `ScreeningFailureProjection`.
pub data RecordKind : Type 0 where
  suggestion decision failure_projection : RecordKind

unfoldable pub identity_model : ScreeningSource → RecordKind
identity_model suggestion_rule = suggestion
identity_model blind_calibration = decision
identity_model regular_review = decision
identity_model direct_manual_decision = decision
identity_model metadata_abandonment = decision
identity_model ScreeningSource.manual_read_request = decision
identity_model fixed_calibration_member_projection = failure_projection
identity_model failure_queue_projection = failure_projection

abbrev all_decision_reasons : List DecisionReason
all_decision_reasons =
    high_research_value ∷ research_and_reuse ∷ out_of_scope ∷ boundary_uncertain
    ∷ value_reuse_conflict ∷ reuse_unknown ∷ reuse_escalation_unavailable ∷ low_value
    ∷ low_reuse_feasibility ∷ user_judgment ∷ unclear_from_available_input ∷ defer_judgment
    ∷ outside_current_focus ∷ insufficient_metadata ∷ DecisionReason.manual_read_request
    ∷ model_failure ∷ []

-- The position of a reason in the declaration, by which reasons are compared.
reason_position : DecisionReason → ℕ
reason_position high_research_value = 0
reason_position research_and_reuse = 1
reason_position out_of_scope = 2
reason_position boundary_uncertain = 3
reason_position value_reuse_conflict = 4
reason_position reuse_unknown = 5
reason_position reuse_escalation_unavailable = 6
reason_position low_value = 7
reason_position low_reuse_feasibility = 8
reason_position user_judgment = 9
reason_position unclear_from_available_input = 10
reason_position defer_judgment = 11
reason_position outside_current_focus = 12
reason_position insufficient_metadata = 13
reason_position DecisionReason.manual_read_request = 14
reason_position model_failure = 15

abbrev pub Combination : Type 0
Combination = ScreeningReasonInput × RecordKind

-- `_COMBINATION_MODELS`: a model for each legal triple, with the class of its source.
combinations_of : DecisionReason → List ScreeningSource → List Combination
unfolding definition_of identity_model
combinations_of reason [] = []
combinations_of reason (source ∷ sources) =
    (
      record { result = (definition_of reason).result; source = source; reason = reason },
      identity_model source,
    )
    ∷ combinations_of reason sources

combinations_for : List DecisionReason → List Combination
unfolding definition_of combinations_of
combinations_for [] = []
combinations_for (reason ∷ reasons) =
    combinations_of reason (definition_of reason).sources ++ combinations_for reasons

combination_models : List Combination
unfolding combinations_for
combination_models = combinations_for all_decision_reasons

-- The model whose three literals are those of the input accepts it; no other does.
find_model : ScreeningReasonInput → List Combination → Option RecordKind
unfolding result_eq source_eq reason_position
find_model i [] = none
find_model i ((literal, kind) ∷ models) =
    let rest = find_model i models in
    if result_eq i.result literal.result
      && source_eq i.source literal.source
      && (reason_position i.reason == reason_position literal.reason)
    then some kind
    else rest

-- `none` is the validation error of the union of the combination models.
unfoldable pub build_screening_reason : ScreeningReasonInput → Option RecordKind
unfolding find_model combination_models
build_screening_reason i = find_model i combination_models
