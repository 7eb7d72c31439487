-- ===== src/Screening/Tests.antt =====
-- screening/validation.py: accepted outputs, and some that are refused.
use paper_radar.Prelude.{List, [], false, none, not, refl, some, str_eq, true, ◌↔◌, ◌∷◌, ◌≡◌}
use paper_radar.Prelude.Results.{Result, ok, problem}
use paper_radar.Screening.Loading.{
  ErrorDetail, Json, Library, absent_context, at_index, at_name, category_for_pydantic_error,
  hooks_accept, is_json_unicode, issues_from_pydantic, json_null, json_number, json_object,
  load_text, no_pairs, object_context, object_payload, pair, safe_location, text_payload,
  validate_loaded, validate_mapping, validate_model, validate_reuse_context, validate_value_context,
  value_instance,
}
use paper_radar.Screening.Outputs.{
  ReuseAssessmentContext, ReuseAssessmentOutput, TextOps, ValuePredictionContext,
  ValuePredictionOutput, at_field, at_item, at_root, availability, both_kinds, business_rule,
  code_tool, context_mismatch, extra_name, invalid_json, invalid_text, issue, method, methods,
  missing_context, missing_field, named, nth,
}
use paper_radar.Screening.Validation.{
  adaptation_issues, differs_from_both, excerpt_issues, get_kind, is_meaningful_text, item_issues,
  kind_mismatch, reuse_assessment, reuse_assessment_business_issues, reuse_output, scan_excerpts,
  states_input_is_insufficient, title_issues, validate_output, value_output, value_prediction,
  value_prediction_business_issues,
}
use paper_radar.Screening.Validation.Accepted.{IsAcceptableReuse, IsAcceptableValue}
use paper_radar.Screening.Validation.Outcome.{validate_output-reuse_iff, validate_output-value_iff}

abbrev ops : TextOps
ops = record { strip = λ t. t; casefold = λ t. t; has_part = λ marker t. str_eq marker t }

abbrev predicted : ValuePredictionOutput
predicted = record {
  research_value = 4;
  research_value_reason_zh = "a";
  reuse_feasibility = 2;
  reuse_feasibility_reason_zh = "信息不足";
  reuse_feasibility_inferable = false;
  value_types = method ∷ code_tool ∷ [];
  topic_ids = "t1" ∷ [];
  display_title_zh = some "b";
  abstract_brief_zh = "c";
  why_it_may_matter_zh = "d";
}

abbrev assessed : ReuseAssessmentOutput
assessed = record {
  reuse_feasibility = 3;
  reuse_feasibility_reason_zh = "a";
  required_adaptations = "b" ∷ [];
  excerpt_kind = both_kinds;
  excerpt_ids = "e1" ∷ "e2" ∷ [];
}

abbrev value_given : ValuePredictionContext
value_given = record { enabled_topic_ids = "t1" ∷ "t2" ∷ []; original_title_is_zh = false }

abbrev reuse_given : ReuseAssessmentContext
reuse_given = record { excerpt_kinds = ("e1", methods) ∷ ("e2", availability) ∷ [] }

-- A library where a value is the data that was loaded, and each model accepts one value.
abbrev accept {ℓ} : {M : Type ℓ} → M → Json → Result (List ErrorDetail) M
accept m (json_number n) = ok m
accept m other = problem (
    record {
      error_type = "missing";
      has_text_input = false;
      loc = at_name "topic_ids" ∷ at_index 2 ∷ at_name "new" ∷ [];
    }
    ∷ [])

abbrev refuse {ℓ} : {M : Type ℓ} → Json → Result (List ErrorDetail) M
refuse value = problem (record { error_type = "int_type"; has_text_input = false; loc = [] } ∷ [])

abbrev library : Library Json
library = record {
  decode_utf8 = λ bytes. none;
  encodes_utf8 = λ text. not (str_eq text "bad");
  read_json = λ text. elim (str_eq text "twice") [
    | true ↦ some (json_object (pair "a" json_null (pair "a" json_null no_pairs)))
    | false ↦ some (json_number text)
  ];
  object_of = λ value. value;
  as_dict = λ value. some value;
  has_items = λ value. true;
  boundary_model = record { known_fields = "reason_zh" ∷ []; model_validate = refuse };
  value_model = record { known_fields = "topic_ids" ∷ []; model_validate = accept predicted };
  reuse_model = record { known_fields = []; model_validate = accept assessed };
  value_context_model = record { known_fields = []; model_validate = accept value_given };
  reuse_context_model = record { known_fields = []; model_validate = accept reuse_given };
}

-- A key that is written twice, and a field that is missing.
refuses_twice :
    validate_model library library.value_model (text_payload "twice")
    ≡ problem (issue at_root invalid_json ∷ [])
unfolding validate_model validate_loaded load_text hooks_accept
refuses_twice = refl

tells_missing :
    validate_model library library.value_model (object_payload json_null)
    ≡ problem (issue (named "topic_ids" ∷ nth 2 ∷ extra_name ∷ []) missing_field ∷ [])
unfolding validate_model issues_from_pydantic category_for_pydantic_error safe_location
tells_missing = refl

tells_absent :
    validate_output ops library (some value_prediction) (text_payload "1") absent_context
    ≡ problem (issue (at_field "context") missing_context ∷ [])
unfolding validate_output validate_value_context
tells_absent = refl

tells_no_context :
    validate_output ops library
      (some reuse_assessment)
      (text_payload "1")
      (value_instance value_given)
    ≡ problem (issue (at_field "context") context_mismatch ∷ [])
unfolding validate_output validate_reuse_context validate_mapping
tells_no_context = refl

-- A title that is only a placeholder, a repeated value type and a topic that is not enabled.
refuses :
    value_prediction_business_issues ops
      (record predicted {
        display_title_zh = some "todo";
        value_types = method ∷ method ∷ [];
        topic_ids = "t2" ∷ "t3" ∷ [];
      })
      value_given
    ≡ (issue (at_field "display_title_zh") invalid_text
        ∷ issue (at_item "value_types" 1) business_rule
        ∷ issue (at_item "topic_ids" 1) business_rule
        ∷ [])
unfolding value_prediction_business_issues title_issues item_issues is_meaningful_text
    states_input_is_insufficient
refuses = refl

-- An excerpt of one kind only, where both are declared.
refuses_kind :
    reuse_assessment_business_issues ops
      (record assessed { excerpt_ids = "e1" ∷ "e1" ∷ [] })
      reuse_given
    ≡ (issue (at_item "excerpt_ids" 1) business_rule
        ∷ issue (at_field "excerpt_kind") business_rule
        ∷ [])
unfolding reuse_assessment_business_issues adaptation_issues excerpt_issues scan_excerpts get_kind
    kind_mismatch differs_from_both is_meaningful_text
refuses_kind = refl

validate_output-value_iff_example :
    (validate_output ops library
        (some value_prediction)
        (text_payload "1")
        (value_instance value_given)
      ≡ ok (value_output predicted))
    ↔ ((context : ValuePredictionContext) × (validate_value_context library
            (value_instance value_given)
          ≡ ok context)
        × (validate_model library library.value_model (text_payload "1") ≡ ok predicted)
        × IsAcceptableValue ops context predicted)
validate_output-value_iff_example =
    validate_output-value_iff ops library (text_payload "1") (value_instance value_given) predicted

validate_output-reuse_iff_example :
    (validate_output ops library
        (some reuse_assessment)
        (text_payload "1")
        (object_context (json_number "2"))
      ≡ ok (reuse_output assessed))
    ↔ ((context : ReuseAssessmentContext) × (validate_reuse_context library
            (object_context (json_number "2"))
          ≡ ok context)
        × (validate_model library library.reuse_model (text_payload "1") ≡ ok assessed)
        × IsAcceptableReuse ops context assessed)
validate_output-reuse_iff_example =
    validate_output-reuse_iff ops library (text_payload "1") (object_context (json_number "2"))
      assessed

-- The left side of each holds.
accepts_value :
    validate_output ops library
      (some value_prediction)
      (text_payload "1")
      (value_instance value_given)
    ≡ ok (value_output predicted)
unfolding validate_output validate_model validate_loaded load_text hooks_accept is_json_unicode
    validate_value_context value_prediction_business_issues title_issues item_issues
    is_meaningful_text states_input_is_insufficient
accepts_value = refl

accepts_reuse :
    validate_output ops library
      (some reuse_assessment)
      (text_payload "1")
      (object_context (json_number "2"))
    ≡ ok (reuse_output assessed)
unfolding validate_output validate_model validate_loaded load_text hooks_accept is_json_unicode
    validate_reuse_context validate_mapping reuse_assessment_business_issues adaptation_issues
    excerpt_issues scan_excerpts get_kind kind_mismatch differs_from_both is_meaningful_text
accepts_reuse = refl
