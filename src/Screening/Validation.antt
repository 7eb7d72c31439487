-- ===== src/Screening/Validation.antt =====
-- screening/validation.py, with kinds.py and the rules of text.py: the business rules on a model's
-- output, and the order of the checks.
pub mod Items
pub mod Accepted
pub mod Outcome
use paper_radar.Prelude.{
  Bool, List, Option, String, [], any, false, if◌then◌else◌, is_nil, leb, none, not, some, str_eq,
  true, when, ℕ, ◌&&◌, ◌++◌, ◌+◌, ◌||◌, ◌∷◌,
}
use paper_radar.Prelude.Text.{is_empty}
use paper_radar.Prelude.Results.{ok, problem, raise_if, ◌>>=◌, ◌>>◌}
use paper_radar.Screening.Loading.{
  Context, Library, Payload, Validated, refuses_context, validate_model, validate_reuse_context,
  validate_value_context,
}
use paper_radar.Screening.Outputs.{
  BoundaryOutput, ExcerptKind, OutputValidationIssue, ReuseAssessmentContext, ReuseAssessmentOutput,
  TextOps, ValuePredictionContext, ValuePredictionOutput, at_field, at_item, availability,
  both_kinds, business_rule, context_mismatch, excerpt_kind_eq, insufficient_input_markers,
  invalid_text, is_both, issue, methods, placeholder_texts, unknown_kind, value_type_eq,
}

-- `context.excerpt_kinds` at a key.
unfoldable pub get_kind : String → List (String × ExcerptKind) → Option ExcerptKind
get_kind key [] = none
get_kind key ((name, kind) ∷ rest) =
    let later = get_kind key rest in if str_eq name key then some kind else later

-- The loop over a list whose items must be new and must not be refused, from an index and what has
-- been seen.
unfoldable pub item_issues :
    {A : Type 0}
    → (A → A → Bool)
    → (A → Bool)
    → String
    → ℕ
    → List A
    → List A
    → List OutputValidationIssue
item_issues eq refuses field index seen [] = []
item_issues eq refuses field index seen (x ∷ xs) =
    when (any (eq x) seen || refuses x) (issue (at_item field index) business_rule)
    ++ item_issues eq refuses field (index + 1) (x ∷ seen) xs

-- What the loop over the excerpts has found.
pub record ExcerptScan : Type 0 where
  pub issues : List OutputValidationIssue
  pub has_unknown_excerpt : Bool
  pub referenced_kinds : List ExcerptKind

abbrev pub add_issue : ℕ → ExcerptScan → ExcerptScan
add_issue index r = record r {
  issues = issue (at_item "excerpt_ids" index) business_rule ∷ r.issues;
}

abbrev pub add_known : ℕ → Option ExcerptKind → ExcerptScan → ExcerptScan
add_known index none r = record (add_issue index r) { has_unknown_excerpt = true }
add_known index (some kind) r = record r { referenced_kinds = kind ∷ r.referenced_kinds }

unfoldable pub scan_excerpts :
    List (String × ExcerptKind) → ℕ → List String → List String → ExcerptScan
scan_excerpts kinds index seen [] = record {
  issues = [];
  has_unknown_excerpt = false;
  referenced_kinds = [];
}
scan_excerpts kinds index seen (x ∷ xs) =
    let again = scan_excerpts kinds (index + 1) seen xs in
    let later = scan_excerpts kinds (index + 1) (x ∷ seen) xs in
    if any (str_eq x) seen then add_issue index again else add_known index (get_kind x kinds) later

abbrev pub has_kind : ExcerptKind → List ExcerptKind → Bool
has_kind kind kinds = any (excerpt_kind_eq kind) kinds

-- `referenced_kinds != expected_kinds`
unfoldable pub differs_from_both : List ExcerptKind → Bool
differs_from_both kinds =
    not (has_kind availability kinds && has_kind methods kinds && not (has_kind both_kinds kinds))

unfoldable pub kind_mismatch : ExcerptKind → ExcerptScan → Bool
kind_mismatch declared r =
    if is_both declared
    then not r.has_unknown_excerpt && differs_from_both r.referenced_kinds
    else any (λ kind. not (excerpt_kind_eq kind declared)) r.referenced_kinds

module _ (ops : TextOps) where
  unfoldable pub is_meaningful_text : String → Bool
  is_meaningful_text value =
      let comparison_value = ops.casefold (ops.strip value) in
      not (is_empty comparison_value) && not (any (str_eq comparison_value) placeholder_texts)

  unfoldable pub states_input_is_insufficient : String → Bool
  states_input_is_insufficient value =
      any (λ marker. ops.has_part marker (ops.casefold value)) insufficient_input_markers

  abbrev pub text_issues : String → String → List OutputValidationIssue
  text_issues field value =
      when (not (is_meaningful_text value)) (issue (at_field field) invalid_text)

  unfoldable pub title_issues : Option String → Bool → List OutputValidationIssue
  title_issues none is_zh = []
  title_issues (some title) is_zh =
      if is_zh
      then issue (at_field "display_title_zh") context_mismatch ∷ []
      else text_issues "display_title_zh" title

  -- `_value_prediction_business_issues`
  unfoldable pub value_prediction_business_issues :
      ValuePredictionOutput → ValuePredictionContext → List OutputValidationIssue
  value_prediction_business_issues output context =
      text_issues "research_value_reason_zh" output.research_value_reason_zh
      ++ text_issues "reuse_feasibility_reason_zh" output.reuse_feasibility_reason_zh
      ++ text_issues "abstract_brief_zh" output.abstract_brief_zh
      ++ text_issues "why_it_may_matter_zh" output.why_it_may_matter_zh
      ++ title_issues output.display_title_zh context.original_title_is_zh
      ++ when
          (not output.reuse_feasibility_inferable
            && is_meaningful_text output.reuse_feasibility_reason_zh
            && not (states_input_is_insufficient output.reuse_feasibility_reason_zh))
          (issue (at_field "reuse_feasibility_reason_zh") business_rule)
      ++ when (leb 3 output.research_value && is_nil output.value_types)
          (issue (at_field "value_types") business_rule)
      ++ item_issues value_type_eq (λ t. false) "value_types" 0 [] output.value_types
      ++ item_issues str_eq (λ t. not (any (str_eq t) context.enabled_topic_ids)) "topic_ids" 0 []
          output.topic_ids

  unfoldable pub adaptation_issues : ℕ → List String → List OutputValidationIssue
  adaptation_issues index [] = []
  adaptation_issues index (x ∷ xs) =
      when (not (is_meaningful_text x)) (issue (at_item "required_adaptations" index) invalid_text)
      ++ adaptation_issues (index + 1) xs

  unfoldable pub excerpt_issues :
      ExcerptKind → List (String × ExcerptKind) → List String → List OutputValidationIssue
  excerpt_issues declared kinds [] = issue (at_field "excerpt_ids") business_rule ∷ []
  excerpt_issues declared kinds (x ∷ xs) =
      let scan = scan_excerpts kinds 0 [] (x ∷ xs) in
      scan.issues
      ++ when (kind_mismatch declared scan) (issue (at_field "excerpt_kind") business_rule)

  -- `_reuse_assessment_business_issues`
  unfoldable pub reuse_assessment_business_issues :
      ReuseAssessmentOutput → ReuseAssessmentContext → List OutputValidationIssue
  reuse_assessment_business_issues output context =
      text_issues "reuse_feasibility_reason_zh" output.reuse_feasibility_reason_zh
      ++ adaptation_issues 0 output.required_adaptations
      ++ excerpt_issues output.excerpt_kind context.excerpt_kinds output.excerpt_ids

pub data OutputKind : Type 0 where
  boundary_kind value_prediction reuse_assessment : OutputKind

pub data Output : Type 0 where
  boundary_output : BoundaryOutput → Output
  value_output : ValuePredictionOutput → Output
  reuse_output : ReuseAssessmentOutput → Output

abbrev pub unless_issues : List OutputValidationIssue → Output → Validated Output
unless_issues issues output = if is_nil issues then ok output else problem issues

-- `validate_output`; a kind that is not registered is absent.
unfoldable pub validate_output :
    {Value : Type 0}
    → TextOps
    → Library Value
    → Option OutputKind
    → Payload Value
    → Context Value
    → Validated Output
validate_output ops lib none payload context = problem (issue (at_field "kind") unknown_kind ∷ [])
validate_output ops lib (some value_prediction) payload context = do
  value_context ← validate_value_context lib context
  output ← validate_model lib lib.value_model payload
  unless_issues (value_prediction_business_issues ops output value_context) (value_output output)
validate_output ops lib (some reuse_assessment) payload context = do
  reuse_context ← validate_reuse_context lib context
  output ← validate_model lib lib.reuse_model payload
  unless_issues (reuse_assessment_business_issues ops output reuse_context) (reuse_output output)
validate_output ops lib (some boundary_kind) payload context = do
  raise_if (refuses_context lib context) (issue (at_field "context") context_mismatch ∷ [])
  output ← validate_model lib lib.boundary_model payload
  raise_if (not (is_meaningful_text ops output.reason_zh))
      (issue (at_field "reason_zh") invalid_text ∷ [])
  ok (boundary_output output)
