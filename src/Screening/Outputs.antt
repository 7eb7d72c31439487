-- ===== src/Screening/Outputs.antt =====
-- screening/schema.py, context.py, excerpt_kinds.py, value_types.py and errors.py, with the text lists of
-- text.py: the outputs of a model, what they are checked against, and the issues of a check.
use paper_radar.Prelude.{Bool, List, Option, String, [], false, true, ℕ, ◌==◌, ◌∷◌}

-- Python's operations on texts: `strip`, `casefold` and `part in text`.
pub record TextOps : Type 0 where
  pub strip : String → String
  pub casefold : String → String
  pub has_part : String → String → Bool

-- `EXPLICIT_PLACEHOLDER_TEXTS`
abbrev pub placeholder_texts : List String
placeholder_texts =
    "无" ∷ "暂无" ∷ "未知" ∷ "待定" ∷ "待补充" ∷ "稍后补充" ∷ "占位" ∷ "无内容" ∷ "不详" ∷ "-" ∷ "--" ∷ "..." ∷ "…"
    ∷ "n/a" ∷ "na" ∷ "tbd" ∷ "todo" ∷ "placeholder" ∷ []

-- `INSUFFICIENT_INPUT_MARKERS`
abbrev pub insufficient_input_markers : List String
insufficient_input_markers =
    "当前输入不足" ∷ "信息不足" ∷ "摘要未说明" ∷ "摘要未提供" ∷ "摘要未披露" ∷ "仅凭摘要无法判断" ∷ "无法从摘要判断"
    ∷ "insufficient information" ∷ "not reported in the abstract" ∷ "not provided in the abstract"
    ∷ "not disclosed in the abstract" ∷ "unclear from the abstract" ∷ []

pub data OutputErrorCategory : Type 0 where
  unknown_kind invalid_json missing_field extra_field invalid_type : OutputErrorCategory
  invalid_enum invalid_text missing_context context_mismatch business_rule : OutputErrorCategory

-- A step of a location, after its first `$`: `.name`, `[index]`, or the text that stands for a field
-- which the model does not have.
pub data Step : Type 0 where
  named : String → Step
  nth : ℕ → Step
  extra_name : Step

abbrev pub Location : Type 0
Location = List Step

abbrev pub at_root : Location
at_root = []

abbrev pub at_field : String → Location
at_field name = named name ∷ []

abbrev pub at_item : String → ℕ → Location
at_item name index = named name ∷ nth index ∷ []

pub record OutputValidationIssue : Type 0 where
  pub location : Location
  pub category : OutputErrorCategory

abbrev pub issue : Location → OutputErrorCategory → OutputValidationIssue
issue location category = record { location = location; category = category }

pub data ValueType : Type 0 where
  method data_value code_tool theory_mechanism evidence_conclusion : ValueType
  question_hypothesis review_knowledge_map : ValueType

abbrev value_type_no : ValueType → ℕ
value_type_no method = 0
value_type_no data_value = 1
value_type_no code_tool = 2
value_type_no theory_mechanism = 3
value_type_no evidence_conclusion = 4
value_type_no question_hypothesis = 5
value_type_no review_knowledge_map = 6

abbrev pub value_type_eq : ValueType → ValueType → Bool
value_type_eq a b = value_type_no a == value_type_no b

pub data ExcerptKind : Type 0 where
  availability methods both_kinds : ExcerptKind

abbrev excerpt_kind_no : ExcerptKind → ℕ
excerpt_kind_no availability = 0
excerpt_kind_no methods = 1
excerpt_kind_no both_kinds = 2

abbrev pub excerpt_kind_eq : ExcerptKind → ExcerptKind → Bool
excerpt_kind_eq a b = excerpt_kind_no a == excerpt_kind_no b

abbrev pub is_both : ExcerptKind → Bool
is_both both_kinds = true
is_both _ = false

pub data Boundary : Type 0 where
  in_scope out_of_scope uncertain : Boundary

pub record BoundaryOutput : Type 0 where
  pub boundary : Boundary
  pub reason_zh : String

pub record ValuePredictionOutput : Type 0 where
  pub research_value : ℕ
  pub research_value_reason_zh : String
  pub reuse_feasibility : ℕ
  pub reuse_feasibility_reason_zh : String
  pub reuse_feasibility_inferable : Bool
  pub value_types : List ValueType
  pub topic_ids : List String
  pub display_title_zh : Option String
  pub abstract_brief_zh : String
  pub why_it_may_matter_zh : String

pub record ReuseAssessmentOutput : Type 0 where
  pub reuse_feasibility : ℕ
  pub reuse_feasibility_reason_zh : String
  pub required_adaptations : List String
  pub excerpt_kind : ExcerptKind
  pub excerpt_ids : List String

pub record ValuePredictionContext : Type 0 where
  pub enabled_topic_ids : List String
  pub original_title_is_zh : Bool

pub record ReuseAssessmentContext : Type 0 where
  pub excerpt_kinds : List (String × ExcerptKind)
