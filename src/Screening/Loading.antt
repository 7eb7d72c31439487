-- ===== src/Screening/Loading.antt =====
-- screening/validation.py, `_validate_model` and `_validate_context` with what they call: how a payload
-- and a context are loaded, and the issues of what the validation library refuses. The library, the
-- decoding of bytes and the parsing of a JSON text are given.
use paper_radar.Prelude.{
  Bool, List, Option, String, [], any, false, if◌then◌else◌, map, none, not, some, str_eq, true, ℕ,
  ◌&&◌, ◌++◌, ◌||◌, ◌∷◌,
}
use paper_radar.Prelude.Results.{Result, ok, problem}
use paper_radar.Screening.Outputs.{
  BoundaryOutput, Location, OutputErrorCategory, OutputValidationIssue, ReuseAssessmentContext,
  ReuseAssessmentOutput, Step, ValuePredictionContext, ValuePredictionOutput, at_field, at_root,
  business_rule, context_mismatch, extra_field, extra_name, invalid_enum, invalid_json,
  invalid_type, issue, missing_context, missing_field, named, nth,
}

-- What the parser has read, before the hooks: an object is the pairs that it wrote, in their order, and
-- a number that is not finite is the constant that it wrote.
mutual
  pub data Json : Type 0 where
    json_null : Json
    json_bool : Bool → Json
    json_number : String → Json
    json_constant : String → Json
    json_text : String → Json
    json_list : JsonItems → Json
    json_object : JsonPairs → Json

  pub data JsonItems : Type 0 where
    no_items : JsonItems
    item : Json → JsonItems → JsonItems

  pub data JsonPairs : Type 0 where
    no_pairs : JsonPairs
    pair : String → Json → JsonPairs → JsonPairs

abbrev has_key : String → JsonPairs → Bool
has_key key no_pairs = false
has_key key (pair name value pairs) = str_eq name key || has_key key pairs

-- `_reject_json_constant` and `_unique_json_object`: whether the hooks raise nothing.
unfoldable mutual
  pub hooks_accept : Json → Bool
  hooks_accept json_null = true
  hooks_accept (json_bool b) = true
  hooks_accept (json_number n) = true
  hooks_accept (json_constant c) = false
  hooks_accept (json_text t) = true
  hooks_accept (json_list items) = hooks_accept_items items
  hooks_accept (json_object pairs) = hooks_accept_pairs pairs

  hooks_accept_items : JsonItems → Bool
  hooks_accept_items no_items = true
  hooks_accept_items (item value items) = hooks_accept value && hooks_accept_items items

  hooks_accept_pairs : JsonPairs → Bool
  hooks_accept_pairs no_pairs = true
  hooks_accept_pairs (pair name value pairs) =
      not (has_key name pairs) && hooks_accept value && hooks_accept_pairs pairs

-- `_require_json_unicode`: whether every text and every key can be encoded.
unfoldable mutual
  pub is_json_unicode : (String → Bool) → Json → Bool
  is_json_unicode encodes json_null = true
  is_json_unicode encodes (json_bool b) = true
  is_json_unicode encodes (json_number n) = true
  is_json_unicode encodes (json_constant c) = true
  is_json_unicode encodes (json_text t) = encodes t
  is_json_unicode encodes (json_list items) = is_items_unicode encodes items
  is_json_unicode encodes (json_object pairs) = is_pairs_unicode encodes pairs

  is_items_unicode : (String → Bool) → JsonItems → Bool
  is_items_unicode encodes no_items = true
  is_items_unicode encodes (item value items) =
      is_json_unicode encodes value && is_items_unicode encodes items

  is_pairs_unicode : (String → Bool) → JsonPairs → Bool
  is_pairs_unicode encodes no_pairs = true
  is_pairs_unicode encodes (pair name value pairs) =
      encodes name && is_json_unicode encodes value && is_pairs_unicode encodes pairs

-- A part of the place of an error: an index or a name.
pub data LocationPart : Type 0 where
  at_index : ℕ → LocationPart
  at_name : String → LocationPart

-- An error that the validation library tells of.
pub record ErrorDetail : Type 0 where
  pub error_type : String
  pub has_text_input : Bool
  pub loc : List LocationPart

-- The first of the names that a text is, with its value, or else the last value.
abbrev by_name {ℓ} : {A : Type ℓ} → String → List (String × A) → A → A
by_name name [] other = other
by_name name ((key, value) ∷ rest) other =
    let later = by_name name rest other in if str_eq name key then value else later

-- `_category_for_pydantic_error`
unfoldable pub category_for_pydantic_error : ErrorDetail → OutputErrorCategory
category_for_pydantic_error error =
    by_name error.error_type
      (("json_invalid", invalid_json)
        ∷ ("missing", missing_field)
        ∷ ("extra_forbidden", extra_field)
        ∷ ("literal_error", if error.has_text_input then invalid_enum else invalid_type)
        ∷ ("greater_than_equal", business_rule)
        ∷ ("less_than_equal", business_rule)
        ∷ ("enum", invalid_enum)
        ∷ [])
      invalid_type

abbrev step_of : List String → LocationPart → Step
step_of known (at_index n) = nth n
step_of known (at_name name) = if any (str_eq name) known then named name else extra_name

-- `_safe_location`, below a root.
unfoldable pub safe_location :
    List LocationPart → OutputErrorCategory → List String → Location → Location
safe_location parts extra_field known root = root ++ extra_name ∷ []
safe_location parts category known root = root ++ map (step_of known) parts

-- `_issues_from_pydantic`
unfoldable pub issues_from_pydantic : List String → List ErrorDetail → List OutputValidationIssue
issues_from_pydantic known [] = []
issues_from_pydantic known (detail ∷ details) =
    let category = category_for_pydantic_error detail in
    issue (safe_location detail.loc category known at_root) category
    ∷ issues_from_pydantic known details

abbrev context_category : ErrorDetail → OutputErrorCategory
context_category detail =
    if str_eq detail.error_type "missing" then missing_context else context_mismatch

-- The loop of `_validate_context` over the errors.
unfoldable pub context_issues : List String → List ErrorDetail → List OutputValidationIssue
context_issues known [] = []
context_issues known (detail ∷ details) =
    let category = context_category detail in
    issue (safe_location detail.loc category known (at_field "context")) category
    ∷ context_issues known details

abbrev pub Validated : Type 0 → Type 0
Validated = Result (List OutputValidationIssue)

-- `model.model_validate` of one model, with the names of the fields that the model has.
pub record Model (Value : Type 0) (M : Type 0) : Type 0 where
  pub known_fields : List String
  pub model_validate : Value → Result (List ErrorDetail) M

-- What the code takes of Python and of the validation library.
pub record Library (Value : Type 0) : Type 0 where
  -- `bytes.decode("utf-8")`, absent where it raises.
  pub decode_utf8 : List ℕ → Option String
  -- Whether a text can be encoded in UTF-8.
  pub encodes_utf8 : String → Bool
  -- The reading of a JSON text, absent where it raises.
  pub read_json : String → Option Json
  -- What `json.loads` makes of what has been read.
  pub object_of : Json → Value
  -- `dict(value)` of a mapping, absent for what is none.
  pub as_dict : Value → Option Value
  pub has_items : Value → Bool
  pub boundary_model : Model Value BoundaryOutput
  pub value_model : Model Value ValuePredictionOutput
  pub reuse_model : Model Value ReuseAssessmentOutput
  pub value_context_model : Model Value ValuePredictionContext
  pub reuse_context_model : Model Value ReuseAssessmentContext

pub data Payload (Value : Type 0) : Type 0 where
  text_payload : String → Payload Value
  bytes_payload : List ℕ → Payload Value
  object_payload : Value → Payload Value

-- A context that is given may be an instance of one of the two models.
pub data Context (Value : Type 0) : Type 0 where
  absent_context : Context Value
  value_instance : ValuePredictionContext → Context Value
  reuse_instance : ReuseAssessmentContext → Context Value
  object_context : Value → Context Value

module _ {Value : Type 0} (lib : Library Value) where
  abbrev text_of : Payload Value → Option String
  text_of (text_payload text) = some text
  text_of (bytes_payload bytes) = lib.decode_utf8 bytes
  text_of (object_payload value) = none

  -- What `json.loads` gives with its hooks, after the check of the texts.
  unfoldable pub load_text : Option String → Option Json
  load_text none = none
  load_text (some text) = elim (lib.read_json text) [
    | none ↦ none
    | some json ↦
        if lib.encodes_utf8 text && hooks_accept json && is_json_unicode lib.encodes_utf8 json
        then some json
        else none
  ]

  abbrev from_library : {M : Type 0} → List String → Result (List ErrorDetail) M → Validated M
  from_library known (ok m) = ok m
  from_library known (problem details) = problem (issues_from_pydantic known details)

  unfoldable pub validate_loaded : {M : Type 0} → Model Value M → Option Json → Validated M
  validate_loaded model none = problem (issue at_root invalid_json ∷ [])
  validate_loaded model (some json) =
      from_library model.known_fields (model.model_validate (lib.object_of json))

  abbrev dict_or_self : Value → Option Value → Value
  dict_or_self value none = value
  dict_or_self value (some dict) = dict

  -- `_validate_model`
  unfoldable pub validate_model : {M : Type 0} → Model Value M → Payload Value → Validated M
  validate_model model (object_payload value) =
      from_library model.known_fields
        (model.model_validate (dict_or_self value (lib.as_dict value)))
  validate_model model payload = validate_loaded model (load_text (text_of payload))

  abbrev from_context : {C : Type 0} → List String → Result (List ErrorDetail) C → Validated C
  from_context known (ok c) = ok c
  from_context known (problem details) = problem (context_issues known details)

  -- `_validate_context` of what is neither absent nor an instance of the model.
  unfoldable pub validate_mapping : {C : Type 0} → Model Value C → Option Value → Validated C
  validate_mapping model none = problem (issue (at_field "context") context_mismatch ∷ [])
  validate_mapping model (some dict) = from_context model.known_fields (model.model_validate dict)

  abbrev no_context : {C : Type 0} → Validated C
  no_context = problem (issue (at_field "context") missing_context ∷ [])

  -- `_validate_context(context, ValuePredictionContext, ...)`
  unfoldable pub validate_value_context : Context Value → Validated ValuePredictionContext
  validate_value_context absent_context = no_context
  validate_value_context (value_instance c) = ok c
  validate_value_context (reuse_instance c) = validate_mapping lib.value_context_model none
  validate_value_context (object_context value) =
      validate_mapping lib.value_context_model (lib.as_dict value)

  -- `_validate_context(context, ReuseAssessmentContext, ...)`
  unfoldable pub validate_reuse_context : Context Value → Validated ReuseAssessmentContext
  validate_reuse_context absent_context = no_context
  validate_reuse_context (reuse_instance c) = ok c
  validate_reuse_context (value_instance c) = validate_mapping lib.reuse_context_model none
  validate_reuse_context (object_context value) =
      validate_mapping lib.reuse_context_model (lib.as_dict value)

  -- The test of `validate_output` on the context of a boundary.
  unfoldable pub refuses_context : Context Value → Bool
  refuses_context absent_context = false
  refuses_context (object_context value) = elim (lib.as_dict value) [
    | none ↦ true
    | some dict ↦ lib.has_items dict
  ]
  refuses_context _ = true
