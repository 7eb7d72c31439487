-- ===== src/Metadata.antt =====
-- feed_metadata/projection.py, with `MetadataFacts.from_result` of eligibility/models.py: what the
-- acquired metadata of a paper's version lacks. Of requests, routes and views, only the fields that
-- the projection reads are kept.
pub mod Routes
pub mod Ready
mod Tests
use paper_radar.Prelude.{
  Bool, List, Option, String, [], all, any, false, if◌then◌else◌, is_nil, is_none, is_some, map,
  none, not, some, str_eq, when, ◌&&◌, ◌++◌, ◌||◌, ◌∷◌,
}
use paper_radar.Prelude.Int.{ℤ}
use paper_radar.Prelude.Text.{opt_eq, opt_is, opt_is_empty}
use paper_radar.Prelude.Results.{Result, ok, problem}
use paper_radar.Sources.{
  Route, SourceReason, doi_ra, is_acquired, is_unsupported, publisher, registry_crossref,
  registry_datacite, route_eq,
}
use paper_radar.Eligibility.Models.{
  MetadataFacts, MetadataMissing, current_version_changed, no_abstract, no_source_url, no_title,
  routes_incomplete, unknown_truncation,
}

pub data RegistryApplicability : Type 0 where
  unknown_agency unsupported_agency applicable without_doi : RegistryApplicability

-- Of the values a field can have, those that the projection tells apart.
pub data FieldValue : Type 0 where
  text_value : String → FieldValue
  abstract_value : Option Bool → FieldValue
  other_value : FieldValue

pub record MetadataBasis : Type 0 where
  pub paper_id : String
  pub version_id : String
  pub doi : Option String

pub record MetadataRoute : Type 0 where
  pub route : Route
  pub reason : SourceReason
  pub agency : Option String
  pub committed : Bool

-- `PaperView` or `RevisionView`; a field is what the dictionary has under its name.
pub record View : Type 0 where
  pub version_id : String
  pub doi : Option String
  pub revision_no : ℤ
  pub title : Option FieldValue
  pub abstract_field : Option FieldValue
  pub source_url : Option FieldValue

pub record MetadataResult : Type 0 where
  pub request_key : String
  pub paper_id : String
  pub version_id : String
  pub revision_no : ℤ
  pub title : Option String
  pub abstract_present : Bool
  pub suspected_truncated : Option Bool
  pub source_url : Option String
  pub current_version : Bool
  pub routes : List MetadataRoute
  pub routes_settled : Bool
  pub registry_applicability : RegistryApplicability
  pub minimum_complete : Bool
  pub nontruncated_complete : Bool
  pub missing : List MetadataMissing

-- `PaperReason.CORRUPT_REFERENCE`
pub data Corrupt : Type 0 where
  corrupt : Corrupt

-- `next((value for value in route_views if value.route == "doi_ra"), None)`
abbrev pub find_route : Route → List MetadataRoute → Option MetadataRoute
find_route r [] = none
find_route r (value ∷ values) =
    let later = find_route r values in if route_eq value.route r then some value else later

abbrev pub is_registered : Option String → Bool
is_registered agency = opt_is agency "Crossref" || opt_is agency "DataCite"

abbrev pub applicability_of : Option MetadataRoute → RegistryApplicability
applicability_of none = unknown_agency
applicability_of (some routing) =
    if is_acquired routing.reason && is_registered routing.agency
    then applicable
    else if is_unsupported routing.reason
    then unsupported_agency
    else unknown_agency

unfoldable pub registry_applicability_of :
    MetadataBasis → Option MetadataRoute → RegistryApplicability
registry_applicability_of basis routing =
    if is_none basis.doi then without_doi else applicability_of routing

abbrev pub registry_of : Option MetadataRoute → List Route
registry_of none = []
registry_of (some routing) =
    if opt_is routing.agency "Crossref" then registry_crossref ∷ [] else registry_datacite ∷ []

-- The routes that the paper must have.
unfoldable pub expected_routes :
    MetadataBasis → Option MetadataRoute → RegistryApplicability → List Route
expected_routes basis routing applicability =
    (if opt_is_empty basis.doi then [] else doi_ra ∷ publisher ∷ [])
    ++ elim applicability [ applicable ↦ registry_of routing | _ ↦ [] ]

abbrev pub has_route : List Route → Route → Bool
has_route routes r = any (route_eq r) routes

-- `expected == {value.route for value in route_views}`
unfoldable pub same_routes : List Route → List MetadataRoute → Bool
same_routes expected values =
    all (has_route (map (λ (v : MetadataRoute). v.route) values)) expected
    && all (λ (v : MetadataRoute). has_route expected v.route) values

abbrev pub truncation_of : Option FieldValue → Option (Option Bool)
truncation_of (some (abstract_value truncated)) = some truncated
truncation_of _ = none

abbrev pub text_field : Option FieldValue → Option String
text_field (some (text_value t)) = some t
text_field _ = none

abbrev pub abstract_missing : Option (Option Bool) → List MetadataMissing
abstract_missing none = no_abstract ∷ []
abstract_missing (some none) = unknown_truncation ∷ []
abstract_missing (some (some truncated)) = []

abbrev pub agency_missing : RegistryApplicability → List MetadataMissing
agency_missing unknown_agency = MetadataMissing.agency_unknown ∷ []
agency_missing unsupported_agency = MetadataMissing.agency_unsupported ∷ []
agency_missing _ = []

-- What is missing, in the order in which the source appends it.
unfoldable pub missing_of : Bool → View → Bool → RegistryApplicability → List MetadataMissing
missing_of current_one revision settled applicability =
    when (not current_one) current_version_changed
    ++ when (is_none revision.title) no_title
    ++ abstract_missing (truncation_of revision.abstract_field)
    ++ when (is_none revision.source_url) no_source_url
    ++ when (not settled) routes_incomplete
    ++ agency_missing applicability

abbrev pub is_current_view : MetadataBasis → View → Bool
is_current_view basis latest =
    str_eq latest.version_id basis.version_id && opt_eq latest.doi basis.doi

abbrev pub known_truncation : Option (Option Bool) → Option Bool
known_truncation none = none
known_truncation (some truncated) = truncated

abbrev pub is_whole : Option Bool → Bool
is_whole (some truncated) = not truncated
is_whole none = false

-- The result, from what has been found of the routes.
unfoldable pub result_of :
    String
    → MetadataBasis
    → View
    → View
    → List MetadataRoute
    → Bool
    → RegistryApplicability
    → MetadataResult
result_of request_key basis revision latest values settled applicability =
    let missing = missing_of (is_current_view basis latest) revision settled applicability in
    let truncation = truncation_of revision.abstract_field in
    record {
      request_key = request_key;
      paper_id = basis.paper_id;
      version_id = basis.version_id;
      revision_no = revision.revision_no;
      title = text_field revision.title;
      abstract_present = is_some truncation;
      suspected_truncated = known_truncation truncation;
      source_url = text_field revision.source_url;
      current_version = is_current_view basis latest;
      routes = values;
      routes_settled = settled;
      registry_applicability = applicability;
      minimum_complete = is_nil missing;
      nontruncated_complete = is_nil missing && is_whole (known_truncation truncation);
      missing = missing;
    }

abbrev pub all_committed : List MetadataRoute → Bool
all_committed values = all (λ (v : MetadataRoute). v.committed) values

-- `project_metadata`
unfoldable pub project_metadata :
    String
    → MetadataBasis
    → View
    → View
    → List MetadataRoute
    → Option ℤ
    → Result Corrupt MetadataResult
project_metadata request_key basis revision latest values revision_no =
    let routing = find_route doi_ra values in
    let applicability = registry_applicability_of basis routing in
    let agreed =
      same_routes (expected_routes basis routing applicability) values && all_committed values in
    if is_some revision_no && not agreed
    then problem corrupt
    else ok (
        result_of request_key basis revision latest values (is_some revision_no && agreed)
          applicability)

-- `MetadataFacts.from_result`
abbrev pub from_result : MetadataResult → MetadataFacts
from_result r = record {
  paper_id = r.paper_id;
  version_id = r.version_id;
  revision_no = r.revision_no;
  minimum_complete = r.minimum_complete;
  nontruncated_complete = r.nontruncated_complete;
  current_version = r.current_version;
  missing = r.missing;
}
