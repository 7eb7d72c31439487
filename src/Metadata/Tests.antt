-- ===== src/Metadata/Tests.antt =====
-- feed_metadata/projection.py: a paper with a DOI and all of its metadata.
use paper_radar.Prelude.{
  Bool, List, Option, String, [], false, map, none, refl, some, true, ◌↔◌, ◌∷◌, ◌≡◌,
}
use paper_radar.Prelude.Int.{eqb_ℤ, pos}
use paper_radar.Prelude.Results.{ok, problem}
use paper_radar.Sources.{Route, acquired, doi_ra, publisher, registry_crossref}
use paper_radar.Metadata.{
  MetadataBasis, MetadataResult, MetadataRoute, View, abstract_value, applicable, expected_routes,
  from_result, missing_of, project_metadata, registry_applicability_of, result_of, same_routes,
  text_value,
}
use paper_radar.Metadata.Ready.{IsSufficient, metadata_ready_iff, project_metadata-complete_iff}
use paper_radar.Eligibility.Models.{
  Applicability, ExecutionSource, ExtractionState, GateState, MetadataMissing, PaperProjection,
  Presence, QualityBasis, RootPurpose, metadata_ready, routes_incomplete,
}
use paper_radar.Eligibility.Facts.Clear.{IsCanonical, IsCurrent}
use paper_radar.Eligibility.Rules.Reading.{IsEligible}

abbrev basis : MetadataBasis
basis = record { paper_id = "p1"; version_id = "v1"; doi = some "10.1/a" }

abbrev view : View
view = record {
  version_id = "v1";
  doi = some "10.1/a";
  revision_no = pos 2;
  title = some (text_value "T");
  abstract_field = some (abstract_value (some false));
  source_url = some (text_value "https://a");
}

abbrev taken : Route → Option String → MetadataRoute
taken r agency = record { route = r; reason = acquired; agency = agency; committed = true }

abbrev values : List MetadataRoute
values = taken doi_ra (some "Crossref") ∷ taken registry_crossref none ∷ taken publisher none ∷ []

abbrev projected : MetadataResult
projected = record {
  request_key = "k";
  paper_id = "p1";
  version_id = "v1";
  revision_no = pos 2;
  title = some "T";
  abstract_present = true;
  suspected_truncated = some false;
  source_url = some "https://a";
  current_version = true;
  routes = values;
  routes_settled = true;
  registry_applicability = applicable;
  minimum_complete = true;
  nontruncated_complete = true;
  missing = [];
}

projects : project_metadata "k" basis view view values (some (pos 2)) ≡ ok projected
unfolding project_metadata registry_applicability_of expected_routes same_routes missing_of
    result_of
projects = refl

-- Before the routes have been committed, the projection says so.
projects_early :
    map
      (λ (r : Bool × List MetadataMissing). r)
      (elim (project_metadata "k" basis view view [] none) [
        | ok r ↦ (r.minimum_complete, r.missing) ∷ []
        | problem e ↦ []
      ])
    ≡ (false, routes_incomplete ∷ MetadataMissing.agency_unknown ∷ []) ∷ []
unfolding project_metadata registry_applicability_of expected_routes same_routes missing_of
    result_of
projects_early = refl

abbrev paper : PaperProjection
paper = record {
  paper_id = "p1";
  version_id = "v1";
  current_version_id = some "v1";
  canonical_id = some "p1";
  revision_no = pos 2;
  metadata = some (from_result projected);
  decisions = [];
  gate = GateState.unknown;
  screening = record {
    presence = Presence.absent;
    reference = none;
    version_id = none;
    applicability = Applicability.undeterminable;
  };
  pdf = record {
    presence = Presence.absent;
    reference = none;
    version_id = none;
    applicability = Applicability.undeterminable;
  };
  extraction = record {
    state = ExtractionState.absent;
    reference = none;
    pdf_reference = none;
    applicability = Applicability.undeterminable;
  };
  quality = record { basis = QualityBasis.absent; extraction_reference = none; failure = none };
  root_purpose = RootPurpose.unknown;
  execution_source = ExecutionSource.unknown;
  visibility = none;
  manual_request = none;
  reference_harvest_failed = none;
}

project_metadata-complete_iff_example :
    (projected.minimum_complete ≡ true) ↔ IsSufficient basis view view values (some (pos 2))
project_metadata-complete_iff_example =
    project_metadata-complete_iff "k" basis view view values (some (pos 2)) projected projects

metadata_ready_iff_example : IsEligible paper metadata_ready ↔ (
    IsCanonical paper
    × IsCurrent paper
    × (projected.minimum_complete ≡ true)
    × (projected.paper_id ≡ "p1")
    × (projected.version_id ≡ "v1")
    × (eqb_ℤ projected.revision_no (pos 2) ≡ true))
metadata_ready_iff_example =
    metadata_ready_iff "k" basis view view values (some (pos 2)) projected paper projects refl
