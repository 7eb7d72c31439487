-- ===== src/Sources.antt =====
-- fixture_audit/acquisition_models.py: the routes to the sources of a paper, and what a request of
-- one of them comes to.
use paper_radar.Prelude.{Bool, false, true, ℕ, ◌==◌}

pub data Route : Type 0 where
  feed doi_ra registry_crossref registry_datacite publisher : Route

pub data SourceReason : Type 0 where
  acquired not_found rate_limited transient_error invalid_response : SourceReason
  provider_incomplete access_blocked_403 not_applicable_no_doi agency_unknown : SourceReason
  agency_unsupported identity_mismatch unrecognized_page_shape : SourceReason
  record_without_abstract outcome_unknown deferred_retry_after not_attempted : SourceReason
  disallowed_destination disallowed_scheme channel_not_installed : SourceReason

abbrev route_no : Route → ℕ
route_no feed = 0
route_no doi_ra = 1
route_no registry_crossref = 2
route_no registry_datacite = 3
route_no publisher = 4

abbrev pub route_eq : Route → Route → Bool
route_eq a b = route_no a == route_no b

abbrev pub is_acquired : SourceReason → Bool
is_acquired acquired = true
is_acquired _ = false

abbrev pub is_unsupported : SourceReason → Bool
is_unsupported agency_unsupported = true
is_unsupported _ = false

abbrev pub is_mismatch : SourceReason → Bool
is_mismatch identity_mismatch = true
is_mismatch _ = false

abbrev pub is_not_found : SourceReason → Bool
is_not_found not_found = true
is_not_found _ = false
