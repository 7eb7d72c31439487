-- ===== src/Eligibility/Models/Codes.antt =====
-- eligibility/models.py, `EligibilityReason`: the closed vocabulary, in its declared order.
use paper_radar.Prelude.{Bool, List, [], any, ℕ, ◌==◌, ◌∷◌}

pub data EligibilityReason : Type 0 where
  canonical_unknown not_canonical version_unknown not_current_version : EligibilityReason
  identity_contradictory metadata_unknown metadata_incomplete metadata_stale : EligibilityReason
  metadata_contradictory metadata_no_title metadata_no_abstract : EligibilityReason
  metadata_unknown_truncation metadata_no_source_url : EligibilityReason
  metadata_routes_incomplete metadata_agency_unknown : EligibilityReason
  metadata_agency_unsupported decision_absent decision_contradictory : EligibilityReason
  decision_not_current decision_basis_unknown decision_basis_current : EligibilityReason
  projection_not_decision gate_paused gate_disabled gate_unknown : EligibilityReason
  screening_absent screening_unknown screening_historical : EligibilityReason
  screening_contradictory decision_not_accepted pdf_absent pdf_unknown : EligibilityReason
  pdf_historical pdf_contradictory pdf_already_present extraction_absent : EligibilityReason
  extraction_unknown extraction_historical extraction_contradictory : EligibilityReason
  extraction_already_present extraction_retry_required extraction_not_failed : EligibilityReason
  quality_failed quality_absent quality_unknown quality_contradictory : EligibilityReason
  quality_not_formal root_unknown experiment_no_auto_queue : EligibilityReason
  execution_source_unknown test_execution_source visibility_unknown : EligibilityReason
  visibility_denied manual_request_absent manual_request_contradictory : EligibilityReason
  manual_request_superseded not_waiting_calibration duplicate_paper : EligibilityReason

-- The position of a reason in the declaration, by which reasons are compared.
position : EligibilityReason → ℕ
position canonical_unknown = 0
position not_canonical = 1
position version_unknown = 2
position not_current_version = 3
position identity_contradictory = 4
position metadata_unknown = 5
position metadata_incomplete = 6
position metadata_stale = 7
position metadata_contradictory = 8
position metadata_no_title = 9
position metadata_no_abstract = 10
position metadata_unknown_truncation = 11
position metadata_no_source_url = 12
position metadata_routes_incomplete = 13
position metadata_agency_unknown = 14
position metadata_agency_unsupported = 15
position decision_absent = 16
position decision_contradictory = 17
position decision_not_current = 18
position decision_basis_unknown = 19
position decision_basis_current = 20
position projection_not_decision = 21
position gate_paused = 22
position gate_disabled = 23
position gate_unknown = 24
position screening_absent = 25
position screening_unknown = 26
position screening_historical = 27
position screening_contradictory = 28
position decision_not_accepted = 29
position pdf_absent = 30
position pdf_unknown = 31
position pdf_historical = 32
position pdf_contradictory = 33
position pdf_already_present = 34
position extraction_absent = 35
position extraction_unknown = 36
position extraction_historical = 37
position extraction_contradictory = 38
position extraction_already_present = 39
position extraction_retry_required = 40
position extraction_not_failed = 41
position quality_failed = 42
position quality_absent = 43
position quality_unknown = 44
position quality_contradictory = 45
position quality_not_formal = 46
position root_unknown = 47
position experiment_no_auto_queue = 48
position execution_source_unknown = 49
position test_execution_source = 50
position visibility_unknown = 51
position visibility_denied = 52
position manual_request_absent = 53
position manual_request_contradictory = 54
position manual_request_superseded = 55
position not_waiting_calibration = 56
position duplicate_paper = 57

-- Iterating over the enumeration: `for reason in EligibilityReason`.
abbrev pub all_reasons : List EligibilityReason
all_reasons =
    canonical_unknown ∷ not_canonical ∷ version_unknown ∷ not_current_version
    ∷ identity_contradictory ∷ metadata_unknown ∷ metadata_incomplete ∷ metadata_stale
    ∷ metadata_contradictory ∷ metadata_no_title ∷ metadata_no_abstract
    ∷ metadata_unknown_truncation ∷ metadata_no_source_url ∷ metadata_routes_incomplete
    ∷ metadata_agency_unknown ∷ metadata_agency_unsupported ∷ decision_absent
    ∷ decision_contradictory ∷ decision_not_current ∷ decision_basis_unknown
    ∷ decision_basis_current ∷ projection_not_decision ∷ gate_paused ∷ gate_disabled ∷ gate_unknown
    ∷ screening_absent ∷ screening_unknown ∷ screening_historical ∷ screening_contradictory
    ∷ decision_not_accepted ∷ pdf_absent ∷ pdf_unknown ∷ pdf_historical ∷ pdf_contradictory
    ∷ pdf_already_present ∷ extraction_absent ∷ extraction_unknown ∷ extraction_historical
    ∷ extraction_contradictory ∷ extraction_already_present ∷ extraction_retry_required
    ∷ extraction_not_failed ∷ quality_failed ∷ quality_absent ∷ quality_unknown
    ∷ quality_contradictory ∷ quality_not_formal ∷ root_unknown ∷ experiment_no_auto_queue
    ∷ execution_source_unknown ∷ test_execution_source ∷ visibility_unknown ∷ visibility_denied
    ∷ manual_request_absent ∷ manual_request_contradictory ∷ manual_request_superseded
    ∷ not_waiting_calibration ∷ duplicate_paper ∷ []

unfoldable pub reason_eq : EligibilityReason → EligibilityReason → Bool
unfolding position
reason_eq a b = position a == position b

-- A set of reasons is a list that is read by membership: `reason in reasons`.
unfoldable pub contains : EligibilityReason → List EligibilityReason → Bool
unfolding reason_eq
contains r reasons = any (reason_eq r) reasons
