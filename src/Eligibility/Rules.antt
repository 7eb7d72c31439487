-- ===== src/Eligibility/Rules.antt =====
-- eligibility/rules.py, `evaluate_paper` and `evaluate_concept`: the reasons against each step, and
-- the result for every concept.
pub mod Effective
pub mod Steps
pub mod Reading
pub mod Authority
use paper_radar.Prelude.{
  Bool, Option, String, [], false, if◌then◌else◌, is_nil, keep, none, not, some, str_eq, true, when,
  ◌&&◌, ◌++◌, ◌||◌, ◌∷◌,
}
use paper_radar.Prelude.Text.{is_empty}
use paper_radar.Calibration.{reading_request, waits_for_calibration}
use paper_radar.Screening.Reasons.{ScreeningResult, result_eq}
use paper_radar.Eligibility.Models.{
  Applicability, Concept, DecisionFact, Eligibility, EligibilityReason, ExecutionSource,
  ExtractionState, ManualReadRequest, PaperProjection, Presence, RootPurpose, Support,
  accepted_read_backlog, canonical_paper, capacity_warning, contains, current_screening_artifact,
  current_screening_suggestion, current_version, decision_basis_current, decision_basis_stale,
  decision_basis_unknown, decision_not_accepted, effective_screening_decision,
  eligible_for_auto_read, execution_source_unknown, experiment_no_auto_queue, extraction_absent,
  extraction_already_present, extraction_failed, extraction_historical, extraction_not_failed,
  extraction_retry_required, manual_accepted_channel, manual_request_absent,
  manual_request_contradictory, manual_request_superseded, metadata_ready, metadata_unobtainable,
  model_failure_queue, needs_extraction, needs_pdf, needs_reference_harvest, needs_reuse_assessment,
  not_waiting_calibration, pdf_absent, pdf_already_present, pdf_historical, read_prerequisites,
  reason_eq, reference_list_completeness, requested_manual_read, test_execution_source,
  visibility_unknown, waiting_report, waiting_review,
}
use paper_radar.Eligibility.Facts.{
  Reasons, canonical_reasons, extraction_reasons, metadata_reasons, pdf_reasons, quality_reasons,
  result, screening_reasons, version_reasons,
}
use paper_radar.Eligibility.Decision.{screening_decision, visibility_reasons}

unfoldable pub effective_decision : PaperProjection → Eligibility
effective_decision f =
    screening_decision f (canonical_reasons f ++ version_reasons f) (screening_reasons f)

abbrev pub basis_reasons : Option DecisionFact → Reasons
basis_reasons none = []
basis_reasons (some d) = elim d.applicability [
  | Applicability.historical ↦ []
  | Applicability.current ↦ decision_basis_current ∷ []
  | Applicability.undeterminable ↦ decision_basis_unknown ∷ []
]

unfoldable pub stale_reasons : PaperProjection → Reasons
stale_reasons f =
    let effective = effective_decision f in effective.reasons ++ basis_reasons effective.decision

abbrev pub not_accepted_reasons : Option DecisionFact → Reasons
not_accepted_reasons none = []
not_accepted_reasons (some d) =
    when (not (result_eq d.reason_record.result ScreeningResult.accepted)) decision_not_accepted

unfoldable pub accepted_reasons : PaperProjection → Reasons
accepted_reasons f =
    let effective = effective_decision f in
    effective.reasons ++ not_accepted_reasons effective.decision

-- `reasons.discard(r)`
unfoldable pub discard : EligibilityReason → Reasons → Reasons
discard r reasons = keep (λ q. not (reason_eq q r)) reasons

abbrev pub is_absent : Presence → Bool
is_absent Presence.absent = true
is_absent _ = false

-- `needs_pdf`, from whether no file is there and the reasons before it.
unfoldable pub pdf_step : Bool → Reasons → Reasons → Reasons
pdf_step nothing_there before pdf =
    if nothing_there || contains pdf_historical pdf
    then discard pdf_historical (discard pdf_absent (before ++ pdf))
    else (before ++ pdf) ++ when (is_nil pdf) pdf_already_present

unfoldable pub needs_pdf_reasons : PaperProjection → Reasons
needs_pdf_reasons f = pdf_step (is_absent f.pdf.presence) (accepted_reasons f) (pdf_reasons f)

abbrev pub is_absent_extraction : ExtractionState → Bool
is_absent_extraction ExtractionState.absent = true
is_absent_extraction _ = false

abbrev pub is_succeeded : ExtractionState → Bool
is_succeeded ExtractionState.succeeded = true
is_succeeded _ = false

abbrev pub is_failed : ExtractionState → Bool
is_failed ExtractionState.failed = true
is_failed _ = false

-- `needs_extraction`, from the state of the extraction and the reasons before it.
unfoldable pub extraction_step : ExtractionState → Reasons → Reasons → Reasons
extraction_step state before extraction =
    if is_absent_extraction state || contains extraction_historical extraction
    then discard extraction_retry_required
        (discard extraction_historical (discard extraction_absent (before ++ extraction)))
    else (before ++ extraction)
      ++ when (is_succeeded state && is_nil extraction) extraction_already_present

unfoldable pub needs_extraction_reasons : PaperProjection → Reasons
needs_extraction_reasons f =
    extraction_step f.extraction.state (accepted_reasons f ++ pdf_reasons f) (extraction_reasons f)

unfoldable pub extraction_failed_reasons : PaperProjection → Reasons
extraction_failed_reasons f =
    discard extraction_retry_required
      ((canonical_reasons f ++ version_reasons f) ++ pdf_reasons f ++ extraction_reasons f)
    ++ when (not (is_failed f.extraction.state)) extraction_not_failed

unfoldable pub execution_reasons : ExecutionSource → Reasons
execution_reasons ExecutionSource.production = []
execution_reasons ExecutionSource.test = test_execution_source ∷ []
execution_reasons ExecutionSource.unknown = execution_source_unknown ∷ []

unfoldable pub read_reasons : PaperProjection → Reasons
read_reasons f =
    accepted_reasons f
    ++ metadata_reasons f
    ++ pdf_reasons f
    ++ extraction_reasons f
    ++ quality_reasons f
    ++ execution_reasons f.execution_source
    ++ visibility_reasons f.visibility reading_request

abbrev pub is_experiment : RootPurpose → Bool
is_experiment RootPurpose.experiment = true
is_experiment _ = false

unfoldable pub auto_reasons : PaperProjection → Reasons
auto_reasons f = read_reasons f ++ when (is_experiment f.root_purpose) experiment_no_auto_queue

abbrev pub is_superseded : ManualReadRequest → Option DecisionFact → Bool
is_superseded request none = false
is_superseded request (some d) = not (str_eq request.accepted_decision_reference d.reference)

abbrev pub request_reasons : PaperProjection → Option DecisionFact → Reasons
request_reasons f effective = elim f.manual_request [
  | none ↦ manual_request_absent ∷ []
  | some request ↦
      when
        (is_empty request.reference
          || not (str_eq request.paper_id f.paper_id)
          || is_empty request.accepted_decision_reference)
        manual_request_contradictory
      ++ when (is_superseded request effective) manual_request_superseded
]

unfoldable pub manual_reasons : PaperProjection → Reasons
manual_reasons f = read_reasons f ++ request_reasons f (effective_decision f).decision

unfoldable pub waiting_reasons : PaperProjection → Reasons
waiting_reasons f = elim f.visibility [
  | none ↦ visibility_unknown ∷ []
  | some v ↦ when (not (waits_for_calibration v)) not_waiting_calibration
]

-- A concept whose evaluation belongs to a later part of the program.
unfoldable pub deferred_to : String → Eligibility
deferred_to owner = record {
  eligible = none;
  reasons = [];
  support = Support.deferred;
  scope = "downstream_responsibility";
  decision = none;
  quality_failure = none;
  owner = some owner;
}

abbrev pub with_quality : PaperProjection → Eligibility → Eligibility
with_quality f e = record e { quality_failure = f.quality.failure }

abbrev pub read_scope : String
read_scope = "read_prerequisites_only_no_rank_capacity_claim_or_budget"

unfoldable pub evaluate_paper : PaperProjection → Concept → Eligibility
evaluate_paper f canonical_paper = result (canonical_reasons f) Support.supported "predicate_only"
evaluate_paper f current_version = result (version_reasons f) Support.supported "predicate_only"
evaluate_paper f metadata_ready =
    result (metadata_reasons f) Support.partial "minimum_metadata_only"
evaluate_paper f effective_screening_decision = effective_decision f
evaluate_paper f decision_basis_stale = result (stale_reasons f) Support.supported "predicate_only"
evaluate_paper f current_screening_artifact =
    result (screening_reasons f) Support.supported "predicate_only"
evaluate_paper f needs_pdf = result (needs_pdf_reasons f) Support.supported "predicate_only"
evaluate_paper f needs_extraction =
    result (needs_extraction_reasons f) Support.supported "predicate_only"
evaluate_paper f extraction_failed =
    result (extraction_failed_reasons f) Support.supported "predicate_only"
evaluate_paper f read_prerequisites =
    with_quality f (result (read_reasons f) Support.partial read_scope)
evaluate_paper f eligible_for_auto_read =
    with_quality f (result (auto_reasons f) Support.partial read_scope)
evaluate_paper f requested_manual_read =
    with_quality f
      (result (manual_reasons f) Support.supported "explicit_read_prerequisites_no_claim_or_budget")
evaluate_paper f Concept.waiting_calibration =
    result (waiting_reasons f) Support.partial "supplied_visibility_fact_only"
evaluate_paper f metadata_unobtainable = deferred_to "C"
evaluate_paper f current_screening_suggestion = deferred_to "B/D"
evaluate_paper f needs_reference_harvest = deferred_to "E"
evaluate_paper f reference_list_completeness = deferred_to "E"
evaluate_paper f needs_reuse_assessment = deferred_to "D"
evaluate_paper f Concept.reuse_escalation_unavailable = deferred_to "D"
evaluate_paper f manual_accepted_channel = deferred_to "G/H"
evaluate_paper f accepted_read_backlog = deferred_to "G/H"
evaluate_paper f model_failure_queue = deferred_to "B"
evaluate_paper f waiting_review = deferred_to "B/H"
evaluate_paper f waiting_report = deferred_to "B/H"
evaluate_paper f capacity_warning = deferred_to "G/H"
