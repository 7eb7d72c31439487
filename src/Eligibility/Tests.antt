-- ===== src/Eligibility/Tests.antt =====
-- eligibility/: papers, and what the rules make of them.
use paper_radar.Prelude.{
  Bool, List, Option, String, [], false, keep, length, map, none, refl, some, true, ℕ, ◌↔◌, ◌∷◌,
  ◌≡◌, ◌≤◌,
}
use paper_radar.Prelude.Int.{pos}
use paper_radar.Prelude.Text.{text_leb}
use paper_radar.Calibration.{permission}
use paper_radar.Screening.Reasons.{
  DecisionReason, RecordKind, ScreeningReasonInput, ScreeningResult, ScreeningSource,
  build_screening_reason, definition_of, identity_model, invalid_combination_fields, result_eq,
}
use paper_radar.Screening.Reasons.Combinations.{build_screening_reason-eq}
use paper_radar.Eligibility.Models.{
  Applicability, ArtifactFact, DecisionFact, Eligibility, ExecutionSource, ExtractionState,
  GateState, PaperProjection, Presence, QualityBasis, RootPurpose, canonical_paper, contains,
  decision_absent, eligible_for_auto_read, needs_pdf, not_canonical, read_prerequisites, reason_eq,
  requested_manual_read,
}
use paper_radar.Eligibility.Facts.{
  artifact_presence_contradictory, canonical_reasons, extraction_reasons, metadata_only_reasons,
  metadata_reasons, missing_reason, pdf_reasons, quality_reasons, result, screening_only_reasons,
  screening_reasons, version_reasons,
}
use paper_radar.Eligibility.Decision.{
  candidate_reasons, choose, decision_reasons, gate_reasons, is_contradictory, latest, place,
  screening_decision, sort_decisions, system_reasons, visibility_reasons,
}
use paper_radar.Eligibility.Decision.Choice.{IsLatest, choose-IsLatest}
use paper_radar.Eligibility.Rules.{
  accepted_reasons, auto_reasons, deferred_to, discard, effective_decision, evaluate_paper,
  execution_reasons, extraction_failed_reasons, extraction_step, is_experiment, manual_reasons,
  needs_extraction_reasons, needs_pdf_reasons, pdf_step, read_reasons, stale_reasons,
  waiting_reasons,
}
use paper_radar.Eligibility.Rules.Reading.{
  IsEligible, IsReadable, IsRequested, auto_read_iff, manual_read_iff, read_prerequisites_iff,
}
use paper_radar.Eligibility.Rules.Steps.{is_open, steps, steps_exclusive}
use paper_radar.Eligibility.Batch.{
  add_paper, evaluate_concept, evaluate_each, insert, lookup, lookup-evaluate_concept, refuse_at,
  refused, sort,
}

abbrev accept_by_hand : ScreeningReasonInput
accept_by_hand = record {
  result = ScreeningResult.accepted;
  source = ScreeningSource.regular_review;
  reason = DecisionReason.user_judgment;
}

abbrev suggest : ScreeningReasonInput
suggest = record {
  result = ScreeningResult.denied;
  source = ScreeningSource.suggestion_rule;
  reason = DecisionReason.low_value;
}

abbrev item : String → ℕ → ScreeningReasonInput → DecisionFact
item reference sequence r = record {
  reference = reference;
  paper_id = "p1";
  sequence = pos sequence;
  reason_record = r;
  applicability = Applicability.current;
  screening_reference = some "s1";
}

abbrev current_artifact : String → ArtifactFact
current_artifact reference = record {
  presence = Presence.present;
  reference = some reference;
  version_id = some "v1";
  applicability = Applicability.current;
}

-- A paper with everything that a read needs.
abbrev ready_paper : PaperProjection
ready_paper = record {
  paper_id = "p1";
  version_id = "v1";
  current_version_id = some "v1";
  canonical_id = some "p1";
  revision_no = pos 1;
  metadata = some (record {
    paper_id = "p1";
    version_id = "v1";
    revision_no = pos 1;
    minimum_complete = true;
    nontruncated_complete = true;
    current_version = true;
    missing = [];
  });
  decisions = item "d1" 3 suggest ∷ item "d2" 1 accept_by_hand ∷ [];
  gate = GateState.paused;
  screening = current_artifact "s1";
  pdf = current_artifact "f1";
  extraction = record {
    state = ExtractionState.succeeded;
    reference = some "e1";
    pdf_reference = some "f1";
    applicability = Applicability.current;
  };
  quality = record {
    basis = QualityBasis.formal_gate;
    extraction_reference = some "e1";
    failure = none;
  };
  root_purpose = RootPurpose.production;
  execution_source = ExecutionSource.production;
  visibility = some (record { hidden_conditions = [] });
  manual_request =
      some (record { reference = "m1"; paper_id = "p1"; accepted_decision_reference = "d2" });
  reference_harvest_failed = none;
}

abbrev unread_paper : PaperProjection
unread_paper = record ready_paper {
  paper_id = "p0";
  pdf = record {
    presence = Presence.absent;
    reference = none;
    version_id = none;
    applicability = Applicability.undeterminable;
  };
}

program : Unit {0}
unfolding evaluate_paper result contains reason_eq canonical_reasons version_reasons
    metadata_reasons metadata_only_reasons missing_reason screening_reasons screening_only_reasons
    artifact_presence_contradictory pdf_reasons extraction_reasons quality_reasons is_contradictory
    place sort_decisions latest choose gate_reasons visibility_reasons permission system_reasons
    candidate_reasons decision_reasons screening_decision effective_decision stale_reasons
    accepted_reasons result_eq discard pdf_step needs_pdf_reasons extraction_step
    needs_extraction_reasons extraction_failed_reasons execution_reasons read_reasons auto_reasons
    manual_reasons waiting_reasons deferred_to invalid_combination_fields build_screening_reason
    definition_of identity_model text_leb lookup refused refuse_at add_paper evaluate_each insert
    sort evaluate_concept
program = tt

ready_to_read : (evaluate_paper ready_paper read_prerequisites).eligible ≡ some true
unfolding program
ready_to_read = refl

unread_reasons :
    (evaluate_paper (record unread_paper { decisions = [] }) needs_pdf).reasons
    ≡ not_canonical ∷ decision_absent ∷ []
unfolding program
unread_reasons = refl

abbrev verdicts : List (String × Eligibility) → List (String × Option Bool)
verdicts = map (λ e. (e.0, e.1.eligible))

batch_order :
    verdicts (evaluate_concept canonical_paper (ready_paper ∷ unread_paper ∷ ready_paper ∷ []))
    ≡ ("p0", some false) ∷ ("p1", some false) ∷ []
unfolding program
batch_order = refl

read_prerequisites_iff_example : IsEligible ready_paper read_prerequisites ↔ IsReadable ready_paper
read_prerequisites_iff_example = read_prerequisites_iff ready_paper

auto_read_iff_example :
    IsEligible ready_paper eligible_for_auto_read
    ↔ (IsReadable ready_paper × (is_experiment RootPurpose.production ≡ false))
auto_read_iff_example = auto_read_iff ready_paper

manual_read_iff_example :
    IsEligible ready_paper requested_manual_read
    ↔ (IsReadable ready_paper × IsRequested ready_paper)
manual_read_iff_example = manual_read_iff ready_paper

steps_exclusive_example : length (keep (is_open ready_paper) steps) ≤ 1
steps_exclusive_example = steps_exclusive ready_paper

choose_first : choose (item "d1" 3 suggest ∷ item "d2" 1 suggest ∷ []) ≡ some (item "d1" 3 suggest)
unfolding program
choose_first = refl

choose-IsLatest_example :
    IsLatest (item "d1" 3 suggest) (item "d1" 3 suggest ∷ item "d2" 1 suggest ∷ [])
choose-IsLatest_example =
    choose-IsLatest (item "d1" 3 suggest ∷ item "d2" 1 suggest ∷ []) (item "d1" 3 suggest)
      choose_first

lookup-evaluate_concept_example :
    lookup "p1" (evaluate_concept canonical_paper (ready_paper ∷ unread_paper ∷ ready_paper ∷ []))
    ≡ some (refused (evaluate_paper ready_paper canonical_paper))
lookup-evaluate_concept_example =
    lookup-evaluate_concept canonical_paper (ready_paper ∷ unread_paper ∷ ready_paper ∷ []) "p1"

build_screening_reason-eq_example : build_screening_reason accept_by_hand ≡ some RecordKind.decision
unfolding invalid_combination_fields identity_model
build_screening_reason-eq_example = build_screening_reason-eq accept_by_hand
