-- ===== src/Eligibility/Models.antt =====
-- eligibility/models.py: the facts that eligibility is judged by, and its result. Texts that only
-- identify are native strings; a `Literal` or an enumeration is a data type.
mod Codes
unfoldable pub use Codes.*
use paper_radar.Prelude.{Bool, List, Option, String}
use paper_radar.Prelude.Int.{ℤ}
use paper_radar.Calibration.{Visibility}
use paper_radar.Screening.Reasons.{ScreeningReasonInput}

pub data Concept : Type 0 where
  canonical_paper current_version metadata_ready effective_screening_decision : Concept
  decision_basis_stale current_screening_artifact needs_pdf needs_extraction : Concept
  extraction_failed read_prerequisites eligible_for_auto_read requested_manual_read : Concept
  waiting_calibration metadata_unobtainable current_screening_suggestion : Concept
  needs_reference_harvest reference_list_completeness needs_reuse_assessment : Concept
  reuse_escalation_unavailable manual_accepted_channel accepted_read_backlog : Concept
  model_failure_queue waiting_review waiting_report capacity_warning : Concept

pub data Support : Type 0 where
  supported partial deferred : Support

pub data GateState : Type 0 where
  enabled paused disabled unknown : GateState

pub data Presence : Type 0 where
  present absent unknown : Presence

pub data Applicability : Type 0 where
  current historical undeterminable : Applicability

pub record ArtifactFact : Type 0 where
  pub presence : Presence
  pub reference : Option String
  pub version_id : Option String
  pub applicability : Applicability

pub data ExtractionState : Type 0 where
  succeeded failed absent unknown : ExtractionState

pub record ExtractionFact : Type 0 where
  pub state : ExtractionState
  pub reference : Option String
  pub pdf_reference : Option String
  pub applicability : Applicability

pub data QualityBasis : Type 0 where
  formal_gate experiment_document_gate failed absent unknown : QualityBasis

pub data QualityFailure : Type 0 where
  pdf_text_layer body_boundary reading_order evidence_replay content_identity : QualityFailure
  layout_review representative_coverage source_generated_separation : QualityFailure
  embedded_binary text_integrity : QualityFailure

pub record QualityFact : Type 0 where
  pub basis : QualityBasis
  pub extraction_reference : Option String
  pub failure : Option QualityFailure

pub data RootPurpose : Type 0 where
  production experiment unknown : RootPurpose

pub data ExecutionSource : Type 0 where
  production test unknown : ExecutionSource

pub record ManualReadRequest : Type 0 where
  pub reference : String
  pub paper_id : String
  pub accepted_decision_reference : String

pub record DecisionFact : Type 0 where
  pub reference : String
  pub paper_id : String
  pub sequence : ℤ
  pub reason_record : ScreeningReasonInput
  pub applicability : Applicability
  pub screening_reference : Option String

-- feed_metadata/models.py, `MetadataMissing`
pub data MetadataMissing : Type 0 where
  current_version_changed no_title no_abstract unknown_truncation no_source_url : MetadataMissing
  routes_incomplete agency_unknown agency_unsupported : MetadataMissing

pub record MetadataFacts : Type 0 where
  pub paper_id : String
  pub version_id : String
  pub revision_no : ℤ
  pub minimum_complete : Bool
  pub nontruncated_complete : Bool
  pub current_version : Bool
  pub missing : List MetadataMissing

pub record PaperProjection : Type 0 where
  pub paper_id : String
  pub version_id : String
  pub current_version_id : Option String
  pub canonical_id : Option String
  pub revision_no : ℤ
  pub metadata : Option MetadataFacts
  pub decisions : List DecisionFact
  pub gate : GateState
  pub screening : ArtifactFact
  pub pdf : ArtifactFact
  pub extraction : ExtractionFact
  pub quality : QualityFact
  pub root_purpose : RootPurpose
  pub execution_source : ExecutionSource
  pub visibility : Option Visibility
  pub manual_request : Option ManualReadRequest
  pub reference_harvest_failed : Option Bool

pub record Eligibility : Type 0 where
  pub eligible : Option Bool
  pub reasons : List EligibilityReason
  pub support : Support
  pub scope : String
  pub decision : Option DecisionFact
  pub quality_failure : Option QualityFailure
  pub owner : Option String
