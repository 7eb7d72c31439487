-- ===== src/Eligibility/Rules/Reading.antt =====
-- eligibility/rules.py: when a paper may be read, against a description of its facts.
use paper_radar.Prelude.{
  Option-cases, [], append-eq-nil, append-nil_nil, arith, eq_iff, false, inl, inr, some, true, when,
  ◌++◌, ◌↔◌, ◌≡◌,
}
use paper_radar.Prelude.Text.{is_empty}
use paper_radar.Calibration.{Visibility, permission, reading_request}
use paper_radar.Screening.Reasons.{ScreeningResult, result_eq}
use paper_radar.Eligibility.Models.{
  Concept, DecisionFact, ExecutionSource, ManualReadRequest, MetadataFacts, PaperProjection,
  Support, eligible_for_auto_read, experiment_no_auto_queue, read_prerequisites,
  requested_manual_read,
}
use paper_radar.Eligibility.Facts.{
  canonical_reasons, extraction_reasons, metadata_only_reasons, metadata_reasons, pdf_reasons,
  quality_reasons, version_reasons,
}
use paper_radar.Eligibility.Facts.Clear.{
  HasExtraction, HasPdf, HasQuality, IsCanonical, IsComplete, IsCurrent, canonical_reasons-nil,
  canonical_reasons_clear, extraction_reasons-nil, extraction_reasons_clear,
  metadata_only_reasons-nil, metadata_only_reasons_clear, no_metadata, pdf_reasons-nil,
  pdf_reasons_clear, quality_reasons-nil, quality_reasons_clear, version_reasons-nil,
  version_reasons_clear,
}
use paper_radar.Eligibility.Emptiness.{eligible-result_iff}
use paper_radar.Eligibility.Decision.{visibility_reasons}
use paper_radar.Eligibility.Rules.{
  accepted_reasons, auto_reasons, effective_decision, evaluate_paper, execution_reasons,
  is_experiment, is_superseded, manual_reasons, not_accepted_reasons, read_reasons, read_scope,
  request_reasons,
}
use paper_radar.Eligibility.Rules.Effective.{effective_clear, reasons-effective-nil, when-eq-nil}

-- A decision is in force, and accepts the paper.
pub record IsAccepted (f : PaperProjection) : Type 0 where
  pub by : DecisionFact
  pub in_force : (effective_decision f).decision ≡ some by
  pub accepts : by.reason_record.result ≡ ScreeningResult.accepted

pub record HasMetadata (f : PaperProjection) : Type 0 where
  pub facts : MetadataFacts
  pub supplied : f.metadata ≡ some facts
  pub complete : IsComplete f facts

pub record IsVisible (f : PaperProjection) : Type 0 where
  pub facts : Visibility
  pub supplied : f.visibility ≡ some facts
  pub nothing_hidden : facts.hidden_conditions ≡ []

-- All that a read needs, in terms of the facts of the paper.
pub record IsReadable (f : PaperProjection) : Type 0 where
  pub accepted : IsAccepted f
  pub canonical : IsCanonical f
  pub current_version : IsCurrent f
  pub metadata : HasMetadata f
  pub pdf : HasPdf f
  pub extraction : HasExtraction f
  pub quality : HasQuality f
  pub source : f.execution_source ≡ ExecutionSource.production
  pub visible : IsVisible f

result_eq→eq :
    (r : ScreeningResult)
    → result_eq r ScreeningResult.accepted ≡ true
    → r ≡ ScreeningResult.accepted
unfolding result_eq
result_eq→eq r h = ground arith

module _ (f : PaperProjection) where
  accepted_reasons_clear : accepted_reasons f ≡ [] → IsAccepted f
  unfolding accepted_reasons
  accepted_reasons_clear h =
      let (clear, right) =
        append-eq-nil (effective_decision f).reasons
          (not_accepted_reasons (effective_decision f).decision) h in
      let (d, e) = effective_clear f clear in
      record {
        by = d;
        in_force = e;
        accepts =
            let right' : not_accepted_reasons (some d) ≡ [] = rw e at right in
            result_eq→eq d.reason_record.result (ground arith);
      }

  pub metadata_reasons_clear : metadata_reasons f ≡ [] → IsCanonical f × IsCurrent f × HasMetadata f
  unfolding metadata_reasons
  metadata_reasons_clear h =
      let (identity, own) =
        append-eq-nil (canonical_reasons f ++ version_reasons f) (metadata_only_reasons f) h in
      let (c, v) = append-eq-nil (canonical_reasons f) (version_reasons f) identity in
      (canonical_reasons_clear f c, version_reasons_clear f v, supplied own)
    where
      supplied : metadata_only_reasons f ≡ [] → HasMetadata f
      supplied own = elim (Option-cases f.metadata) [
        | inl e ↦ absurd (no_metadata f e own)
        | inr (m, e) ↦ record {
          facts = m;
          supplied = e;
          complete = metadata_only_reasons_clear f m e own;
        }
      ]

  visibility_reasons_clear : visibility_reasons f.visibility reading_request ≡ [] → IsVisible f
  unfolding visibility_reasons permission
  visibility_reasons_clear h = elim (Option-cases f.visibility) [
    | inl e ↦ ground arith
    | inr (v, e) ↦ record { facts = v; supplied = e; nothing_hidden = ground arith }
  ]

  source_clear :
      execution_reasons f.execution_source ≡ [] → f.execution_source ≡ ExecutionSource.production
  unfolding execution_reasons
  source_clear h = ground arith

  pub read_reasons_clear : read_reasons f ≡ [] → IsReadable f
  unfolding read_reasons
  read_reasons_clear h =
      let a = accepted_reasons f in
      let m = metadata_reasons f in
      let p = pdf_reasons f in
      let e = extraction_reasons f in
      let q = quality_reasons f in
      let x = execution_reasons f.execution_source in
      let v = visibility_reasons f.visibility reading_request in
      let (h₁, visible) = append-eq-nil (((((a ++ m) ++ p) ++ e) ++ q) ++ x) v h in
      let (h₂, source) = append-eq-nil ((((a ++ m) ++ p) ++ e) ++ q) x h₁ in
      let (h₃, quality) = append-eq-nil (((a ++ m) ++ p) ++ e) q h₂ in
      let (h₄, extraction) = append-eq-nil ((a ++ m) ++ p) e h₃ in
      let (h₅, pdf) = append-eq-nil (a ++ m) p h₄ in
      let (accepted, metadata) = append-eq-nil a m h₅ in
      let (canonical, newest, complete) = metadata_reasons_clear metadata in
      record {
        accepted = accepted_reasons_clear accepted;
        canonical = canonical;
        current_version = newest;
        metadata = complete;
        pdf = pdf_reasons_clear f pdf;
        extraction = extraction_reasons_clear f extraction;
        quality = quality_reasons_clear f quality;
        source = source_clear source;
        visible = visibility_reasons_clear visible;
      }

  accepted_reasons-nil : IsAccepted f → accepted_reasons f ≡ []
  unfolding accepted_reasons result_eq
  accepted_reasons-nil a =
      append-nil_nil (effective_decision f).reasons
        (not_accepted_reasons (effective_decision f).decision)
        (reasons-effective-nil f a.by a.in_force) (rw (a.in_force, a.accepts))

  pub metadata_reasons-nil : IsCanonical f → IsCurrent f → HasMetadata f → metadata_reasons f ≡ []
  unfolding metadata_reasons
  metadata_reasons-nil c v m =
      append-nil_nil (canonical_reasons f ++ version_reasons f) (metadata_only_reasons f)
        (append-nil_nil (canonical_reasons f) (version_reasons f) (canonical_reasons-nil f c)
          (version_reasons-nil f v))
        (metadata_only_reasons-nil f m.facts m.supplied m.complete)

  visibility_reasons-nil : IsVisible f → visibility_reasons f.visibility reading_request ≡ []
  unfolding visibility_reasons permission
  visibility_reasons-nil v = rw (v.supplied, v.nothing_hidden)

  source-nil :
      f.execution_source ≡ ExecutionSource.production → execution_reasons f.execution_source ≡ []
  unfolding execution_reasons
  source-nil h = rw h

  read_reasons-nil : IsReadable f → read_reasons f ≡ []
  unfolding read_reasons
  read_reasons-nil r = rw (
    accepted_reasons-nil r.accepted,
    metadata_reasons-nil r.canonical r.current_version r.metadata,
    pdf_reasons-nil f r.pdf,
    extraction_reasons-nil f r.extraction,
    quality_reasons-nil f r.quality,
    source-nil r.source,
    visibility_reasons-nil r.visible,
  )

abbrev pub IsEligible : PaperProjection → Concept → Type 0
IsEligible f c = (evaluate_paper f c).eligible ≡ some true

-- A paper has the prerequisites of a read exactly when its facts are those of a readable paper.
pub read_prerequisites_iff : (f : PaperProjection) → IsEligible f read_prerequisites ↔ IsReadable f
unfolding evaluate_paper
read_prerequisites_iff f =
    let iff = eligible-result_iff (read_reasons f) Support.partial read_scope in
    ((λ h. read_reasons_clear f (iff.0 h)), (λ r. iff.1 (read_reasons-nil f r)))

-- A paper is open to an automatic read exactly when it is readable and does not belong to an
-- experiment.
pub auto_read_iff :
    (f : PaperProjection)
    → IsEligible f eligible_for_auto_read ↔ (IsReadable f × (is_experiment f.root_purpose ≡ false))
unfolding evaluate_paper auto_reasons
auto_read_iff f =
    let extra = when (is_experiment f.root_purpose) experiment_no_auto_queue in
    let iff = eligible-result_iff (read_reasons f ++ extra) Support.partial read_scope in
    (
      (λ h.
          let (r, e) = append-eq-nil (read_reasons f) extra (iff.0 h) in
          (read_reasons_clear f r, when-eq-nil (is_experiment f.root_purpose) _ e)),
      (λ (r, e). iff.1 (append-nil_nil (read_reasons f) extra (read_reasons-nil f r) (rw e))),
    )

-- A manual request for this paper, which names the decision that is in force.
pub record IsRequested (f : PaperProjection) : Type 0 where
  pub request : ManualReadRequest
  pub made : f.manual_request ≡ some request
  pub named : is_empty request.reference ≡ false
  pub same_paper : request.paper_id ≡ f.paper_id
  pub decision_named : is_empty request.accepted_decision_reference ≡ false
  pub not_superseded : is_superseded request (effective_decision f).decision ≡ false

request_clear :
    (f : PaperProjection) → request_reasons f (effective_decision f).decision ≡ [] → IsRequested f
request_clear f h = elim (Option-cases f.manual_request) [
  | inl e ↦ ground arith
  | inr (m, e) ↦ record {
    request = m;
    made = e;
    named = ground arith;
    same_paper = ground (arith, eq_iff m.paper_id f.paper_id);
    decision_named = ground arith;
    not_superseded = ground arith;
  }
]

request-nil :
    (f : PaperProjection) → IsRequested f → request_reasons f (effective_decision f).decision ≡ []
request-nil f r = ground (arith, eq_iff r.request.paper_id f.paper_id)

-- A manual read goes ahead exactly when the paper is readable and is requested by a request that
-- names this paper and has not been superseded by a later decision.
pub manual_read_iff :
    (f : PaperProjection) → IsEligible f requested_manual_read ↔ (IsReadable f × IsRequested f)
unfolding evaluate_paper manual_reasons
manual_read_iff f =
    let extra = request_reasons f (effective_decision f).decision in
    let iff =
      eligible-result_iff (read_reasons f ++ extra) Support.supported
        "explicit_read_prerequisites_no_claim_or_budget" in
    (
      (λ h.
          let (r, e) = append-eq-nil (read_reasons f) extra (iff.0 h) in
          (read_reasons_clear f r, request_clear f e)),
      (λ (r, e).
          iff.1 (append-nil_nil (read_reasons f) extra (read_reasons-nil f r) (request-nil f e))),
    )
