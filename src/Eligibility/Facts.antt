-- ===== src/Eligibility/Facts.antt =====
-- eligibility/rules.py: the reasons that each group of facts gives, up to the effective decision.
-- A set of reasons is a list that is read by membership and emptiness; `a | b` is `a ++ b`.
pub mod Clear
use paper_radar.Prelude.{
  Bool, List, String, [], bool_eq, false, if◌then◌else◌, is_nil, is_none, is_some, keep, map, none,
  not, some, str_eq, true, when, ◌&&◌, ◌++◌, ◌||◌, ◌∷◌,
}
use paper_radar.Prelude.Int.{eqb_ℤ, ltb_ℤ, pos}
use paper_radar.Prelude.Text.{is_empty, opt_eq, opt_is, opt_is_empty}
use paper_radar.Eligibility.Models.{
  Applicability, ArtifactFact, Eligibility, EligibilityReason, ExtractionFact, ExtractionState,
  MetadataFacts, MetadataMissing, PaperProjection, Presence, QualityBasis, QualityFact, RootPurpose,
  Support, agency_unknown, agency_unsupported, all_reasons, canonical_unknown, contains,
  current_version_changed, extraction_absent, extraction_contradictory, extraction_historical,
  extraction_retry_required, extraction_unknown, identity_contradictory, metadata_agency_unknown,
  metadata_agency_unsupported, metadata_contradictory, metadata_incomplete, metadata_no_abstract,
  metadata_no_source_url, metadata_no_title, metadata_routes_incomplete, metadata_stale,
  metadata_unknown, metadata_unknown_truncation, no_abstract, no_source_url, no_title,
  not_canonical, not_current_version, pdf_absent, pdf_contradictory, pdf_historical, pdf_unknown,
  present, quality_absent, quality_contradictory, quality_failed, quality_not_formal,
  quality_unknown, root_unknown, routes_incomplete, screening_absent, screening_contradictory,
  screening_historical, screening_unknown, undeterminable, unknown_truncation, version_unknown,
}

abbrev pub Reasons : Type 0
Reasons = List EligibilityReason

-- `_result`: eligible without a reason, and the reasons in the order of their declaration.
unfoldable pub result : Reasons → Support → String → Eligibility
unfolding contains
result reasons support scope = record {
  eligible = some (is_nil reasons);
  reasons = keep (λ r. contains r reasons) all_reasons;
  support = support;
  scope = scope;
  decision = none;
  quality_failure = none;
  owner = none;
}

unfoldable pub canonical_reasons : PaperProjection → Reasons
canonical_reasons f =
    when (is_empty f.paper_id || opt_is f.canonical_id "") identity_contradictory
    ++ elim f.canonical_id [
      | none ↦ canonical_unknown ∷ []
      | some id ↦ when (not (str_eq id f.paper_id)) not_canonical
    ]

unfoldable pub version_reasons : PaperProjection → Reasons
version_reasons f =
    when (is_empty f.version_id || opt_is f.current_version_id "" || ltb_ℤ f.revision_no (pos 1))
      identity_contradictory
    ++ elim f.current_version_id [
      | none ↦ version_unknown ∷ []
      | some id ↦ when (not (str_eq f.version_id id)) not_current_version
    ]

-- The table `missing_reasons`.
unfoldable pub missing_reason : MetadataMissing → EligibilityReason
missing_reason current_version_changed = metadata_stale
missing_reason no_title = metadata_no_title
missing_reason no_abstract = metadata_no_abstract
missing_reason unknown_truncation = metadata_unknown_truncation
missing_reason no_source_url = metadata_no_source_url
missing_reason routes_incomplete = metadata_routes_incomplete
missing_reason agency_unknown = metadata_agency_unknown
missing_reason agency_unsupported = metadata_agency_unsupported

abbrev supplied_metadata_reasons : PaperProjection → MetadataFacts → Reasons
unfolding missing_reason
supplied_metadata_reasons f m =
    map missing_reason m.missing
    ++ when
        (bool_eq m.minimum_complete (not (is_nil m.missing))
          || (m.nontruncated_complete && not m.minimum_complete)
          || not (str_eq m.paper_id f.paper_id))
        metadata_contradictory
    ++ when (not m.minimum_complete) metadata_incomplete
    ++ when
        (not m.current_version
          || not (str_eq m.version_id f.version_id)
          || not (eqb_ℤ m.revision_no f.revision_no))
        metadata_stale

unfoldable pub metadata_only_reasons : PaperProjection → Reasons
unfolding missing_reason
metadata_only_reasons f = elim f.metadata [
  | none ↦ metadata_unknown ∷ []
  | some m ↦ supplied_metadata_reasons f m
]

unfoldable pub metadata_reasons : PaperProjection → Reasons
metadata_reasons f = (canonical_reasons f ++ version_reasons f) ++ metadata_only_reasons f

abbrev pub is_undeterminable : Applicability → Bool
is_undeterminable undeterminable = true
is_undeterminable _ = false

abbrev pub is_present : Presence → Bool
is_present present = true
is_present _ = false

-- `_artifact_presence_contradictory`
unfoldable pub artifact_presence_contradictory : ArtifactFact → Bool
artifact_presence_contradictory a =
    not (is_present a.presence)
    && (is_some a.reference || is_some a.version_id || not (is_undeterminable a.applicability))

unfoldable pub screening_only_reasons : PaperProjection → Reasons
unfolding artifact_presence_contradictory
screening_only_reasons f =
    let a = f.screening in
    when (artifact_presence_contradictory a) screening_contradictory ++ elim a.presence [
      | Presence.absent ↦ screening_absent ∷ []
      | Presence.unknown ↦ screening_unknown ∷ []
      | Presence.present ↦
          when (opt_is_empty a.reference || opt_is_empty a.version_id) screening_contradictory
          ++ elim a.applicability [
            | Applicability.historical ↦ screening_historical ∷ []
            | Applicability.current ↦ []
            | Applicability.undeterminable ↦ screening_unknown ∷ []
          ]
    ]

unfoldable pub screening_reasons : PaperProjection → Reasons
screening_reasons f = (canonical_reasons f ++ version_reasons f) ++ screening_only_reasons f

-- `_pdf`
unfoldable pub pdf_reasons : PaperProjection → Reasons
unfolding artifact_presence_contradictory
pdf_reasons f =
    let pdf = f.pdf in
    when (artifact_presence_contradictory pdf) pdf_contradictory ++ elim pdf.presence [
      | Presence.absent ↦ pdf_absent ∷ []
      | Presence.unknown ↦ pdf_unknown ∷ []
      | Presence.present ↦
          (if opt_is_empty pdf.reference || is_none pdf.version_id
            then pdf_contradictory ∷ []
            else elim pdf.applicability [
              | Applicability.historical ↦ pdf_historical ∷ []
              | _ ↦ when (not (opt_is pdf.version_id f.version_id)) pdf_contradictory
            ])
          ++ when (is_undeterminable pdf.applicability) pdf_unknown
    ]

-- The last case of `_extraction`, of a finished extraction.
abbrev finished_extraction_reasons : PaperProjection → Bool → Reasons
finished_extraction_reasons f is_failed =
    let item = f.extraction in
    (if is_failed
      then extraction_retry_required ∷ []
      else when (opt_is_empty item.reference) extraction_contradictory)
    ++ (if is_none item.pdf_reference
        then extraction_contradictory ∷ []
        else elim item.applicability [
          | Applicability.historical ↦ extraction_historical ∷ []
          | _ ↦ when (not (opt_eq item.pdf_reference f.pdf.reference)) extraction_contradictory
        ])
    ++ when (is_undeterminable item.applicability) extraction_unknown

abbrev unfinished_contradictory : ExtractionFact → Bool
unfinished_contradictory item =
    is_some item.reference
    || is_some item.pdf_reference
    || not (is_undeterminable item.applicability)

-- `_extraction`
unfoldable pub extraction_reasons : PaperProjection → Reasons
extraction_reasons f = elim f.extraction.state [
  | ExtractionState.absent ↦
      when (unfinished_contradictory f.extraction) extraction_contradictory
      ++ extraction_absent ∷ []
  | ExtractionState.unknown ↦
      when (unfinished_contradictory f.extraction) extraction_contradictory
      ++ extraction_unknown ∷ []
  | ExtractionState.failed ↦ finished_extraction_reasons f true
  | ExtractionState.succeeded ↦ finished_extraction_reasons f false
]

abbrev pub is_unknown_root : RootPurpose → Bool
is_unknown_root RootPurpose.unknown = true
is_unknown_root _ = false

abbrev is_production_root : RootPurpose → Bool
is_production_root RootPurpose.production = true
is_production_root _ = false

abbrev unsettled_quality_contradictory : QualityFact → Bool
unsettled_quality_contradictory q = is_some q.extraction_reference || is_some q.failure

abbrev passed_quality_contradictory : PaperProjection → Bool
passed_quality_contradictory f =
    opt_is_empty f.quality.extraction_reference
    || not (opt_eq f.quality.extraction_reference f.extraction.reference)
    || is_some f.quality.failure

-- `_quality`
unfoldable pub quality_reasons : PaperProjection → Reasons
quality_reasons f = when (is_unknown_root f.root_purpose) root_unknown ++ elim f.quality.basis [
  | QualityBasis.failed ↦ quality_failed ∷ when (is_none f.quality.failure) quality_contradictory
  | QualityBasis.absent ↦
      when (unsettled_quality_contradictory f.quality) quality_contradictory ++ quality_absent ∷ []
  | QualityBasis.unknown ↦
      when (unsettled_quality_contradictory f.quality) quality_contradictory ++ quality_unknown ∷ []
  | QualityBasis.formal_gate ↦ when (passed_quality_contradictory f) quality_contradictory
  | QualityBasis.experiment_document_gate ↦
      when (passed_quality_contradictory f) quality_contradictory
      ++ when (is_production_root f.root_purpose) quality_not_formal
]
