-- ===== src/Eligibility/Facts/Clear.antt =====
-- eligibility/rules.py: what the facts are when a group of them gives no reason.
use paper_radar.Prelude.{
  Option, Option-cases, String, [], append-eq-nil, arith, eq_iff, false, inl, inr, is_none, none,
  some, true, ◌++◌, ◌↔◌, ◌≡◌, ◌≢◌, ◌⊎◌,
}
use paper_radar.Prelude.Int.{eqb_ℤ, ltb_ℤ, pos}
use paper_radar.Prelude.Text.{is_empty, opt_eq, opt_is_empty, opt_is_iff}
use paper_radar.Eligibility.Models.{
  MetadataFacts, PaperProjection, RootPurpose, current, experiment_document_gate, formal_gate,
  present, succeeded,
}
use paper_radar.Eligibility.Facts.{
  canonical_reasons, extraction_reasons, is_unknown_root, metadata_only_reasons, pdf_reasons,
  quality_reasons, screening_only_reasons, screening_reasons, version_reasons,
}

-- The paper is named, and is its own canonical paper.
pub record IsCanonical (f : PaperProjection) : Type 0 where
  pub named : is_empty f.paper_id ≡ false
  pub itself : f.canonical_id ≡ some f.paper_id

-- The version is named, has a revision, and is the current one.
pub record IsCurrent (f : PaperProjection) : Type 0 where
  pub named : is_empty f.version_id ≡ false
  pub revised : ltb_ℤ f.revision_no (pos 1) ≡ false
  pub newest : f.current_version_id ≡ some f.version_id

-- The metadata misses nothing, and is that of this paper, version and revision.
pub record IsComplete (f : PaperProjection) (m : MetadataFacts) : Type 0 where
  pub nothing_missing : m.missing ≡ []
  pub complete : m.minimum_complete ≡ true
  pub fresh : m.current_version ≡ true
  pub same_paper : m.paper_id ≡ f.paper_id
  pub same_version : m.version_id ≡ f.version_id
  pub same_revision : eqb_ℤ m.revision_no f.revision_no ≡ true

-- A current file of this version is there.
pub record HasPdf (f : PaperProjection) : Type 0 where
  pub there : f.pdf.presence ≡ present
  pub named : opt_is_empty f.pdf.reference ≡ false
  pub same_version : f.pdf.version_id ≡ some f.version_id
  pub applies : f.pdf.applicability ≡ current

-- A current extraction of that file has succeeded.
pub record HasExtraction (f : PaperProjection) : Type 0 where
  pub done : f.extraction.state ≡ succeeded
  pub named : opt_is_empty f.extraction.reference ≡ false
  pub of_pdf : f.extraction.pdf_reference ≡ f.pdf.reference
  pub pdf_named : is_none f.extraction.pdf_reference ≡ false
  pub applies : f.extraction.applicability ≡ current

-- The extraction has passed the formal gate, or an experiment's document gate outside production.
pub record HasQuality (f : PaperProjection) : Type 0 where
  pub gate :
      (f.quality.basis ≡ formal_gate)
      ⊎ ((f.quality.basis ≡ experiment_document_gate) × (f.root_purpose ≡ RootPurpose.experiment))
  pub of_extraction : f.quality.extraction_reference ≡ f.extraction.reference
  pub extraction_named : opt_is_empty f.quality.extraction_reference ≡ false
  pub sound : f.quality.failure ≡ none
  pub purpose_known : is_unknown_root f.root_purpose ≡ false

pub opt_eq_iff : (a b : Option String) → (opt_eq a b ≡ true) ↔ (a ≡ b)
opt_eq_iff none none = ground arith
opt_eq_iff none (some s) = ground arith
opt_eq_iff (some t) none = ground arith
opt_eq_iff (some t) (some s) = ground (arith, eq_iff s t)

-- A current screening artifact of some version is there.
pub record HasScreening (f : PaperProjection) : Type 0 where
  pub there : f.screening.presence ≡ present
  pub named : opt_is_empty f.screening.reference ≡ false
  pub version_named : opt_is_empty f.screening.version_id ≡ false
  pub applies : f.screening.applicability ≡ current

module _ (f : PaperProjection) where
  pub canonical_reasons_clear : canonical_reasons f ≡ [] → IsCanonical f
  unfolding canonical_reasons
  canonical_reasons_clear h = ground (arith, opt_is_iff f.canonical_id f.paper_id)

  pub canonical_reasons-nil : IsCanonical f → canonical_reasons f ≡ []
  unfolding canonical_reasons
  canonical_reasons-nil h = ground (arith, eq_iff f.paper_id f.paper_id, eq_iff f.paper_id "")

  pub version_reasons_clear : version_reasons f ≡ [] → IsCurrent f
  unfolding version_reasons
  version_reasons_clear h = elim (Option-cases f.current_version_id) [
    | inl e ↦ ground arith
    | inr (id, e) ↦ ground (arith, eq_iff f.version_id id)
  ]

  pub version_reasons-nil : IsCurrent f → version_reasons f ≡ []
  unfolding version_reasons
  version_reasons-nil h = ground (arith, eq_iff f.version_id f.version_id)

  pub pdf_reasons_clear : pdf_reasons f ≡ [] → HasPdf f
  unfolding pdf_reasons
  pdf_reasons_clear h = ground (arith, opt_is_iff f.pdf.version_id f.version_id)

  screening_only_reasons_clear : screening_only_reasons f ≡ [] → HasScreening f
  unfolding screening_only_reasons
  screening_only_reasons_clear h = ground arith

  pub screening_reasons_clear :
      screening_reasons f ≡ [] → IsCanonical f × IsCurrent f × HasScreening f
  unfolding screening_reasons
  screening_reasons_clear h =
      let (front, own) =
        append-eq-nil (canonical_reasons f ++ version_reasons f) (screening_only_reasons f) h in
      let (canonical, version) = append-eq-nil (canonical_reasons f) (version_reasons f) front in
      (
        canonical_reasons_clear canonical,
        version_reasons_clear version,
        screening_only_reasons_clear own,
      )

  pub pdf_reasons-nil : HasPdf f → pdf_reasons f ≡ []
  unfolding pdf_reasons
  pdf_reasons-nil h = ground (arith, eq_iff f.version_id f.version_id)

  pub extraction_reasons_clear : extraction_reasons f ≡ [] → HasExtraction f
  unfolding extraction_reasons
  extraction_reasons_clear h = ground (arith, opt_eq_iff f.extraction.pdf_reference f.pdf.reference)

  pub extraction_reasons-nil : HasExtraction f → extraction_reasons f ≡ []
  unfolding extraction_reasons
  extraction_reasons-nil h = ground (arith, opt_eq_iff f.extraction.pdf_reference f.pdf.reference)

  pub quality_reasons_clear : quality_reasons f ≡ [] → HasQuality f
  unfolding quality_reasons
  quality_reasons_clear h =
      ground (arith, opt_eq_iff f.quality.extraction_reference f.extraction.reference)

  pub quality_reasons-nil : HasQuality f → quality_reasons f ≡ []
  unfolding quality_reasons
  quality_reasons-nil h =
      ground (arith, opt_eq_iff f.quality.extraction_reference f.extraction.reference)

  pub metadata_only_reasons_clear :
      (m : MetadataFacts) → f.metadata ≡ some m → metadata_only_reasons f ≡ [] → IsComplete f m
  unfolding metadata_only_reasons
  metadata_only_reasons_clear m e h =
      ground (arith, eq_iff m.paper_id f.paper_id, eq_iff m.version_id f.version_id)

  pub metadata_only_reasons-nil :
      (m : MetadataFacts) → f.metadata ≡ some m → IsComplete f m → metadata_only_reasons f ≡ []
  unfolding metadata_only_reasons
  metadata_only_reasons-nil m e h =
      ground (arith, eq_iff m.paper_id f.paper_id, eq_iff m.version_id f.version_id)

  pub no_metadata : f.metadata ≡ none → metadata_only_reasons f ≢ []
  unfolding metadata_only_reasons
  no_metadata e h = ground arith
