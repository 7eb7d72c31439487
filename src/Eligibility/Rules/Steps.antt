-- ===== src/Eligibility/Rules/Steps.antt =====
-- eligibility/rules.py: the steps of a paper's way to a read exclude one another.
use paper_radar.Prelude.{
  Bool, Bool-cases, List, [], append-eq-nil, arith, false, inl, inr, is_nil, is_nil→eq, keep,
  length, not, refl, some, true, when, ◌&&◌, ◌++◌, ◌||◌, ◌∷◌, ◌≡◌, ◌≢◌, ◌≤◌, ◌⊎◌,
}
use paper_radar.Eligibility.Models.{
  Concept, EligibilityReason, ExtractionState, PaperProjection, contains, extraction_absent,
  extraction_already_present, extraction_failed, extraction_historical, extraction_not_failed,
  extraction_retry_required, needs_extraction, needs_pdf, pdf_already_present, read_prerequisites,
  reason_eq,
}
use paper_radar.Eligibility.Facts.{
  Reasons, canonical_reasons, extraction_reasons, pdf_reasons, result, version_reasons,
}
use paper_radar.Eligibility.Facts.Clear.{
  extraction_reasons-nil, extraction_reasons_clear, pdf_reasons-nil, pdf_reasons_clear,
}
use paper_radar.Eligibility.Rules.{
  accepted_reasons, discard, evaluate_paper, extraction_failed_reasons, extraction_step, is_absent,
  is_absent_extraction, is_failed, is_succeeded, needs_extraction_reasons, needs_pdf_reasons,
  pdf_step, read_reasons,
}
use paper_radar.Eligibility.Rules.Reading.{read_reasons_clear}

discard-append :
    (r : EligibilityReason) (xs ys : Reasons) → discard r (xs ++ ys) ≡ discard r xs ++ discard r ys
unfolding discard
discard-append r [] ys = refl
discard-append r (x ∷ xs) ys = ground (arith, discard-append r xs ys)

abbrev without_pending : Reasons → Reasons
without_pending rs =
    discard extraction_retry_required (discard extraction_historical (discard extraction_absent rs))

without_pending-append :
    (xs ys : Reasons) → without_pending (xs ++ ys) ≡ without_pending xs ++ without_pending ys
without_pending-append xs ys = simp discard-append

-- With a file and nothing against it, a file is not needed.
pdf_step-clear : (b : Bool) (acc pdf : Reasons) → b ≡ false → pdf ≡ [] → pdf_step b acc pdf ≢ []
unfolding pdf_step contains
pdf_step-clear true acc pdf e clear h = cc
pdf_step-clear false acc (r ∷ rs) e clear h = cc
pdf_step-clear false acc [] e clear h =
    let (_, last) = append-eq-nil (acc ++ []) (pdf_already_present ∷ []) h in cc

abbrev is_due : ExtractionState → Reasons → Bool
is_due state extraction = is_absent_extraction state || contains extraction_historical extraction

-- Where an extraction is needed, none is there or a historical one, unless it has failed to finish.
extraction_step-eq-nil :
    (state : ExtractionState) (before extraction : Reasons)
    → extraction_step state before extraction ≡ []
    → (is_due state extraction ≡ true) × (without_pending before ≡ [])
      ⊎ (extraction ≡ []) × (is_succeeded state ≡ false)
unfolding extraction_step
extraction_step-eq-nil state before extraction h = elim (Bool-cases (is_due state extraction)) [
  | inl due ↦
      let h' : without_pending (before ++ extraction) ≡ [] = rw due at h in
      let h'' : without_pending before ++ without_pending extraction ≡ [] =
        rw without_pending-append at h' in
      inl (due, (append-eq-nil (without_pending before) (without_pending extraction) h'').0)
  | inr late ↦
      let last = when (is_succeeded state && is_nil extraction) extraction_already_present in
      let h' : (before ++ extraction) ++ last ≡ [] = rw late at h in
      let (h'', e) = append-eq-nil (before ++ extraction) last h' in
      let (_, clear) = append-eq-nil before extraction h'' in inr (clear, ground arith)
]

retry_not_historical :
    (x : EligibilityReason)
    → reason_eq x extraction_retry_required ≡ true
    → reason_eq extraction_historical x ≡ false
unfolding reason_eq
retry_not_historical extraction_retry_required e = refl
retry_not_historical _ e = cc

contains-discard_nil :
    (xs : Reasons)
    → discard extraction_retry_required xs ≡ []
    → contains extraction_historical xs ≡ false
unfolding discard contains
contains-discard_nil [] h = refl
contains-discard_nil (x ∷ xs) h = elim (Bool-cases (reason_eq x extraction_retry_required)) [
  | inl e ↦
      let h' : discard extraction_retry_required xs ≡ [] = rw e at h in
      ground (arith, retry_not_historical x e, contains-discard_nil xs h')
  | inr e ↦ ground arith
]

module _ (f : PaperProjection) where
  pdf-of_needs_pdf : needs_pdf_reasons f ≡ [] → pdf_reasons f ≢ []
  unfolding needs_pdf_reasons
  pdf-of_needs_pdf h clear =
      pdf_step-clear (is_absent f.pdf.presence) (accepted_reasons f) (pdf_reasons f)
        (ground (arith, (pdf_reasons_clear f clear).there)) clear h

  pdf_kept : without_pending (pdf_reasons f) ≡ [] → pdf_reasons f ≡ []
  unfolding pdf_reasons discard reason_eq
  pdf_kept h = ground arith

  pdf_kept_by_retry : discard extraction_retry_required (pdf_reasons f) ≡ [] → pdf_reasons f ≡ []
  unfolding pdf_reasons discard reason_eq
  pdf_kept_by_retry h = ground arith

  -- A paper whose extraction is due has its file, and either no extraction or a historical one.
  needs_extraction_lem :
      needs_extraction_reasons f ≡ []
      → (is_due f.extraction.state (extraction_reasons f) ≡ true) × (pdf_reasons f ≡ [])
  unfolding needs_extraction_reasons
  needs_extraction_lem h =
      elim (extraction_step-eq-nil f.extraction.state (accepted_reasons f ++ pdf_reasons f)
        (extraction_reasons f) h) [
          | inl (due, before) ↦
              let before' : without_pending (accepted_reasons f) ++ without_pending (pdf_reasons f)
                  ≡ [] =
                rw without_pending-append at before in
              (
                due,
                pdf_kept
                    (append-eq-nil (without_pending (accepted_reasons f))
                      (without_pending (pdf_reasons f)) before').1,
              )
          | inr (clear, unfinished) ↦
              absurd (ground (arith, (extraction_reasons_clear f clear).done))
        ]

  -- Once extraction has failed, the file is there, and the failure is not historical.
  extraction_failed_lem :
      extraction_failed_reasons f ≡ []
      → (is_due f.extraction.state (extraction_reasons f) ≡ false)
        × (pdf_reasons f ≡ [])
        × (is_failed f.extraction.state ≡ true)
  unfolding extraction_failed_reasons
  extraction_failed_lem h =
      let base = canonical_reasons f ++ version_reasons f in
      let pdf = pdf_reasons f in
      let extraction = extraction_reasons f in
      let last = when (not (is_failed f.extraction.state)) extraction_not_failed in
      let retry = extraction_retry_required in
      let (kept, done) = append-eq-nil (discard retry ((base ++ pdf) ++ extraction)) last h in
      let kept' : discard retry (base ++ pdf) ++ discard retry extraction ≡ [] =
        rw discard-append at kept in
      let (left, right) =
        append-eq-nil (discard retry (base ++ pdf)) (discard retry extraction) kept' in
      let left' : discard retry base ++ discard retry pdf ≡ [] = rw discard-append at left in
      let (_, of_pdf) = append-eq-nil (discard retry base) (discard retry pdf) left' in
      (
        ground (arith, contains-discard_nil extraction right),
        pdf_kept_by_retry of_pdf,
        ground arith,
      )

abbrev pub is_open : PaperProjection → Concept → Bool
is_open f c = elim ((evaluate_paper f c).eligible) [ some true ↦ true | _ ↦ false ]

-- The steps that a paper goes through on its way to a read.
abbrev pub steps : List Concept
steps = needs_pdf ∷ needs_extraction ∷ extraction_failed ∷ read_prerequisites ∷ []

-- What an open step says of the file and of the extraction.
record Stage (f : PaperProjection) : Type 0 where
  pdf_missing : is_nil (needs_pdf_reasons f) ≡ true → is_nil (pdf_reasons f) ≡ false
  due :
      is_nil (needs_extraction_reasons f) ≡ true
      → (is_due f.extraction.state (extraction_reasons f) ≡ true) × (is_nil (pdf_reasons f) ≡ true)
  broken :
      is_nil (extraction_failed_reasons f) ≡ true
      → (is_due f.extraction.state (extraction_reasons f) ≡ false)
        × (is_nil (pdf_reasons f) ≡ true)
        × (is_failed f.extraction.state ≡ true)
  ready :
      is_nil (read_reasons f) ≡ true
      → (is_due f.extraction.state (extraction_reasons f) ≡ false)
        × (is_nil (pdf_reasons f) ≡ true)
        × (is_failed f.extraction.state ≡ false)

stage : (f : PaperProjection) → Stage f
unfolding contains
stage f = record {
  pdf_missing = λ h.
      let absent = pdf-of_needs_pdf f (is_nil→eq (needs_pdf_reasons f) h) in
      elim (Bool-cases (is_nil (pdf_reasons f))) [
        | inl e ↦ absurd (absent (is_nil→eq (pdf_reasons f) e))
        | inr e ↦ e
      ];
  due = λ h.
      let (late, clear) = needs_extraction_lem f (is_nil→eq (needs_extraction_reasons f) h) in
      (late, rw clear);
  broken = λ h.
      let (late, clear, is_broken) =
        extraction_failed_lem f (is_nil→eq (extraction_failed_reasons f) h) in
      (late, rw clear, is_broken);
  ready = λ h.
      let readable = read_reasons_clear f (is_nil→eq (read_reasons f) h) in
      let clear = extraction_reasons-nil f readable.extraction in
      let done = readable.extraction.done in
      (ground (arith, clear, done), rw (pdf_reasons-nil f readable.pdf), ground (arith, done));
}

-- At most one step is open: the paper needs its file, or an extraction, or has a failed extraction,
-- or has the prerequisites of a read.
pub steps_exclusive : (f : PaperProjection) → length (keep (is_open f) steps) ≤ 1
unfolding evaluate_paper result
steps_exclusive f = let s = stage f in ground (arith, s.pdf_missing, s.due, s.broken, s.ready)
