-- ===== src/Screening/Validation/Accepted.antt =====
-- screening/validation.py: which outputs are accepted.
use paper_radar.Prelude.{
  All, All-map, Bool, Bool-cases, List, Option, String, [], any, append-eq-nil, append-nil_nil,
  arith, false, inl, inr, is_nil, leb, leb→le, none, not, not-false, refl, some, str_eq, true,
  when_nil_iff, ℕ, ◌&&◌, ◌+◌, ◌↔◌, ◌∷◌, ◌≡◌, ◌≢◌, ◌≤◌,
}
use paper_radar.Screening.Outputs.{
  ExcerptKind, ReuseAssessmentContext, ReuseAssessmentOutput, TextOps, ValuePredictionContext,
  ValuePredictionOutput, ValueType, at_field, at_item, availability, both_kinds, excerpt_kind_eq,
  invalid_text, issue, methods, value_type_eq,
}
use paper_radar.Screening.Validation.{
  ExcerptScan, adaptation_issues, differs_from_both, excerpt_issues, has_kind, is_meaningful_text,
  kind_mismatch, reuse_assessment_business_issues, scan_excerpts, states_input_is_insufficient,
  text_issues, title_issues, value_prediction_business_issues,
}
use paper_radar.Screening.Validation.Items.{
  AreKnown, IsDistinct, item_issues-nil_iff, known_kinds, or_false, scan_excerpts-known_kinds,
  scan_excerpts-nil_iff,
}

module _ (ops : TextOps) where
  abbrev pub IsMeaningful : String → Type 0
  IsMeaningful value = is_meaningful_text ops value ≡ true

  -- A title is given for an original that is not Chinese, and is meaningful.
  abbrev pub IsTitleFine : Option String → Bool → Type 0
  IsTitleFine none is_zh = Unit
  IsTitleFine (some title) is_zh = (is_zh ≡ false) × IsMeaningful title

  pub record IsAcceptableValue (context : ValuePredictionContext) (o : ValuePredictionOutput)
      : Type 0 where
    pub value_reason : IsMeaningful o.research_value_reason_zh
    pub reuse_reason : IsMeaningful o.reuse_feasibility_reason_zh
    pub abstract_brief : IsMeaningful o.abstract_brief_zh
    pub why_it_may_matter : IsMeaningful o.why_it_may_matter_zh
    pub title : IsTitleFine o.display_title_zh context.original_title_is_zh
    pub not_inferable :
        o.reuse_feasibility_inferable ≡ false
        → states_input_is_insufficient ops o.reuse_feasibility_reason_zh ≡ true
    pub has_types : 3 ≤ o.research_value → o.value_types ≢ []
    pub distinct_types : IsDistinct value_type_eq o.value_types
    pub distinct_topics : IsDistinct str_eq o.topic_ids
    pub enabled_topics : All (λ t. any (str_eq t) context.enabled_topic_ids ≡ true) o.topic_ids

  -- The kinds of the excerpts are those that the output declares.
  abbrev pub IsMatching : ExcerptKind → List ExcerptKind → Type 0
  IsMatching both_kinds kinds =
      (has_kind availability kinds ≡ true)
      × (has_kind methods kinds ≡ true)
      × (has_kind both_kinds kinds ≡ false)
  IsMatching declared kinds = All (λ kind. excerpt_kind_eq kind declared ≡ true) kinds

  pub record IsAcceptableReuse (context : ReuseAssessmentContext) (o : ReuseAssessmentOutput)
      : Type 0 where
    pub reason : IsMeaningful o.reuse_feasibility_reason_zh
    pub adaptations : All IsMeaningful o.required_adaptations
    pub has_excerpts : o.excerpt_ids ≢ []
    pub distinct_excerpts : IsDistinct str_eq o.excerpt_ids
    pub known_excerpts : AreKnown context.excerpt_kinds o.excerpt_ids
    pub matching : IsMatching o.excerpt_kind (known_kinds context.excerpt_kinds o.excerpt_ids)

  text_issues-nil_iff :
      (field value : String) → (text_issues ops field value ≡ []) ↔ IsMeaningful value
  text_issues-nil_iff field value =
      let w =
        when_nil_iff (not (is_meaningful_text ops value)) (issue (at_field field) invalid_text) in
      (λ h. not-false _ (w.0 h), λ h. w.1 (rw h refl))

  title_issues-nil_iff :
      (title : Option String) (is_zh : Bool)
      → (title_issues ops title is_zh ≡ []) ↔ IsTitleFine title is_zh
  unfolding title_issues
  title_issues-nil_iff none is_zh = (λ h. tt, λ h. refl)
  title_issues-nil_iff (some title) true = (λ h. cc, λ h. cc)
  title_issues-nil_iff (some title) false =
      let w = text_issues-nil_iff "display_title_zh" title in (λ h. (refl, w.0 h), λ h. w.1 h.1)

  adaptation_issues-nil_iff :
      (index : ℕ) (xs : List String) → (adaptation_issues ops index xs ≡ []) ↔ All IsMeaningful xs
  unfolding adaptation_issues
  adaptation_issues-nil_iff index [] = (λ h. tt, λ h. refl)
  adaptation_issues-nil_iff index (x ∷ xs) =
      let first =
        when_nil_iff (not (is_meaningful_text ops x))
          (issue (at_item "required_adaptations" index) invalid_text) in
      let rest = adaptation_issues-nil_iff (index + 1) xs in
      (
        (λ h.
            let (f, r) = append-eq-nil _ (adaptation_issues ops (index + 1) xs) h in
            (not-false _ (first.0 f), rest.0 r)),
        (λ h. append-nil_nil _ _ (first.1 (rw h.0 refl)) (rest.1 h.1)),
      )

  inferable_iff :
      (inferable meaningful insufficient : Bool)
      → meaningful ≡ true
      → (not inferable && meaningful && not insufficient ≡ false)
        ↔ (inferable ≡ false → insufficient ≡ true)
  inferable_iff inferable meaningful insufficient m = ground arith

  has_types_iff :
      (value : ℕ) (types : List ValueType)
      → (leb 3 value && is_nil types ≡ false) ↔ (3 ≤ value → types ≢ [])
  has_types_iff value [] = (λ h le e. absurd (absurd_from le h), λ h. few h)
    where
      absurd_from : 3 ≤ value → (leb 3 value && true) ≡ false → ⊥
      absurd_from le h = ground arith

      few : (3 ≤ value → ◌≢◌ {A = List ValueType} [] []) → (leb 3 value && true) ≡ false
      few h = elim (Bool-cases (leb 3 value)) [
        | inl e ↦ absurd (h (leb→le 3 value e) refl)
        | inr e ↦ rw e refl
      ]
  has_types_iff value (t ∷ types) = (λ h le e. cc, λ h. ground arith)

  pub value_prediction_business_issues-nil_iff :
      (output : ValuePredictionOutput) (context : ValuePredictionContext)
      → (value_prediction_business_issues ops output context ≡ [])
        ↔ IsAcceptableValue context output
  unfolding value_prediction_business_issues
  value_prediction_business_issues-nil_iff output context =
      let reason = text_issues-nil_iff "research_value_reason_zh" output.research_value_reason_zh in
      let reuse =
        text_issues-nil_iff "reuse_feasibility_reason_zh" output.reuse_feasibility_reason_zh in
      let brief = text_issues-nil_iff "abstract_brief_zh" output.abstract_brief_zh in
      let why = text_issues-nil_iff "why_it_may_matter_zh" output.why_it_may_matter_zh in
      let title = title_issues-nil_iff output.display_title_zh context.original_title_is_zh in
      let inferable =
        inferable_iff output.reuse_feasibility_inferable
          (is_meaningful_text ops output.reuse_feasibility_reason_zh)
          (states_input_is_insufficient ops output.reuse_feasibility_reason_zh) in
      let typed = has_types_iff output.research_value output.value_types in
      let types = item_issues-nil_iff value_type_eq (λ t. false) "value_types" output.value_types in
      let topics =
        item_issues-nil_iff str_eq (λ t. not (any (str_eq t) context.enabled_topic_ids)) "topic_ids"
          output.topic_ids in
      (
        (λ h.
            let (h₁, p₉) = append-eq-nil _ _ h in
            let (h₂, p₈) = append-eq-nil _ _ h₁ in
            let (h₃, p₇) = append-eq-nil _ _ h₂ in
            let (h₄, p₆) = append-eq-nil _ _ h₃ in
            let (h₅, p₅) = append-eq-nil _ _ h₄ in
            let (h₆, p₄) = append-eq-nil _ _ h₅ in
            let (h₇, p₃) = append-eq-nil _ _ h₆ in
            let (p₁, p₂) = append-eq-nil _ _ h₇ in
            record {
              value_reason = reason.0 p₁;
              reuse_reason = reuse.0 p₂;
              abstract_brief = brief.0 p₃;
              why_it_may_matter = why.0 p₄;
              title = title.0 p₅;
              not_inferable = (inferable (reuse.0 p₂)).0 ((when_nil_iff _ _).0 p₆);
              has_types = typed.0 ((when_nil_iff _ _).0 p₇);
              distinct_types = (types.0 p₈).0;
              distinct_topics = (topics.0 p₉).0;
              enabled_topics = All-map _ _ output.topic_ids (λ t e. not-false _ e) (topics.0 p₉).1;
            }),
        (λ a.
            let all_types = All-false output.value_types in
            let enabled = All-map _ _ output.topic_ids (λ t e. rw e refl) a.enabled_topics in
            append-nil_nil _ _
              (append-nil_nil _ _
                (append-nil_nil _ _
                  (append-nil_nil _ _
                    (append-nil_nil _ _
                      (append-nil_nil _ _
                        (append-nil_nil _ _
                          (append-nil_nil _ _ (reason.1 a.value_reason) (reuse.1 a.reuse_reason))
                          (brief.1 a.abstract_brief))
                        (why.1 a.why_it_may_matter))
                      (title.1 a.title))
                    ((when_nil_iff _ _).1 ((inferable a.reuse_reason).1 a.not_inferable)))
                  ((when_nil_iff _ _).1 (typed.1 a.has_types)))
                (types.1 (a.distinct_types, all_types)))
              (topics.1 (a.distinct_topics, enabled))),
      )
    where
      All-false : (xs : List ValueType) → All (λ _. false ≡ false) xs
      All-false [] = tt
      All-false (x ∷ xs) = (refl, All-false xs)

  any-not_iff :
      (declared : ExcerptKind) (kinds : List ExcerptKind)
      → (any (λ kind. not (excerpt_kind_eq kind declared)) kinds ≡ false)
        ↔ All (λ kind. excerpt_kind_eq kind declared ≡ true) kinds
  any-not_iff declared [] = (λ h. tt, λ h. refl)
  any-not_iff declared (k ∷ kinds) =
      let rest = any-not_iff declared kinds in
      (
        (λ h. let (f, r) = or_false _ _ h in (not-false _ f, rest.0 r)),
        (λ h. rw (h.0, rest.1 h.1) refl),
      )

  kind_mismatch_iff :
      (declared : ExcerptKind) (r : ExcerptScan) (kinds : List ExcerptKind)
      → r.has_unknown_excerpt ≡ false
      → r.referenced_kinds ≡ kinds
      → (kind_mismatch declared r ≡ false) ↔ IsMatching declared kinds
  unfolding kind_mismatch differs_from_both
  kind_mismatch_iff both_kinds r kinds u same = rw (u, same) (both _ _ _)
    where
      both :
          (a m b : Bool) → (not (a && m && not b) ≡ false) ↔ ((a ≡ true) × (m ≡ true) × (b ≡ false))
      both a m b = ground arith
  kind_mismatch_iff availability r kinds u same = rw same (any-not_iff availability kinds)
  kind_mismatch_iff methods r kinds u same = rw same (any-not_iff methods kinds)

  excerpt_issues-nil_iff :
      (declared : ExcerptKind) (kinds : List (String × ExcerptKind)) (xs : List String)
      → (excerpt_issues ops declared kinds xs ≡ []) ↔ (
          (xs ≢ [])
          × IsDistinct str_eq xs
          × AreKnown kinds xs
          × IsMatching declared (known_kinds kinds xs))
  unfolding excerpt_issues
  excerpt_issues-nil_iff declared kinds [] = (λ h. cc, λ h. absurd (h.0 refl))
  excerpt_issues-nil_iff declared kinds (x ∷ xs) =
      let scanned = scan_excerpts-nil_iff kinds (x ∷ xs) in
      let scan = scan_excerpts kinds 0 [] (x ∷ xs) in
      (
        (λ h.
            let (clear, fits) = append-eq-nil scan.issues _ h in
            let (distinct, known) = scanned.0 clear in
            let (unknown, same) = scan_excerpts-known_kinds kinds 0 [] (x ∷ xs) clear in
            (
              (λ e. cc),
              distinct,
              known,
              (kind_mismatch_iff declared scan _ unknown same).0 ((when_nil_iff _ _).0 fits),
            )),
        (λ h.
            let clear = scanned.1 (h.1, h.2) in
            let (unknown, same) = scan_excerpts-known_kinds kinds 0 [] (x ∷ xs) clear in
            append-nil_nil scan.issues _ clear
              ((when_nil_iff _ _).1 ((kind_mismatch_iff declared scan _ unknown same).1 h.3))),
      )

  pub reuse_assessment_business_issues-nil_iff :
      (output : ReuseAssessmentOutput) (context : ReuseAssessmentContext)
      → (reuse_assessment_business_issues ops output context ≡ [])
        ↔ IsAcceptableReuse context output
  unfolding reuse_assessment_business_issues
  reuse_assessment_business_issues-nil_iff output context =
      let reason =
        text_issues-nil_iff "reuse_feasibility_reason_zh" output.reuse_feasibility_reason_zh in
      let adaptations = adaptation_issues-nil_iff 0 output.required_adaptations in
      let excerpts =
        excerpt_issues-nil_iff output.excerpt_kind context.excerpt_kinds output.excerpt_ids in
      (
        (λ h.
            let (h₁, p₃) = append-eq-nil _ _ h in
            let (p₁, p₂) = append-eq-nil _ _ h₁ in
            let (nonempty, distinct, known, matching) = excerpts.0 p₃ in
            record {
              reason = reason.0 p₁;
              adaptations = adaptations.0 p₂;
              has_excerpts = nonempty;
              distinct_excerpts = distinct;
              known_excerpts = known;
              matching = matching;
            }),
        (λ a.
            append-nil_nil _ _
              (append-nil_nil _ _ (reason.1 a.reason) (adaptations.1 a.adaptations))
              (excerpts.1 (a.has_excerpts, a.distinct_excerpts, a.known_excerpts, a.matching))),
      )
