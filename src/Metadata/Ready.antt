-- ===== src/Metadata/Ready.antt =====
-- feed_metadata/projection.py and eligibility/rules.py: when the projected metadata suffices.
use paper_radar.Prelude.{
  All, Bool, Bool-cases, List, Option, String, [], and_first, and_second, ap, append-eq-nil, eq_iff,
  false, inl, inr, is_nil, is_nil→eq, is_none, is_some, none, not, not-false, refl, some, str_eq,
  subst, sym, true, when, ◌&&◌, ◌++◌, ◌↔◌, ◌∙◌, ◌≡◌, ◌≢◌,
}
use paper_radar.Prelude.Int.{eqb_ℤ, ℤ}
use paper_radar.Prelude.Results.{ok, ok_injective, problem}
use paper_radar.Sources.{doi_ra}
use paper_radar.Metadata.Routes.{IsRouted, all_iff, IsRouted-same_routes, same_routes-IsRouted}
use paper_radar.Metadata.{
  FieldValue, MetadataBasis, MetadataResult, MetadataRoute, RegistryApplicability, View,
  abstract_missing, abstract_value, agency_missing, all_committed, corrupt, expected_routes,
  find_route, from_result, is_current_view, missing_of, other_value, project_metadata,
  registry_applicability_of, result_of, same_routes, text_value, truncation_of,
}
use paper_radar.Eligibility.Models.{
  MetadataFacts, PaperProjection, Support, current_version_changed, metadata_ready, no_source_url,
  no_title, routes_incomplete,
}
use paper_radar.Eligibility.Emptiness.{eligible-result_iff}
use paper_radar.Eligibility.Facts.{metadata_reasons}
use paper_radar.Eligibility.Facts.Clear.{IsCanonical, IsComplete, IsCurrent, opt_eq_iff}
use paper_radar.Eligibility.Rules.{evaluate_paper}
use paper_radar.Eligibility.Rules.Reading.{IsEligible, metadata_reasons-nil, metadata_reasons_clear}

-- What a version's metadata must be: that of the current version with the same DOI, with a title, an
-- abstract of known truncation and an address, and with the routes that its DOI demands, which have all
-- been committed in a revision.
pub record IsSufficient (basis : MetadataBasis) (revision latest : View)
    (values : List MetadataRoute) (revision_no : Option ℤ) : Type 0 where
  pub same_version : latest.version_id ≡ basis.version_id
  pub same_doi : latest.doi ≡ basis.doi
  pub has_title : revision.title ≢ none
  pub has_abstract :
      (truncated : Bool) × (revision.abstract_field ≡ some (abstract_value (some truncated)))
  pub has_url : revision.source_url ≢ none
  pub revised : revision_no ≢ none
  pub routed : IsRouted basis.doi values
  pub committed : All (λ v. v.committed ≡ true) values

is_none_iff : {A : Type 0} (o : Option A) → (is_none o ≡ false) ↔ (o ≢ none)
is_none_iff none = (λ h. cc, λ h. absurd (h refl))
is_none_iff (some a) = (λ h e. cc, λ h. refl)

is_some_iff : {A : Type 0} (o : Option A) → (is_some o ≡ true) ↔ (o ≢ none)
is_some_iff none = (λ h. cc, λ h. absurd (h refl))
is_some_iff (some a) = (λ h e. cc, λ h. refl)

current_view_iff :
    (basis : MetadataBasis) (latest : View)
    → (is_current_view basis latest ≡ true)
      ↔ ((latest.version_id ≡ basis.version_id) × (latest.doi ≡ basis.doi))
current_view_iff basis latest =
    let version = eq_iff latest.version_id basis.version_id in
    let doi = opt_eq_iff latest.doi basis.doi in
    let same = str_eq latest.version_id basis.version_id in
    (
      λ h. (version.0 (and_first same _ h), doi.0 (and_second same _ h)),
      λ h. rw (version.1 h.0, doi.1 h.1) refl,
    )

abstract_missing_iff :
    (field : Option FieldValue)
    → (abstract_missing (truncation_of field) ≡ [])
      ↔ ((truncated : Bool) × (field ≡ some (abstract_value (some truncated))))
abstract_missing_iff none = (λ h. cc, λ h. cc)
abstract_missing_iff (some (text_value t)) = (λ h. cc, λ h. cc)
abstract_missing_iff (some other_value) = (λ h. cc, λ h. cc)
abstract_missing_iff (some (abstract_value none)) = (λ h. cc, λ h. cc)
abstract_missing_iff (some (abstract_value (some truncated))) = (λ h. (truncated, refl), λ h. refl)

when_nil {ℓ} : {A : Type ℓ} (b : Bool) (a : A) → when b a ≡ [] → b ≡ false
when_nil true a h = cc
when_nil false a h = refl

missing_of_nil :
    (c : Bool) (v : View) (s : Bool) (a : RegistryApplicability)
    → missing_of c v s a ≡ []
    → (c ≡ true)
      × (is_none v.title ≡ false)
      × (abstract_missing (truncation_of v.abstract_field) ≡ [])
      × (is_none v.source_url ≡ false)
      × (s ≡ true)
      × (agency_missing a ≡ [])
unfolding missing_of
missing_of_nil c v s a h =
    let t = truncation_of v.abstract_field in
    let (h₁, agency) =
      append-eq-nil
        (when (not c) current_version_changed
          ++ when (is_none v.title) no_title
          ++ abstract_missing t
          ++ when (is_none v.source_url) no_source_url
          ++ when (not s) routes_incomplete)
        (agency_missing a) h in
    let (h₂, routes) =
      append-eq-nil
        (when (not c) current_version_changed
          ++ when (is_none v.title) no_title
          ++ abstract_missing t
          ++ when (is_none v.source_url) no_source_url)
        (when (not s) routes_incomplete) h₁ in
    let (h₃, url) =
      append-eq-nil
        (when (not c) current_version_changed
          ++ when (is_none v.title) no_title
          ++ abstract_missing t)
        (when (is_none v.source_url) no_source_url) h₂ in
    let (h₄, abstract_one) =
      append-eq-nil (when (not c) current_version_changed ++ when (is_none v.title) no_title)
        (abstract_missing t) h₃ in
    let (version, title) =
      append-eq-nil (when (not c) current_version_changed) (when (is_none v.title) no_title) h₄ in
    (
      not-false c (when_nil (not c) current_version_changed version),
      when_nil (is_none v.title) no_title title,
      abstract_one,
      when_nil (is_none v.source_url) no_source_url url,
      not-false s (when_nil (not s) routes_incomplete routes),
      agency,
    )

missing_of-nil :
    (c : Bool) (v : View) (s : Bool) (a : RegistryApplicability)
    → c ≡ true
    → is_none v.title ≡ false
    → abstract_missing (truncation_of v.abstract_field) ≡ []
    → is_none v.source_url ≡ false
    → s ≡ true
    → agency_missing a ≡ []
    → missing_of c v s a ≡ []
unfolding missing_of
missing_of-nil c v s a h₁ h₂ h₃ h₄ h₅ h₆ = rw (h₁, h₂, h₃, h₄, h₅, h₆)

module _ (key : String) (basis : MetadataBasis) (revision latest : View)
    (values : List MetadataRoute) (revision_no : Option ℤ) where
  abbrev routing : Option MetadataRoute
  routing = find_route doi_ra values

  abbrev agreed : Bool
  agreed =
      same_routes (expected_routes basis routing (registry_applicability_of basis routing)) values
      && all_committed values

  project_result :
      (r : MetadataResult)
      → project_metadata key basis revision latest values revision_no ≡ ok r
      → result_of key basis revision latest values
          (is_some revision_no && agreed)
          (registry_applicability_of basis routing)
        ≡ r
  unfolding project_metadata
  project_result r h = elim (Bool-cases (is_some revision_no && not agreed)) [
    | inl refused_one ↦ let h' : problem corrupt ≡ ok r = rw refused_one at h in cc
    | inr fine ↦ ok_injective (rw fine at h)
  ]

  complete_missing :
      (r : MetadataResult)
      → project_metadata key basis revision latest values revision_no ≡ ok r
      → (r.minimum_complete ≡ is_nil r.missing)
        × (r.missing
            ≡ missing_of
                (is_current_view basis latest)
                revision
                (is_some revision_no && agreed)
                (registry_applicability_of basis routing))
        × (r.current_version ≡ is_current_view basis latest)
  unfolding result_of
  complete_missing r h =
      let e = project_result r h in
      subst
        (λ (x : MetadataResult).
          (x.minimum_complete ≡ is_nil x.missing)
          × (x.missing
              ≡ missing_of (is_current_view basis latest) revision (is_some revision_no && agreed)
                  (registry_applicability_of basis routing))
          × (x.current_version ≡ is_current_view basis latest))
        e (refl, refl, refl)

  -- A projection that is made is complete exactly when the version is the current one and has the same
  -- DOI, there are a title, an abstract of known truncation and an address, a revision has been written
  -- and all routes are committed, and the routes are none for a paper without a DOI, or for one with a
  -- DOI an acquired agency, Crossref or DataCite, the publisher and the registry of this agency.
  pub project_metadata-complete_iff :
      (r : MetadataResult)
      → project_metadata key basis revision latest values revision_no ≡ ok r
      → (r.minimum_complete ≡ true) ↔ IsSufficient basis revision latest values revision_no
  project_metadata-complete_iff r h =
      let (complete, missing, _) = complete_missing r h in
      (
        (λ m.
            let nil = sym missing ∙ is_nil→eq r.missing (sym complete ∙ m) in
            let (c, t, b, u, s, a) = missing_of_nil _ revision _ _ nil in
            let (version, doi) = (current_view_iff basis latest).0 c in
            let agreement = and_second (is_some revision_no) _ s in
            record {
              same_version = version;
              same_doi = doi;
              has_title = (is_none_iff revision.title).0 t;
              has_abstract = (abstract_missing_iff revision.abstract_field).0 b;
              has_url = (is_none_iff revision.source_url).0 u;
              revised = (is_some_iff revision_no).0 (and_first (is_some revision_no) _ s);
              routed = same_routes-IsRouted basis values a (and_first _ _ agreement);
              committed =
                  (all_iff (λ (v : MetadataRoute). v.committed) values).0
                    (and_second _ _ agreement);
            }),
        (λ i.
            let (a, same) = IsRouted-same_routes basis values i.routed in
            let committed = (all_iff (λ (v : MetadataRoute). v.committed) values).1 i.committed in
            complete
            ∙ ap is_nil (
                missing
                ∙ missing_of-nil _ revision _ _
                    ((current_view_iff basis latest).1 (i.same_version, i.same_doi))
                    ((is_none_iff revision.title).1 i.has_title)
                    ((abstract_missing_iff revision.abstract_field).1 i.has_abstract)
                    ((is_none_iff revision.source_url).1 i.has_url)
                    (both_true (is_some revision_no) _ ((is_some_iff revision_no).1 i.revised)
                      (both_true _ _ same committed))
                    a)),
      )
    where
      both_true : (a b : Bool) → a ≡ true → b ≡ true → (a && b) ≡ true
      both_true a b p q = rw (p, q)

  -- A paper whose metadata has been projected is ready exactly when the paper is canonical, the version
  -- is current, the projection is complete, and it is that of this paper, version and revision.
  pub metadata_ready_iff :
      (r : MetadataResult) (f : PaperProjection)
      → project_metadata key basis revision latest values revision_no ≡ ok r
      → f.metadata ≡ some (from_result r)
      → IsEligible f metadata_ready ↔ (
          IsCanonical f
          × IsCurrent f
          × (r.minimum_complete ≡ true)
          × (r.paper_id ≡ f.paper_id)
          × (r.version_id ≡ f.version_id)
          × (eqb_ℤ r.revision_no f.revision_no ≡ true))
  unfolding evaluate_paper
  metadata_ready_iff r f h supplied =
      let iff = eligible-result_iff (metadata_reasons f) Support.partial "minimum_metadata_only" in
      let (complete, missing, version) = complete_missing r h in
      (
        (λ e.
            let (canonical, newest, has) = metadata_reasons_clear f (iff.0 e) in
            let same : has.facts ≡ from_result r = some_injective (sym has.supplied ∙ supplied) in
            let whole : IsComplete f (from_result r) = subst (IsComplete f) same has.complete in
            (
              canonical, newest, whole.complete, whole.same_paper, whole.same_version,
              whole.same_revision,
            )),
        (λ t.
            let nil = is_nil→eq r.missing (sym complete ∙ t.2) in
            let parts = missing_of_nil _ revision _ _ (sym missing ∙ nil) in
            iff.1 (
              metadata_reasons-nil f t.0 t.1 (record {
                facts = from_result r;
                supplied = supplied;
                complete = record {
                  nothing_missing = nil;
                  complete = t.2;
                  fresh = version ∙ parts.0;
                  same_paper = t.3;
                  same_version = t.4;
                  same_revision = t.5;
                };
              }))),
      )
    where
      some_injective : {a b : MetadataFacts} → some a ≡ some b → a ≡ b
      some_injective h = cc
