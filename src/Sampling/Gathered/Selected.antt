-- ===== src/Sampling/Gathered/Selected.antt =====
-- fixture_audit/sampling_selection.py: that the bases of a selected candidate are those of the feed and of
-- its answers, by the parts of `evaluate_candidate`.
use paper_radar.Prelude.{
  Bool-cases, List, Option, String, [], and_second, false, if◌then◌else◌, inl, inr, is_none, none,
  refl, some, true, ◌&&◌, ◌++◌, ◌∙◌, ◌∷◌, ◌≡◌, ◌⊎◌,
}
use paper_radar.Prelude.Results.{Result, ok}
use paper_radar.Prelude.Text.{opt_is}
use paper_radar.Sources.{
  Route, doi_ra, is_mismatch, is_not_found, publisher, registry_crossref, registry_datacite,
}
use paper_radar.Sampling.{
  CategoryBasis, CategoryResult, Fault, FeedCandidate, Journal, JournalSampling, RouteExecution,
  SamplingOutcome, SamplingReason, SamplingRoute, SelectionResult, SourceSettlement, aies, dqkx,
  duplicate, excluded_deterministic, is_aies, is_dqkx, jgr, no_stable_identifier, qjrms,
}
use paper_radar.Sampling.Categories.{Materials, category_result, duplicate_identity}
use paper_radar.Sampling.Selection.{
  Selection, acquired_settlement, agency_settlement, ask_agency, ask_identity, ask_publisher,
  ask_registry, case_some, categorised, conclude, conclude_at, evaluate_candidate, excluded,
  has_reason, identified, is_selected, not_asked, outcome, read_registry, registry_route,
}
use paper_radar.Sampling.Ends.{Ends, Ends-after_ok, Ends-case_some, Ends-if}
use paper_radar.Sampling.Gathered.{
  Answer, IsGathered, answered, gathered, gathered-append, gathered-silent, names_categories,
  names_nothing, names_read, not_acquired, read_named, start,
}

module _ {F B : Type 0} (given : Materials F B) (plan_id : String) (state : JournalSampling)
    (candidate : FeedCandidate) where
  unselected-IsGathered :
      (result : SelectionResult) (reason : SamplingReason) (doi : Option String)
      (bases : List CategoryBasis) (routes : List SamplingRoute) (answers : List Answer)
      → is_selected result ≡ false
      → (IsGathered given plan_id state candidate) answers
          (outcome given plan_id state candidate result reason doi bases routes)
  unfolding outcome
  unselected-IsGathered result reason doi bases routes answers h = record { of_selected = λ s. cc }

  conclude_at-IsGathered :
      (v : CategoryResult) (doi : Option String) (bases : List CategoryBasis)
      (routes : List SamplingRoute) (answers : List Answer)
      → (gathered given plan_id state candidate) (start given plan_id state candidate) answers
        ≡ ok bases
      → Ends answered
          (IsGathered given plan_id state candidate)
          answers
          (conclude_at given plan_id state candidate v doi bases routes)
  unfolding conclude_at outcome
  conclude_at-IsGathered CategoryResult.journal_article doi bases routes answers g = record {
    of_selected = λ s. g;
  }
  conclude_at-IsGathered CategoryResult.conflict doi bases routes answers g =
      unselected-IsGathered _ _ doi bases routes answers refl
  conclude_at-IsGathered CategoryResult.non_journal_article doi bases routes answers g =
      unselected-IsGathered _ _ doi bases routes answers refl
  conclude_at-IsGathered CategoryResult.unknown doi bases routes answers g =
      unselected-IsGathered _ _ doi bases routes answers refl

  categorised-IsGathered :
      (r : Route) (e : RouteExecution) (read : SourceSettlement → Result Fault (List CategoryBasis))
      (doi : Option String) (bases : List CategoryBasis) (routes : List SamplingRoute)
      (before : List Answer) (later : List CategoryBasis → Selection SamplingOutcome)
      → (names_categories given plan_id state candidate) r ≡ true
      → ((s : SourceSettlement) → (read_named given plan_id state candidate) r e s ≡ read s)
      → (gathered given plan_id state candidate) (start given plan_id state candidate) before
        ≡ ok bases
      → ((bs : List CategoryBasis)
          → (gathered given plan_id state candidate)
              (start given plan_id state candidate)
              (before ++ (r, e) ∷ [])
            ≡ ok bs
          → Ends answered
              (IsGathered given plan_id state candidate)
              (before ++ (r, e) ∷ [])
              (later bs))
      → Ends answered
          (IsGathered given plan_id state candidate)
          (before ++ (r, e) ∷ [])
          (categorised given plan_id state candidate e read doi bases routes later)
  unfolding categorised
  categorised-IsGathered r e read doi bases routes before later n same g f =
      let now = before ++ (r, e) ∷ [] in
      Ends-if answered (IsGathered given plan_id state candidate) now (has_reason is_mismatch e) _ _
        (λ _. unselected-IsGathered _ _ doi bases routes now refl)
        (λ _.
          Ends-case_some answered (IsGathered given plan_id state candidate) now
            (acquired_settlement e) _ _
            (λ s is_read.
              Ends-after_ok answered (IsGathered given plan_id state candidate) now (read s) _
                (λ more told. f (bases ++ more) (
                  (gathered-append given plan_id state candidate)
                    (start given plan_id state candidate) bases more before (r, e) g
                    ((names_read given plan_id state candidate) r e s n is_read ∙ same s ∙ told))))
            (λ absent.
              Ends-if answered (IsGathered given plan_id state candidate) now
                (has_reason is_not_found e) _ _
                (λ _. f bases (
                  (gathered-silent given plan_id state candidate) bases before (r, e) g
                    ((not_acquired given plan_id state candidate) r e absent)))
                (λ _. unselected-IsGathered _ _ doi bases routes now refl)))

  ask_publisher-IsGathered :
      (doi : String) (routes : List SamplingRoute) (bases : List CategoryBasis)
      (answers : List Answer)
      → (gathered given plan_id state candidate) (start given plan_id state candidate) answers
        ≡ ok bases
      → Ends answered
          (IsGathered given plan_id state candidate)
          answers
          (ask_publisher given plan_id state candidate doi routes bases)
  unfolding ask_publisher
  ask_publisher-IsGathered doi routes bases answers g =
      Ends-if answered (IsGathered given plan_id state candidate) answers (is_dqkx state.journal) _
        _
        (λ d e.
          categorised-IsGathered publisher e _ (some doi) bases _ answers _ d (λ s. refl) g
            (λ more g'. conclude_at-IsGathered _ (some doi) more _ _ g'))
        (λ _. conclude_at-IsGathered _ (some doi) bases routes answers g)

  IsRegistry : Route → Type 0
  IsRegistry r = (r ≡ registry_crossref) ⊎ (r ≡ registry_datacite)

  registry_names :
      (r : Route) → IsRegistry r → (names_categories given plan_id state candidate) r ≡ true
  unfolding IsRegistry
  registry_names r (inl h) = rw h refl
  registry_names r (inr h) = rw h refl

  registry_reads :
      (r : Route) (e : RouteExecution) (s : SourceSettlement)
      → IsRegistry r
      → (read_named given plan_id state candidate) r e s
        ≡ read_registry given plan_id state candidate r e s
  unfolding IsRegistry
  registry_reads r e s (inl h) = rw h refl
  registry_reads r e s (inr h) = rw h refl

  ask_registry-IsGathered :
      (doi : String) (registry : Option Route) (routes : List SamplingRoute)
      (bases : List CategoryBasis) (answers : List Answer)
      → ((r : Route) → registry ≡ some r → IsRegistry r)
      → (gathered given plan_id state candidate) (start given plan_id state candidate) answers
        ≡ ok bases
      → Ends answered
          (IsGathered given plan_id state candidate)
          answers
          (ask_registry given plan_id state candidate doi registry routes bases)
  unfolding ask_registry
  ask_registry-IsGathered doi none routes bases answers k g =
      ask_publisher-IsGathered doi routes bases answers g
  ask_registry-IsGathered doi (some r) routes bases answers k g = λ e.
      categorised-IsGathered r e _ (some doi) bases _ answers _ (registry_names r (k r refl))
        (λ s. registry_reads r e s (k r refl)) g
        (λ more g'. ask_publisher-IsGathered doi _ more _ g')

  registry_route-IsRegistry :
      (agency : Option String) (r : Route) → registry_route agency ≡ some r → IsRegistry r
  unfolding IsRegistry
  registry_route-IsRegistry agency r h = elim (Bool-cases (opt_is agency "Crossref")) [
    | inl c ↦ let h' : some registry_crossref ≡ some r = rw c at h in inl (cc)
    | inr n ↦ elim (Bool-cases (opt_is agency "DataCite")) [
      | inl c ↦ let h' : some registry_datacite ≡ some r = rw (n, c) at h in inr (cc)
      | inr m ↦ let h' : none ≡ some r = rw (n, m) at h in cc
    ]
  ]

  ask_agency-IsGathered :
      (doi : String) (bases : List CategoryBasis) (routes : List SamplingRoute)
      (answers : List Answer)
      → (gathered given plan_id state candidate) (start given plan_id state candidate) answers
        ≡ ok bases
      → Ends answered
          (IsGathered given plan_id state candidate)
          answers
          (ask_agency given plan_id state candidate doi bases routes)
  unfolding ask_agency
  ask_agency-IsGathered doi bases routes answers g = λ e.
      let g' =
        (gathered-silent given plan_id state candidate) bases answers (doi_ra, e) g
          ((names_nothing given plan_id state candidate) doi_ra e refl) in
      Ends-if answered (IsGathered given plan_id state candidate) _ (has_reason is_mismatch e) _ _
        (λ _. unselected-IsGathered _ _ (some doi) bases _ _ refl)
        (λ _.
          Ends-case_some answered (IsGathered given plan_id state candidate) _ (agency_settlement e)
            _ _
            (λ s _.
              ask_registry-IsGathered doi (registry_route s.agency) _ bases _
                (registry_route-IsRegistry s.agency) g')
            (λ _. unselected-IsGathered _ _ (some doi) bases _ _ refl))

  identified-IsGathered :
      (doi : Option String) (bases : List CategoryBasis) (routes : List SamplingRoute)
      (answers : List Answer)
      → (gathered given plan_id state candidate) (start given plan_id state candidate) answers
        ≡ ok bases
      → Ends answered
          (IsGathered given plan_id state candidate)
          answers
          (identified given plan_id state candidate doi bases routes)
  unfolding identified
  identified-IsGathered doi bases routes answers g =
      let nothing : Selection SamplingOutcome =
        excluded given plan_id state candidate no_stable_identifier doi bases routes in
      let repeated : Selection SamplingOutcome =
        excluded given plan_id state candidate duplicate doi bases routes in
      let all_routes = routes ++ not_asked given plan_id state candidate ∷ [] in
      let without : Selection SamplingOutcome =
        conclude given plan_id state candidate doi bases all_routes in
      let asked : Selection SamplingOutcome =
        case_some doi (λ d. ask_agency given plan_id state candidate d bases routes) without in
      let is_unknown = is_none doi && is_none candidate.entry_id in
      let is_repeated = duplicate_identity doi candidate.entry_id state.entries in
      Ends-if answered (IsGathered given plan_id state candidate) answers is_unknown nothing
        (if is_repeated then repeated else asked)
        (λ _.
          unselected-IsGathered excluded_deterministic no_stable_identifier doi bases routes answers
            refl)
        (λ _.
          Ends-if answered (IsGathered given plan_id state candidate) answers is_repeated repeated
            asked
            (λ _.
              unselected-IsGathered excluded_deterministic duplicate doi bases routes answers refl)
            (λ _.
              Ends-case_some answered (IsGathered given plan_id state candidate) answers doi _
                without (λ d _. ask_agency-IsGathered d bases routes answers g)
                (λ _.
                  conclude_at-IsGathered (category_result bases) doi bases all_routes answers g)))

  ask_identity-IsGathered :
      (publisher_url : Option String) (bases : List CategoryBasis)
      → is_dqkx state.journal ≡ false
      → (gathered given plan_id state candidate) (start given plan_id state candidate) [] ≡ ok bases
      → Ends answered
          (IsGathered given plan_id state candidate)
          []
          (ask_identity given plan_id state candidate publisher_url bases)
  unfolding ask_identity
  ask_identity-IsGathered none bases d g =
      Ends-case_some answered (IsGathered given plan_id state candidate) []
        candidate.publisher_link_reason _ _ (λ r _. unselected-IsGathered _ _ none bases _ [] refl)
        (λ _. identified-IsGathered none bases [] [] g)
  ask_identity-IsGathered (some url) bases d g = λ e.
      let g' =
        (gathered-silent given plan_id state candidate) bases [] (publisher, e) g
          ((names_nothing given plan_id state candidate) publisher e d) in
      Ends-if answered (IsGathered given plan_id state candidate) _ (has_reason is_mismatch e) _ _
        (λ _. unselected-IsGathered _ _ none bases _ _ refl)
        (λ _.
          Ends-case_some answered (IsGathered given plan_id state candidate) _
            (acquired_settlement e) _ _ (λ s _. identified-IsGathered s.identity_doi bases _ _ g')
            (λ _.
              Ends-if answered (IsGathered given plan_id state candidate) _
                (has_reason is_not_found e) _ _ (λ _. unselected-IsGathered _ _ none bases _ _ refl)
                (λ _. unselected-IsGathered _ _ none bases _ _ refl)))

  pub evaluate_candidate-IsGathered :
      Ends answered
        (IsGathered given plan_id state candidate)
        []
        (evaluate_candidate given plan_id state candidate)
  unfolding evaluate_candidate gathered
  evaluate_candidate-IsGathered =
      let asked_on : Selection SamplingOutcome =
        ask_identity given plan_id state candidate candidate.publisher_url
          (start given plan_id state candidate) in
      let known : Selection SamplingOutcome =
        identified given plan_id state candidate candidate.doi (start given plan_id state candidate)
          [] in
      let repeated : Selection SamplingOutcome =
        excluded given plan_id state candidate duplicate candidate.doi
          (start given plan_id state candidate) [] in
      let is_repeated = duplicate_identity candidate.doi candidate.entry_id state.entries in
      let is_unknown = is_none candidate.doi && is_aies state.journal in
      Ends-case_some answered (IsGathered given plan_id state candidate) [] candidate.identity_issue
        _ _
        (λ issue _.
          unselected-IsGathered _ _ candidate.doi (start given plan_id state candidate) [] [] refl)
        (λ issue.
          Ends-if answered (IsGathered given plan_id state candidate) [] is_repeated repeated
            (if is_unknown then asked_on else known)
            (λ _.
              unselected-IsGathered excluded_deterministic duplicate candidate.doi
                (start given plan_id state candidate) [] [] refl)
            (λ _.
              Ends-if answered (IsGathered given plan_id state candidate) [] is_unknown asked_on
                known
                (λ h.
                  ask_identity-IsGathered candidate.publisher_url
                    (start given plan_id state candidate)
                    (of_aies state.journal (and_second (is_none candidate.doi) _ h)) refl)
                (λ _.
                  identified-IsGathered candidate.doi (start given plan_id state candidate) [] []
                    refl)))
    where
      of_aies : (j : Journal) → is_aies j ≡ true → is_dqkx j ≡ false
      of_aies aies h = refl
      of_aies jgr h = refl
      of_aies qjrms h = refl
      of_aies dqkx h = cc
