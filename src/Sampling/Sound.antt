-- ===== src/Sampling/Sound.antt =====
-- fixture_audit/sampling_selection.py: what every way through `evaluate_candidate` ends with.
use paper_radar.Prelude.{
  List, Option, String, [], and_second, append-nil, arith, false, if◌then◌else◌, is_none, none,
  refl, some, subst, suc, true, ℕ, ◌&&◌, ◌++◌, ◌∙◌, ◌∷◌, ◌≡◌, ◌≤◌,
}
use paper_radar.Prelude.Results.{Result}
use paper_radar.Sources.{Route, doi_ra, is_mismatch, is_not_found, publisher}
use paper_radar.Sampling.{
  CategoryBasis, CategoryResult, Fault, FeedCandidate, Journal, JournalSampling, RouteExecution,
  SamplingOutcome, SamplingReason, SamplingRoute, SelectionResult, SourceSettlement, aies, dqkx,
  duplicate, excluded_deterministic, is_aies, is_dqkx, jgr, qjrms,
}
use paper_radar.Sampling.Categories.{Materials, category_result, duplicate_identity, feed_bases}
use paper_radar.Sampling.Selection.{
  Selection, acquired_settlement, agency_settlement, ask_agency, ask_identity, ask_publisher,
  ask_registry, categorised, conclude_at, evaluate_candidate, excluded, has_reason, identified,
  is_selected, not_asked, outcome, registry_route, route_record,
}
use paper_radar.Sampling.Replay.{references_of}
use paper_radar.Sampling.New.{category_result-journal_article, new_doi, new_entry}
use paper_radar.Sampling.Ends.{
  Ends, Ends-after, Ends-case_some, Ends-if, IsSound, IsTraced, IsTraced-acquire, IsTraced-le,
  references_of-append,
}

module _ {F B : Type 0} (given : Materials F B) (plan_id : String) (state : JournalSampling)
    (candidate : FeedCandidate) where
  -- The identity of the candidate, with the DOI that is known by now, allows that it is selected.
  record IsAllowed (doi : Option String) : Type 0 where
    identifiable : is_none doi && is_none candidate.entry_id ≡ false
    is_new : duplicate_identity doi candidate.entry_id state.entries ≡ false
    no_issue : candidate.identity_issue ≡ none

  -- The questions that the publisher of the journal takes.
  abbrev publisher_questions : ℕ
  publisher_questions = if is_dqkx state.journal then 1 else 0

  unselected-IsSound :
      (result : SelectionResult) (reason : SamplingReason) (doi : Option String)
      (bases : List CategoryBasis) (routes asked : List SamplingRoute) (left : ℕ)
      → is_selected result ≡ false
      → IsTraced routes asked left
      → IsSound state asked (outcome given plan_id state candidate result reason doi bases routes)
  unfolding outcome
  unselected-IsSound result reason doi bases routes asked left h t = record {
    traced = t.traced;
    bounded = omega (arith, t.bounded);
    chosen = λ s. cc;
    told = λ s. cc;
  }

  conclude_at-IsSound :
      (v : CategoryResult) (doi : Option String) (bases : List CategoryBasis)
      (routes asked : List SamplingRoute) (left : ℕ)
      → category_result bases ≡ v
      → IsAllowed doi
      → IsTraced routes asked left
      → Ends route_record
          (IsSound state)
          asked
          (conclude_at given plan_id state candidate v doi bases routes)
  unfolding conclude_at outcome
  conclude_at-IsSound CategoryResult.journal_article doi bases routes asked left h a t = record {
    traced = t.traced;
    bounded = omega (arith, t.bounded);
    chosen = λ s. record {
      articles_only = (category_result-journal_article bases h).0;
      some_article = (category_result-journal_article bases h).1;
      identifiable = a.identifiable;
      other_doi = λ d e. new_doi d doi candidate.entry_id state.entries e a.is_new;
      other_entry = λ i e k. new_entry i doi candidate.entry_id state.entries e k a.is_new;
      no_issue = a.no_issue;
    };
    told = λ s. refl;
  }
  conclude_at-IsSound CategoryResult.conflict doi bases routes asked left h a t =
      unselected-IsSound _ _ doi bases routes asked left refl t
  conclude_at-IsSound CategoryResult.non_journal_article doi bases routes asked left h a t =
      unselected-IsSound _ _ doi bases routes asked left refl t
  conclude_at-IsSound CategoryResult.unknown doi bases routes asked left h a t =
      unselected-IsSound _ _ doi bases routes asked left refl t

  categorised-IsSound :
      (e : RouteExecution) (read : SourceSettlement → Result Fault (List CategoryBasis))
      (doi : Option String) (bases : List CategoryBasis) (routes asked : List SamplingRoute)
      (left : ℕ) (later : List CategoryBasis → Selection SamplingOutcome)
      → IsTraced routes asked left
      → ((more : List CategoryBasis) → Ends route_record (IsSound state) asked (later more))
      → Ends route_record
          (IsSound state)
          asked
          (categorised given plan_id state candidate e read doi bases routes later)
  unfolding categorised
  categorised-IsSound e read doi bases routes asked left later t f =
      Ends-if route_record (IsSound state) asked (has_reason is_mismatch e) _ _
        (λ _. unselected-IsSound _ _ doi bases routes asked left refl t)
        (λ _.
          Ends-case_some route_record (IsSound state) asked (acquired_settlement e) _ _
            (λ s _.
              Ends-after route_record (IsSound state) asked (read s) _ (λ more. f (bases ++ more)))
            (λ _.
              Ends-if route_record (IsSound state) asked (has_reason is_not_found e) _ _
                (λ _. f bases) (λ _. unselected-IsSound _ _ doi bases routes asked left refl t)))

  ask_publisher-IsSound :
      (doi : String) (routes asked : List SamplingRoute) (bases : List CategoryBasis)
      → IsAllowed (some doi)
      → IsTraced routes asked publisher_questions
      → Ends route_record
          (IsSound state)
          asked
          (ask_publisher given plan_id state candidate doi routes bases)
  unfolding ask_publisher
  ask_publisher-IsSound doi routes asked bases a t =
      Ends-if route_record (IsSound state) asked (is_dqkx state.journal) _ _
        (λ d e.
          let one : IsTraced routes asked 1 =
            subst (λ b. IsTraced routes asked (if b then 1 else 0)) d t in
          let t' = IsTraced-acquire routes asked 0 publisher e one in
          categorised-IsSound e _ (some doi) bases _ _ 0 _ t'
            (λ more. conclude_at-IsSound _ (some doi) more _ _ 0 refl a t'))
        (λ _. conclude_at-IsSound _ (some doi) bases routes asked _ refl a t)

  ask_registry-IsSound :
      (doi : String) (registry : Option Route) (routes asked : List SamplingRoute)
      (bases : List CategoryBasis)
      → IsAllowed (some doi)
      → IsTraced routes asked (suc publisher_questions)
      → Ends route_record
          (IsSound state)
          asked
          (ask_registry given plan_id state candidate doi registry routes bases)
  unfolding ask_registry
  ask_registry-IsSound doi none routes asked bases a t =
      ask_publisher-IsSound doi routes asked bases a (IsTraced-le routes asked _ _ (omega arith) t)
  ask_registry-IsSound doi (some r) routes asked bases a t = λ e.
      let t' = IsTraced-acquire routes asked _ r e t in
      categorised-IsSound e _ (some doi) bases _ _ _ _ t'
        (λ more. ask_publisher-IsSound doi _ _ more a t')

  ask_agency-IsSound :
      (doi : String) (bases : List CategoryBasis) (routes asked : List SamplingRoute)
      → IsAllowed (some doi)
      → IsTraced routes asked (suc (suc publisher_questions))
      → Ends route_record
          (IsSound state)
          asked
          (ask_agency given plan_id state candidate doi bases routes)
  unfolding ask_agency
  ask_agency-IsSound doi bases routes asked a t = λ e.
      let t' = IsTraced-acquire routes asked _ doi_ra e t in
      Ends-if route_record (IsSound state) _ (has_reason is_mismatch e) _ _
        (λ _. unselected-IsSound _ _ (some doi) bases _ _ _ refl t')
        (λ _.
          Ends-case_some route_record (IsSound state) _ (agency_settlement e) _ _
            (λ s _. ask_registry-IsSound doi (registry_route s.agency) _ _ bases a t')
            (λ _. unselected-IsSound _ _ (some doi) bases _ _ _ refl t'))

  identified-IsSound :
      (doi : Option String) (bases : List CategoryBasis) (routes asked : List SamplingRoute)
      → candidate.identity_issue ≡ none
      → IsTraced routes asked (suc (suc publisher_questions))
      → Ends route_record
          (IsSound state)
          asked
          (identified given plan_id state candidate doi bases routes)
  unfolding identified
  identified-IsSound doi bases routes asked issue t =
      Ends-if route_record (IsSound state) asked _ _ _
        (λ _. unselected-IsSound _ _ doi bases routes asked _ refl t)
        (λ i.
          Ends-if route_record (IsSound state) asked _ _ _
            (λ _. unselected-IsSound _ _ doi bases routes asked _ refl t)
            (λ n.
              let a : IsAllowed doi = record { identifiable = i; is_new = n; no_issue = issue } in
              Ends-case_some route_record (IsSound state) asked doi _ _
                (λ d e. ask_agency-IsSound d bases routes asked (subst IsAllowed e a) t)
                (λ _. conclude_at-IsSound _ doi bases _ asked _ refl a (skipped t))))
    where
      skipped :
          {left : ℕ}
          → IsTraced routes asked left
          → IsTraced (routes ++ not_asked given plan_id state candidate ∷ []) asked left
      skipped t = record {
        traced = references_of-append routes _ ∙ append-nil (references_of routes) ∙ t.traced;
        bounded = t.bounded;
      }

  ask_identity-IsSound :
      (publisher_url : Option String) (bases : List CategoryBasis)
      → candidate.identity_issue ≡ none
      → IsTraced [] [] (suc (suc (suc publisher_questions)))
      → Ends route_record
          (IsSound state)
          []
          (ask_identity given plan_id state candidate publisher_url bases)
  unfolding ask_identity
  ask_identity-IsSound none bases issue t =
      Ends-case_some route_record (IsSound state) [] candidate.publisher_link_reason _ _
        (λ r _.
          unselected-IsSound _ _ none bases _ [] _ refl
            (record { traced = refl; bounded = t.bounded }))
        (λ _. identified-IsSound none bases [] [] issue (IsTraced-le [] [] _ _ (omega arith) t))
  ask_identity-IsSound (some url) bases issue t = λ e.
      let t' = IsTraced-acquire [] [] _ publisher e t in
      Ends-if route_record (IsSound state) _ (has_reason is_mismatch e) _ _
        (λ _. unselected-IsSound _ _ none bases _ _ _ refl t')
        (λ _.
          Ends-case_some route_record (IsSound state) _ (acquired_settlement e) _ _
            (λ s _. identified-IsSound s.identity_doi bases _ _ issue t')
            (λ _.
              Ends-if route_record (IsSound state) _ (has_reason is_not_found e) _ _
                (λ _. unselected-IsSound _ _ none bases _ _ _ refl t')
                (λ _. unselected-IsSound _ _ none bases _ _ _ refl t')))

  pub evaluate_candidate-IsSound :
      Ends route_record (IsSound state) [] (evaluate_candidate given plan_id state candidate)
  unfolding evaluate_candidate
  evaluate_candidate-IsSound =
      let bases = feed_bases given state.journal candidate state.feed_acquisition_id in
      let asked_on : Selection SamplingOutcome =
        ask_identity given plan_id state candidate candidate.publisher_url bases in
      let known : Selection SamplingOutcome =
        identified given plan_id state candidate candidate.doi bases [] in
      let repeated : Selection SamplingOutcome =
        excluded given plan_id state candidate duplicate candidate.doi bases [] in
      let is_repeated = duplicate_identity candidate.doi candidate.entry_id state.entries in
      let is_unknown = is_none candidate.doi && is_aies state.journal in
      Ends-case_some route_record (IsSound state) [] candidate.identity_issue _ _
        (λ issue _. unselected-IsSound _ _ candidate.doi bases [] [] _ refl (fresh 0 (omega arith)))
        (λ issue.
          Ends-if route_record (IsSound state) [] is_repeated repeated
            (if is_unknown then asked_on else known)
            (λ _.
              unselected-IsSound excluded_deterministic duplicate candidate.doi bases [] [] _ refl
                (fresh 0 (omega arith)))
            (λ _.
              Ends-if route_record (IsSound state) [] is_unknown asked_on known
                (λ h.
                  ask_identity-IsSound candidate.publisher_url bases issue
                    (fresh _ (of_aies state.journal (and_second (is_none candidate.doi) _ h))))
                (λ _. identified-IsSound candidate.doi bases [] [] issue (fresh _ (ground arith)))))
    where
      fresh : (left : ℕ) → left ≤ 3 → IsTraced [] [] left
      fresh left h = record { traced = refl; bounded = omega (arith, h) }

      of_aies : (j : Journal) → is_aies j ≡ true → suc (suc (suc (if is_dqkx j then 1 else 0))) ≤ 3
      of_aies aies h = omega arith
      of_aies jgr h = cc
      of_aies qjrms h = cc
      of_aies dqkx h = cc
