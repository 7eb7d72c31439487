-- ===== src/Sampling/Selection.antt =====
-- fixture_audit/sampling_selection.py, `evaluate_candidate`: a candidate's selection as a program that
-- asks its source for executions. The lists `routes` and `bases`, which the source code appends to,
-- and the DOI are handed on from step to step.
use paper_radar.Prelude.{
  Bool, List, Option, String, [], false, get_last?, if◌then◌else◌, is_none, none, some, true, ◌&&◌,
  ◌++◌, ◌||◌, ◌∷◌,
}
use paper_radar.Prelude.Text.{is_empty, opt_is}
use paper_radar.Prelude.Results.{Result, ok, problem, ◌>>=◌}
use paper_radar.Sources.{
  Route, SourceReason, doi_ra, is_acquired, is_mismatch, is_not_found, is_unsupported,
  not_applicable_no_doi, outcome_unknown, publisher, registry_crossref, registry_datacite,
}
use paper_radar.Sampling.{
  CategoryBasis, CategoryResult, Fault, FeedCandidate, IdentityIssue, JournalSampling,
  RouteExecution, SamplingOutcome, SamplingReason, SamplingRoute, SelectionResult, SourceRequest,
  SourceSettlement, blocked_pending, category_conflict, category_unknown, conflicting_dois,
  duplicate, excluded_deterministic, identity_conflict, identity_unavailable, invalid_doi,
  invalid_identity, is_aies, is_dqkx, no_stable_identifier, not_journal_article, reason_of,
  source_blocked,
}
use paper_radar.Sampling.Categories.{
  Materials, category_result, duplicate_identity, feed_bases, publisher_bases, registry_bases,
}

-- `source(route, request)` answers with an execution, and the selection goes on with it.
pub data Selection (A : Type 0) : Type 0 where
  done : A → Selection A
  raised : Fault → Selection A
  ask : Route → SourceRequest → (RouteExecution → Selection A) → Selection A

-- Python's `if o: ... else: ...` on an object that may be absent.
abbrev pub case_some : {A B : Type 0} → Option A → (A → B) → B → B
case_some (some a) present absent = present a
case_some none present absent = absent

-- A call that may raise, in a selection.
abbrev pub after :
    {A : Type 0} → Result Fault A → (A → Selection SamplingOutcome) → Selection SamplingOutcome
after (ok a) later = later a
after (problem f) later = raised f

abbrev pub recorded_reason : Option SourceReason → SourceReason
recorded_reason none = outcome_unknown
recorded_reason (some r) = r

-- What `acquire` records of an execution.
abbrev pub route_record : Route → RouteExecution → SamplingRoute
route_record r e = record {
  route = r;
  acquisition_id = some e.execution_id;
  reason = recorded_reason (reason_of e);
  is_applicable = true;
}

abbrev pub has_reason : (SourceReason → Bool) → RouteExecution → Bool
has_reason p e = elim (reason_of e) [ none ↦ false | some r ↦ p r ]

-- `material_decoding`
abbrev pub material_decoding : SourceSettlement → String
material_decoding s = elim s.content_decoding [
  | none ↦ "utf-8"
  | some d ↦ if is_empty d then "utf-8" else d
]

abbrev pub last_event : List SamplingOutcome → Option String
last_event history = elim (get_last? history) [ none ↦ none | some o ↦ some o.event_id ]

-- The settlement of an acquired execution.
abbrev pub acquired_settlement : RouteExecution → Option SourceSettlement
acquired_settlement e = if has_reason is_acquired e then e.settlement else none

-- The settlement of an execution of the route "doi_ra" that the selection goes on with.
abbrev pub agency_settlement : RouteExecution → Option SourceSettlement
agency_settlement e =
    if has_reason is_acquired e || has_reason is_unsupported e then e.settlement else none

abbrev pub registry_route : Option String → Option Route
registry_route agency =
    if opt_is agency "Crossref"
    then some registry_crossref
    else if opt_is agency "DataCite"
    then some registry_datacite
    else none

abbrev pub is_selected : SelectionResult → Bool
is_selected SelectionResult.selected = true
is_selected _ = false

module _ {F B : Type 0} (given : Materials F B) (plan_id : String) (state : JournalSampling)
    (candidate : FeedCandidate) where
  unfoldable pub outcome :
      SelectionResult
      → SamplingReason
      → Option String
      → List CategoryBasis
      → List SamplingRoute
      → SamplingOutcome
  outcome result reason doi bases routes = record {
    event_id = "";
    plan_id = plan_id;
    journal = state.journal;
    previous_event_id = last_event state.history;
    position = candidate.position;
    candidate = candidate;
    result = result;
    reason = reason;
    doi = doi;
    entry_id = candidate.entry_id;
    category_bases = bases;
    routes = routes;
    member_id =
        if is_selected result
        then some
            (given.member_identity plan_id state.journal candidate.position doi candidate.entry_id)
        else none;
  }

  abbrev pub excluded :
      SamplingReason
      → Option String
      → List CategoryBasis
      → List SamplingRoute
      → Selection SamplingOutcome
  excluded reason doi bases routes = done (outcome excluded_deterministic reason doi bases routes)

  abbrev pub blocked :
      Option String → List CategoryBasis → List SamplingRoute → Selection SamplingOutcome
  blocked doi bases routes = done (outcome blocked_pending source_blocked doi bases routes)

  abbrev pub acquire :
      Route
      → Option String
      → Option String
      → List SamplingRoute
      → (RouteExecution → List SamplingRoute → Selection SamplingOutcome)
      → Selection SamplingOutcome
  acquire route doi publisher_url routes later =
      ask route
        (record {
          journal = state.journal;
          route = route;
          doi = doi;
          publisher_url = publisher_url;
          settings = "";
        })
        (λ e. later e (routes ++ route_record route e ∷ []))

  -- What the verdict on the categories comes to.
  unfoldable pub conclude_at :
      CategoryResult
      → Option String
      → List CategoryBasis
      → List SamplingRoute
      → Selection SamplingOutcome
  conclude_at CategoryResult.journal_article doi bases routes =
      done (outcome SelectionResult.selected SamplingReason.selected doi bases routes)
  conclude_at CategoryResult.conflict doi bases routes = excluded category_conflict doi bases routes
  conclude_at CategoryResult.non_journal_article doi bases routes =
      excluded not_journal_article doi bases routes
  conclude_at CategoryResult.unknown doi bases routes = excluded category_unknown doi bases routes

  abbrev pub conclude :
      Option String → List CategoryBasis → List SamplingRoute → Selection SamplingOutcome
  conclude doi bases routes = conclude_at (category_result bases) doi bases routes

  -- What follows the execution of a registry or a publisher that may name a category.
  unfoldable pub categorised :
      RouteExecution
      → (SourceSettlement → Result Fault (List CategoryBasis))
      → Option String
      → List CategoryBasis
      → List SamplingRoute
      → (List CategoryBasis → Selection SamplingOutcome)
      → Selection SamplingOutcome
  categorised e read doi bases routes later =
      if has_reason is_mismatch e
      then excluded identity_conflict doi bases routes
      else case_some (acquired_settlement e) (λ s. after (read s) (λ more. later (bases ++ more)))
          (if has_reason is_not_found e then later bases else blocked doi bases routes)

  abbrev pub read_publisher : RouteExecution → SourceSettlement → Result Fault (List CategoryBasis)
  read_publisher e s = do
    raw ← given.read_material e
    publisher_bases given raw (some e.execution_id) (material_decoding s)

  abbrev pub read_registry :
      Route → RouteExecution → SourceSettlement → Result Fault (List CategoryBasis)
  read_registry r e s = do
    raw ← given.read_material e
    registry_bases given r raw (some e.execution_id)

  -- The publisher of "dqkx", then the verdict.
  unfoldable pub ask_publisher :
      String → List SamplingRoute → List CategoryBasis → Selection SamplingOutcome
  ask_publisher doi routes bases =
      if is_dqkx state.journal
      then acquire publisher (some doi) none routes (λ e routes.
        categorised e (read_publisher e) (some doi) bases routes
          (λ bases. conclude (some doi) bases routes))
      else conclude (some doi) bases routes

  -- The registry that the agency names.
  unfoldable pub ask_registry :
      String → Option Route → List SamplingRoute → List CategoryBasis → Selection SamplingOutcome
  ask_registry doi none routes bases = ask_publisher doi routes bases
  ask_registry doi (some r) routes bases = acquire r (some doi) none routes (λ e routes.
      categorised e (read_registry r e) (some doi) bases routes (ask_publisher doi routes))

  unfoldable pub ask_agency :
      String → List CategoryBasis → List SamplingRoute → Selection SamplingOutcome
  ask_agency doi bases routes = acquire doi_ra (some doi) none routes (λ e routes.
      if has_reason is_mismatch e
      then excluded identity_conflict (some doi) bases routes
      else case_some (agency_settlement e)
          (λ s. ask_registry doi (registry_route s.agency) routes bases)
          (blocked (some doi) bases routes))

  abbrev pub not_asked : SamplingRoute
  not_asked = record {
    route = doi_ra;
    acquisition_id = none;
    reason = not_applicable_no_doi;
    is_applicable = false;
  }

  -- From the second check of the identity on.
  unfoldable pub identified :
      Option String → List CategoryBasis → List SamplingRoute → Selection SamplingOutcome
  identified doi bases routes =
      if is_none doi && is_none candidate.entry_id
      then excluded no_stable_identifier doi bases routes
      else if duplicate_identity doi candidate.entry_id state.entries
      then excluded duplicate doi bases routes
      else case_some doi (λ d. ask_agency d bases routes)
          (conclude doi bases (routes ++ not_asked ∷ []))

  -- The publisher of "aies" is asked for the DOI of a candidate that has none.
  unfoldable pub ask_identity : Option String → List CategoryBasis → Selection SamplingOutcome
  ask_identity none bases =
      case_some candidate.publisher_link_reason
        (λ r. blocked none bases (
          record { route = publisher; acquisition_id = none; reason = r; is_applicable = true }
          ∷ []))
        (identified none bases [])
  ask_identity (some url) bases = acquire publisher none (some url) [] (λ e routes.
      if has_reason is_mismatch e
      then excluded identity_conflict none bases routes
      else case_some (acquired_settlement e) (λ s. identified s.identity_doi bases routes)
          (if has_reason is_not_found e
            then excluded identity_unavailable none bases routes
            else blocked none bases routes))

  abbrev pub issue_reason : IdentityIssue → SamplingReason
  issue_reason conflicting_dois = identity_conflict
  issue_reason invalid_doi = invalid_identity

  unfoldable pub evaluate_candidate : Selection SamplingOutcome
  evaluate_candidate =
      let bases = feed_bases given state.journal candidate state.feed_acquisition_id in
      case_some candidate.identity_issue
        (λ issue. excluded (issue_reason issue) candidate.doi bases [])
        (if duplicate_identity candidate.doi candidate.entry_id state.entries
          then excluded duplicate candidate.doi bases []
          else if is_none candidate.doi && is_aies state.journal
          then ask_identity candidate.publisher_url bases
          else identified candidate.doi bases [])
