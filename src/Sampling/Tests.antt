-- ===== src/Sampling/Tests.antt =====
-- fixture_audit/sampling_selection.py: a candidate whose DOI the publisher tells.
use paper_radar.Prelude.{
  List, Option, String, [], ap, is_some, length, none, refl, some, subst, true, ℕ, ◌+◌, ◌∷◌, ◌≡◌,
  ◌≤◌,
}
use paper_radar.Prelude.Results.{Result, ok, ok_injective, problem, ◌>>=◌}
use paper_radar.Sources.{
  Route, acquired, doi_ra, feed, publisher, registry_crossref, registry_datacite,
}
use paper_radar.Llm.Json.{Fields, Json, get}
use paper_radar.Sampling.{
  CategoryDecision, Fault, FeedCandidate, JournalSampling, RouteExecution, SamplingOutcome,
  SamplingReason, SelectionResult, SourceRequest, SourceSettlement, aies, corrupt_identity,
}
use paper_radar.Sampling.Categories.{
  Materials, bases_of, category_result, decide_category, duplicate_identity, feed_bases,
  mapped_value, registry_bases,
}
use paper_radar.Sampling.Selection.{
  ask_agency, ask_identity, ask_publisher, ask_registry, categorised, conclude_at,
  evaluate_candidate, identified, outcome, route_record,
}
use paper_radar.Sampling.Replay.{
  Source, find_execution, recorded_source, references_of, select_with,
}
use paper_radar.Sampling.Ends.{IsSelected}
use paper_radar.Sampling.Gathered.{Answer, answers_of, bases_named, gathered}
use paper_radar.Sampling.Recorded.{
  IsStored, evaluate_candidate-run_again, references_of-evaluate_candidate_le, selected-IsSelected,
}

-- A material is the JSON that it holds.
abbrev given : Materials ℕ (Json ℕ)
given = record {
  strip = λ t. t;
  lower = λ t. t;
  start_tags = λ raw decoding. ok [];
  parse_json = λ raw. ok raw;
  read_material = λ e. ok (
      Json.object (
        Fields.field "message"
          (Json.object (Fields.field "type" (Json.text "journal-article") Fields.end)) Fields.end));
  member_identity = λ plan journal position doi entry. plan;
}

abbrev state : JournalSampling
state = record { journal = aies; feed_acquisition_id = some "f"; entries = []; history = [] }

abbrev candidate : FeedCandidate
candidate = record {
  position = 1;
  entry_id = none;
  doi = none;
  identity_issue = none;
  publisher_url = some "https://a";
  publisher_link_reason = none;
  raw_categories = [];
}

abbrev acquired_as : Option String → Option String → Option SourceSettlement
acquired_as doi agency =
    some
      (record { reason = acquired; identity_doi = doi; agency = agency; content_decoding = none })

abbrev request_of : Route → Option String → Option String → SourceRequest
request_of r doi url = record {
  journal = aies;
  route = r;
  doi = doi;
  publisher_url = url;
  settings = "";
}

abbrev by_publisher : RouteExecution
by_publisher = record {
  execution_id = "e1";
  request = request_of publisher none (some "https://a");
  settlement = acquired_as (some "10.1/a") none;
}

abbrev by_agency : RouteExecution
by_agency = record {
  execution_id = "e2";
  request = request_of doi_ra (some "10.1/a") none;
  settlement = acquired_as none (some "Crossref");
}

abbrev by_registry : RouteExecution
by_registry = record {
  execution_id = "e3";
  request = request_of registry_crossref (some "10.1/a") none;
  settlement = acquired_as none none;
}

abbrev executions : List RouteExecution
executions = by_publisher ∷ by_agency ∷ by_registry ∷ []

abbrev by_route : Route → RouteExecution
by_route publisher = by_publisher
by_route doi_ra = by_agency
by_route _ = by_registry

-- A source that answers each route in one way, and counts the questions.
abbrev source : Source ℕ
source r q n = ok (by_route q.route, n + 1)

abbrev normalize : SourceRequest → Result Fault SourceRequest
normalize q = ok (by_route q.route).request

abbrev resulting : SamplingOutcome
resulting = record {
  event_id = "";
  plan_id = "plan";
  journal = aies;
  previous_event_id = none;
  position = 1;
  candidate = candidate;
  result = SelectionResult.selected;
  reason = SamplingReason.selected;
  doi = some "10.1/a";
  entry_id = none;
  category_bases =
      record {
        route = registry_crossref;
        locator = "message.type";
        value = "journal-article";
        decision = CategoryDecision.journal_article;
        acquisition_id = some "e3";
      }
      ∷ [];
  routes =
      route_record publisher by_publisher
      ∷ route_record doi_ra by_agency
      ∷ route_record registry_crossref by_registry
      ∷ [];
  member_id = some "plan";
}

selects : select_with source (evaluate_candidate given "plan" state candidate) 0 ≡ ok (resulting, 3)
unfolding select_with evaluate_candidate ask_identity identified ask_agency ask_registry
    ask_publisher categorised conclude_at outcome category_result duplicate_identity feed_bases
    registry_bases bases_of decide_category mapped_value get
selects = refl

stored : IsStored normalize executions source
unfolding find_execution
stored = record {
  kept = λ r q s e s' h.
      let same : by_route q.route ≡ e = ap (λ (x : RouteExecution × ℕ). x.0) (ok_injective h) in
      subst (λ x. find_execution x.execution_id executions ≡ some x) same (found q.route);
  normalised = λ r q s e s' h.
      let same : by_route q.route ≡ e = ap (λ (x : RouteExecution × ℕ). x.0) (ok_injective h) in
      ap (λ (x : RouteExecution). ok x.request) same;
}
  where
    found : (r : Route) → find_execution (by_route r).execution_id executions ≡ some (by_route r)
    found publisher = refl
    found doi_ra = refl
    found registry_crossref = refl
    found registry_datacite = refl
    found feed = refl

evaluate_candidate-run_again_example :
    select_with
      (recorded_source normalize executions)
      (evaluate_candidate given "plan" state candidate)
      (references_of resulting.routes)
    ≡ ok (resulting, [])
evaluate_candidate-run_again_example =
    evaluate_candidate-run_again given "plan" state candidate source normalize executions 0
      resulting 3 stored selects

-- The bases that the answers name.
gathers :
    (answers_of source (evaluate_candidate given "plan" state candidate) 0
      >>= gathered given "plan" state candidate [])
    ≡ ok resulting.category_bases
unfolding answers_of gathered bases_named evaluate_candidate ask_identity identified ask_agency
    ask_registry ask_publisher categorised conclude_at outcome category_result duplicate_identity
    feed_bases registry_bases bases_of decide_category mapped_value get
gathers = refl

selected-IsSelected_example :
    IsSelected state resulting
    × (is_some resulting.member_id ≡ true)
    × ((answers : List Answer) × (answers_of source
            (evaluate_candidate given "plan" state candidate)
            0
          ≡ ok answers)
        × (gathered given "plan" state candidate
              (feed_bases given state.journal candidate state.feed_acquisition_id)
              answers
            ≡ ok resulting.category_bases))
selected-IsSelected_example =
    selected-IsSelected given "plan" state candidate source 0 resulting 3 selects refl

references_of-evaluate_candidate_le_example : length (references_of resulting.routes) ≤ 3
references_of-evaluate_candidate_le_example =
    references_of-evaluate_candidate_le given "plan" state candidate source 0 resulting 3 selects

-- A route that was not asked in its place is refused.
refuses :
    select_with
      (recorded_source normalize executions)
      (evaluate_candidate given "plan" state candidate)
      (route_record doi_ra by_agency ∷ [])
    ≡ problem corrupt_identity
unfolding select_with evaluate_candidate ask_identity duplicate_identity recorded_source
    find_execution
refuses = refl
