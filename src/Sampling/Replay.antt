-- ===== src/Sampling/Replay.antt =====
-- fixture_audit/sampling_selection.py, `RecordedSelectionSources`: a recorded event's executions answer
-- the selection again, as `validate_all` of sampling_service.py has them do.
use paper_radar.Prelude.{
  List, Option, String, [], if◌then◌else◌, is_some, keep, none, not, some, str_eq, ◌∷◌,
}
use paper_radar.Prelude.Results.{Result, ok, problem, ◌>>=◌}
use paper_radar.Sources.{Route, route_eq}
use paper_radar.Sampling.{
  Fault, RouteExecution, SamplingRoute, SourceRequest, corrupt_identity, corrupt_route, missing_key,
  request_eq,
}
use paper_radar.Sampling.Selection.{Selection, ask, done, raised}

-- A source of executions has a state of its own, and may raise.
abbrev pub Source : Type 0 → Type 0
Source S = Route → SourceRequest → S → Result Fault (RouteExecution × S)

-- The selection with a source.
unfoldable pub select_with : {S A : Type 0} → Source S → Selection A → S → Result Fault (A × S)
select_with source (done a) s = ok (a, s)
select_with source (raised f) s = problem f
select_with source (ask r q later) s =
    source r q s >>= λ answer. select_with source (later answer.0) answer.1

-- The references of a replay: the routes that have an acquisition.
abbrev pub references_of : List SamplingRoute → List SamplingRoute
references_of routes = keep (λ (r : SamplingRoute). is_some r.acquisition_id) routes

-- `{value.execution_id: value for value in view.executions}`, read at a key: of several executions
-- with one id, the last.
unfoldable pub find_execution : String → List RouteExecution → Option RouteExecution
find_execution key [] = none
find_execution key (e ∷ es) =
    let later = find_execution key es in
    elim later [ some x ↦ some x | none ↦ if str_eq e.execution_id key then some e else none ]

module _ (normalize : SourceRequest → Result Fault SourceRequest)
    (executions : List RouteExecution) where
  -- `RecordedSelectionSources.__call__` on the references that are left.
  unfoldable pub recorded_source : Source (List SamplingRoute)
  recorded_source route request [] = problem corrupt_route
  recorded_source route request (reference ∷ rest) = elim reference.acquisition_id [
    | none ↦ problem corrupt_route
    | some key ↦ elim (find_execution key executions) [
      | none ↦ problem (missing_key key)
      | some e ↦
          if not (route_eq reference.route route)
          then problem corrupt_identity
          else normalize request >>= λ q.
              if request_eq e.request q then ok (e, rest) else problem corrupt_identity
    ]
  ]
