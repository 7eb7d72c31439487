-- ===== src/Sampling/Recorded.antt =====
-- fixture_audit/sampling_selection.py and sampling_service.py: what a selection that returns has
-- established, and that its replay from the recorded executions gives it again.
use paper_radar.Prelude.{
  List, String, [], ap, append-nil, append_assoc, arith, eq_refl, is_some, length, some, str_eq,
  subst, sym, true, ◌++◌, ◌==◌, ◌∙◌, ◌∷◌, ◌≡◌, ◌≤◌,
}
use paper_radar.Prelude.Text.{opt_eq_refl}
use paper_radar.Prelude.Results.{>>=-eq-ok, Result, ok, ok_injective, ◌>>=◌}
use paper_radar.Sources.{Route, route_eq}
use paper_radar.Sampling.{
  Fault, FeedCandidate, JournalSampling, RouteExecution, SamplingOutcome, SamplingRoute,
  SelectionResult, SourceRequest, journal_no, request_eq,
}
use paper_radar.Sampling.Categories.{Materials, feed_bases}
use paper_radar.Sampling.Selection.{
  Selection, ask, done, evaluate_candidate, is_selected, raised, route_record,
}
use paper_radar.Sampling.Replay.{
  Source, find_execution, recorded_source, references_of, select_with,
}
use paper_radar.Sampling.Ends.{Ends, IsSelected, IsSound}
use paper_radar.Sampling.Gathered.Selected.{evaluate_candidate-IsGathered}
use paper_radar.Sampling.Gathered.{Answer, IsGathered, answers_of, gathered, select_with-answers}
use paper_radar.Sampling.Sound.{evaluate_candidate-IsSound}

-- Every answer of the source is stored under its id, with the normalised request.
pub record IsStored {S : Type 0} (normalize : SourceRequest → Result Fault SourceRequest)
    (executions : List RouteExecution) (source : Source S) : Type 0 where
  pub kept :
      (r : Route) (q : SourceRequest) (s : S) (e : RouteExecution) (s' : S)
      → source r q s ≡ ok (e, s')
      → find_execution e.execution_id executions ≡ some e
  pub normalised :
      (r : Route) (q : SourceRequest) (s : S) (e : RouteExecution) (s' : S)
      → source r q s ≡ ok (e, s')
      → normalize q ≡ ok e.request

select_with-Ends :
    {S : Type 0} (P : List SamplingRoute → SamplingOutcome → Type 0) (source : Source S)
    (p : Selection SamplingOutcome) (asked : List SamplingRoute) (s : S) (o : SamplingOutcome)
    (s' : S)
    → Ends route_record P asked p
    → select_with source p s ≡ ok (o, s')
    → (all_asked : List SamplingRoute) × P all_asked o
unfolding select_with
select_with-Ends P source (done a) asked s o s' h e =
    (asked, subst (P asked) (ap (λ (x : SamplingOutcome × _). x.0) (ok_injective e)) h)
select_with-Ends P source (raised f) asked s o s' h e = cc
select_with-Ends P source (ask r q later) asked s o s' h e =
    let (answer, given, rest) = >>=-eq-ok (source r q s) _ e in
    select_with-Ends P source (later answer.0) (asked ++ route_record r answer.0 ∷ []) answer.1 o s'
      (h answer.0) rest

route_eq_refl : (r : Route) → route_eq r r ≡ true
route_eq_refl r = ground arith

request_eq_refl : (q : SourceRequest) → request_eq q q ≡ true
unfolding request_eq
request_eq_refl q =
    let journal_same : (journal_no q.journal == journal_no q.journal) ≡ true = ground arith in
    let text_same : str_eq q.settings q.settings ≡ true = eq_refl q.settings in
    rw (
      journal_same,
      route_eq_refl q.route,
      opt_eq_refl q.doi,
      opt_eq_refl q.publisher_url,
      text_same,
    )

-- The reference that a selection records of an execution finds the execution.
recorded_source_found :
    (normalize : SourceRequest → Result Fault SourceRequest) (executions : List RouteExecution)
    (r : Route) (q : SourceRequest) (e : RouteExecution) (rest : List SamplingRoute)
    → find_execution e.execution_id executions ≡ some e
    → normalize q ≡ ok e.request
    → recorded_source normalize executions r q (route_record r e ∷ rest) ≡ ok (e, rest)
unfolding recorded_source
recorded_source_found normalize executions r q e rest found same =
    rw (recorded_source, found, route_eq_refl r, same, request_eq_refl e.request)

module _ {S : Type 0} (normalize : SourceRequest → Result Fault SourceRequest)
    (executions : List RouteExecution) (source : Source S)
    (stored : IsStored normalize executions source) where
  -- The executions that a run was given answer it again, and none is left.
  select_with-again :
      (p : Selection SamplingOutcome) (asked : List SamplingRoute) (s : S) (o : SamplingOutcome)
      (s' : S)
      → Ends route_record (λ asked o. references_of o.routes ≡ asked) asked p
      → select_with source p s ≡ ok (o, s')
      → (rest : List SamplingRoute) × (references_of o.routes ≡ asked ++ rest)
        × (select_with (recorded_source normalize executions) p rest ≡ ok (o, []))
  unfolding select_with recorded_source
  select_with-again (done a) asked s o s' h e =
      let same = ap (λ (x : SamplingOutcome × S). x.0) (ok_injective e) in
      (
        [],
        sym (ap (λ (x : SamplingOutcome). references_of x.routes) same)
            ∙ h
            ∙ sym (append-nil asked),
        ap (λ x. ok (x, [])) same,
      )
  select_with-again (raised f) asked s o s' h e = cc
  select_with-again (ask r q later) asked s o s' h e =
      let (answer, given, returned) = >>=-eq-ok (source r q s) _ e in
      let reference = route_record r answer.0 in
      let (rest, all_routes, again) =
        select_with-again (later answer.0) (asked ++ reference ∷ []) answer.1 o s' (h answer.0)
          returned in
      (
        reference ∷ rest,
        all_routes ∙ append_assoc asked (reference ∷ []) rest,
        ap (λ m. m >>= λ x. select_with (recorded_source normalize executions) (later x.0) x.1)
              (recorded_source_found normalize executions r q answer.0 rest
                (stored.kept r q s answer.0 answer.1 given)
                (stored.normalised r q s answer.0 answer.1 given))
            ∙ again,
      )

Ends-map :
    (P Q : List SamplingRoute → SamplingOutcome → Type 0) (p : Selection SamplingOutcome)
    (asked : List SamplingRoute)
    → ((now_asked : List SamplingRoute) (o : SamplingOutcome) → P now_asked o → Q now_asked o)
    → Ends route_record P asked p
    → Ends route_record Q asked p
Ends-map P Q (done o) asked f h = f asked o h
Ends-map P Q (raised x) asked f h = tt
Ends-map P Q (ask r q later) asked f h =
    λ e. Ends-map P Q (later e) (asked ++ route_record r e ∷ []) f (h e)

module _ {F B S : Type 0} (given : Materials F B) (plan_id : String) (state : JournalSampling)
    (candidate : FeedCandidate) (source : Source S) where
  sound :
      (s : S) (o : SamplingOutcome) (s' : S)
      → select_with source (evaluate_candidate given plan_id state candidate) s ≡ ok (o, s')
      → (asked : List SamplingRoute) × IsSound state asked o
  sound s o s' =
      select_with-Ends (IsSound state) source (evaluate_candidate given plan_id state candidate) []
        s o s' (evaluate_candidate-IsSound given plan_id state candidate)

  -- Where a selection returns that its source's answers are stored under their ids with normalised
  -- requests, its replay from the recorded routes returns the same outcome and leaves no route unused.
  pub evaluate_candidate-run_again :
      (normalize : SourceRequest → Result Fault SourceRequest) (executions : List RouteExecution)
      (s : S) (o : SamplingOutcome) (s' : S)
      → IsStored normalize executions source
      → select_with source (evaluate_candidate given plan_id state candidate) s ≡ ok (o, s')
      → select_with
          (recorded_source normalize executions)
          (evaluate_candidate given plan_id state candidate)
          (references_of o.routes)
        ≡ ok (o, [])
  evaluate_candidate-run_again normalize executions s o s' stored e =
      let p = evaluate_candidate given plan_id state candidate in
      let traced =
        Ends-map (IsSound state) (λ asked o. references_of o.routes ≡ asked) p []
          (λ _ _ i. i.traced) (evaluate_candidate-IsSound given plan_id state candidate) in
      let (rest, routes, again) =
        select_with-again normalize executions source stored p [] s o s' traced e in
      subst (λ xs. select_with (recorded_source normalize executions) p xs ≡ ok (o, []))
        (sym routes) again

  -- A selected candidate has a category basis that decides for a journal article and none that decides
  -- against one, and its bases are those of the feed and after them, in their order, those of all
  -- acquired answers of registries and of the publisher of "dqkx"; it has a DOI or an entry id, no
  -- settled entry has this DOI or, where there is none, no settled entry without a DOI has this entry
  -- id, the feed reports no identity issue, and it is given a member id.
  pub selected-IsSelected :
      (s : S) (o : SamplingOutcome) (s' : S)
      → select_with source (evaluate_candidate given plan_id state candidate) s ≡ ok (o, s')
      → o.result ≡ SelectionResult.selected
      → IsSelected state o
        × (is_some o.member_id ≡ true)
        × ((answers : List Answer) × (answers_of source
                (evaluate_candidate given plan_id state candidate)
                s
              ≡ ok answers)
            × (gathered given plan_id state candidate
                  (feed_bases given state.journal candidate state.feed_acquisition_id)
                  answers
                ≡ ok o.category_bases))
  selected-IsSelected s o s' e h =
      let (_, i) = sound s o s' e in
      let chosen : is_selected o.result ≡ true = rw h in
      let (answers, told, all_named) =
        select_with-answers (IsGathered given plan_id state candidate) source
          (evaluate_candidate given plan_id state candidate) [] s o s'
          (evaluate_candidate-IsGathered given plan_id state candidate) e in
      (i.chosen chosen, i.told chosen, (answers, told, all_named.of_selected chosen))

  -- A selection that returns has recorded at most three executions, whatever its source answers.
  pub references_of-evaluate_candidate_le :
      (s : S) (o : SamplingOutcome) (s' : S)
      → select_with source (evaluate_candidate given plan_id state candidate) s ≡ ok (o, s')
      → length (references_of o.routes) ≤ 3
  references_of-evaluate_candidate_le s o s' e =
      let (asked, i) = sound s o s' e in subst (λ xs. length xs ≤ 3) (sym i.traced) i.bounded
