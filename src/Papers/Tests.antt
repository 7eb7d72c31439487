-- ===== src/Papers/Tests.antt =====
-- papers/rules.py: a title that two manual events, a publisher and two parsers of a feed give.
use paper_radar.Prelude.{List, String, [], inl, inr, map, refl, some, true, ℕ, ◌∷◌, ◌≡◌}
use paper_radar.Prelude.Int.{pos}
use paper_radar.Prelude.Results.{Result, ok, problem}
use paper_radar.Prelude.Text.{text_leb}
use paper_radar.Prelude.Orders.{leb_ℤ, lex_by}
use paper_radar.Papers.Fields.{
  CandidateDecision, FieldReason, MissingKey, RankedObservation, Reference, SourceKind, add_fields,
  add_winners, beaten_by, beaten_reason, choose_fields, earlier_manual_event, explain_fields,
  explain_item, explain_items, feed, field_reason, get_field, highest_from, is_manual,
  lower_source_priority, manual, parser_key_eq, place_ranked, publisher, rank_order, selected,
  selected_of, set_default, sort_descending, superseded_interpretation,
}
use paper_radar.Papers.Fields.Manual.{field_reason-earlier_manual_event}
use paper_radar.Papers.Fields.Winner.{IsChosen, IsWinner, choose_fields-IsWinner}
use paper_radar.Papers.Fields.Explained.{IsExplained, candidates, explain_fields_total}

abbrev observed : SourceKind → ℕ → ℕ → String → String → RankedObservation
observed kind version event payload candidate = record {
  observed_at = "2026-01-01";
  payload_sha256 = payload;
  parser_version = pos version;
  fields = ("title", (candidate, "q")) ∷ [];
  event_no = pos event;
  source_kind = kind;
  stream = ("s", "t");
}

abbrev first_event : RankedObservation
first_event = observed manual 1 1 "m1" "c1"

abbrev observations : List RankedObservation
observations =
    observed feed 1 0 "f" "c2"
    ∷ first_event
    ∷ observed publisher 1 0 "p" "c3"
    ∷ observed manual 1 2 "m2" "c4"
    ∷ observed feed 2 0 "f" "c5"
    ∷ []

abbrev reason_named : List CandidateDecision → List (String × FieldReason)
reason_named ds = map (λ (d : CandidateDecision). (d.candidate_id, d.reason)) ds

abbrev reasons : Result MissingKey (List CandidateDecision) → List (String × FieldReason)
reasons (ok ds) = reason_named ds
reasons (problem e) = []

explains :
    reasons (explain_fields "v" observations)
    ≡ ("c2", superseded_interpretation)
      ∷ ("c1", earlier_manual_event)
      ∷ ("c3", lower_source_priority)
      ∷ ("c4", selected)
      ∷ ("c5", lower_source_priority)
      ∷ []
unfolding explain_fields explain_items explain_item field_reason beaten_reason beaten_by selected_of
    choose_fields add_winners add_fields set_default sort_descending place_ranked rank_order lex_by
    text_leb highest_from parser_key_eq get_field
explains = refl

choose_fields-IsWinner_example :
    IsWinner observations "title" (get_field "title" (choose_fields observations))
choose_fields-IsWinner_example = choose_fields-IsWinner observations "title"

explain_fields_total_example :
    (ds : List CandidateDecision) × (explain_fields "v" observations ≡ ok ds)
    × IsExplained "v" (choose_fields observations) (candidates observations) ds
explain_fields_total_example = explain_fields_total "v" observations

told :
    field_reason observations (choose_fields observations) first_event "title" ("c1", "q")
    ≡ ok earlier_manual_event
unfolding field_reason beaten_reason beaten_by selected_of choose_fields add_winners add_fields
    set_default sort_descending place_ranked rank_order lex_by text_leb highest_from parser_key_eq
    get_field
told = refl

had : get_field "title" first_event.fields ≡ some ("c1", "q")
unfolding get_field
had = refl

field_reason-earlier_manual_event_example :
    (chosen : Reference) × (w : RankedObservation) × (get_field "title" (choose_fields observations)
      ≡ some chosen)
    × IsChosen observations "title" chosen w
    × (is_manual first_event.source_kind ≡ true)
    × (is_manual w.source_kind ≡ true)
    × (leb_ℤ first_event.event_no w.event_no ≡ true)
field_reason-earlier_manual_event_example =
    field_reason-earlier_manual_event observations first_event "title" ("c1", "q") (inr (inl refl))
      had told
