-- ===== src/Eligibility/Decision.antt =====
-- eligibility/rules.py, `_decision`: the human decision or system suggestion that counts.
pub mod Choice
use paper_radar.Prelude.{
  Bool, List, Option, [], false, if◌then◌else◌, is_nil, is_none, keep, none, not, some, str_eq,
  true, when, ◌++◌, ◌||◌, ◌∷◌,
}
use paper_radar.Prelude.Int.{eqb_ℤ, ltb_ℤ, max_ℤ, pos, ℤ}
use paper_radar.Prelude.Text.{is_empty, opt_eq}
use paper_radar.Calibration.{
  Visibility, VisibilityCapability, agent_content, is_allowed, permission,
}
use paper_radar.Screening.Reasons.{RecordKind, build_screening_reason, invalid_combination_fields}
use paper_radar.Eligibility.Models.{
  Applicability, DecisionFact, Eligibility, GateState, PaperProjection, Support, decision_absent,
  decision_contradictory, decision_not_current, gate_disabled, gate_paused, gate_unknown,
  projection_not_decision, visibility_denied, visibility_unknown,
}
use paper_radar.Eligibility.Facts.{Reasons, result}

-- What the loop over `facts.decisions` has gathered.
pub record Sorted : Type 0 where
  pub humans : List DecisionFact
  pub systems : List DecisionFact
  pub projections : Bool
  pub contradictory : Bool

-- The test with which the loop rejects an item.
unfoldable pub is_contradictory : PaperProjection → DecisionFact → Bool
is_contradictory f item =
    not (str_eq item.paper_id f.paper_id)
    || is_empty item.reference
    || ltb_ℤ item.sequence (pos 0)
    || not (is_nil (invalid_combination_fields item.reason_record))

-- One round of the loop, in front of what the later rounds gather. At `none` the source raises;
-- the test has left no such record.
unfoldable pub place : PaperProjection → DecisionFact → Sorted → Sorted
place f item sorted =
    if is_contradictory f item
    then record sorted { contradictory = true }
    else elim (build_screening_reason item.reason_record) [
      | some RecordKind.decision ↦ record sorted { humans = item ∷ sorted.humans }
      | some RecordKind.failure_projection ↦ record sorted { projections = true }
      | some RecordKind.suggestion ↦ record sorted { systems = item ∷ sorted.systems }
      | none ↦ sorted
    ]

unfoldable pub sort_decisions : PaperProjection → List DecisionFact → Sorted
unfolding place
sort_decisions f [] = record {
  humans = [];
  systems = [];
  projections = false;
  contradictory = false;
}
sort_decisions f (item ∷ items) = place f item (sort_decisions f items)

-- `humans or systems`
abbrev pub candidates : Sorted → List DecisionFact
candidates sorted = if is_nil sorted.humans then sorted.systems else sorted.humans

-- `max(item.sequence for item in candidates)`
unfoldable pub latest : ℤ → List DecisionFact → ℤ
latest most [] = most
latest most (item ∷ items) = latest (max_ℤ most item.sequence) items

abbrev pub sole : List DecisionFact → Option DecisionFact
sole [] = none
sole (item ∷ []) = some item
sole (item ∷ other ∷ items) = none

-- The only candidate with the latest sequence number.
unfoldable pub choose : List DecisionFact → Option DecisionFact
unfolding latest
choose [] = none
choose (item ∷ items) =
    let most = latest item.sequence items in sole (keep (λ d. eqb_ℤ d.sequence most) (item ∷ items))

unfoldable pub gate_reasons : GateState → Reasons
gate_reasons GateState.enabled = []
gate_reasons GateState.paused = gate_paused ∷ []
gate_reasons GateState.disabled = gate_disabled ∷ []
gate_reasons GateState.unknown = gate_unknown ∷ []

-- A permission that a reading of the facts needs: `VISIBILITY_UNKNOWN` and `VISIBILITY_DENIED`.
unfoldable pub visibility_reasons : Option Visibility → VisibilityCapability → Reasons
unfolding permission
visibility_reasons none capability = visibility_unknown ∷ []
visibility_reasons (some v) capability =
    when (not (is_allowed (permission v capability))) visibility_denied

abbrev pub is_current : Applicability → Bool
is_current Applicability.current = true
is_current _ = false

abbrev pub chosen_system_reasons : PaperProjection → Option DecisionFact → Reasons
chosen_system_reasons f none = []
chosen_system_reasons f (some d) =
    when (not (opt_eq d.screening_reference f.screening.reference)) decision_contradictory
    ++ when (not (is_current d.applicability)) decision_not_current

-- What holds against a suggestion, where no human has decided.
unfoldable pub system_reasons : PaperProjection → Reasons → Option DecisionFact → Reasons
system_reasons f screening chosen =
    screening
    ++ chosen_system_reasons f chosen
    ++ visibility_reasons f.visibility agent_content
    ++ gate_reasons f.gate

unfoldable pub candidate_reasons : PaperProjection → Reasons → Sorted → List DecisionFact → Reasons
candidate_reasons f screening sorted [] =
    decision_absent ∷ when sorted.projections projection_not_decision
candidate_reasons f screening sorted (c ∷ cs) =
    let chosen = choose (c ∷ cs) in
    when (is_none chosen) decision_contradictory
    ++ (if is_nil sorted.humans then system_reasons f screening chosen else [])

unfoldable pub decision_reasons : PaperProjection → Reasons → Reasons → Reasons
decision_reasons f prerequisites screening =
    let sorted = sort_decisions f f.decisions in
    prerequisites
    ++ when sorted.contradictory decision_contradictory
    ++ candidate_reasons f screening sorted (candidates sorted)

-- `_decision`
unfoldable pub screening_decision : PaperProjection → Reasons → Reasons → Eligibility
screening_decision f prerequisites screening =
    let reasons = decision_reasons f prerequisites screening in
    let chosen = choose (candidates (sort_decisions f f.decisions)) in
    record (result reasons Support.supported "predicate_only") {
      decision = if is_nil reasons then chosen else none;
    }
