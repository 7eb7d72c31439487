-- ===== src/Eligibility/Decision/Choice.antt =====
-- eligibility/rules.py, `_decision`: which items the loop gathers, and which candidate is chosen.
use paper_radar.Prelude.{
  All, Among, Among-keep, Bool, List, [], any, arith, false, inl, keep, length, not, refl, some,
  subst, sym, true, ◌&&◌, ◌∷◌, ◌≡◌,
}
use paper_radar.Prelude.Int.{
  eqb_ℤ, eqb_ℤ→eq, le_max_ℤ_left, le_max_ℤ_right, le_ℤ_trans, max_ℤ, ℤ, ◌≤ℤ◌,
}
use paper_radar.Screening.Reasons.{RecordKind, build_screening_reason, identity_model}
use paper_radar.Screening.Reasons.Combinations.{build_screening_reason-eq}
use paper_radar.Eligibility.Models.{DecisionFact, PaperProjection}
use paper_radar.Eligibility.Decision.{
  Sorted, choose, is_contradictory, latest, sole, sort_decisions,
}

abbrev pub kind_of : DecisionFact → RecordKind
kind_of d = identity_model d.reason_record.source

abbrev pub is_decision : RecordKind → Bool
is_decision RecordKind.decision = true
is_decision _ = false

abbrev pub is_suggestion : RecordKind → Bool
is_suggestion RecordKind.suggestion = true
is_suggestion _ = false

abbrev pub is_projection : RecordKind → Bool
is_projection RecordKind.failure_projection = true
is_projection _ = false

-- What the loop should gather, as four independent comprehensions.
abbrev pub sorting : PaperProjection → List DecisionFact → Sorted
sorting f items = record {
  humans = keep (λ d. not (is_contradictory f d) && is_decision (kind_of d)) items;
  systems = keep (λ d. not (is_contradictory f d) && is_suggestion (kind_of d)) items;
  projections = any (λ d. not (is_contradictory f d) && is_projection (kind_of d)) items;
  contradictory = any (is_contradictory f) items;
}

-- A legal record has a model, so the loop never raises.
pub build_screening_reason_sound :
    (f : PaperProjection) (d : DecisionFact)
    → is_contradictory f d ≡ false
    → build_screening_reason d.reason_record ≡ some (kind_of d)
unfolding is_contradictory
build_screening_reason_sound f d h = ground (arith, build_screening_reason-eq d.reason_record)

pub sort_decisions-eq :
    (f : PaperProjection) (items : List DecisionFact) → sort_decisions f items ≡ sorting f items
unfolding sort_decisions
sort_decisions-eq f [] = refl
sort_decisions-eq f (d ∷ items) =
    ground (arith, build_screening_reason_sound f d, sort_decisions-eq f items)

latest_bounds :
    (m : ℤ) (xs : List DecisionFact) → (m ≤ℤ latest m xs) × All (λ d. d.sequence ≤ℤ latest m xs) xs
unfolding latest
latest_bounds m [] = (omega arith, tt)
latest_bounds m (d ∷ xs) =
    let (first, rest) = latest_bounds (max_ℤ m d.sequence) xs in
    (
      le_ℤ_trans m (max_ℤ m d.sequence) _ (le_max_ℤ_left m d.sequence) first,
      (le_ℤ_trans d.sequence (max_ℤ m d.sequence) _ (le_max_ℤ_right m d.sequence) first, rest),
    )

sole_lem :
    (xs : List DecisionFact) (d : DecisionFact) → sole xs ≡ some d → Among d xs × (length xs ≡ 1)
sole_lem [] d h = cc
sole_lem (x ∷ []) d h = (inl (cc), refl)
sole_lem (x ∷ y ∷ xs) d h = cc

-- The item that is chosen is the only one with its sequence number, and none is later.
pub record IsLatest (d : DecisionFact) (xs : List DecisionFact) : Type 0 where
  pub listed : Among d xs
  pub latest_one : All (λ e. e.sequence ≤ℤ d.sequence) xs
  pub alone : length (keep (λ e. eqb_ℤ e.sequence d.sequence) xs) ≡ 1

-- The item chosen is one of the items, has the latest sequence number, and no other item has that
-- number.
pub choose-IsLatest :
    (xs : List DecisionFact) (d : DecisionFact) → choose xs ≡ some d → IsLatest d xs
unfolding choose
choose-IsLatest [] d h = cc
choose-IsLatest (x ∷ xs) d h =
    let most = latest x.sequence xs in
    let (m, one) = sole_lem (keep (λ e. eqb_ℤ e.sequence most) (x ∷ xs)) d h in
    let (among, e) = Among-keep (λ e. eqb_ℤ e.sequence most) (x ∷ xs) d m in
    let same : d.sequence ≡ most = eqb_ℤ→eq d.sequence most e in
    let bounds = latest_bounds x.sequence xs in
    record {
      listed = among;
      latest_one = subst (λ k. All (λ e. e.sequence ≤ℤ k) (x ∷ xs)) (sym same) bounds;
      alone = subst (λ k. length (keep (λ e. eqb_ℤ e.sequence k) (x ∷ xs)) ≡ 1) (sym same) one;
    }
