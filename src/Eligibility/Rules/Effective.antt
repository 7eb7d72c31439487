-- ===== src/Eligibility/Rules/Effective.antt =====
-- eligibility/rules.py, `_decision` as `evaluate_paper` calls it: when a decision is in force.
use paper_radar.Prelude.{
  Bool, List, Option-cases, [], append-eq-nil, arith, false, if◌then◌else◌, inl, inr, is_nil, none,
  refl, some, sym, true, when, ◌++◌, ◌∙◌, ◌∷◌, ◌≡◌,
}
use paper_radar.Eligibility.Models.{
  DecisionFact, EligibilityReason, PaperProjection, Support, decision_contradictory,
}
use paper_radar.Eligibility.Facts.{
  Reasons, canonical_reasons, result, screening_reasons, version_reasons,
}
use paper_radar.Eligibility.Emptiness.{reasons-result-nil, reasons-result_nil}
use paper_radar.Eligibility.Decision.{
  Sorted, candidate_reasons, candidates, choose, screening_decision, decision_reasons,
}
use paper_radar.Eligibility.Decision.Choice.{sort_decisions-eq, sorting}
use paper_radar.Eligibility.Rules.{effective_decision}

-- What the loop of this paper gathers, described by comprehensions.
abbrev pub sorted_of : PaperProjection → Sorted
sorted_of f = sorting f f.decisions

abbrev pub against : PaperProjection → Reasons
against f = decision_reasons f (canonical_reasons f ++ version_reasons f) (screening_reasons f)

effective_lem :
    (f : PaperProjection)
    → (effective_decision f).decision
      ≡ (if is_nil (against f) then choose (candidates (sorted_of f)) else none)
unfolding effective_decision screening_decision decision_reasons result
effective_lem f = rw (sort_decisions-eq f f.decisions)

reasons-effective : (f : PaperProjection) → (effective_decision f).reasons ≡ [] → against f ≡ []
unfolding effective_decision screening_decision
reasons-effective f h = reasons-result_nil (against f) Support.supported "predicate_only" h

candidate_reasons_clear :
    (f : PaperProjection) (screening : Reasons) (sorted : Sorted) (cs : List DecisionFact)
    → candidate_reasons f screening sorted cs ≡ []
    → (d : DecisionFact) × (choose cs ≡ some d)
unfolding candidate_reasons
candidate_reasons_clear f screening sorted [] h = cc
candidate_reasons_clear f screening sorted (c ∷ cs) h = elim (Option-cases (choose (c ∷ cs))) [
  | inl e ↦ ground arith
  | inr found ↦ found
]

pub when-eq-nil : (b : Bool) (r : EligibilityReason) → when b r ≡ [] → b ≡ false
when-eq-nil true r h = cc
when-eq-nil false r h = refl

module _ (f : PaperProjection) (clear : against f ≡ []) where
  pub split_against :
      (canonical_reasons f ++ version_reasons f ≡ [])
      × ((sorted_of f).contradictory ≡ false)
      × (candidate_reasons f (screening_reasons f) (sorted_of f) (candidates (sorted_of f)) ≡ [])
  unfolding decision_reasons
  split_against =
      let clear' : (canonical_reasons f ++ version_reasons f)
            ++ when (sorted_of f).contradictory decision_contradictory
            ++ candidate_reasons f (screening_reasons f) (sorted_of f) (candidates (sorted_of f))
          ≡ [] =
        rw (sort_decisions-eq f f.decisions) at clear in
      let w = when (sorted_of f).contradictory decision_contradictory in
      let base = canonical_reasons f ++ version_reasons f in
      let found =
        candidate_reasons f (screening_reasons f) (sorted_of f) (candidates (sorted_of f)) in
      let (rest, third) = append-eq-nil (base ++ w) found clear' in
      let (first, second) = append-eq-nil base w rest in
      (first, when-eq-nil (sorted_of f).contradictory _ second, third)

-- With no reason against it, a decision is chosen among the candidates.
pub effective_clear :
    (f : PaperProjection)
    → (effective_decision f).reasons ≡ []
    → (d : DecisionFact) × ((effective_decision f).decision ≡ some d)
effective_clear f h =
    let clear = reasons-effective f h in
    let (d, e) =
      candidate_reasons_clear f (screening_reasons f) (sorted_of f) (candidates (sorted_of f))
        (split_against f clear).2 in
    (d, rw (effective_lem f, clear) e)

-- A decision in force has no reason against it.
pub decision-effective :
    (f : PaperProjection) (d : DecisionFact)
    → (effective_decision f).decision ≡ some d
    → (against f ≡ []) × (choose (candidates (sorted_of f)) ≡ some d)
decision-effective f d h = by_cases (against f) (sym (effective_lem f) ∙ h)
  where
    by_cases :
        (rs : Reasons)
        → (if is_nil rs then choose (candidates (sorted_of f)) else none) ≡ some d
        → (rs ≡ []) × (choose (candidates (sorted_of f)) ≡ some d)
    by_cases [] e = (refl, e)
    by_cases (r ∷ rs) e = cc

-- Nor does its result show one.
pub reasons-effective-nil :
    (f : PaperProjection) (d : DecisionFact)
    → (effective_decision f).decision ≡ some d
    → (effective_decision f).reasons ≡ []
unfolding effective_decision screening_decision
reasons-effective-nil f d h =
    rw ((decision-effective f d h).0) (reasons-result-nil Support.supported "predicate_only")
