-- ===== src/Eligibility/Rules/Authority.antt =====
-- eligibility/rules.py, `_decision`: whose word the effective screening decision is.
use paper_radar.Prelude.{All, Among, Bool, List, [], false, keep, length, some, true, ◌&&◌, ◌≡◌}
use paper_radar.Prelude.Int.{eqb_ℤ, ◌≤ℤ◌}
use paper_radar.Screening.Reasons.{RecordKind}
use paper_radar.Eligibility.Models.{Applicability, DecisionFact, GateState, PaperProjection}
use paper_radar.Eligibility.Facts.Clear.{HasScreening, IsCanonical, IsCurrent}
use paper_radar.Eligibility.Facts.{Reasons}
use paper_radar.Eligibility.Decision.{is_contradictory}
use paper_radar.Eligibility.Decision.Choice.{is_decision, is_suggestion, kind_of}

-- Among the items of kind `k`, `d` is listed, no item of the kind is later, and no other one has its
-- sequence number.
pub record IsLatestOf (k : RecordKind → Bool) (d : DecisionFact) (xs : List DecisionFact)
    : Type 0 where
  pub listed : Among d xs
  pub right_kind : k (kind_of d) ≡ true
  pub no_later : All (λ e. k (kind_of e) ≡ true → e.sequence ≤ℤ d.sequence) xs
  pub alone : length (keep (λ e. k (kind_of e) && eqb_ℤ e.sequence d.sequence) xs) ≡ 1

-- A suggestion stands where no human has decided, the gate is open, no condition hides the paper, and
-- the suggestion is current and rests on the current screening artifact of the current version of a
-- canonical paper.
pub record Stands (f : PaperProjection) (d : DecisionFact) : Type 0 where
  pub last : IsLatestOf is_suggestion d f.decisions
  pub no_human : All (λ e. is_decision (kind_of e) ≡ false) f.decisions
  pub canonical : IsCanonical f
  pub newest_version : IsCurrent f
  pub screened : HasScreening f
  pub same_screening : d.screening_reference ≡ f.screening.reference
  pub applies : d.applicability ≡ Applicability.current
  pub shown : f.visibility ≡ some (record { hidden_conditions = [] })
  pub open_gate : f.gate ≡ GateState.enabled

abbrev IsSound : PaperProjection → DecisionFact → Type 0
IsSound f e = is_contradictory f e ≡ false
