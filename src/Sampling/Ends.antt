-- ===== src/Sampling/Ends.antt =====
-- fixture_audit/sampling_selection.py: what holds of a selection however its source answers, by its
-- parts.
use paper_radar.Prelude.{
  All, Among, Bool, Bool-cases, List, Option, String, [], ap, arith, false, if◌then◌else◌, inl, inr,
  is_none, is_some, length, length-append, none, refl, some, suc, true, ℕ, ◌&&◌, ◌++◌, ◌+◌, ◌∙◌,
  ◌∷◌, ◌≡◌, ◌≢◌, ◌≤◌,
}
use paper_radar.Prelude.Results.{Result, ok, problem}
use paper_radar.Sources.{Route}
use paper_radar.Sampling.{
  CategoryBasis, CategoryDecision, Fault, JournalSampling, RouteExecution, SamplingOutcome,
  SamplingRoute, SelectionResult,
}
use paper_radar.Sampling.Selection.{
  Selection, after, ask, case_some, done, is_selected, raised, route_record,
}
use paper_radar.Sampling.Replay.{references_of}

-- However the source answers, the selection ends with an outcome that has the property, along with
-- what is noted of each answer, or it raises.
abbrev pub Ends :
    {T : Type 0}
    → (Route → RouteExecution → T)
    → (List T → SamplingOutcome → Type 0)
    → List T
    → Selection SamplingOutcome
    → Type 0
Ends note P asked (done o) = P asked o
Ends note P asked (raised f) = Unit
Ends note P asked (ask r q later) =
    (e : RouteExecution) → Ends note P (asked ++ note r e ∷ []) (later e)

-- What makes a selected candidate one: a source calls it a journal article and none calls it anything
-- else; it has a DOI or an entry id; no settled entry has its DOI, or where it has none, no settled
-- entry without a DOI has its entry id; and the feed reports no identity issue.
pub record IsSelected (state : JournalSampling) (o : SamplingOutcome) : Type 0 where
  pub articles_only : All (λ b. b.decision ≢ CategoryDecision.non_journal_article) o.category_bases
  pub some_article :
      (b : CategoryBasis) × Among b o.category_bases
      × (b.decision ≡ CategoryDecision.journal_article)
  pub identifiable : is_none o.doi && is_none o.entry_id ≡ false
  pub other_doi :
      (d : String)
      → o.doi ≡ some d
      → All (λ p. p.result ≢ SelectionResult.blocked_pending → p.doi ≢ some d) state.entries
  pub other_entry :
      (i : String)
      → o.doi ≡ none
      → o.entry_id ≡ some i
      → All
          (λ p. p.result ≢ SelectionResult.blocked_pending → p.doi ≡ none → p.entry_id ≢ some i)
          state.entries
  pub no_issue : o.candidate.identity_issue ≡ none

pub record IsSound (state : JournalSampling) (asked : List SamplingRoute) (o : SamplingOutcome)
    : Type 0 where
  pub traced : references_of o.routes ≡ asked
  pub bounded : length asked ≤ 3
  pub chosen : is_selected o.result ≡ true → IsSelected state o
  pub told : is_selected o.result ≡ true → is_some o.member_id ≡ true

pub Ends-if :
    {T : Type 0} (note : Route → RouteExecution → T) (P : List T → SamplingOutcome → Type 0)
    (asked : List T) (b : Bool) (p q : Selection SamplingOutcome)
    → (b ≡ true → Ends note P asked p)
    → (b ≡ false → Ends note P asked q)
    → Ends note P asked (if b then p else q)
Ends-if note P asked true p q f g = f refl
Ends-if note P asked false p q f g = g refl

pub Ends-case_some :
    {T : Type 0} (note : Route → RouteExecution → T) (P : List T → SamplingOutcome → Type 0)
    (asked : List T) {A : Type 0} (o : Option A) (present : A → Selection SamplingOutcome)
    (absent : Selection SamplingOutcome)
    → ((a : A) → o ≡ some a → Ends note P asked (present a))
    → (o ≡ none → Ends note P asked absent)
    → Ends note P asked (case_some o present absent)
Ends-case_some note P asked (some a) present absent f g = f a refl
Ends-case_some note P asked none present absent f g = g refl

pub Ends-after :
    {T : Type 0} (note : Route → RouteExecution → T) (P : List T → SamplingOutcome → Type 0)
    (asked : List T) {A : Type 0} (m : Result Fault A) (later : A → Selection SamplingOutcome)
    → ((a : A) → Ends note P asked (later a))
    → Ends note P asked (after m later)
Ends-after note P asked (ok a) later f = f a
Ends-after note P asked (problem e) later f = tt

-- The same, with what the call returned.
pub Ends-after_ok :
    {T : Type 0} (note : Route → RouteExecution → T) (P : List T → SamplingOutcome → Type 0)
    (asked : List T) {A : Type 0} (m : Result Fault A) (later : A → Selection SamplingOutcome)
    → ((a : A) → m ≡ ok a → Ends note P asked (later a))
    → Ends note P asked (after m later)
Ends-after_ok note P asked (ok a) later f = f a refl
Ends-after_ok note P asked (problem e) later f = tt

pub references_of-append :
    (xs ys : List SamplingRoute) → references_of (xs ++ ys) ≡ references_of xs ++ references_of ys
references_of-append [] ys = refl
references_of-append (x ∷ xs) ys = elim (Bool-cases (is_some x.acquisition_id)) [
  | inl e ↦ rw (e, references_of-append xs ys)
  | inr e ↦ rw (e, references_of-append xs ys)
]

-- What has been recorded so far is what has been asked, with as many questions left.
pub record IsTraced (routes asked : List SamplingRoute) (left : ℕ) : Type 0 where
  pub traced : references_of routes ≡ asked
  pub bounded : length asked + left ≤ 3

pub IsTraced-acquire :
    (routes asked : List SamplingRoute) (left : ℕ) (r : Route) (e : RouteExecution)
    → IsTraced routes asked (suc left)
    → IsTraced (routes ++ route_record r e ∷ []) (asked ++ route_record r e ∷ []) left
IsTraced-acquire routes asked left r e t = record {
  traced =
      references_of-append routes (route_record r e ∷ [])
      ∙ ap (λ xs. xs ++ route_record r e ∷ []) t.traced;
  bounded = omega (arith, length-append asked (route_record r e ∷ []), t.bounded);
}

pub IsTraced-le :
    (routes asked : List SamplingRoute) (left fewer : ℕ)
    → fewer ≤ left
    → IsTraced routes asked left
    → IsTraced routes asked fewer
IsTraced-le routes asked left fewer h t = record {
  traced = t.traced;
  bounded = omega (arith, t.bounded, h);
}
