-- ===== src/Sampling/Gathered.antt =====
-- fixture_audit/sampling_selection.py: where the category bases of a selected candidate come from.
pub mod Selected
use paper_radar.Prelude.{
  Bool, List, Option, Option-cases, String, [], ap, append-nil, append_assoc, false, if◌then◌else◌,
  inl, inr, none, refl, some, subst, sym, true, ◌++◌, ◌∷◌, ◌≡◌,
}
use paper_radar.Prelude.Text.{opt_is}
use paper_radar.Prelude.Results.{>>=-eq-ok, Result, ok, ok_injective, problem, ◌>>=◌}
use paper_radar.Sources.{Route, publisher, registry_crossref, registry_datacite}
use paper_radar.Sampling.{
  CategoryBasis, Fault, FeedCandidate, JournalSampling, RouteExecution, SamplingOutcome,
  SourceSettlement, is_dqkx,
}
use paper_radar.Sampling.Categories.{Materials, feed_bases}
use paper_radar.Sampling.Selection.{
  Selection, acquired_settlement, ask, done, is_selected, raised, read_publisher, read_registry,
}
use paper_radar.Sampling.Replay.{Source, select_with}
use paper_radar.Sampling.Ends.{Ends}

-- An execution that a source answered with, by its route.
abbrev pub Answer : Type 0
Answer = Route × RouteExecution

abbrev pub answered : Route → RouteExecution → Answer
answered r e = (r, e)

-- What a source answers in a run of the selection.
unfoldable pub answers_of : {S A : Type 0} → Source S → Selection A → S → Result Fault (List Answer)
answers_of source (done a) s = ok []
answers_of source (raised f) s = problem f
answers_of source (ask r q later) s = source r q s >>= λ answer.
    answers_of source (later answer.0) answer.1 >>= λ rest. ok ((r, answer.0) ∷ rest)

pub select_with-answers :
    {S : Type 0} (P : List Answer → SamplingOutcome → Type 0) (source : Source S)
    (p : Selection SamplingOutcome) (before : List Answer) (s : S) (o : SamplingOutcome) (s' : S)
    → Ends answered P before p
    → select_with source p s ≡ ok (o, s')
    → (answers : List Answer) × (answers_of source p s ≡ ok answers) × P (before ++ answers) o
unfolding select_with answers_of
select_with-answers P source (done a) before s o s' h e = (
  [],
  refl,
  subst (P (before ++ [])) (ap (λ (x : SamplingOutcome × _). x.0) (ok_injective e))
      (subst (λ xs. P xs a) (sym (append-nil before)) h),
)
select_with-answers P source (raised f) before s o s' h e = cc
select_with-answers P source (ask r q later) before s o s' h e =
    let (answer, given, returned) = >>=-eq-ok (source r q s) _ e in
    let (rest, told, holds) =
      select_with-answers P source (later answer.0) (before ++ (r, answer.0) ∷ []) answer.1 o s'
        (h answer.0) returned in
    (
      (r, answer.0) ∷ rest,
      rw (given, told) refl,
      subst (λ xs. P xs o) (append_assoc before ((r, answer.0) ∷ []) rest) holds,
    )

module _ {F B : Type 0} (given : Materials F B) (plan_id : String) (state : JournalSampling)
    (candidate : FeedCandidate) where
  -- Whether the source of a route names categories: a registry, and the publisher of "dqkx".
  abbrev pub names_categories : Route → Bool
  names_categories registry_crossref = true
  names_categories registry_datacite = true
  names_categories publisher = is_dqkx state.journal
  names_categories _ = false

  abbrev pub read_named :
      Route → RouteExecution → SourceSettlement → Result Fault (List CategoryBasis)
  read_named publisher e s = read_publisher given plan_id state candidate e s
  read_named r e s = read_registry given plan_id state candidate r e s

  -- The bases that an answer names.
  unfoldable pub bases_named : Answer → Result Fault (List CategoryBasis)
  bases_named a = case_settled (acquired_settlement a.1)
    where
      case_settled : Option SourceSettlement → Result Fault (List CategoryBasis)
      case_settled none = ok []
      case_settled (some s) = if names_categories a.0 then read_named a.0 a.1 s else ok []

  -- Bases with those that the answers name after them.
  unfoldable pub gathered : List CategoryBasis → List Answer → Result Fault (List CategoryBasis)
  gathered bases [] = ok bases
  gathered bases (a ∷ answers) = bases_named a >>= λ more. gathered (bases ++ more) answers

  abbrev pub start : List CategoryBasis
  start = feed_bases given state.journal candidate state.feed_acquisition_id

  -- The bases of a selected outcome are those of the feed and of the answers.
  pub record IsGathered (answers : List Answer) (o : SamplingOutcome) : Type 0 where
    pub of_selected : is_selected o.result ≡ true → gathered start answers ≡ ok o.category_bases

  pub gathered-append :
      (from bases more : List CategoryBasis) (answers : List Answer) (a : Answer)
      → gathered from answers ≡ ok bases
      → bases_named a ≡ ok more
      → gathered from (answers ++ a ∷ []) ≡ ok (bases ++ more)
  unfolding gathered
  gathered-append from bases more [] a h n = let same = ok_injective h in rw (n, same) refl
  gathered-append from bases more (b ∷ answers) a h n =
      let (first, named, rest) = >>=-eq-ok (bases_named b) _ h in
      rw named (gathered-append (from ++ first) bases more answers a rest n)

  -- An answer that names nothing.
  pub gathered-silent :
      (bases : List CategoryBasis) (answers : List Answer) (a : Answer)
      → gathered start answers ≡ ok bases
      → bases_named a ≡ ok []
      → gathered start (answers ++ a ∷ []) ≡ ok bases
  gathered-silent bases answers a h n =
      subst (λ bs. gathered start (answers ++ a ∷ []) ≡ ok bs) (append-nil bases)
        (gathered-append start bases [] answers a h n)

  pub not_acquired :
      (r : Route) (e : RouteExecution) → acquired_settlement e ≡ none → bases_named (r, e) ≡ ok []
  unfolding bases_named
  not_acquired r e h = rw h refl

  pub names_nothing :
      (r : Route) (e : RouteExecution) → names_categories r ≡ false → bases_named (r, e) ≡ ok []
  unfolding bases_named
  names_nothing r e h = elim (Option-cases (acquired_settlement e)) [
    | inl n ↦ rw n refl
    | inr (s, n) ↦ rw (n, h) refl
  ]

  pub names_read :
      (r : Route) (e : RouteExecution) (s : SourceSettlement)
      → names_categories r ≡ true
      → acquired_settlement e ≡ some s
      → bases_named (r, e) ≡ read_named r e s
  unfolding bases_named
  names_read r e s h n = rw (n, h) refl
