-- ===== src/Sampling/New.antt =====
-- fixture_audit/sampling_rules.py: what the verdicts on the categories and on the identity of a
-- candidate say of the bases and of the entries.
use paper_radar.Prelude.{
  All, All-map, Among, Bool, List, Option, String, any, any-false-All, any-Among, ap, arith, false,
  is_none, none, not, some, sym, true, ◌&&◌, ◌∙◌, ◌≡◌, ◌≢◌,
}
use paper_radar.Prelude.Text.{opt_is, opt_is_iff}
use paper_radar.Sampling.{
  CategoryBasis, CategoryDecision, CategoryResult, SamplingOutcome, SelectionResult,
}
use paper_radar.Sampling.Categories.{
  category_result, duplicate_identity, is_article, is_blocked, is_other,
}

article_decision :
    (b : CategoryBasis)
    → is_article b.decision ≡ true
    → b.decision ≡ CategoryDecision.journal_article
article_decision b h = ground arith

other_decision :
    (b : CategoryBasis)
    → is_other b.decision ≡ false
    → b.decision ≢ CategoryDecision.non_journal_article
other_decision b h e = ground arith

-- Bases that come to a journal article name one and nothing else.
pub category_result-journal_article :
    (bases : List CategoryBasis)
    → category_result bases ≡ CategoryResult.journal_article
    → All (λ b. b.decision ≢ CategoryDecision.non_journal_article) bases
      × ((b : CategoryBasis) × Among b bases × (b.decision ≡ CategoryDecision.journal_article))
unfolding category_result
category_result-journal_article bases h =
    let article = any (λ (b : CategoryBasis). is_article b.decision) bases in
    let other = any (λ (b : CategoryBasis). is_other b.decision) bases in
    let both : (article ≡ true) × (other ≡ false) = ground arith in
    let (b, found, named) = any-Among (λ (b : CategoryBasis). is_article b.decision) bases both.0 in
    (
      All-map (λ b. is_other b.decision ≡ false) _ bases other_decision
          (any-false-All (λ (b : CategoryBasis). is_other b.decision) bases both.1),
      (b, found, article_decision b named),
    )

not_blocked : (r : SelectionResult) → r ≢ SelectionResult.blocked_pending → is_blocked r ≡ false
not_blocked r h = ground arith

-- An identity with a DOI that has not occurred.
pub new_doi :
    (d : String) (doi entry_id : Option String) (entries : List SamplingOutcome)
    → doi ≡ some d
    → duplicate_identity doi entry_id entries ≡ false
    → All (λ p. p.result ≢ SelectionResult.blocked_pending → p.doi ≢ some d) entries
unfolding duplicate_identity
new_doi d none entry_id entries e h = cc
new_doi d (some doi) entry_id entries e h =
    let taken : SamplingOutcome → Bool = λ p. not (is_blocked p.result) && opt_is p.doi doi in
    All-map (λ p. taken p ≡ false) _ entries
      (λ p t blocked same.
        let equal : doi ≡ d = cc in
        let free = not_blocked p.result blocked in
        let told : opt_is p.doi doi ≡ true =
          (opt_is_iff p.doi doi).1 (same ∙ ap some (sym equal)) in
        let t' : true ≡ false = rw (free, told) at t in cc)
      (any-false-All taken entries h)

-- An identity without a DOI whose entry id has not occurred.
pub new_entry :
    (i : String) (doi entry_id : Option String) (entries : List SamplingOutcome)
    → doi ≡ none
    → entry_id ≡ some i
    → duplicate_identity doi entry_id entries ≡ false
    → All
        (λ p. p.result ≢ SelectionResult.blocked_pending → p.doi ≡ none → p.entry_id ≢ some i)
        entries
unfolding duplicate_identity
new_entry i (some d) entry_id entries n e h = cc
new_entry i none none entries n e h = cc
new_entry i none (some entry) entries n e h =
    let taken : SamplingOutcome → Bool =
      λ p. not (is_blocked p.result) && is_none p.doi && opt_is p.entry_id entry in
    All-map (λ p. taken p ≡ false) _ entries
      (λ p t blocked without same.
        let equal : entry ≡ i = cc in
        let free = not_blocked p.result blocked in
        let told : opt_is p.entry_id entry ≡ true =
          (opt_is_iff p.entry_id entry).1 (same ∙ ap some (sym equal)) in
        let t' : true ≡ false = rw (free, without, told) at t in cc)
      (any-false-All taken entries h)
