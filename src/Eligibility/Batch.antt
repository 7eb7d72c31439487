-- ===== src/Eligibility/Batch.antt =====
-- eligibility/rules.py, `evaluate_concept`: one concept over many papers. A dictionary is an
-- association list in insertion order.
use mathlib.Core.Option
use paper_radar.Prelude.{
  Bool, Bool-cases, List, Option, String, [], ap, arith, eq_iff, false, if◌then◌else◌, inl, inr,
  is_some, keep, none, refl, some, str_eq, sym, true, ◌++◌, ◌∙◌, ◌∷◌, ◌≡◌,
}
use paper_radar.Prelude.Text.{text_leb, text_leb_total}
use paper_radar.Eligibility.Models.{Concept, Eligibility, PaperProjection, Support, duplicate_paper}
use paper_radar.Eligibility.Rules.{evaluate_paper}

abbrev pub Results : Type 0
Results = List (String × Eligibility)

unfoldable pub lookup : String → Results → Option Eligibility
lookup id [] = none
lookup id ((k, e) ∷ results) = if str_eq k id then some e else lookup id results

abbrev is_deferred : Support → Bool
is_deferred Support.deferred = true
is_deferred _ = false

-- The result of a paper whose identity comes twice.
unfoldable pub refused : Eligibility → Eligibility
refused previous = record previous {
  eligible = if is_deferred previous.support then none else some false;
  decision = none;
  quality_failure = none;
  reasons = duplicate_paper ∷ [];
}

-- `results[paper_id] = refused(results[paper_id])`, for a key that is there.
unfoldable pub refuse_at : String → Results → Results
refuse_at id [] = []
refuse_at id ((k, e) ∷ results) =
    if str_eq k id then (k, refused e) ∷ results else (k, e) ∷ refuse_at id results

-- One round of the loop.
unfoldable pub add_paper : Concept → Results → PaperProjection → Results
add_paper concept results paper =
    if is_some (lookup paper.paper_id results)
    then refuse_at paper.paper_id results
    else results ++ (paper.paper_id, evaluate_paper paper concept) ∷ []

unfoldable pub evaluate_each : Concept → Results → List PaperProjection → Results
evaluate_each concept results [] = results
evaluate_each concept results (paper ∷ papers) =
    evaluate_each concept (add_paper concept results paper) papers

-- `sorted` on the items of a dictionary, whose keys differ.
unfoldable pub insert : String → Eligibility → Results → Results
insert k e [] = (k, e) ∷ []
insert k e ((j, d) ∷ results) =
    if text_leb k j then (k, e) ∷ (j, d) ∷ results else (j, d) ∷ insert k e results

unfoldable pub sort : Results → Results
sort [] = []
sort ((k, e) ∷ results) = insert k e (sort results)

unfoldable pub evaluate_concept : Concept → List PaperProjection → Results
evaluate_concept concept papers = sort (evaluate_each concept [] papers)

lookup-append :
    (id k : String) (e : Eligibility) (results : Results)
    → lookup id (results ++ (k, e) ∷ []) ≡ (
        if is_some (lookup id results)
        then lookup id results
        else if str_eq k id
        then some e
        else none)
unfolding lookup
lookup-append id k e [] = refl
lookup-append id k e ((j, d) ∷ results) = ground (arith, lookup-append id k e results)

lookup-refuse_at :
    (id k : String) (results : Results)
    → lookup id (refuse_at k results)
      ≡ (if str_eq k id then Option.map refused (lookup id results) else lookup id results)
unfolding lookup refuse_at
lookup-refuse_at id k [] = ground arith
lookup-refuse_at id k ((j, d) ∷ results) =
    ground (arith, eq_iff k id, eq_iff j id, eq_iff j k, lookup-refuse_at id k results)

text_leb_refl : (k : String) → text_leb k k ≡ true
text_leb_refl k = elim (text_leb_total k k) [ inl h ↦ h | inr h ↦ h ]

lookup-insert :
    (id k : String) (e : Eligibility) (results : Results)
    → lookup id (insert k e results) ≡ (if str_eq k id then some e else lookup id results)
unfolding lookup insert
lookup-insert id k e [] = refl
lookup-insert id k e ((j, d) ∷ results) =
    ground (arith, eq_iff k id, eq_iff j id, text_leb_refl k, lookup-insert id k e results)

lookup-sort : (id : String) (results : Results) → lookup id (sort results) ≡ lookup id results
unfolding sort lookup
lookup-sort id [] = refl
lookup-sort id ((k, e) ∷ results) =
    ground (arith, lookup-insert id k e (sort results), lookup-sort id results)

refused_idem : (e : Eligibility) → refused (refused e) ≡ refused e
unfolding refused
refused_idem e = refl

-- What is known of an identity, from the papers that have it.
abbrev pub verdict : Concept → List PaperProjection → Option Eligibility
verdict concept [] = none
verdict concept (p ∷ []) = some (evaluate_paper p concept)
verdict concept (p ∷ q ∷ rest) = some (refused (evaluate_paper p concept))

abbrev pub having : String → List PaperProjection → List PaperProjection
having id papers = keep (λ p. str_eq p.paper_id id) papers

-- What a further list of papers with an identity makes of what is known of it.
abbrev extended : Concept → Option Eligibility → List PaperProjection → Option Eligibility
extended concept none papers = verdict concept papers
extended concept (some e) [] = some e
extended concept (some e) (p ∷ papers) = some (refused e)

lookup-add_paper :
    (concept : Concept) (id : String) (results : Results) (p : PaperProjection)
    → lookup id (add_paper concept results p) ≡ (
        if str_eq p.paper_id id
        then extended concept (lookup id results) (p ∷ [])
        else lookup id results)
unfolding add_paper
lookup-add_paper concept id results p =
    let at = evaluate_paper p concept in
    ground (
      arith,
      eq_iff p.paper_id id,
      lookup-refuse_at id p.paper_id results,
      lookup-append id p.paper_id at results,
    )

extend_twice :
    (concept : Concept) (o : Option Eligibility) (p : PaperProjection) (rest : List PaperProjection)
    → extended concept (extended concept o (p ∷ [])) rest ≡ extended concept o (p ∷ rest)
extend_twice concept none p [] = refl
extend_twice concept none p (q ∷ rest) = refl
extend_twice concept (some e) p [] = refl
extend_twice concept (some e) p (q ∷ rest) = ap some (refused_idem e)

extend_nil : (concept : Concept) (o : Option Eligibility) → extended concept o [] ≡ o
extend_nil concept none = refl
extend_nil concept (some e) = refl

lookup-evaluate_each :
    (concept : Concept) (id : String) (results : Results) (papers : List PaperProjection)
    → lookup id (evaluate_each concept results papers)
      ≡ extended concept (lookup id results) (having id papers)
unfolding evaluate_each
lookup-evaluate_each concept id results [] = sym (extend_nil concept (lookup id results))
lookup-evaluate_each concept id results (p ∷ papers) =
    let later = lookup-evaluate_each concept id (add_paper concept results p) papers in
    let now = lookup-add_paper concept id results p in
    elim (Bool-cases (str_eq p.paper_id id)) [
      | inl e ↦
          let now' : lookup id (add_paper concept results p)
              ≡ extended concept (lookup id results) (p ∷ []) =
            rw e at now in
          rw e (
            later
            ∙ ap (λ o. extended concept o (having id papers)) now'
            ∙ extend_twice concept (lookup id results) p (having id papers))
      | inr e ↦
          let now' : lookup id (add_paper concept results p) ≡ lookup id results = rw e at now in
          rw e (later ∙ ap (λ o. extended concept o (having id papers)) now')
    ]

-- An identity that one paper has gets that paper's result, one that several have is refused with the
-- first one's support and scope, and no other identity has a result.
pub lookup-evaluate_concept :
    (concept : Concept) (papers : List PaperProjection) (id : String)
    → lookup id (evaluate_concept concept papers) ≡ verdict concept (having id papers)
unfolding evaluate_concept lookup
lookup-evaluate_concept concept papers id = lookup-sort id (evaluate_each concept [] papers) ∙ rest
  where
    rest : lookup id (evaluate_each concept [] papers) ≡ verdict concept (having id papers)
    rest = lookup-evaluate_each concept id [] papers
