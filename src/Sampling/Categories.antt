-- ===== src/Sampling/Categories.antt =====
-- fixture_audit/sampling_rules.py: the categories that the sources of a candidate name, what they
-- come to, and whether its identity has occurred.
use paper_radar.Prelude.{
  Bool, List, Option, String, [], any, false, if◌then◌else◌, is_none, keep, map, none, not, some,
  str_eq, true, when, ℕ, ◌&&◌, ◌++◌, ◌∷◌,
}
use paper_radar.Prelude.Text.{is_empty, opt_is}
use paper_radar.Prelude.Results.{Result, ok, ◌>>=◌}
use paper_radar.Sources.{Route, feed, publisher, registry_crossref}
use paper_radar.Sampling.{
  CategoryBasis, CategoryDecision, CategoryResult, Fault, FeedCandidate, Journal, RawCategory,
  RouteExecution, SamplingOutcome, SelectionResult, dc_type, is_dqkx,
}
use paper_radar.Llm.Json.{Json, get, object_of}

-- A start tag as the HTML parser reports it.
pub record StartTag : Type 0 where
  pub tag : String
  pub attributes : List (String × Option String)

-- What the selection is given: Python's operations on texts, the HTML and JSON parsers on decoded
-- bytes, the material of an execution, and the digest of a member.
pub record Materials (F B : Type 0) : Type 0 where
  pub strip : String → String
  pub lower : String → String
  pub start_tags : B → String → Result Fault (List StartTag)
  pub parse_json : B → Result Fault (Json F)
  pub read_material : RouteExecution → Result Fault B
  pub member_identity : String → Journal → ℕ → Option String → Option String → String

-- `dict(attrs).get(name)`: of several attributes of one name, the last.
unfoldable pub attribute : String → List (String × Option String) → Option (Option String)
attribute name [] = none
attribute name ((key, value) ∷ rest) =
    let later = attribute name rest in
    elim later [ some v ↦ some v | none ↦ if str_eq key name then some value else none ]

-- `values.get(name) or ""`
abbrev pub or_empty : Option (Option String) → String
or_empty (some (some v)) = v
or_empty _ = ""

abbrev pub is_article : CategoryDecision → Bool
is_article CategoryDecision.journal_article = true
is_article _ = false

abbrev pub is_other : CategoryDecision → Bool
is_other CategoryDecision.non_journal_article = true
is_other _ = false

unfoldable pub category_result : List CategoryBasis → CategoryResult
category_result bases =
    let article = any (λ (b : CategoryBasis). is_article b.decision) bases in
    let other = any (λ (b : CategoryBasis). is_other b.decision) bases in
    if article && other
    then CategoryResult.conflict
    else if article
    then CategoryResult.journal_article
    else if other
    then CategoryResult.non_journal_article
    else CategoryResult.unknown

abbrev is_dc_type : RawCategory → Bool
is_dc_type c = elim c.raw_field [ dc_type ↦ true | _ ↦ false ]

abbrev pub is_blocked : SelectionResult → Bool
is_blocked SelectionResult.blocked_pending = true
is_blocked _ = false

unfoldable pub duplicate_identity : Option String → Option String → List SamplingOutcome → Bool
duplicate_identity (some doi) entry_id previous =
    any (λ (o : SamplingOutcome). not (is_blocked o.result) && opt_is o.doi doi) previous
duplicate_identity none none previous = false
duplicate_identity none (some entry) previous =
    any
      (λ (o : SamplingOutcome).
        not (is_blocked o.result) && is_none o.doi && opt_is o.entry_id entry)
      previous

module _ {F B : Type 0} (given : Materials F B) where
  -- `_PublisherType.handle_starttag`: what one start tag adds to the values.
  unfoldable pub handle_starttag : StartTag → List String
  handle_starttag t =
      let content = attribute "content" t.attributes in
      elim content [
        | some (some value) ↦
            when
              (str_eq t.tag "meta"
                && str_eq (given.lower (or_empty (attribute "name" t.attributes))) "dc.type")
              value
        | _ ↦ []
      ]

  unfoldable pub publisher_types : List StartTag → List String
  publisher_types [] = []
  publisher_types (t ∷ ts) = handle_starttag t ++ publisher_types ts

  -- `_mapped_value`; an absent value and a null are no dictionaries.
  unfoldable pub mapped_value : Option (Json F) → List String → Option (Json F)
  mapped_value value [] = value
  mapped_value value (name ∷ path) = elim (object_of value) [
    | none ↦ none
    | some fields ↦ mapped_value (get name fields) path
  ]

  abbrev pub text_label : Option (Json F) → List String
  text_label (some (Json.text label)) = label ∷ []
  text_label _ = []

  unfoldable pub decide_category : String → String → Bool → CategoryDecision
  decide_category value accepted rejects_other =
      if str_eq (given.strip value) accepted
      then CategoryDecision.journal_article
      else if not (is_empty (given.strip value)) && rejects_other
      then CategoryDecision.non_journal_article
      else CategoryDecision.unknown

  -- The bases of the values that one source names under one locator.
  unfoldable pub bases_of :
      Route → Option String → String → String → Bool → List String → List CategoryBasis
  bases_of route acquisition_id locator accepted rejects_other values =
      map
        (λ value. record {
          route = route;
          locator = locator;
          value = value;
          decision = decide_category value accepted rejects_other;
          acquisition_id = acquisition_id;
        })
        values

  abbrev registry_path : Route → List String
  registry_path registry_crossref = "message" ∷ "type" ∷ []
  registry_path _ = "data" ∷ "attributes" ∷ "types" ∷ "resourceTypeGeneral" ∷ []

  abbrev registry_locator : Route → String
  registry_locator registry_crossref = "message.type"
  registry_locator _ = "data.attributes.types.resourceTypeGeneral"

  abbrev registry_accepted : Route → String
  registry_accepted registry_crossref = "journal-article"
  registry_accepted _ = "JournalArticle"

  -- `category_bases` on the route "feed", where there is no material.
  unfoldable pub feed_bases : Journal → FeedCandidate → Option String → List CategoryBasis
  feed_bases journal candidate acquisition_id =
      if is_dqkx journal
      then bases_of feed acquisition_id "item/dc:type" "article" false
          (map (λ (c : RawCategory). c.value) (keep is_dc_type candidate.raw_categories))
      else []

  -- `category_bases` on the route of a registry, with its material.
  unfoldable pub registry_bases : Route → B → Option String → Result Fault (List CategoryBasis)
  registry_bases route raw acquisition_id = do
    value ← given.parse_json raw
    ok (
        bases_of route acquisition_id (registry_locator route) (registry_accepted route) true
          (text_label (mapped_value (some value) (registry_path route))))

  -- `category_bases` on the route "publisher" of the journal "dqkx", with its material.
  unfoldable pub publisher_bases : B → Option String → String → Result Fault (List CategoryBasis)
  publisher_bases raw acquisition_id decoding = do
    tags ← given.start_tags raw decoding
    ok (bases_of publisher acquisition_id "meta[name=dc.type]" "论文" false (publisher_types tags))
