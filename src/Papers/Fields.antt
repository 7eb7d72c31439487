-- ===== src/Papers/Fields.antt =====
-- papers/rules.py: which candidate of a field is chosen among the observations of a version, and the
-- reason that each candidate is given. A dictionary is its list of pairs, in their order.
pub mod Winner
pub mod Explained
pub mod Manual
use paper_radar.Prelude.{
  Bool, List, Option, String, [], any, false, if◌then◌else◌, is_none, keep, leb, ltb, none, some,
  str_eq, true, ℕ, ◌&&◌, ◌++◌, ◌==◌, ◌∷◌,
}
use paper_radar.Prelude.Int.{eqb_ℤ, ltb_ℤ, max_ℤ, pos, ℤ}
use paper_radar.Prelude.Text.{text_leb}
use paper_radar.Prelude.Results.{Result, ok, problem, ◌>>=◌, ◌>>◌}
use paper_radar.Prelude.Orders.{Order, equal_all, leb_ℤ, lex_by}

pub data SourceKind : Type 0 where
  manual publisher registry feed : SourceKind

-- `SOURCE_PRIORITY`
abbrev pub source_priority : SourceKind → ℕ
source_priority manual = 3
source_priority publisher = 2
source_priority registry = 1
source_priority feed = 0

abbrev pub is_manual : SourceKind → Bool
is_manual manual = true
is_manual _ = false

-- A candidate's id, and that of its acquisition.
abbrev pub Reference : Type 0
Reference = String × String

abbrev pub pair_eq : String × String → String × String → Bool
pair_eq a b = str_eq a.0 b.0 && str_eq a.1 b.1

abbrev pub FieldMap : Type 0
FieldMap = List (String × Reference)

pub record RankedObservation : Type 0 where
  pub observed_at : String
  pub payload_sha256 : String
  pub parser_version : ℤ
  pub fields : FieldMap
  pub event_no : ℤ
  pub source_kind : SourceKind
  pub stream : String × String

unfoldable pub get_field : String → FieldMap → Option Reference
get_field name [] = none
get_field name ((key, reference) ∷ rest) =
    let later = get_field name rest in if str_eq key name then some reference else later

-- `_parser_key(a) == _parser_key(b)`
unfoldable pub parser_key_eq : RankedObservation → RankedObservation → Bool
parser_key_eq a b =
    (source_priority a.source_kind == source_priority b.source_kind)
    && pair_eq a.stream b.stream
    && str_eq a.payload_sha256 b.payload_sha256

-- `_highest_parsers`, read at the key of an observation: the loop from the value so far.
unfoldable pub highest_from : RankedObservation → ℤ → List RankedObservation → ℤ
highest_from item highest [] = highest
highest_from item highest (o ∷ os) =
    highest_from item (if parser_key_eq o item then max_ℤ highest o.parser_version else highest) os

abbrev pub highest_parser : RankedObservation → List RankedObservation → ℤ
highest_parser item observations = highest_from item (pos 0) observations

abbrev pub is_latest_parser : List RankedObservation → RankedObservation → Bool
is_latest_parser observations item = eqb_ℤ item.parser_version (highest_parser item observations)

abbrev pub manual_event : RankedObservation → ℤ
manual_event item = if is_manual item.source_kind then item.event_no else pos 0

abbrev pub stream_order : Order RankedObservation
stream_order =
    lex_by (λ (o : RankedObservation). o.stream.0) text_leb
      (lex_by (λ (o : RankedObservation). o.stream.1) text_leb equal_all)

abbrev pub material_order : Order RankedObservation
material_order =
    lex_by (λ (o : RankedObservation). o.observed_at) text_leb
      (lex_by (λ (o : RankedObservation). o.payload_sha256) text_leb
        (lex_by (λ (o : RankedObservation). o.parser_version) leb_ℤ stream_order))

-- The order of the sort's keys.
unfoldable pub rank_order : Order RankedObservation
rank_order =
    lex_by (λ (o : RankedObservation). source_priority o.source_kind) leb
      (lex_by manual_event leb_ℤ material_order)

-- `sorted(..., reverse=True)`, which keeps the order of what is equal.
unfoldable pub place_ranked : RankedObservation → List RankedObservation → List RankedObservation
place_ranked x [] = x ∷ []
place_ranked x (y ∷ ys) =
    let later = place_ranked x ys in if rank_order y x then x ∷ y ∷ ys else y ∷ later

unfoldable pub sort_descending : List RankedObservation → List RankedObservation
sort_descending [] = []
sort_descending (x ∷ xs) = place_ranked x (sort_descending xs)

-- `winners.setdefault(field, candidate_id)`
unfoldable pub set_default : FieldMap → String → Reference → FieldMap
set_default winners name reference =
    if is_none (get_field name winners) then winners ++ (name, reference) ∷ [] else winners

unfoldable pub add_fields : FieldMap → FieldMap → FieldMap
add_fields winners [] = winners
add_fields winners ((name, reference) ∷ rest) = add_fields (set_default winners name reference) rest

unfoldable pub add_winners : FieldMap → List RankedObservation → FieldMap
add_winners winners [] = winners
add_winners winners (o ∷ os) = add_winners (add_fields winners o.fields) os

unfoldable pub choose_fields : List RankedObservation → FieldMap
choose_fields observations =
    add_winners [] (sort_descending (keep (is_latest_parser observations) observations))

pub data FieldReason : Type 0 where
  selected superseded_interpretation lower_source_priority : FieldReason
  earlier_manual_event earlier_observation_or_stable_tiebreak : FieldReason

pub record CandidateDecision : Type 0 where
  pub version_id : String
  pub field_name : String
  pub candidate_id : String
  pub acquisition_id : String
  pub reason : FieldReason

abbrev pub has_reference : Reference → FieldMap → Bool
has_reference r fields = any (λ (f : String × Reference). pair_eq f.1 r) fields

-- The dictionary `selected`, read at a reference: of several observations, the last.
unfoldable pub selected_of :
    FieldMap → Reference → List RankedObservation → Option RankedObservation
selected_of winners r [] = none
selected_of winners r (o ∷ os) =
    let later = selected_of winners r os in
    elim later [
      | some x ↦ some x
      | none ↦ if has_reference r o.fields && has_reference r winners then some o else none
    ]

-- `KeyError`
pub data MissingKey : Type 0 where
  missing_key : MissingKey

abbrev pub rest_reason : RankedObservation → FieldReason
rest_reason item =
    if is_manual item.source_kind
    then earlier_manual_event
    else earlier_observation_or_stable_tiebreak

unfoldable pub beaten_by :
    RankedObservation → Option RankedObservation → Result MissingKey FieldReason
beaten_by item none = problem missing_key
beaten_by item (some x) = ok (
    if ltb (source_priority item.source_kind) (source_priority x.source_kind)
    then lower_source_priority
    else rest_reason item)

-- The reason of a candidate of an observation with the latest parser, beside the winner.
unfoldable pub beaten_reason :
    List RankedObservation
    → FieldMap
    → RankedObservation
    → Option Reference
    → Result MissingKey FieldReason
beaten_reason observations winners item none = ok (rest_reason item)
beaten_reason observations winners item (some winner) =
    beaten_by item (selected_of winners winner observations)

abbrev pub is_reference : Option Reference → Reference → Bool
is_reference none r = false
is_reference (some w) r = pair_eq w r

unfoldable pub field_reason :
    List RankedObservation
    → FieldMap
    → RankedObservation
    → String
    → Reference
    → Result MissingKey FieldReason
field_reason observations winners item name reference =
    if is_reference (get_field name winners) reference
    then ok selected
    else if ltb_ℤ item.parser_version (highest_parser item observations)
    then ok superseded_interpretation
    else beaten_reason observations winners item (get_field name winners)

module _ (version_id : String) (observations : List RankedObservation) (winners : FieldMap) where
  abbrev pub decision_of : String → Reference → FieldReason → CandidateDecision
  decision_of name reference reason = record {
    version_id = version_id;
    field_name = name;
    candidate_id = reference.0;
    acquisition_id = reference.1;
    reason = reason;
  }

  unfoldable pub explain_item :
      RankedObservation → FieldMap → Result MissingKey (List CandidateDecision)
  explain_item item [] = ok []
  explain_item item ((name, reference) ∷ rest) = do
    reason ← field_reason observations winners item name reference
    later ← explain_item item rest
    ok (decision_of name reference reason ∷ later)

  unfoldable pub explain_items : List RankedObservation → Result MissingKey (List CandidateDecision)
  explain_items [] = ok []
  explain_items (o ∷ os) = do
    first ← explain_item o o.fields
    later ← explain_items os
    ok (first ++ later)

unfoldable pub explain_fields :
    String → List RankedObservation → Result MissingKey (List CandidateDecision)
explain_fields version_id observations =
    explain_items version_id observations (choose_fields observations) observations
