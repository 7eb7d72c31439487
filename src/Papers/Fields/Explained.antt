-- ===== src/Papers/Fields/Explained.antt =====
-- papers/rules.py, `explain_fields`: every candidate is given a reason.
use paper_radar.Prelude.{
  All, Among, Bool, Bool-cases, List, Option, Option-cases, String, [], and_first, and_second, ap,
  eq_iff, eq_refl, false, if◌then◌else◌, inl, inr, ltb, map, map-append, none, refl, some, str_eq,
  subst, sym, true, ◌++◌, ◌||◌, ◌↔◌, ◌∙◌, ◌∷◌, ◌≡◌, ◌≢◌,
}
use paper_radar.Prelude.Int.{ltb_ℤ}
use paper_radar.Prelude.Results.{ok}
use paper_radar.Papers.Fields.{
  CandidateDecision, FieldMap, FieldReason, RankedObservation, Reference, beaten_by, beaten_reason,
  choose_fields, decision_of, earlier_manual_event, earlier_observation_or_stable_tiebreak,
  explain_fields, explain_item, explain_items, field_reason, get_field, has_reference,
  highest_parser, is_manual, is_reference, lower_source_priority, pair_eq, rest_reason, selected,
  selected_of, source_priority, superseded_interpretation,
}
use paper_radar.Papers.Fields.Winner.{IsWinner, choose_fields-IsWinner}

pub pair_eq_refl : (a : String × String) → pair_eq a a ≡ true
pair_eq_refl a = rw (eq_refl a.0, eq_refl a.1) refl

-- A field's reference is among the references.
has_reference-get_field :
    (name : String) (fs : FieldMap) (r : Reference)
    → get_field name fs ≡ some r
    → has_reference r fs ≡ true
unfolding get_field
has_reference-get_field name [] r h = cc
has_reference-get_field name ((key, q) ∷ fs) r h = elim (Bool-cases (str_eq key name)) [
  | inl e ↦
      let h' : some q ≡ some r = rw e at h in
      let same : q ≡ r = cc in
      subst (λ x. (pair_eq x r || has_reference r fs) ≡ true) (sym same) (rw (pair_eq_refl r) refl)
  | inr e ↦
      let h' : get_field name fs ≡ some r = rw e at h in
      rw (has_reference-get_field name fs r h') (or_true (pair_eq q r))
]
  where
    or_true : (b : Bool) → (b || true) ≡ true
    or_true true = refl
    or_true false = refl

-- A reference of the winners that an observation has is found.
selected_of_found :
    (winners : FieldMap) (r : Reference) (os : List RankedObservation) (item : RankedObservation)
    → has_reference r winners ≡ true
    → has_reference r item.fields ≡ true
    → Among item os
    → (x : RankedObservation) × (selected_of winners r os ≡ some x)
unfolding selected_of
selected_of_found winners r [] item w h m = absurd m
selected_of_found winners r (o ∷ os) item w h m = elim (Option-cases (selected_of winners r os)) [
  | inr (x, e) ↦ (x, rw e refl)
  | inl e ↦ elim m [
    | inl same ↦
        let h' : has_reference r o.fields ≡ true =
          subst (λ (x : RankedObservation). has_reference r x.fields ≡ true) same h in
        (o, rw (e, h', w) refl)
    | inr later ↦
        let (x, found) = selected_of_found winners r os item w h later in
        absurd (let n : none ≡ some x = sym e ∙ found in cc)
  ]
]

abbrev beaten : RankedObservation → RankedObservation → FieldReason
beaten x item =
    if ltb (source_priority item.source_kind) (source_priority x.source_kind)
    then lower_source_priority
    else rest_reason item

-- The candidates that observations have, field by field.
abbrev pub candidates : List RankedObservation → FieldMap
candidates [] = []
candidates (o ∷ os) = o.fields ++ candidates os

-- The field and the candidate that a decision is about.
abbrev pub named : CandidateDecision → String × Reference
named d = (d.field_name, (d.candidate_id, d.acquisition_id))

-- A decision about a version says that a candidate is selected exactly if its field has it.
pub record IsTold (version_id : String) (winners : FieldMap) (d : CandidateDecision) : Type 0 where
  pub of_version : d.version_id ≡ version_id
  pub selected_iff :
      (d.reason ≡ selected)
      ↔ (get_field d.field_name winners ≡ some (d.candidate_id, d.acquisition_id))

-- The decisions are about these candidates in their order, each about one.
pub record IsExplained (version_id : String) (winners wanted : FieldMap)
    (ds : List CandidateDecision) : Type 0 where
  pub in_order : map named ds ≡ wanted
  pub told : All (IsTold version_id winners) ds

is_reference_iff : (o : Option Reference) (r : Reference) → (is_reference o r ≡ true) ↔ (o ≡ some r)
is_reference_iff none r = (λ h. cc, λ h. cc)
is_reference_iff (some w) r = (
  λ h. ap some (
      pair_ext w r ((eq_iff w.0 r.0).0 (and_first (str_eq w.0 r.0) _ h))
        ((eq_iff w.1 r.1).0 (and_second (str_eq w.0 r.0) _ h))),
  λ h. let same : w ≡ r = cc in rw same (pair_eq_refl r),
)
  where
    pair_ext : (a b : Reference) → a.0 ≡ b.0 → a.1 ≡ b.1 → a ≡ b
    pair_ext a b e f = rw (e, f) refl

rest_unselected : (item : RankedObservation) → rest_reason item ≢ selected
rest_unselected item h = elim (Bool-cases (is_manual item.source_kind)) [
  | inl e ↦ let h' : earlier_manual_event ≡ selected = rw e at h in cc
  | inr e ↦ let h' : earlier_observation_or_stable_tiebreak ≡ selected = rw e at h in cc
]

beaten_unselected : (x item : RankedObservation) → beaten x item ≢ selected
beaten_unselected x item h =
    elim (Bool-cases (ltb (source_priority item.source_kind) (source_priority x.source_kind))) [
      | inl e ↦ let h' : lower_source_priority ≡ selected = rw e at h in cc
      | inr e ↦ let h' : rest_reason item ≡ selected = rw e at h in rest_unselected item h'
    ]

All-append :
    (P : CandidateDecision → Type 0) (xs ys : List CandidateDecision)
    → All P xs
    → All P ys
    → All P (xs ++ ys)
All-append P [] ys h k = k
All-append P (x ∷ xs) ys h k = (h.0, All-append P xs ys h.1 k)

module _ (version_id : String) (observations : List RankedObservation) where
  abbrev winners : FieldMap
  winners = choose_fields observations

  winner_found :
      (name : String) (r : Reference)
      → get_field name winners ≡ some r
      → (x : RankedObservation) × (selected_of winners r observations ≡ some x)
  winner_found name r h =
      let (item, chosen) =
        subst (IsWinner observations name) h (choose_fields-IsWinner observations name) in
      selected_of_found winners r observations item (has_reference-get_field name winners r h)
        (has_reference-get_field name item.fields r chosen.has) chosen.among

  unselected :
      (r : Reference) (o : Option Reference) (reason : FieldReason)
      → is_reference o r ≡ false
      → reason ≢ selected
      → (reason ≡ selected) ↔ (o ≡ some r)
  unselected r o reason e n =
      (λ h. absurd (n h), λ h. let e' : true ≡ false = sym ((is_reference_iff o r).1 h) ∙ e in cc)

  field_reason_total :
      (item : RankedObservation) (name : String) (r : Reference)
      → (reason : FieldReason) × (field_reason observations winners item name r ≡ ok reason)
        × ((reason ≡ selected) ↔ (get_field name winners ≡ some r))
  unfolding field_reason beaten_reason beaten_by
  field_reason_total item name r = elim (Bool-cases (is_reference (get_field name winners) r)) [
    | inl e ↦
        (selected, rw e refl, (λ _. (is_reference_iff (get_field name winners) r).0 e, λ _. refl))
    | inr e ↦ elim (Bool-cases (ltb_ℤ item.parser_version (highest_parser item observations))) [
      | inl l ↦ (
        superseded_interpretation,
        rw (e, l) refl,
        unselected r _ superseded_interpretation e (λ h. cc),
      )
      | inr l ↦ elim (Option-cases (get_field name winners)) [
        | inl n ↦ (
          rest_reason item,
          rw (e, l, n) refl,
          unselected r _ (rest_reason item) e (rest_unselected item),
        )
        | inr (w, has) ↦
            let (x, found) = winner_found name w has in
            (
              beaten x item,
              rw (e, l, has, found) refl,
              unselected r _ (beaten x item) e (beaten_unselected x item),
            )
      ]
    ]
  ]

  explain_item_total :
      (item : RankedObservation) (fs : FieldMap)
      → (ds : List CandidateDecision) × (explain_item version_id observations winners item fs
          ≡ ok ds)
        × IsExplained version_id winners fs ds
  unfolding explain_item
  explain_item_total item [] = ([], refl, record { in_order = refl; told = tt })
  explain_item_total item ((name, r) ∷ fs) =
      let (reason, given, iff) = field_reason_total item name r in
      let (ds, later, rest) = explain_item_total item fs in
      (
        decision_of version_id observations winners name r reason ∷ ds,
        rw (given, later) refl,
        record {
          in_order = ap (λ ns. (name, r) ∷ ns) rest.in_order;
          told = (record { of_version = refl; selected_iff = iff }, rest.told);
        },
      )

  explain_items_total :
      (os : List RankedObservation)
      → (ds : List CandidateDecision) × (explain_items version_id observations winners os ≡ ok ds)
        × IsExplained version_id winners (candidates os) ds
  unfolding explain_items
  explain_items_total [] = ([], refl, record { in_order = refl; told = tt })
  explain_items_total (o ∷ os) =
      let (ds, first, front) = explain_item_total o o.fields in
      let (es, later, rest) = explain_items_total os in
      (
        ds ++ es,
        rw (first, later) refl,
        record {
          in_order = map-append named ds es ∙ rw (front.in_order, rest.in_order) refl;
          told = All-append (IsTold version_id winners) ds es front.told rest.told;
        },
      )

  -- The explanation of the candidates of a version raises no KeyError. Its decisions are about the
  -- candidates of the observations, one for each in their order, and name the version; one says that
  -- its candidate is selected exactly if the chosen reference of its field is this candidate.
  pub explain_fields_total :
      (ds : List CandidateDecision) × (explain_fields version_id observations ≡ ok ds)
      × IsExplained version_id (choose_fields observations) (candidates observations) ds
  unfolding explain_fields
  explain_fields_total = explain_items_total observations
