-- ===== src/Papers/Fields/Manual.antt =====
-- papers/rules.py, `explain_fields`: what it means that a candidate is of an earlier manual event.
use paper_radar.Prelude.{
  Among, Bool, Bool-cases, List, Option, Option-cases, String, [], arith, eq_refl, false,
  if◌then◌else◌, inl, inr, is_some, leb, none, refl, some, subst, sym, true, ◌==◌, ◌∙◌, ◌∷◌, ◌≡◌,
}
use paper_radar.Prelude.Int.{
  eqb_ℤ, le_max_ℤ_left, le_max_ℤ_right, le_ℤ_trans, ltb_ℤ, max_ℤ, pos, ℤ, ◌≤ℤ◌,
}
use paper_radar.Prelude.Results.{ok, ok_injective}
use paper_radar.Prelude.Orders.{leb_ℤ, lex_by, lex_by-first, lex_by-rest}
use paper_radar.Papers.Fields.{
  FieldMap, RankedObservation, Reference, SourceKind, beaten_by, beaten_reason, choose_fields,
  earlier_manual_event, earlier_observation_or_stable_tiebreak, feed, field_reason, get_field,
  highest_from, highest_parser, is_latest_parser, is_manual, is_reference, lower_source_priority,
  manual, manual_event, material_order, parser_key_eq, publisher, rank_order, registry, selected,
  selected_of, source_priority, superseded_interpretation,
}
use paper_radar.Papers.Fields.Winner.{IsChosen, IsWinner, choose_fields-IsWinner}
use paper_radar.Papers.Fields.Explained.{pair_eq_refl}

parser_key_eq_refl : (o : RankedObservation) → parser_key_eq o o ≡ true
unfolding parser_key_eq
parser_key_eq_refl o =
    let kind : (source_priority o.source_kind == source_priority o.source_kind) ≡ true =
      ground arith in
    rw (kind, pair_eq_refl o.stream, eq_refl o.payload_sha256) refl

highest_from_le :
    (item : RankedObservation) (h : ℤ) (os : List RankedObservation) → h ≤ℤ highest_from item h os
unfolding highest_from
highest_from_le item h [] = omega arith
highest_from_le item h (o ∷ os) = elim (Bool-cases (parser_key_eq o item)) [
  | inl e ↦ rw e (
      le_ℤ_trans h (max_ℤ h o.parser_version) _ (le_max_ℤ_left h o.parser_version)
        (highest_from_le item (max_ℤ h o.parser_version) os))
  | inr e ↦ rw e (highest_from_le item h os)
]

highest_from-Among :
    (item : RankedObservation) (os : List RankedObservation) (h : ℤ)
    → Among item os
    → item.parser_version ≤ℤ highest_from item h os
unfolding highest_from
highest_from-Among item [] h m = absurd m
highest_from-Among item (o ∷ os) h (inl e) =
    let own : parser_key_eq o item ≡ true =
      subst (λ x. parser_key_eq x item ≡ true) e (parser_key_eq_refl item) in
    subst (λ (x : RankedObservation). x.parser_version ≤ℤ highest_from item h (o ∷ os)) (sym e)
      (rw own (
        le_ℤ_trans o.parser_version (max_ℤ h o.parser_version) _ (le_max_ℤ_right h o.parser_version)
          (highest_from_le item (max_ℤ h o.parser_version) os)))
highest_from-Among item (o ∷ os) h (inr m) = highest_from-Among item os _ m

manual_most :
    (a b : SourceKind)
    → leb (source_priority a) (source_priority b) ≡ true
    → is_manual a ≡ true
    → is_manual b ≡ true
manual_most manual manual h m = refl
manual_most manual publisher h m = ground arith
manual_most manual registry h m = ground arith
manual_most manual feed h m = ground arith
manual_most publisher b h m = cc
manual_most registry b h m = cc
manual_most feed b h m = cc

-- An observation with a parser that is not below the highest has the latest.
latest_parser :
    (observations : List RankedObservation) (item : RankedObservation)
    → Among item observations
    → ltb_ℤ item.parser_version (highest_parser item observations) ≡ false
    → is_latest_parser observations item ≡ true
latest_parser observations item m h =
    let most = highest_from-Among item observations (pos 0) m in
    equal item.parser_version (highest_parser item observations) most h
  where
    equal : (a b : ℤ) → a ≤ℤ b → ltb_ℤ a b ≡ false → eqb_ℤ a b ≡ true
    equal a b le h = ground arith

-- What is at most another and manual: the other is manual, of a later event.
manual_order :
    (item w : RankedObservation)
    → rank_order item w ≡ true
    → is_manual item.source_kind ≡ true
    → (is_manual w.source_kind ≡ true) × (leb_ℤ item.event_no w.event_no ≡ true)
unfolding rank_order
manual_order item w h m =
    let first =
      lex_by-first (λ (o : RankedObservation). source_priority o.source_kind) leb
        (lex_by manual_event leb_ℤ material_order) item w h in
    let also = manual_most item.source_kind w.source_kind first m in
    let back = manual_back w.source_kind item.source_kind m in
    let rest =
      lex_by-rest (λ (o : RankedObservation). source_priority o.source_kind) leb
        (lex_by manual_event leb_ℤ material_order) item w h back in
    let event : leb_ℤ (manual_event item) (manual_event w) ≡ true =
      lex_by-first manual_event leb_ℤ material_order item w rest in
    (also, rw (m, also) at event)
  where
    manual_back :
        (a b : SourceKind) → is_manual b ≡ true → leb (source_priority a) (source_priority b) ≡ true
    manual_back manual manual m = ground arith
    manual_back publisher manual m = ground arith
    manual_back registry manual m = ground arith
    manual_back feed manual m = ground arith
    manual_back a publisher m = cc
    manual_back a registry m = cc
    manual_back a feed m = cc

reason_manual :
    (b m : Bool)
    → (if b
        then lower_source_priority
        else (if m then earlier_manual_event else earlier_observation_or_stable_tiebreak))
      ≡ earlier_manual_event
    → m ≡ true
reason_manual true m h = cc
reason_manual false true h = refl
reason_manual false false h = cc

beaten_by-manual :
    (item : RankedObservation) (o : Option RankedObservation)
    → beaten_by item o ≡ ok earlier_manual_event
    → is_manual item.source_kind ≡ true
unfolding beaten_by
beaten_by-manual item none h = cc
beaten_by-manual item (some x) h = reason_manual _ (is_manual item.source_kind) (ok_injective h)

beaten_reason-manual :
    (observations : List RankedObservation) (chosen : FieldMap) (item : RankedObservation)
    (o : Option Reference)
    → beaten_reason observations chosen item o ≡ ok earlier_manual_event
    → is_manual item.source_kind ≡ true
unfolding beaten_reason
beaten_reason-manual observations chosen item none h =
    reason_manual false (is_manual item.source_kind) (ok_injective h)
beaten_reason-manual observations chosen item (some w) h =
    beaten_by-manual item (selected_of chosen w observations) h

module _ (observations : List RankedObservation) (item : RankedObservation) (name : String)
    (r : Reference) where
  earlier_is_latest :
      field_reason observations (choose_fields observations) item name r ≡ ok earlier_manual_event
      → (ltb_ℤ item.parser_version (highest_parser item observations) ≡ false)
        × (is_manual item.source_kind ≡ true)
  unfolding field_reason
  earlier_is_latest h =
      elim (Bool-cases (is_reference (get_field name (choose_fields observations)) r)) [
        | inl e ↦ let h' : ok selected ≡ ok earlier_manual_event = rw e at h in cc
        | inr e ↦ elim (Bool-cases (ltb_ℤ item.parser_version (highest_parser item observations))) [
          | inl l ↦
              let h' : ok superseded_interpretation ≡ ok earlier_manual_event = rw (e, l) at h in cc
          | inr l ↦ (
            l,
            beaten_reason-manual observations (choose_fields observations) item
                (get_field name (choose_fields observations)) (rw (e, l) at h),
          )
        ]
      ]

  -- A candidate of the observations that is told to be of an earlier manual event is of a manual
  -- observation, and the chosen candidate of its field is of one whose event is no earlier.
  pub field_reason-earlier_manual_event :
      Among item observations
      → get_field name item.fields ≡ some r
      → field_reason observations (choose_fields observations) item name r ≡ ok earlier_manual_event
      → (chosen : Reference) × (w : RankedObservation) × (get_field name
            (choose_fields observations)
          ≡ some chosen)
        × IsChosen observations name chosen w
        × (is_manual item.source_kind ≡ true)
        × (is_manual w.source_kind ≡ true)
        × (leb_ℤ item.event_no w.event_no ≡ true)
  field_reason-earlier_manual_event m has h =
      let (below, kind) = earlier_is_latest h in
      let latest = latest_parser observations item m below in
      elim (Option-cases (get_field name (choose_fields observations))) [
        | inl n ↦
            let nobody =
              subst (IsWinner observations name) n (choose_fields-IsWinner observations name) in
            let gone : some r ≡ none = sym has ∙ nobody item m latest in cc
        | inr (chosen, e) ↦
            let (w, is_chosen) =
              subst (IsWinner observations name) e (choose_fields-IsWinner observations name) in
            let there : is_some (get_field name item.fields) ≡ true = rw has refl in
            let (also, later) = manual_order item w (is_chosen.greatest item m latest there) kind in
            (chosen, w, e, is_chosen, kind, also, later)
      ]
