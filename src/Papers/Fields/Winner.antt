-- ===== src/Papers/Fields/Winner.antt =====
-- papers/rules.py, `choose_fields`: the chosen candidate is that of the greatest observation.
use paper_radar.Prelude.{
  All, All-Among, All-keep, All-map, All-self, Among, Among-keep, Bool-cases, List, Option,
  Option-cases, String, [], ap, eq_iff, false, inl, inr, is_some, keep, none, refl, some, str_eq,
  subst, sym, true, ◌++◌, ◌∙◌, ◌∷◌, ◌≡◌,
}
use paper_radar.Prelude.Orders.{
  IsOrder, equal_all-IsOrder, leb-IsOrder, leb_ℤ-IsOrder, lex_by-IsOrder, text_leb-IsOrder,
}
use paper_radar.Papers.Fields.{
  FieldMap, RankedObservation, Reference, add_fields, add_winners, choose_fields, get_field,
  is_latest_parser, place_ranked, rank_order, set_default, sort_descending,
}

rank_order-IsOrder : IsOrder rank_order
unfolding rank_order
rank_order-IsOrder = lex_by-IsOrder _ _ _ leb-IsOrder (
    lex_by-IsOrder _ _ _ leb_ℤ-IsOrder (
      lex_by-IsOrder _ _ _ text_leb-IsOrder (
        lex_by-IsOrder _ _ _ text_leb-IsOrder (
          lex_by-IsOrder _ _ _ leb_ℤ-IsOrder (
            lex_by-IsOrder _ _ _ text_leb-IsOrder
              (lex_by-IsOrder _ _ _ text_leb-IsOrder equal_all-IsOrder))))))

-- The first of two references that is there.
abbrev or_else : Option Reference → Option Reference → Option Reference
or_else none y = y
or_else (some x) y = some x

or_else_assoc : (a b c : Option Reference) → or_else (or_else a b) c ≡ or_else a (or_else b c)
or_else_assoc none b c = refl
or_else_assoc (some a) b c = refl

or_else-none : (a : Option Reference) → or_else a none ≡ a
or_else-none none = refl
or_else-none (some a) = refl

get_field-append :
    (name : String) (w v : FieldMap)
    → get_field name (w ++ v) ≡ or_else (get_field name w) (get_field name v)
unfolding get_field
get_field-append name [] v = refl
get_field-append name ((key, r) ∷ w) v = elim (Bool-cases (str_eq key name)) [
  | inl e ↦ rw e refl
  | inr e ↦ rw (e, get_field-append name w v) refl
]

get_field-set_default :
    (name n : String) (r : Reference) (w : FieldMap)
    → get_field name (set_default w n r) ≡ or_else (get_field name w) (get_field name ((n, r) ∷ []))
unfolding set_default get_field
get_field-set_default name n r w = elim (Option-cases (get_field n w)) [
  | inl e ↦ rw e (get_field-append name w ((n, r) ∷ []))
  | inr (x, e) ↦ rw e (kept x e)
]
  where
    kept :
        (x : Reference)
        → get_field n w ≡ some x
        → get_field name w ≡ or_else (get_field name w) (get_field name ((n, r) ∷ []))
    kept x e = elim (Bool-cases (str_eq n name)) [
      | inl same ↦
          let found : get_field name w ≡ some x =
            subst (λ k. get_field k w ≡ some x) ((eq_iff n name).0 same) e in
          rw found refl
      | inr differs ↦ rw differs (sym (or_else-none (get_field name w)))
    ]

get_field-add_fields :
    (name : String) (w fs : FieldMap)
    → get_field name (add_fields w fs) ≡ or_else (get_field name w) (get_field name fs)
unfolding add_fields get_field
get_field-add_fields name w [] = sym (or_else-none (get_field name w))
get_field-add_fields name w ((n, r) ∷ fs) =
    get_field-add_fields name (set_default w n r) fs
    ∙ ap (λ x. or_else x (get_field name fs)) (get_field-set_default name n r w)
    ∙ or_else_assoc (get_field name w) (get_field name ((n, r) ∷ [])) (get_field name fs)
    ∙ ap (or_else (get_field name w)) (sym (get_field-append name ((n, r) ∷ []) fs))

-- The field of the first observation that has it.
abbrev first_field : String → List RankedObservation → Option Reference
first_field name [] = none
first_field name (o ∷ os) = or_else (get_field name o.fields) (first_field name os)

get_field-add_winners :
    (name : String) (w : FieldMap) (os : List RankedObservation)
    → get_field name (add_winners w os) ≡ or_else (get_field name w) (first_field name os)
unfolding add_winners
get_field-add_winners name w [] = sym (or_else-none (get_field name w))
get_field-add_winners name w (o ∷ os) =
    get_field-add_winners name (add_fields w o.fields) os
    ∙ ap (λ x. or_else x (first_field name os)) (get_field-add_fields name w o.fields)
    ∙ or_else_assoc (get_field name w) (get_field name o.fields) (first_field name os)

-- From the greatest to the least.
abbrev IsDescending : List RankedObservation → Type 0
IsDescending [] = Unit
IsDescending (x ∷ xs) = All (λ y. rank_order y x ≡ true) xs × IsDescending xs

All-place_ranked :
    (P : RankedObservation → Type 0) (x : RankedObservation) (ys : List RankedObservation)
    → P x
    → All P ys
    → All P (place_ranked x ys)
unfolding place_ranked
All-place_ranked P x [] p h = (p, tt)
All-place_ranked P x (y ∷ ys) p h = elim (Bool-cases (rank_order y x)) [
  | inl e ↦ rw e (p, h)
  | inr e ↦ rw e (h.0, All-place_ranked P x ys p h.1)
]

All-sort_descending :
    (P : RankedObservation → Type 0) (xs : List RankedObservation)
    → All P xs
    → All P (sort_descending xs)
unfolding sort_descending
All-sort_descending P [] h = tt
All-sort_descending P (x ∷ xs) h = All-place_ranked P x _ h.0 (All-sort_descending P xs h.1)

place_ranked-IsDescending :
    (x : RankedObservation) (ys : List RankedObservation)
    → IsDescending ys
    → IsDescending (place_ranked x ys)
unfolding place_ranked
place_ranked-IsDescending x [] h = (tt, tt)
place_ranked-IsDescending x (y ∷ ys) h = elim (Bool-cases (rank_order y x)) [
  | inl e ↦ rw e ((e, All-map _ _ ys (λ z le. rank_order-IsOrder.trans z y x le e) h.0), h)
  | inr e ↦ rw e (All-place_ranked _ x ys (other e) h.0, place_ranked-IsDescending x ys h.1)
]
  where
    other : rank_order y x ≡ false → rank_order x y ≡ true
    other e = elim (rank_order-IsOrder.total x y) [ inl a ↦ a | inr b ↦ cc ]

sort_descending-IsDescending : (xs : List RankedObservation) → IsDescending (sort_descending xs)
unfolding sort_descending
sort_descending-IsDescending [] = tt
sort_descending-IsDescending (x ∷ xs) =
    place_ranked-IsDescending x _ (sort_descending-IsDescending xs)

-- What holds of all that are sorted, holds of all.
All-place_ranked_back :
    (P : RankedObservation → Type 0) (x : RankedObservation) (ys : List RankedObservation)
    → All P (place_ranked x ys)
    → P x × All P ys
unfolding place_ranked
All-place_ranked_back P x [] h = h
All-place_ranked_back P x (y ∷ ys) h = elim (Bool-cases (rank_order y x)) [
  | inl e ↦ let h' : P x × All P (y ∷ ys) = rw e at h in h'
  | inr e ↦
      let h' : P y × All P (place_ranked x ys) = rw e at h in
      let (p, rest) = All-place_ranked_back P x ys h'.1 in (p, (h'.0, rest))
]

All-sort_descending_back :
    (P : RankedObservation → Type 0) (xs : List RankedObservation)
    → All P (sort_descending xs)
    → All P xs
unfolding sort_descending
All-sort_descending_back P [] h = tt
All-sort_descending_back P (x ∷ xs) h =
    let (p, rest) = All-place_ranked_back P x (sort_descending xs) h in
    (p, All-sort_descending_back P xs rest)

abbrev IsGreatest : String → List RankedObservation → Option Reference → Type 0
IsGreatest name xs none = All (λ (o : RankedObservation). get_field name o.fields ≡ none) xs
IsGreatest name xs (some r) =
    (item : RankedObservation) × Among item xs
    × (get_field name item.fields ≡ some r)
    × All
        (λ (o : RankedObservation).
          is_some (get_field name o.fields) ≡ true → rank_order o item ≡ true)
        xs

first_field-IsGreatest :
    (name : String) (xs : List RankedObservation)
    → IsDescending xs
    → IsGreatest name xs (first_field name xs)
first_field-IsGreatest name [] h = tt
first_field-IsGreatest name (x ∷ xs) h = elim (Option-cases (get_field name x.fields)) [
  | inl e ↦ rw e (later e (first_field name xs) (first_field-IsGreatest name xs h.1))
  | inr (r, e) ↦ rw e (x, inl refl, e, ((λ _. itself), All-map _ _ xs (λ o le _. le) h.0))
]
  where
    itself : rank_order x x ≡ true
    itself = elim (rank_order-IsOrder.total x x) [ inl a ↦ a | inr b ↦ b ]

    later :
        get_field name x.fields ≡ none
        → (o : Option Reference) → IsGreatest name xs o
        → IsGreatest name (x ∷ xs) o
    later e none l = (e, l)
    later e (some r) (item, m, has, le) = (
      item,
      inr m,
      has,
      ((λ s. let s' : is_some {A = Reference} none ≡ true = rw e at s in cc), le),
    )

-- The reference is that of an observation with the latest parser of its key, of which none that has
-- the field is greater.
pub record IsChosen (observations : List RankedObservation) (name : String) (r : Reference)
    (item : RankedObservation) : Type 0 where
  pub among : Among item observations
  pub current_parser : is_latest_parser observations item ≡ true
  pub has : get_field name item.fields ≡ some r
  pub greatest :
      (o : RankedObservation)
      → Among o observations
      → is_latest_parser observations o ≡ true
      → is_some (get_field name o.fields) ≡ true
      → rank_order o item ≡ true

abbrev pub IsWinner : List RankedObservation → String → Option Reference → Type 0
IsWinner observations name none =
    (o : RankedObservation)
    → Among o observations
    → is_latest_parser observations o ≡ true
    → get_field name o.fields ≡ none
IsWinner observations name (some r) = (item : RankedObservation) × IsChosen observations name r item

-- The chosen reference of a field is that of the greatest observation with the latest parser of its
-- key that has the field; none is chosen exactly where no such observation has the field.
pub choose_fields-IsWinner :
    (observations : List RankedObservation) (name : String)
    → IsWinner observations name (get_field name (choose_fields observations))
unfolding choose_fields get_field
choose_fields-IsWinner observations name =
    let current = keep (is_latest_parser observations) observations in
    let sorted = sort_descending current in
    let chosen : get_field name (add_winners [] sorted) ≡ first_field name sorted =
      get_field-add_winners name [] sorted in
    subst (IsWinner observations name) (sym chosen) (
      winner (first_field name sorted)
        (first_field-IsGreatest name sorted (sort_descending-IsDescending current)))
  where
    sorted : List RankedObservation
    sorted = sort_descending (keep (is_latest_parser observations) observations)

    at_all :
        (P : RankedObservation → Type 0)
        → All P sorted
        → (o : RankedObservation) → Among o observations
        → is_latest_parser observations o ≡ true
        → P o
    at_all P h o m latest =
        All-Among (λ x. is_latest_parser observations x ≡ true → P x) observations o
          (All-keep P (is_latest_parser observations) observations (All-sort_descending_back P _ h))
          m latest

    known :
        (o : RankedObservation)
        → Among o sorted
        → Among o observations × (is_latest_parser observations o ≡ true)
    known o m =
        All-Among (λ x. Among x observations × (is_latest_parser observations x ≡ true)) sorted o
          (All-sort_descending _ (keep (is_latest_parser observations) observations) (
            All-map _ _ _ (λ x. Among-keep (is_latest_parser observations) observations x)
              (All-self _)))
          m

    winner : (o : Option Reference) → IsGreatest name sorted o → IsWinner observations name o
    winner none h = at_all (λ x. get_field name x.fields ≡ none) h
    winner (some r) (item, m, has, le) =
        let (among, latest) = known item m in
        (
          item,
          record {
            among = among;
            current_parser = latest;
            has = has;
            greatest =
                at_all (λ x. is_some (get_field name x.fields) ≡ true → rank_order x item ≡ true)
                  le;
          },
        )
