-- ===== src/Supply/Retention/Protected.antt =====
-- pi_supply/retention.py: which installs are protected.
use paper_radar.Prelude.{
  Bool, Bool-cases, List, Option, Option-cases, String, [], any, ap, append-eq-nil, append-nil_nil,
  append_assoc, arith, eq_iff, eq_refl, false, if◌then◌else◌, inl, inr, keep, length, ltb,
  map-append, none, not, refl, reverse, reverse-append, reverse-cons, some, str_eq, subst, suc, sym,
  take, true, when_nil_iff, zero, ℕ, ◌++◌, ◌||◌, ◌↔◌, ◌∙◌, ◌∷◌, ◌≡◌, ◌≢◌,
}
use paper_radar.Prelude.Int.{ℤ}
use paper_radar.Supply.Retention.{
  Activation, InstallInstance, Observation, ProtectionReason, SupplyRecord, acceptance_of,
  activation_reasons, check_reasons, distinct, get_reasons, has_text, idle, ids_of, latest_of,
  observation_reasons, protection_reasons, reasons_of, reasons_of_installs, reasons_of_records,
  retained_of, retention_protection, scope_reasons,
}

str_eq_sym : (a b : String) → str_eq a b ≡ str_eq b a
str_eq_sym a b = elim (Bool-cases (str_eq a b)) [
  | inl e ↦ e ∙ sym ((eq_iff b a).1 (sym ((eq_iff a b).0 e)))
  | inr e ↦ elim (Bool-cases (str_eq b a)) [
    | inl e' ↦ (eq_iff a b).1 (sym ((eq_iff b a).0 e')) ∙ sym e'
    | inr e' ↦ e ∙ sym e'
  ]
]

-- Taking the others of a text leaves what differs from it.
has_text-keep :
    (x w : String) (ys : List String)
    → str_eq x w ≡ false
    → has_text x (keep (λ y. not (str_eq w y)) ys) ≡ has_text x ys
has_text-keep x w [] h = refl
has_text-keep x w (y ∷ ys) h = elim (Bool-cases (str_eq w y)) [
  | inl e ↦
      let differs : str_eq x y ≡ false = subst (λ z. str_eq x z ≡ false) ((eq_iff w y).0 e) h in
      rw (e, differs, has_text-keep x w ys h)
  | inr e ↦ rw (e, has_text-keep x w ys h)
]

has_text-distinct : (x : String) (xs : List String) → has_text x (distinct xs) ≡ has_text x xs
unfolding distinct
has_text-distinct x [] = refl
has_text-distinct x (w ∷ xs) = elim (Bool-cases (str_eq x w)) [
  | inl e ↦ rw e
  | inr e ↦ rw (e, has_text-keep x w (distinct xs) e, has_text-distinct x xs)
]

keep-append :
    {A : Type 0} (p : A → Bool) (xs ys : List A) → keep p (xs ++ ys) ≡ keep p xs ++ keep p ys
keep-append p [] ys = refl
keep-append p (x ∷ xs) ys = elim (Bool-cases (p x)) [
  | inl e ↦ rw (e, keep-append p xs ys)
  | inr e ↦ rw (e, keep-append p xs ys)
]

distinct-append :
    (x : String) (xs ys : List String)
    → has_text x xs ≡ false
    → (rest : List String) × (distinct (xs ++ x ∷ ys) ≡ distinct xs ++ x ∷ rest)
unfolding distinct
distinct-append x [] ys h = (keep (λ y. not (str_eq x y)) (distinct ys), refl)
distinct-append x (w ∷ xs) ys h =
    let (rest, same) = distinct-append x xs ys (ground arith) in
    let differs : str_eq w x ≡ false = str_eq_sym w x ∙ ground arith in
    (
      keep (λ y. not (str_eq w y)) rest,
      rw (same, keep-append (λ y. not (str_eq w y)) (distinct xs) (x ∷ rest), differs),
    )

has_text-take :
    (x : String) (n : ℕ) (ds rest : List String)
    → has_text x ds ≡ false
    → has_text x (take n (ds ++ x ∷ rest)) ≡ ltb (length ds) n
has_text-take x zero [] rest h = ground arith
has_text-take x zero (d ∷ ds) rest h = ground arith
has_text-take x (suc n) [] rest h = rw (eq_refl x) (ground arith)
has_text-take x (suc n) (d ∷ ds) rest h =
    let differs : str_eq x d ≡ false = ground arith in
    let later : has_text x ds ≡ false = ground arith in
    rw differs (has_text-take x n ds rest later ∙ ground arith)

ids_of-reverse :
    (older newer : List Activation) (a : Activation)
    → ids_of (reverse (older ++ a ∷ newer))
      ≡ ids_of (reverse newer) ++ a.install_id ∷ ids_of (reverse older)
ids_of-reverse older newer a =
    ap ids_of (
      reverse-append older (a ∷ newer)
      ∙ ap (λ xs. xs ++ reverse older) (reverse-cons a newer)
      ∙ append_assoc (reverse newer) (a ∷ []) (reverse older))
    ∙ map-append (λ (x : Activation). x.install_id) (reverse newer) (a ∷ reverse older)

-- An install that has been activated and not since is retained exactly when fewer than four different
-- installs have been activated since.
pub retained_of-since :
    (older newer : List Activation) (a : Activation)
    → has_text a.install_id (ids_of (reverse newer)) ≡ false
    → has_text a.install_id (retained_of (older ++ a ∷ newer))
      ≡ ltb (length (distinct (ids_of (reverse newer)))) 4
unfolding retained_of
retained_of-since older newer a h =
    let (rest, same) =
      distinct-append a.install_id (ids_of (reverse newer)) (ids_of (reverse older)) h in
    let equal = ap distinct (ids_of-reverse older newer a) ∙ same in
    subst
      (λ xs. has_text a.install_id (take 4 xs) ≡ ltb (length (distinct (ids_of (reverse newer)))) 4)
      (sym equal)
      (has_text-take a.install_id 4 (distinct (ids_of (reverse newer))) rest
        (has_text-distinct a.install_id (ids_of (reverse newer)) ∙ h))

-- An install of this id is registered.
abbrev pub is_registered_in : String → List InstallInstance → Bool
is_registered_in identity is = any (λ (i : InstallInstance). str_eq i.install_id identity) is

abbrev pub is_registered : String → List SupplyRecord → Bool
is_registered identity records =
    any (λ (r : SupplyRecord). is_registered_in identity r.installs) records

reasons_of_installs-get :
    (f : String → List ProtectionReason) (identity : String) (is : List InstallInstance)
    (result : List (String × List ProtectionReason))
    → get_reasons identity (reasons_of_installs f is result)
      ≡ (if is_registered_in identity is then some (f identity) else get_reasons identity result)
unfolding reasons_of_installs get_reasons
reasons_of_installs-get f identity [] result = refl
reasons_of_installs-get f identity (i ∷ is) result =
    let later = reasons_of_installs-get f identity is ((i.install_id, f i.install_id) ∷ result) in
    elim (Bool-cases (str_eq i.install_id identity)) [
      | inl e ↦
          let same : some (f i.install_id) ≡ some (f identity) =
            ap (λ x. some (f x)) ((eq_iff i.install_id identity).0 e) in
          later ∙ rw e (either (is_registered_in identity is) (f identity) (f i.install_id) same)
      | inr e ↦ later ∙ rw e refl
    ]
  where
    either :
        (b : Bool) (x y : List ProtectionReason)
        → some y ≡ some x
        → (if b then some x else some y) ≡ some x
    either true x y h = refl
    either false x y h = h

reasons_of_records-get :
    (f : String → List ProtectionReason) (identity : String) (rs : List SupplyRecord)
    (result : List (String × List ProtectionReason))
    → get_reasons identity (reasons_of_records f rs result)
      ≡ (if is_registered identity rs then some (f identity) else get_reasons identity result)
unfolding reasons_of_records
reasons_of_records-get f identity [] result = refl
reasons_of_records-get f identity (r ∷ rs) result =
    reasons_of_records-get f identity rs (reasons_of_installs f r.installs result)
    ∙ ap (λ o. if is_registered identity rs then some (f identity) else o)
        (reasons_of_installs-get f identity r.installs result)
    ∙ either (is_registered identity rs) (is_registered_in identity r.installs)
  where
    either :
        (b c : Bool)
        → (if b
            then some (f identity)
            else (if c then some (f identity) else get_reasons identity result))
          ≡ (if c || b then some (f identity) else get_reasons identity result)
    either true true = refl
    either true false = refl
    either false true = refl
    either false false = refl

observation_reasons-nil :
    (o : Option Observation)
    → (observation_reasons o ≡ [])
      ↔ ((o ≢ some Observation.in_flight) × (o ≢ some Observation.unknown))
observation_reasons-nil none = (λ h. (λ e. cc, λ e. cc), λ h. refl)
observation_reasons-nil (some idle) = (λ h. (λ e. cc, λ e. cc), λ h. refl)
observation_reasons-nil (some Observation.in_flight) = (λ h. cc, λ h. absurd (h.0 refl))
observation_reasons-nil (some Observation.unknown) = (λ h. cc, λ h. absurd (h.1 refl))

check_reasons-nil :
    (latest : String → Option String) (identity : String) (xs : List (String × ProtectionReason))
    → (check_reasons latest identity xs ≡ [])
      ↔ (has_text identity (acceptance_of latest xs) ≡ false)
unfolding check_reasons acceptance_of
check_reasons-nil latest identity [] = (λ _. refl, λ _. refl)
check_reasons-nil latest identity ((scope, reason) ∷ xs) =
    let rest = check_reasons-nil latest identity xs in
    elim (Option-cases (latest scope)) [
      | inl n ↦ rw n rest
      | inr (i, has) ↦ elim (Bool-cases (str_eq i identity)) [
        | inl e ↦
            let e' : str_eq identity i ≡ true = str_eq_sym identity i ∙ e in
            rw (has, e, e') (λ h. cc, λ h. cc)
        | inr e ↦
            let e' : str_eq identity i ≡ false = str_eq_sym identity i ∙ e in rw (has, e, e') rest
      ]
    ]

module _ (fromisoformat : String → ℤ) (records : List SupplyRecord) (history : List Activation)
    (observations : String → Option Observation) where
  reasons_of-nil :
      (identity : String)
      → (reasons_of fromisoformat records history observations identity ≡ []) ↔ (
          (has_text identity (retained_of history) ≡ false)
          × (has_text identity (acceptance_of (latest_of fromisoformat records) scope_reasons)
              ≡ false)
          × (observations identity ≢ some Observation.in_flight)
          × (observations identity ≢ some Observation.unknown))
  unfolding reasons_of activation_reasons
  reasons_of-nil identity =
      let checks = check_reasons-nil (latest_of fromisoformat records) identity scope_reasons in
      let seen = observation_reasons-nil (observations identity) in
      let active = when_nil_iff (has_text identity (retained_of history)) _ in
      (
        (λ h.
            let (h₁, o) = append-eq-nil _ (observation_reasons (observations identity)) h in
            let (a, c) = append-eq-nil (activation_reasons history identity) _ h₁ in
            (active.0 a, checks.0 c, (seen.0 o).0, (seen.0 o).1)),
        (λ h.
            append-nil_nil _ _
              (append-nil_nil (activation_reasons history identity) _ (active.1 h.0) (checks.1 h.1))
              (seen.1 (h.2, h.3))),
      )

  -- An install is under no protection exactly when it is registered, is neither retained nor accepted,
  -- and has not been observed in flight or as unknown.
  pub protection_reasons-nil_iff :
      (identity : String)
      → (get_reasons identity (protection_reasons fromisoformat records history observations)
          ≡ some [])
        ↔ ((is_registered identity records ≡ true)
            × (has_text identity
                  (retention_protection fromisoformat records history).retained_install_ids
                ≡ false)
            × (has_text identity
                  (retention_protection fromisoformat records history).acceptance_install_ids
                ≡ false)
            × (observations identity ≢ some Observation.in_flight)
            × (observations identity ≢ some Observation.unknown))
  unfolding protection_reasons retention_protection get_reasons
  protection_reasons-nil_iff identity =
      let read =
        reasons_of_records-get (reasons_of fromisoformat records history observations) identity
          records [] in
      let clear = reasons_of-nil identity in
      let accepted =
        has_text-distinct identity
          (acceptance_of (latest_of fromisoformat records) scope_reasons) in
      elim (Bool-cases (is_registered identity records)) [
        | inl e ↦
            let read' : get_reasons identity
                  (protection_reasons fromisoformat records history observations)
                ≡ some (reasons_of fromisoformat records history observations identity) =
              rw e at read in
            (
              (λ h.
                  let c = clear.0 (some_injective (sym read' ∙ h)) in
                  (e, c.0, accepted ∙ c.1, c.2, c.3)),
              (λ h. read' ∙ ap some (clear.1 (h.1, sym accepted ∙ h.2, h.3, h.4))),
            )
        | inr e ↦
            let read' : get_reasons identity
                  (protection_reasons fromisoformat records history observations)
                ≡ none =
              rw e at read in
            ((λ h. let h' = sym read' ∙ h in cc), (λ h. let h' = sym e ∙ h.0 in cc))
      ]
    where
      some_injective : {xs ys : List ProtectionReason} → some xs ≡ some ys → xs ≡ ys
      some_injective h = cc
