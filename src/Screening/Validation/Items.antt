-- ===== src/Screening/Validation/Items.antt =====
-- screening/validation.py: when the loops over lists find no issue.
use paper_radar.Prelude.{
  All, Bool, Bool-cases, List, Option-cases, String, [], any, ap, append-eq-nil, append-nil_nil,
  arith, false, inl, inr, is_some, none, refl, some, str_eq, true, when_nil_iff, ℕ, ◌++◌, ◌+◌, ◌||◌,
  ◌↔◌, ◌∷◌, ◌≡◌,
}
use paper_radar.Screening.Outputs.{ExcerptKind, at_item, business_rule, issue}
use paper_radar.Screening.Validation.{get_kind, item_issues, scan_excerpts}

-- No two items are equal.
abbrev pub IsDistinct : {A : Type 0} → (A → A → Bool) → List A → Type 0
IsDistinct eq [] = Unit
IsDistinct eq (x ∷ xs) = All (λ y. eq y x ≡ false) xs × IsDistinct eq xs

pub or_false : (a b : Bool) → (a || b) ≡ false → (a ≡ false) × (b ≡ false)
or_false true b h = cc
or_false false b h = (refl, h)

module _ {A : Type 0} (eq : A → A → Bool) where
  -- No item has been seen.
  abbrev pub IsUnseen : List A → List A → Type 0
  IsUnseen seen xs = All (λ x. any (eq x) seen ≡ false) xs

  IsUnseen-first :
      (x : A) (seen xs : List A)
      → IsUnseen (x ∷ seen) xs
      → All (λ y. eq y x ≡ false) xs × IsUnseen seen xs
  IsUnseen-first x seen [] h = (tt, tt)
  IsUnseen-first x seen (y ∷ xs) h =
      let (differs, unseen) = or_false (eq y x) (any (eq y) seen) h.0 in
      let (rest, others) = IsUnseen-first x seen xs h.1 in ((differs, rest), (unseen, others))

  IsUnseen-also :
      (x : A) (seen xs : List A)
      → All (λ y. eq y x ≡ false) xs
      → IsUnseen seen xs
      → IsUnseen (x ∷ seen) xs
  IsUnseen-also x seen [] d h = tt
  IsUnseen-also x seen (y ∷ xs) d h = (ground (arith, d.0, h.0), IsUnseen-also x seen xs d.1 h.1)

  item_issues-nil_from :
      (refuses : A → Bool) (field : String) (index : ℕ) (seen xs : List A)
      → (item_issues eq refuses field index seen xs ≡ [])
        ↔ (IsUnseen seen xs × IsDistinct eq xs × All (λ x. refuses x ≡ false) xs)
  unfolding item_issues
  item_issues-nil_from refuses field index seen [] = (λ h. (tt, tt, tt), λ h. refl)
  item_issues-nil_from refuses field index seen (x ∷ xs) =
      let rest = item_issues-nil_from refuses field (index + 1) (x ∷ seen) xs in
      let first =
        when_nil_iff (any (eq x) seen || refuses x) (issue (at_item field index) business_rule) in
      (
        (λ h.
            let (f, r) =
              append-eq-nil _ (item_issues eq refuses field (index + 1) (x ∷ seen) xs) h in
            let (unseen, fine) = or_false (any (eq x) seen) (refuses x) (first.0 f) in
            let (u, d, a) = rest.0 r in
            let (new, others) = IsUnseen-first x seen xs u in
            ((unseen, others), (new, d), (fine, a))),
        (λ h.
            append-nil_nil _ _ (first.1 (rw (h.0.0, h.2.0) refl))
              (rest.1 (IsUnseen-also x seen xs h.1.0 h.0.1, h.1.1, h.2.1))),
      )

  All-IsUnseen : (xs : List A) → IsUnseen [] xs
  All-IsUnseen [] = tt
  All-IsUnseen (x ∷ xs) = (refl, All-IsUnseen xs)

  pub item_issues-nil_iff :
      (refuses : A → Bool) (field : String) (xs : List A)
      → (item_issues eq refuses field 0 [] xs ≡ [])
        ↔ (IsDistinct eq xs × All (λ x. refuses x ≡ false) xs)
  item_issues-nil_iff refuses field xs =
      let all_of = item_issues-nil_from refuses field 0 [] xs in
      ((λ h. let (u, d, a) = all_of.0 h in (d, a)), (λ h. all_of.1 (All-IsUnseen xs, h.0, h.1)))

-- The kinds of the known excerpts.
abbrev pub known_kinds : List (String × ExcerptKind) → List String → List ExcerptKind
known_kinds kinds [] = []
known_kinds kinds (x ∷ xs) =
    elim (get_kind x kinds) [ none ↦ [] | some k ↦ k ∷ [] ] ++ known_kinds kinds xs

-- Every excerpt is new and known.
abbrev pub AreKnown : List (String × ExcerptKind) → List String → Type 0
AreKnown kinds xs = All (λ x. is_some (get_kind x kinds) ≡ true) xs

pub scan_excerpts-nil_from :
    (kinds : List (String × ExcerptKind)) (index : ℕ) (seen xs : List String)
    → ((scan_excerpts kinds index seen xs).issues ≡ [])
      ↔ (IsUnseen str_eq seen xs × IsDistinct str_eq xs × AreKnown kinds xs)
unfolding scan_excerpts
scan_excerpts-nil_from kinds index seen [] = (λ h. (tt, tt, tt), λ h. refl)
scan_excerpts-nil_from kinds index seen (x ∷ xs) =
    let rest = scan_excerpts-nil_from kinds (index + 1) (x ∷ seen) xs in
    elim (Bool-cases (any (str_eq x) seen)) [
      | inl e ↦ rw e (λ h. cc, λ h. cc)
      | inr e ↦ elim (Option-cases (get_kind x kinds)) [
        | inl n ↦ rw (e, n) (λ h. cc, λ h. cc)
        | inr (k, has) ↦
            rw (e, has)
              (
                (λ h.
                    let (u, d, a) = rest.0 h in
                    let (new, others) = IsUnseen-first str_eq x seen xs u in
                    ((refl, others), (new, d), (refl, a))),
                (λ h. rest.1 (IsUnseen-also str_eq x seen xs h.1.0 h.0.1, h.1.1, h.2.1)),
              )
      ]
    ]

pub scan_excerpts-nil_iff :
    (kinds : List (String × ExcerptKind)) (xs : List String)
    → ((scan_excerpts kinds 0 [] xs).issues ≡ []) ↔ (IsDistinct str_eq xs × AreKnown kinds xs)
scan_excerpts-nil_iff kinds xs =
    let all_of = scan_excerpts-nil_from kinds 0 [] xs in
    (
      (λ h. let (u, d, a) = all_of.0 h in (d, a)),
      (λ h. all_of.1 (All-IsUnseen str_eq xs, h.0, h.1)),
    )

-- A scan without an issue has found the kinds of all excerpts.
pub scan_excerpts-known_kinds :
    (kinds : List (String × ExcerptKind)) (index : ℕ) (seen xs : List String)
    → (scan_excerpts kinds index seen xs).issues ≡ []
    → ((scan_excerpts kinds index seen xs).has_unknown_excerpt ≡ false)
      × ((scan_excerpts kinds index seen xs).referenced_kinds ≡ known_kinds kinds xs)
unfolding scan_excerpts
scan_excerpts-known_kinds kinds index seen [] h = (refl, refl)
scan_excerpts-known_kinds kinds index seen (x ∷ xs) h = elim (Bool-cases (any (str_eq x) seen)) [
  | inl e ↦
      let h' : issue (at_item "excerpt_ids" index) business_rule
            ∷ (scan_excerpts kinds (index + 1) seen xs).issues
          ≡ [] =
        rw e at h in
      cc
  | inr e ↦ elim (Option-cases (get_kind x kinds)) [
    | inl n ↦
        let h' : issue (at_item "excerpt_ids" index) business_rule
              ∷ (scan_excerpts kinds (index + 1) (x ∷ seen) xs).issues
            ≡ [] =
          rw (e, n) at h in
        cc
    | inr (k, has) ↦
        let h' : (scan_excerpts kinds (index + 1) (x ∷ seen) xs).issues ≡ [] = rw (e, has) at h in
        let (u, same) = scan_excerpts-known_kinds kinds (index + 1) (x ∷ seen) xs h' in
        rw (e, has) (u, ap (λ ks. k ∷ ks) same)
  ]
]
