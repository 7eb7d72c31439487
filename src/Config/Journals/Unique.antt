-- ===== src/Config/Journals/Unique.antt =====
-- config/journals.py, `unique_identifiers`: no two journals share an identifier.
use paper_radar.Prelude.{
  All, All-map, All-zip_with, Bool, List, [], any, ap, arith, false, refl, true, ℕ, ◌++◌, ◌||◌, ◌↔◌,
  ◌∷◌, ◌≡◌,
}
use paper_radar.Prelude.Results.{>>=-eq-ok, Result, ok, ok_injective, raise_if, ◌>>◌}
use paper_radar.Config.Journals.{
  JournalEntry, JournalReason, check_identifiers, codes_eq, has_issn, identifiers,
  journal_identifiers_conflict, sort_journals, unique_identifiers,
}

-- The second journal has no identifier of the first.
abbrev pub IsApart : JournalEntry → JournalEntry → Type 0
IsApart a b = any (λ x. has_issn x (identifiers a)) (identifiers b) ≡ false

abbrev pub ArePairwiseApart : List JournalEntry → Type 0
ArePairwiseApart [] = Unit
ArePairwiseApart (j ∷ js) = All (IsApart j) js × ArePairwiseApart js

any-append :
    {A : Type 0} (p : A → Bool) (xs ys : List A) → any p (xs ++ ys) ≡ (any p xs || any p ys)
any-append p [] ys = refl
any-append p (x ∷ xs) ys = rw (any-append p xs ys) (or_assoc (p x) (any p xs) (any p ys))
  where
    or_assoc : (a b c : Bool) → (a || (b || c)) ≡ ((a || b) || c)
    or_assoc true b c = refl
    or_assoc false b c = refl

-- What has no identifier of two lists has none of their union.
any-has_issn-append :
    (xs ys zs : List (List ℕ))
    → (any (λ x. has_issn x (xs ++ ys)) zs ≡ false)
      ↔ ((any (λ x. has_issn x xs) zs ≡ false) × (any (λ x. has_issn x ys) zs ≡ false))
any-has_issn-append xs ys [] = (λ h. (refl, refl), λ h. refl)
any-has_issn-append xs ys (z ∷ zs) =
    let rest = any-has_issn-append xs ys zs in
    rw (any-append (codes_eq z) xs ys) (split _ _ _ _ _ rest)
  where
    split :
        (a b c d e : Bool)
        → (c ≡ false) ↔ ((d ≡ false) × (e ≡ false))
        → ((a || b) || c ≡ false) ↔ (((a || d) ≡ false) × ((b || e) ≡ false))
    split a b c d e h = ground (arith, h)

raise_if-ok_iff :
    (b : Bool) (m : Result JournalReason (Unit {0}))
    → ((raise_if b journal_identifiers_conflict >> m) ≡ ok tt) ↔ ((b ≡ false) × (m ≡ ok tt))
raise_if-ok_iff true m = (λ h. cc, λ h. cc)
raise_if-ok_iff false m = (λ h. (refl, h), λ h. h.1)

check_identifiers-ok_iff :
    (seen : List (List ℕ)) (js : List JournalEntry)
    → (check_identifiers seen js ≡ ok tt) ↔ (
        All (λ (j : JournalEntry). any (λ x. has_issn x seen) (identifiers j) ≡ false) js
        × ArePairwiseApart js)
unfolding check_identifiers
check_identifiers-ok_iff seen [] = (λ h. (tt, tt), λ h. refl)
check_identifiers-ok_iff seen (j ∷ js) =
    let rest = check_identifiers-ok_iff (identifiers j ++ seen) js in
    let first =
      raise_if-ok_iff (any (λ x. has_issn x seen) (identifiers j))
        (check_identifiers (identifiers j ++ seen) js) in
    (
      (λ h.
          let (e, m) = first.0 h in
          let (a, p) = rest.0 m in
          let both =
            All-map _ _ js (λ k. (any-has_issn-append (identifiers j) seen (identifiers k)).0) a in
          ((e, All-map _ _ js (λ k b. b.1) both), (All-map _ _ js (λ k b. b.0) both, p))),
      (λ h. first.1 (
        h.0.0,
        rest.1 (
          All-zip_with (IsApart j) _ _ js
              (λ k a s. (any-has_issn-append (identifiers j) seen (identifiers k)).1 (a, s)) h.1.0
              h.0.1,
          h.1.1,
        ),
      )),
    )

-- Journals are accepted exactly when no two of them share an identifier; they are returned in the
-- order of `sort_journals`.
pub unique_identifiers-ok_iff :
    (js sorted : List JournalEntry)
    → (unique_identifiers js ≡ ok sorted) ↔ (ArePairwiseApart js × (sort_journals js ≡ sorted))
unfolding unique_identifiers
unique_identifiers-ok_iff js sorted =
    let checked = check_identifiers-ok_iff [] js in
    (
      (λ h.
          let (t, c, r) = >>=-eq-ok (check_identifiers [] js) _ h in
          ((checked.0 c).1, ok_injective r)),
      (λ h. rw (checked.1 (none_seen js, h.0)) (ap ok h.1)),
    )
  where
    none_of : (xs : List (List ℕ)) → any (λ x. has_issn x []) xs ≡ false
    none_of [] = refl
    none_of (x ∷ xs) = none_of xs

    none_seen :
        (js : List JournalEntry)
        → All (λ (j : JournalEntry). any (λ x. has_issn x []) (identifiers j) ≡ false) js
    none_seen [] = tt
    none_seen (j ∷ js) = (none_of (identifiers j), none_seen js)
