-- ===== src/Tasks/Integrity/Replaced.antt =====
-- screening_tasks/attempt_integrity.py: rows that are replaced, added and found again.
use paper_radar.Prelude.{
  All, Bool, List, Option, String, [], all, and_first, and_second, any, ap, arith, false, get_last?,
  is_some, length, none, not, refl, some, str_eq, subst, suc, true, ℕ, ◌&&◌, ◌==◌, ◌∷◌, ◌≡◌, ◌≤◌,
}
use paper_radar.Tasks.Ledger.{AttemptRow, Rows, Success, has_success, numbered, replace_last}
use paper_radar.Tasks.Integrity.{
  is_digest, settled_by, validate_digests, validate_order, validate_pairs, validate_row,
}

-- The digests of each row are new beside those of the rows before it.
unfoldable pub distinct_digests : List String → List String → Rows → Bool
distinct_digests credentials renewals [] = true
distinct_digests credentials renewals (row ∷ rows) =
    not (any (str_eq row.credential_sha256) credentials)
    && not (any (str_eq row.renewal_sha256) renewals)
    && distinct_digests (row.credential_sha256 ∷ credentials) (row.renewal_sha256 ∷ renewals) rows

-- What the check looks at, where `D` holds of every digest.
pub record IsValid (D : String → Type 0) (rows : Rows) : Type 0 where
  pub formed : All (λ row. D row.credential_sha256 × D row.renewal_sha256) rows
  pub distinct : distinct_digests [] [] rows ≡ true
  pub each : All (λ row. validate_row row ≡ true) rows
  pub counted : numbered 1 rows ≡ true
  pub bounded : length rows ≤ 2
  pub ordered : validate_pairs rows ≡ true

pub distinct_cons :
    (credentials renewals : List String) (row : AttemptRow) (rows : Rows)
    → distinct_digests credentials renewals (row ∷ rows) ≡ true
    → (any (str_eq row.credential_sha256) credentials ≡ false)
      × (any (str_eq row.renewal_sha256) renewals ≡ false)
      × (distinct_digests (row.credential_sha256 ∷ credentials) (row.renewal_sha256 ∷ renewals) rows
          ≡ true)
unfolding distinct_digests
distinct_cons credentials renewals row rows d = ground arith

All-all : (p : AttemptRow → Bool) (rows : Rows) → All (λ row. p row ≡ true) rows → all p rows ≡ true
All-all p [] h = refl
All-all p (row ∷ rows) h = rw (h.0, All-all p rows h.1)

abbrev pub AreDigests : String → Type 0
AreDigests text = is_digest text ≡ true

digests_valid :
    (credentials renewals : List String) (rows : Rows)
    → All (λ row. AreDigests row.credential_sha256 × AreDigests row.renewal_sha256) rows
    → distinct_digests credentials renewals rows ≡ true
    → validate_digests credentials renewals rows ≡ true
unfolding validate_digests distinct_digests
digests_valid credentials renewals [] f d = refl
digests_valid credentials renewals (row ∷ rows) f d =
    let (new_one, new_other, later) = distinct_cons credentials renewals row rows d in
    rw (f.0.0, new_one, f.0.1, new_other)
      (digests_valid (row.credential_sha256 ∷ credentials) (row.renewal_sha256 ∷ renewals) rows f.1
        later)

pub IsValid-validate_rows :
    (rows : Rows)
    → IsValid AreDigests rows
    → (validate_digests [] [] rows ≡ true)
      × (all validate_row rows ≡ true)
      × (validate_order rows ≡ true)
unfolding validate_order
IsValid-validate_rows rows v =
    let counted = v.counted in
    let bounded = v.bounded in
    let ordered = v.ordered in
    (digests_valid [] [] rows v.formed v.distinct, All-all validate_row rows v.each, ground arith)

-- The last row, and what is known of it.
pub last-valid :
    {D : String → Type 0} (rows : Rows) (row : AttemptRow)
    → IsValid D rows
    → get_last? rows ≡ some row
    → validate_row row ≡ true
last-valid rows row v h = go rows row v.each h
  where
    go :
        (rows : Rows) (row : AttemptRow)
        → All (λ r. validate_row r ≡ true) rows
        → get_last? rows ≡ some row
        → validate_row row ≡ true
    go [] row a h = cc
    go (r ∷ []) row a h = let same : r ≡ row = cc in subst (λ x. validate_row x ≡ true) same a.0
    go (r ∷ s ∷ rows) row a h = go (s ∷ rows) row a.1 h

-- A row with the same key and time of claim takes the place of the last one.
module _ (new row : AttemptRow)
    (same : (new.attempt_no ≡ row.attempt_no)
      × (new.claimed_at ≡ row.claimed_at)
      × (new.credential_sha256 ≡ row.credential_sha256)
      × (new.renewal_sha256 ≡ row.renewal_sha256)) where
  replace-formed :
      (D : String → Type 0) (rows : Rows)
      → get_last? rows ≡ some row
      → All (λ r. D r.credential_sha256 × D r.renewal_sha256) rows
      → All (λ r. D r.credential_sha256 × D r.renewal_sha256) (replace_last new rows)
  unfolding replace_last
  replace-formed D [] l a = tt
  replace-formed D (r ∷ []) l a =
      let same_row : r ≡ row = cc in
      let e : r.credential_sha256 ≡ new.credential_sha256 = rw (same_row, same.2) refl in
      let f : r.renewal_sha256 ≡ new.renewal_sha256 = rw (same_row, same.3) refl in
      ((subst D e a.0.0, subst D f a.0.1), tt)
  replace-formed D (r ∷ s ∷ rows) l a = (a.0, replace-formed D (s ∷ rows) l a.1)

  replace-distinct :
      (credentials renewals : List String) (rows : Rows)
      → get_last? rows ≡ some row
      → distinct_digests credentials renewals rows ≡ true
      → distinct_digests credentials renewals (replace_last new rows) ≡ true
  unfolding replace_last distinct_digests
  replace-distinct credentials renewals [] l d = refl
  replace-distinct credentials renewals (r ∷ []) l d =
      let same_row : r ≡ row = cc in rw (same.2, same.3) (rw same_row at d)
  replace-distinct credentials renewals (r ∷ s ∷ rows) l d =
      let (new_one, new_other, later) = distinct_cons credentials renewals r (s ∷ rows) d in
      rw (new_one, new_other)
        (replace-distinct (r.credential_sha256 ∷ credentials) (r.renewal_sha256 ∷ renewals)
          (s ∷ rows) l later)

  replace-each :
      (rows : Rows)
      → validate_row new ≡ true
      → All (λ r. validate_row r ≡ true) rows
      → All (λ r. validate_row r ≡ true) (replace_last new rows)
  unfolding replace_last
  replace-each [] n a = tt
  replace-each (r ∷ []) n a = (n, tt)
  replace-each (r ∷ s ∷ rows) n a = (a.0, replace-each (s ∷ rows) n a.1)

  replace-numbered :
      (n : ℕ) (rows : Rows)
      → get_last? rows ≡ some row
      → numbered n rows ≡ true
      → numbered n (replace_last new rows) ≡ true
  unfolding replace_last numbered
  replace-numbered n [] l h = refl
  replace-numbered n (r ∷ []) l h = let same_row : r ≡ row = cc in rw same.0 (rw same_row at h)
  replace-numbered n (r ∷ s ∷ rows) l h =
      let rest = replace-numbered (suc n) (s ∷ rows) l (and_second (r.attempt_no == n) _ h) in
      rw (and_first (r.attempt_no == n) _ h) rest

  pub replace-length : (rows : Rows) → length (replace_last new rows) ≡ length rows
  unfolding replace_last
  replace-length [] = refl
  replace-length (r ∷ []) = refl
  replace-length (r ∷ s ∷ rows) = ap suc (replace-length (s ∷ rows))

  replace-ordered :
      (rows : Rows)
      → get_last? rows ≡ some row
      → validate_pairs rows ≡ true
      → validate_pairs (replace_last new rows) ≡ true
  unfolding replace_last validate_pairs
  replace-ordered [] l h = refl
  replace-ordered (r ∷ []) l h = refl
  replace-ordered (r ∷ s ∷ []) l h = let same_row : s ≡ row = cc in rw same.1 (rw same_row at h)
  replace-ordered (r ∷ s ∷ t ∷ rows) l h =
      let rest =
        replace-ordered (s ∷ t ∷ rows) l (and_second (settled_by s.claimed_at r.failure) _ h) in
      rw (and_first (settled_by s.claimed_at r.failure) _ h) rest

  pub replace_last-IsValid :
      {D : String → Type 0} (rows : Rows)
      → get_last? rows ≡ some row
      → validate_row new ≡ true
      → IsValid D rows
      → IsValid D (replace_last new rows)
  replace_last-IsValid rows l n v = record {
    formed = replace-formed _ rows l v.formed;
    distinct = replace-distinct [] [] rows l v.distinct;
    each = replace-each rows n v.each;
    counted = replace-numbered 1 rows l v.counted;
    bounded = rw (replace-length rows) v.bounded;
    ordered = replace-ordered rows l v.ordered;
  }

pub last-replace :
    (new row : AttemptRow) (rows : Rows)
    → get_last? rows ≡ some row
    → get_last? (replace_last new rows) ≡ some new
unfolding replace_last
last-replace new row [] l = cc
last-replace new row (r ∷ []) l = refl
last-replace new row (r ∷ s ∷ []) l = refl
last-replace new row (r ∷ s ∷ t ∷ rows) l = last-replace new row (s ∷ t ∷ rows) l

pub last_without :
    (rows : Rows) (row : AttemptRow)
    → any has_success rows ≡ false
    → get_last? rows ≡ some row
    → row.success ≡ none
last_without [] row n l = cc
last_without (r ∷ []) row n l =
    let same : r ≡ row = cc in
    subst (λ (x : AttemptRow). x.success ≡ none) same (absent r.success (ground arith))
  where
    absent : (s : Option Success) → is_some s ≡ false → s ≡ none
    absent none h = refl
    absent (some s) h = cc
last_without (r ∷ s ∷ rows) row n l = last_without (s ∷ rows) row (ground arith) l
