-- ===== src/Tasks/Integrity/Added.antt =====
-- screening_tasks/: a row that is added after the last one, and a row that is found by its number.
use paper_radar.Prelude.{
  ==_iff, All, Bool, Bool-cases, List, Option, String, [], and_first, and_second, any, ap, arith,
  false, get_last?, inl, inr, length, length-append, none, refl, some, str_eq, suc, sym, true, ℕ,
  ◌&&◌, ◌++◌, ◌+◌, ◌==◌, ◌∙◌, ◌∷◌, ◌≡◌, ◌≢◌, ◌≤◌,
}
use paper_radar.Tasks.Ledger.{AttemptRow, Rows, numbered}
use paper_radar.Tasks.Service.{has_digest}
use paper_radar.Tasks.Settlement.{find_attempt}
use paper_radar.Tasks.Integrity.{settled_by, validate_pairs, validate_row}
use paper_radar.Tasks.Integrity.Replaced.{IsValid, distinct_cons, distinct_digests}

abbrev pub follows : ℕ → Option AttemptRow → Bool
follows time none = true
follows time (some row) = settled_by time row.failure

module _ (new : AttemptRow) where
  add-each :
      (rows : Rows)
      → validate_row new ≡ true
      → All (λ r. validate_row r ≡ true) rows
      → All (λ r. validate_row r ≡ true) (rows ++ new ∷ [])
  add-each [] n a = (n, tt)
  add-each (r ∷ rows) n a = (a.0, add-each rows n a.1)

  add-numbered :
      (n : ℕ) (rows : Rows)
      → new.attempt_no ≡ n + length rows
      → numbered n rows ≡ true
      → numbered n (rows ++ new ∷ []) ≡ true
  unfolding numbered
  add-numbered n [] e h = ground arith
  add-numbered n (r ∷ rows) e h =
      let rest =
        add-numbered (suc n) rows (omega (arith, e)) (and_second (r.attempt_no == n) _ h) in
      rw (and_first (r.attempt_no == n) _ h) rest

  add-ordered :
      (rows : Rows)
      → follows new.claimed_at (get_last? rows) ≡ true
      → validate_pairs rows ≡ true
      → validate_pairs (rows ++ new ∷ []) ≡ true
  unfolding validate_pairs
  add-ordered [] f h = refl
  add-ordered (r ∷ []) f h = rw f refl
  add-ordered (r ∷ s ∷ rows) f h =
      let rest = add-ordered (s ∷ rows) f (and_second (settled_by s.claimed_at r.failure) _ h) in
      rw (and_first (settled_by s.claimed_at r.failure) _ h) rest

  add-formed :
      (D : String → Type 0) (rows : Rows)
      → D new.credential_sha256 × D new.renewal_sha256
      → All (λ r. D r.credential_sha256 × D r.renewal_sha256) rows
      → All (λ r. D r.credential_sha256 × D r.renewal_sha256) (rows ++ new ∷ [])
  add-formed D [] n a = (n, tt)
  add-formed D (r ∷ rows) n a = (a.0, add-formed D rows n a.1)

  add-distinct :
      (credentials renewals : List String) (rows : Rows)
      → any (str_eq new.credential_sha256) credentials ≡ false
      → any (str_eq new.renewal_sha256) renewals ≡ false
      → has_digest new rows ≡ false
      → distinct_digests credentials renewals rows ≡ true
      → distinct_digests credentials renewals (rows ++ new ∷ []) ≡ true
  unfolding distinct_digests has_digest
  add-distinct credentials renewals [] c r n d = rw (c, r) refl
  add-distinct credentials renewals (row ∷ rows) c r n d =
      let other_one : str_eq new.credential_sha256 row.credential_sha256 ≡ false = ground arith in
      let other : str_eq new.renewal_sha256 row.renewal_sha256 ≡ false = ground arith in
      let free : has_digest new rows ≡ false = ground arith in
      let (new_one, new_other, later) = distinct_cons credentials renewals row rows d in
      rw (new_one, new_other)
        (add-distinct (row.credential_sha256 ∷ credentials) (row.renewal_sha256 ∷ renewals) rows
          (rw (other_one, c) refl) (rw (other, r) refl) free later)

  pub append-IsValid :
      {D : String → Type 0} (rows : Rows)
      → D new.credential_sha256 × D new.renewal_sha256
      → has_digest new rows ≡ false
      → new.attempt_no ≡ suc (length rows)
      → suc (length rows) ≤ 2
      → follows new.claimed_at (get_last? rows) ≡ true
      → validate_row new ≡ true
      → IsValid D rows
      → IsValid D (rows ++ new ∷ [])
  append-IsValid rows g u e b f n v = record {
    formed = add-formed _ rows g v.formed;
    distinct = add-distinct [] [] rows refl refl u v.distinct;
    each = add-each rows n v.each;
    counted = add-numbered 1 rows (omega (arith, e)) v.counted;
    bounded = omega (arith, b, length-append rows (new ∷ []));
    ordered = add-ordered rows f v.ordered;
  }

-- The last number of a numbered list is not below its first.
last_number :
    (n : ℕ) (rows : Rows) (last : AttemptRow)
    → numbered n rows ≡ true
    → get_last? rows ≡ some last
    → n ≤ last.attempt_no
unfolding numbered
last_number n [] last h l = cc
last_number n (r ∷ []) last h l =
    let same : r ≡ last = cc in
    let h' : (last.attempt_no == n && true) ≡ true = rw same at h in ground arith
last_number n (r ∷ s ∷ rows) last h l =
    let rest = last_number (suc n) (s ∷ rows) last (and_second (r.attempt_no == n) _ h) l in
    omega (arith, rest)

find_number :
    (k : ℕ) (rows : Rows) (row : AttemptRow) → find_attempt k rows ≡ some row → row.attempt_no ≡ k
unfolding find_attempt
find_number k [] row f = cc
find_number k (r ∷ rows) row f = elim (Bool-cases (r.attempt_no == k)) [
  | inl e ↦
      let f' : some r ≡ some row = rw e at f in
      let same : r ≡ row = cc in
      ap (λ (x : AttemptRow). x.attempt_no) (sym same) ∙ (==_iff r.attempt_no k).0 e
  | inr e ↦ let f' : find_attempt k rows ≡ some row = rw e at f in find_number k rows row f'
]

-- A row that is found by the number of the last one is the last one.
pub find-last :
    (n k : ℕ) (rows : Rows) (row last : AttemptRow)
    → numbered n rows ≡ true
    → find_attempt k rows ≡ some row
    → get_last? rows ≡ some last
    → row.attempt_no ≡ last.attempt_no
    → row ≡ last
unfolding find_attempt numbered
find-last n k [] row last h f l e = cc
find-last n k (r ∷ []) row last h f l e = elim (Bool-cases (r.attempt_no == k)) [
  | inl t ↦ let f' : some r ≡ some row = rw t at f in cc
  | inr t ↦ let f' : none ≡ some row = rw t at f in cc
]
find-last n k (r ∷ s ∷ rows) row last h f l e = elim (Bool-cases (r.attempt_no == k)) [
  | inl t ↦
      let f' : some r ≡ some row = rw t at f in
      let same : r ≡ row = cc in
      let number : r.attempt_no ≡ row.attempt_no = ap (λ (x : AttemptRow). x.attempt_no) same in
      let first = (==_iff r.attempt_no n).0 (and_first (r.attempt_no == n) _ h) in
      let later = last_number (suc n) (s ∷ rows) last (and_second (r.attempt_no == n) _ h) l in
      absurd (apart n r.attempt_no row.attempt_no last.attempt_no first number later e)
  | inr t ↦
      let f' : find_attempt k (s ∷ rows) ≡ some row = rw t at f in
      find-last (suc n) k (s ∷ rows) row last (and_second (r.attempt_no == n) _ h) f' l e
]
  where
    apart : (n a b c : ℕ) → a ≡ n → a ≡ b → suc n ≤ c → b ≢ c
    apart n a b c p q r s = omega (arith, p, q, r, s)
