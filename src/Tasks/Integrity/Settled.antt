-- ===== src/Tasks/Integrity/Settled.antt =====
-- screening_tasks/: renewals and settlements keep what the stored attempts must satisfy.
use paper_radar.Prelude.{
  Bool, Bool-cases, Option, String, and_first, and_second, any, ap, arith, false, get_last?, inl,
  inr, is_none, is_some, leb, leb→le, ltb, none, not, refl, some, str_eq, subst, sym, true, ℕ, ◌&&◌,
  ◌+◌, ◌||◌, ◌≡◌, ◌≤◌,
}
use paper_radar.Prelude.Results.{>>=-eq-ok, ok, ok_injective, raise_if, ◌>>=◌}
use paper_radar.Tasks.Ledger.{
  AttemptRow, Rows, Success, has_success, invalid_clock, invalid_credential, lease_time,
  read_attempts, replace_last,
}
use paper_radar.Tasks.Rules.{Clock, TaskStatus, derive_status, lease_expiry, utc_now}
use paper_radar.Tasks.Service.{
  has_expired, is_abandoned, reclaim, reclaim_transaction, recover_abandoned, recover_attempt,
  renew, renew_last, renew_transaction, require_attempt_time,
}
use paper_radar.Tasks.Integrity.{validate_row}
use paper_radar.Tasks.Integrity.Replaced.{IsValid, replace_last-IsValid}
use paper_radar.Tasks.Integrity.Kept.{
  commit-IsValid, lease_length, not_raised, read_same, recover_attempt-Recovered,
}

pub is_some-none {ℓ} : {A : Type ℓ} (o : Option A) → is_some o ≡ false → o ≡ none
is_some-none none h = refl
is_some-none (some a) h = cc

renewed_row :
    (row : AttemptRow) (expires : ℕ)
    → leb (row.claimed_at + lease_time) expires ≡ true
    → row.failure ≡ none
    → validate_row (record row { expires_at = some expires }) ≡ true
unfolding validate_row
renewed_row row expires t n = rw n (go row.success t)
  where
    go :
        (s : Option Success)
        → leb (row.claimed_at + lease_time) expires ≡ true
        → (not (is_some s && false) && (leb (row.claimed_at + lease_time) expires && true)) ≡ true
    go none t = rw t refl
    go (some s) t = rw t refl

longer :
    (claimed now expires : ℕ)
    → ltb now claimed ≡ false
    → leb (now + lease_time) expires ≡ true
    → leb (claimed + lease_time) expires ≡ true
longer claimed now expires t l = ground arith

or_left : (a b c : Bool) → (a || b || c) ≡ false → b ≡ false
or_left a b c h = ground arith

renew_last-IsValid :
    {D : String → Type 0} (handle : String) (clock : Clock) (o : Option AttemptRow)
    (rows after : Rows) (a : ℕ)
    → IsValid D rows
    → get_last? rows ≡ o
    → renew_last handle clock o rows ≡ ok (after, a)
    → IsValid D after
unfolding renew_last
renew_last-IsValid handle clock none rows after a v l h = cc
renew_last-IsValid handle clock (some current) rows after a v l h =
    let (_, open_one, h₁) =
      >>=-eq-ok
        (raise_if
          (not (str_eq current.renewal_sha256 handle)
            || is_some current.failure
            || has_success current)
          invalid_credential)
        _ h in
    let (now, _, h₂) = >>=-eq-ok (utc_now clock) _ h₁ in
    let (_, timed, h₃) = >>=-eq-ok (require_attempt_time current now) _ h₂ in
    let (expires, lease, h₄) = >>=-eq-ok (lease_expiry now) _ h₃ in
    let unsettled : current.failure ≡ none = is_some-none current.failure (
      or_left (not (str_eq current.renewal_sha256 handle)) (is_some current.failure)
        (has_success current) (not_raised _ invalid_credential open_one)) in
    let new : AttemptRow = record current { expires_at = some expires } in
    let same : replace_last new rows ≡ after = ap (λ (x : Rows × ℕ). x.0) (ok_injective h₄) in
    subst (IsValid _) same (
      replace_last-IsValid new current (refl, refl, refl, refl) rows l
        (renewed_row current expires
          (longer current.claimed_at now expires (not_raised _ invalid_clock timed)
            (lease_length now expires lease))
          unsettled)
        v)

pub renew-IsValid :
    {D : String → Type 0} (handle : String) (clock : Clock) (rows : Rows)
    → IsValid D rows
    → IsValid D (renew handle clock rows).0
unfolding renew_transaction
renew-IsValid handle clock rows v =
    commit-IsValid rows (renew_transaction handle clock rows) v (λ after a h.
      let (_, _, h₁) =
        >>=-eq-ok
          (raise_if (not (any (λ row. str_eq row.renewal_sha256 handle) rows)) invalid_credential) _
          h in
      let (existing, read, h₂) = >>=-eq-ok (read_attempts rows) _ h₁ in
      renew_last-IsValid handle clock (get_last? existing) existing after a
        (subst (IsValid _) (sym (read_same rows existing read)) v) refl h₂)

abandoned_open :
    (now : ℕ) (row : AttemptRow)
    → is_abandoned now row ≡ true
    → (row.success ≡ none) × (has_expired now row.expires_at ≡ true)
unfolding is_abandoned
abandoned_open now row h =
    let both = and_first (is_none row.failure && not (has_success row)) _ h in
    (
      is_some-none row.success
          (not_true (has_success row) (and_second (is_none row.failure) _ both)),
      and_second (is_none row.failure && not (has_success row)) _ h,
    )
  where
    not_true : (b : Bool) → not b ≡ true → b ≡ false
    not_true true h = cc
    not_true false h = refl

expired_at :
    (now : ℕ) (e : Option ℕ) (expires : ℕ)
    → has_expired now e ≡ true
    → e ≡ some expires
    → expires ≤ now
expired_at now none expires b h = cc
expired_at now (some t) expires b h = let same : t ≡ expires = cc in rw (sym same) (leb→le t now b)

pub recovered_again :
    {D : String → Type 0} (row : AttemptRow) (now : ℕ) (rows after : Rows)
    → IsValid D rows
    → get_last? rows ≡ some row
    → row.success ≡ none
    → has_expired now row.expires_at ≡ true
    → (recover_attempt row now rows >>= read_attempts) ≡ ok after
    → IsValid D after
recovered_again row now rows after v l s x h =
    let (written, write, read) = >>=-eq-ok (recover_attempt row now rows) _ h in
    subst (IsValid _) (sym (read_same written after read))
      (recover_attempt-Recovered row now written rows v l s
        (λ expires e. expired_at now row.expires_at expires x e) write).0

recover_abandoned-IsValid :
    {D : String → Type 0} (o : Option AttemptRow) (now : ℕ) (rows after : Rows)
    → IsValid D rows
    → get_last? rows ≡ o
    → recover_abandoned now o rows ≡ ok after
    → IsValid D after
unfolding recover_abandoned
recover_abandoned-IsValid none now rows after v l h = subst (IsValid _) (ok_injective h) v
recover_abandoned-IsValid (some row) now rows after v l h =
    elim (Bool-cases (is_abandoned now row)) [
      | inl t ↦
          let h' : (recover_attempt row now rows >>= read_attempts) ≡ ok after = rw t at h in
          let (s, x) = abandoned_open now row t in recovered_again row now rows after v l s x h'
      | inr t ↦ let h' : ok rows ≡ ok after = rw t at h in subst (IsValid _) (ok_injective h') v
    ]

pub reclaim-IsValid :
    {D : String → Type 0} (clock : Clock) (rows : Rows)
    → IsValid D rows
    → IsValid D (reclaim clock rows).0
unfolding reclaim_transaction
reclaim-IsValid clock rows v = commit-IsValid rows (reclaim_transaction clock rows) v (λ after a h.
    let (now, _, h₁) = >>=-eq-ok (utc_now clock) _ h in
    let (existing, read, h₂) = >>=-eq-ok (read_attempts rows) _ h₁ in
    let (written, write, h₃) =
      >>=-eq-ok (recover_abandoned now (get_last? existing) existing) _ h₂ in
    let (_, _, h₄) = >>=-eq-ok (derive_status written now) _ h₃ in
    let same : written ≡ after = ap (λ (x : Rows × TaskStatus). x.0) (ok_injective h₄) in
    subst (IsValid _) same (
      recover_abandoned-IsValid (get_last? existing) now existing written
        (subst (IsValid _) (sym (read_same rows existing read)) v) refl write))
