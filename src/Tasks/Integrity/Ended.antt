-- ===== src/Tasks/Integrity/Ended.antt =====
-- screening_tasks/: reports of failures keep what the stored attempts must satisfy.
use paper_radar.Prelude.{
  ==_iff, Bool, Bool-cases, Option, Option-cases, String, ap, arith, false, get_last?, inl, inr,
  leb, ltb, none, not, refl, some, str_eq, subst, sym, true, ℕ, ◌∙◌, ◌≡◌,
}
use paper_radar.Prelude.Results.{>>=-eq-ok, ok, ok_injective, problem, raise_if, ◌>>=◌}
use paper_radar.Tasks.Ledger.{
  AttemptRow, Failure, FailureKind, FailureOrigin, Rows, exception, executor, executor_error,
  has_success, invalid_clock, invalid_credential, invalid_failure, read_attempts, replace_last,
  settlement_conflict,
}
use paper_radar.Tasks.Rules.{Clock, is_executor_failure, utc_now}
use paper_radar.Tasks.Service.{require_attempt_time}
use paper_radar.Tasks.Settlement.{
  Holder, credential_attempt, fail, fail_transaction, find_attempt, is_latest, replay_failure,
  reported, write_failure,
}
use paper_radar.Tasks.Integrity.{validate_failure}
use paper_radar.Tasks.Integrity.Replaced.{IsValid, last-valid, replace_last-IsValid}
use paper_radar.Tasks.Integrity.Added.{find-last}
use paper_radar.Tasks.Integrity.Kept.{commit-IsValid, failed_row, not_raised, read_same}
use paper_radar.Tasks.Integrity.Settled.{is_some-none}

-- A credential is that of a row, which is the last one if it is said to be the latest.
unfoldable pub IsFound : Rows → AttemptRow × Bool → Type 0
IsFound rows found = found.1 ≡ true → get_last? rows ≡ some found.0

last_found :
    {D : String → Type 0} (k : ℕ) (rows : Rows) (row : AttemptRow) (o : Option AttemptRow)
    → IsValid D rows
    → find_attempt k rows ≡ some row
    → get_last? rows ≡ o
    → is_latest row o ≡ true
    → get_last? rows ≡ some row
last_found k rows row none v f l t = cc
last_found k rows row (some last) v f l t =
    l
    ∙ ap some (
        sym
          (find-last 1 k rows row last v.counted f l ((==_iff row.attempt_no last.attempt_no).0 t)))

pub credential-IsFound :
    {D : String → Type 0} (holder : Holder) (rows : Rows) (found : AttemptRow × Bool)
    → IsValid D rows
    → credential_attempt holder rows ≡ ok found
    → IsFound rows found
unfolding credential_attempt IsFound
credential-IsFound holder rows found v h =
    let (existing, read, h₁) = >>=-eq-ok (read_attempts rows) _ h in
    let same : existing ≡ rows = read_same rows existing read in
    subst (λ r. found.1 ≡ true → get_last? r ≡ some found.0) same
      (elim (Option-cases (find_attempt holder.attempt_no existing)) [
        | inl nothing ↦ let h₂ : problem invalid_credential ≡ ok found = rw nothing at h₁ in cc
        | inr (row, it) ↦
            elim (Bool-cases (str_eq row.credential_sha256 holder.credential_sha256)) [
              | inr wrong ↦
                  let h₂ : problem invalid_credential ≡ ok found = rw (it, wrong) at h₁ in cc
              | inl right ↦
                  let h₂ : ok (row, is_latest row (get_last? existing)) ≡ ok found =
                    rw (it, right) at h₁ in
                  subst (λ (x : AttemptRow × Bool). x.1 ≡ true → get_last? existing ≡ some x.0)
                    (ok_injective h₂)
                    (last_found holder.attempt_no existing row (get_last? existing)
                      (subst (IsValid _) (sym same) v) it refl)
            ]
      ])

pub write_failure-IsValid :
    {D : String → Type 0} (row : AttemptRow) (latest : Bool) (f : ℕ → Failure) (clock : Clock)
    (rows after : Rows) (a : Failure)
    → IsValid D rows
    → (latest ≡ true → get_last? rows ≡ some row)
    → row.success ≡ none
    → ((claimed now expires : ℕ)
        → leb claimed now ≡ true
        → validate_failure claimed expires (f now) ≡ true)
    → write_failure row latest f clock rows ≡ ok (after, a)
    → IsValid D after
unfolding write_failure
write_failure-IsValid row latest f clock rows after a v l s k h =
    let (_, first, h₁) = >>=-eq-ok (raise_if (not latest) invalid_credential) _ h in
    let (now, _, h₂) = >>=-eq-ok (utc_now clock) _ h₁ in
    let (_, timed, h₃) = >>=-eq-ok (require_attempt_time row now) _ h₂ in
    let last = l (not-false latest (not_raised _ invalid_credential first)) in
    let time = in_time now row.claimed_at (not_raised _ invalid_clock timed) in
    let new : AttemptRow = record row { failure = some (f now) } in
    let same : replace_last new rows ≡ after = ap (λ (x : Rows × Failure). x.0) (ok_injective h₃) in
    subst (IsValid _) same (
      replace_last-IsValid new row (refl, refl, refl, refl) rows last
        (failed_row row (f now) (last-valid rows row v last) s
          (λ expires e. k row.claimed_at now expires time))
        v)
  where
    not-false : (b : Bool) → not b ≡ false → b ≡ true
    not-false true h = refl
    not-false false h = cc

    in_time : (now claimed : ℕ) → ltb now claimed ≡ false → leb claimed now ≡ true
    in_time now claimed h = ground arith

-- Who reports a failure: the executor, or the service for an executor that raised.
pub data Reporter : Type 0 where
  returned : FailureKind → Reporter
  raised : Reporter

abbrev pub kind_by : Reporter → FailureKind
kind_by (returned kind) = kind
kind_by raised = executor_error

abbrev pub origin_by : Reporter → FailureOrigin
origin_by (returned kind) = executor
origin_by raised = exception

reported_valid :
    (by : Reporter) (claimed now expires : ℕ)
    → is_executor_failure (kind_by by) ≡ true
    → leb claimed now ≡ true
    → validate_failure claimed expires (reported (kind_by by) (origin_by by) now) ≡ true
unfolding validate_failure is_executor_failure
reported_valid (returned kind) claimed now expires x t = ground arith
reported_valid raised claimed now expires x t = ground arith

pub fail-IsValid :
    {D : String → Type 0} (holder : Holder) (by : Reporter) (clock : Clock) (rows : Rows)
    → IsValid D rows
    → IsValid D (fail holder (kind_by by) (origin_by by) clock rows).0
unfolding fail_transaction IsFound
fail-IsValid holder by clock rows v =
    commit-IsValid rows (fail_transaction holder (kind_by by) (origin_by by) clock rows) v
      (λ after a h.
        let (_, supported, h₁) =
          >>=-eq-ok (raise_if (not (is_executor_failure (kind_by by))) invalid_failure) _ h in
        let (found, by_credential, h₂) = >>=-eq-ok (credential_attempt holder rows) _ h₁ in
        let (_, unsettled, h₃) =
          >>=-eq-ok (raise_if (has_success found.0) settlement_conflict) _ h₂ in
        elim (Option-cases found.0.failure) [
          | inr (f, settled) ↦
              let h₄ : (replay_failure (kind_by by) (origin_by by) f >>= λ receipt.
              ok (rows, receipt))
                  ≡ ok (after, a) =
                rw settled at h₃ in
              let (_, _, last) = >>=-eq-ok (replay_failure (kind_by by) (origin_by by) f) _ h₄ in
              let same : rows ≡ after = ap (λ (x : Rows × Failure). x.0) (ok_injective last) in
              subst (IsValid _) same v
          | inl open_one ↦
              let h₄ : write_failure found.0 found.1 (reported (kind_by by) (origin_by by)) clock
                    rows
                  ≡ ok (after, a) =
                rw open_one at h₃ in
              write_failure-IsValid found.0 found.1 (reported (kind_by by) (origin_by by)) clock
                rows after a v (credential-IsFound holder rows found v by_credential)
                (is_some-none found.0.success (not_raised _ settlement_conflict unsettled))
                (λ claimed now expires t.
                  reported_valid by claimed now expires
                    (supported_kind (is_executor_failure (kind_by by))
                      (not_raised _ invalid_failure supported))
                    t)
                h₄
        ])
  where
    supported_kind : (b : Bool) → not b ≡ false → b ≡ true
    supported_kind true h = refl
    supported_kind false h = cc
